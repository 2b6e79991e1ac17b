-- ===== src/Socket/Ping.antt =====
-- src/socket/ping.rs: the loop that pings a silent server and gives up on it. Times are
-- `Duration`s, in nanoseconds.
pub mod Silence
use mwck_rs.Prelude.{
  ℕ, ◌+◌, ◌-◌, ◌*◌, ◌^◌, Bool, true, false, not, ◌&&◌, Option, none, some, List, [], ◌∷◌, ltb, leb,
  if◌then◌else◌,
}

abbrev pub from_secs : ℕ → ℕ
from_secs n = n * 10 ^ 9

-- `pings` and `disconnects` count what was sent on the two channels.
pub record Pinger : Type 0 where
  pub waiting_for_pong : Bool
  pub is_running : Bool
  pub pings : ℕ
  pub disconnects : ℕ

unfoldable pub start : Pinger
start = record { waiting_for_pong = false; is_running = true; pings = 0; disconnects = 0 }

-- What a round finds: whether `try_recv` has a disconnect signal, the time of the last response
-- unless it is locked, and the time now.
pub record Tick : Type 0 where
  pub is_disconnected : Bool
  pub last_response : Option ℕ
  pub now : ℕ

-- The conditions on the time since the last response; `saturating_sub` is `-`.
unfoldable pub check : ℕ → Pinger → Pinger
check silence m =
    if ltb (from_secs 60) silence
    then record m { disconnects = m.disconnects + 1; is_running = false }
    else (if not m.waiting_for_pong && ltb (from_secs 30) silence
        then record m { pings = m.pings + 1; waiting_for_pong = true }
        else (if m.waiting_for_pong && leb silence (from_secs 30)
            then record m { waiting_for_pong = false }
            else m))

unfoldable pub check_response : Option ℕ → ℕ → Pinger → Pinger
check_response none now m = m
check_response (some last_response_time) now m = check (now - last_response_time) m

-- One round of the loop, up to its sleep of a second.
unfoldable pub step : Tick → Pinger → Pinger
step t m =
    if t.is_disconnected
    then record m { is_running = false }
    else check_response t.last_response t.now m

unfoldable pub run : List Tick → Pinger → Pinger
run [] m = m
run (t ∷ ts) m = let rest = run ts (step t m) in if m.is_running then rest else m
