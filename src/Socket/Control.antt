-- ===== src/Socket/Control.antt =====
-- src/socket/control.rs: the loop that turns control events into websocket messages.
pub mod Subscription
pub mod Membership
use mwck_rs.Prelude.{
  ℕ, ◌+◌, Bool, true, false, not, ◌&&◌, ◌||◌, List, [], ◌∷◌, ◌++◌, ◌==◌, if◌then◌else◌, any, select,
}
use mwck_rs.Esplora.{ScriptBuf}
use mwck_rs.Event.{ControlEvent}

-- What is written to the websocket: the two texts, and the closing handshake. The text of `track`
-- is the JSON object with the scriptpubkeys.
pub data Frame : Type 0 where
  ping_action close_handshake : Frame
  track : List ScriptBuf → Frame

-- `disconnects` and `closes` count the signals sent on the two channels; the loop has ended when it
-- no longer runs.
pub record Manager : Type 0 where
  pub active_spks : List ScriptBuf
  pub has_close_channel : Bool
  pub frames : List Frame
  pub closes : ℕ
  pub disconnects : ℕ
  pub is_running : Bool

unfoldable pub start : Manager
start = record {
  active_spks = [];
  has_close_channel = true;
  frames = [];
  closes = 0;
  disconnects = 0;
  is_running = true;
}

abbrev pub contains : ScriptBuf → List ScriptBuf → Bool
contains k spks = any (λ spk. spk == k) spks

-- The loop of `Subscribe`: the set, and whether an insertion changed it.
unfoldable pub insert_all : List ScriptBuf → List ScriptBuf → Bool → List ScriptBuf × Bool
insert_all [] active changed = (active, changed)
insert_all (spk ∷ spks) active changed =
    insert_all spks (if contains spk active then active else spk ∷ active)
      (changed || not (contains spk active))

-- The loop of `Unsubscribe`.
unfoldable pub remove_all : List ScriptBuf → List ScriptBuf → Bool → List ScriptBuf × Bool
remove_all [] active changed = (active, changed)
remove_all (spk ∷ spks) active changed =
    remove_all spks (select (λ k. not (k == spk)) active) (changed || contains spk active)

-- `if changed && update_scriptpubkeys_subscription(...).await.is_err()`, on the new set; `accepts`
-- is whether the socket takes the message.
unfoldable pub update_subscription : Bool → List ScriptBuf × Bool → Manager → Manager
update_subscription accepts (active, changed) m =
    let m' = record m { active_spks = active } in
    if changed
    then (if accepts
        then record m' { frames = m'.frames ++ track active ∷ [] }
        else record m' { disconnects = m'.disconnects + 1; is_running = false })
    else m'

-- The `match` on a control event. Errors of `close` and of the ping are dropped.
unfoldable pub handle : Bool → ControlEvent → Manager → Manager
handle accepts ControlEvent.close m =
    let m' = (if accepts then record m { frames = m.frames ++ close_handshake ∷ [] } else m) in
    if m'.has_close_channel
    then record m' { has_close_channel = false; closes = m'.closes + 1 }
    else m'
handle accepts ControlEvent.ping m =
    if accepts then record m { frames = m.frames ++ ping_action ∷ [] } else m
handle accepts (ControlEvent.subscribe spks) m =
    update_subscription accepts (insert_all spks m.active_spks false) m
handle accepts (ControlEvent.unsubscribe spks) m =
    update_subscription accepts (remove_all spks m.active_spks false) m

-- What the `select!` of a round takes: a disconnect signal, or a control event, with whether the
-- socket accepts what is sent on it.
pub data Input : Type 0 where
  disconnect : Input
  control : Bool → ControlEvent → Input

unfoldable pub step : Input → Manager → Manager
step disconnect m = record m { is_running = false }
step (control accepts event) m = handle accepts event m

-- The loop, on the inputs as they come. Those after its end are not taken.
unfoldable pub run : List Input → Manager → Manager
run [] m = m
run (i ∷ is) m = let next = run is (step i m) in if m.is_running then next else m
