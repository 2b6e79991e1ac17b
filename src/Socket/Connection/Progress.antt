-- ===== src/Socket/Connection/Progress.antt =====
-- When the connection's state machine connects, and when it ends.
use mwck_rs.Prelude.{
  ◌≡◌, refl, sym, subst, ◌∙◌, ap, Bool, true, false, ◌&&◌, List, [], ◌∷◌, ◌++◌, if◌then◌else◌,
}
use mwck_rs.Event.{WebsocketEvent}
use mwck_rs.Socket.Connection.{
  Status, Effect, notified, Connection, Signal, close_signal, Round, no_close_channel,
  no_disconnect_channel, thread_failed, Outcome, continues, ended, panicked, emit, update, connect,
  on_connecting, join_threads, on_disconnected, on_signal, on_status, step, run,
}
use mwck_rs.Socket.Connection.Runs.{has_channels, IsLive}

-- A round that reaches the server and whose threads end.
abbrev pub good : Signal → Round
good g = record { reaches = true; joins = true; signal = g }

-- Good rounds, as many as lead from a status to a connection.
unfoldable pub good_rounds : Status → Signal → List Round
good_rounds Status.ready g = good g ∷ good g ∷ []
good_rounds Status.connecting g = good g ∷ []
good_rounds Status.disconnected g = good g ∷ good g ∷ good g ∷ []
good_rounds Status.connected g = []
good_rounds Status.offline g = []

unfoldable pub is_wanted : Status → Bool
is_wanted Status.ready = true
is_wanted Status.connecting = true
is_wanted Status.disconnected = true
is_wanted Status.connected = true
is_wanted Status.offline = false

IsConnectedAfter : List Round → Outcome → Type 0
IsConnectedAfter rs o = (m : Connection) × (run rs o ≡ continues m) × (m.status ≡ Status.connected)

from_step :
    (s : Status) (r : Round) (rs : List Round) (m : Connection)
    → m.status ≡ s
    → IsConnectedAfter rs (on_status s r m)
    → IsConnectedAfter (r ∷ rs) (continues m)
unfolding run step IsConnectedAfter
from_step s r rs m e c = subst (λ t. IsConnectedAfter rs (on_status t r m)) (sym e) c

connecting_lem :
    (g : Signal) (m : Connection)
    → m.status ≡ Status.connecting
    → IsConnectedAfter (good g ∷ []) (continues m)
unfolding run on_status on_connecting connect emit update IsConnectedAfter
connecting_lem g m e = from_step Status.connecting (good g) [] m e (_, refl, refl)

ready_lem :
    (g : Signal) (m : Connection)
    → m.status ≡ Status.ready
    → IsConnectedAfter (good g ∷ good g ∷ []) (continues m)
unfolding on_status update
ready_lem g m e =
    from_step Status.ready (good g) (good g ∷ []) m e
      (connecting_lem g (update Status.connecting m) refl)

-- Waiting for threads that end is no obstacle.
joining_lem :
    (P : Outcome → Type 0) (handles : Bool) (o : Outcome)
    → P o
    → P (if handles then (if true then o else panicked thread_failed) else o)
joining_lem P true o c = c
joining_lem P false o c = c

taking_lem :
    (P : Outcome → Type 0) (a b : Bool) (o : Outcome)
    → (a && b) ≡ true
    → P o
    → P (if a then (if b then o else panicked no_disconnect_channel) else panicked no_close_channel)
taking_lem P true true o h l = l
taking_lem P true false o h l = cc
taking_lem P false b o h l = cc

disconnected_lem :
    (g : Signal) (m : Connection)
    → m.status ≡ Status.disconnected
    → IsConnectedAfter (good g ∷ good g ∷ good g ∷ []) (continues m)
unfolding on_status update on_disconnected
disconnected_lem g m e =
    from_step Status.disconnected (good g) (good g ∷ good g ∷ []) m e
      (joining_lem (IsConnectedAfter (good g ∷ good g ∷ [])) m.has_handles _ (ready_lem g _ refl))

good_rounds_lem :
    (s : Status) (g : Signal) (m : Connection)
    → m.status ≡ s
    → is_wanted s ≡ true
    → IsConnectedAfter (good_rounds s g) (continues m)
unfolding good_rounds is_wanted run IsConnectedAfter
good_rounds_lem Status.ready g m e h = ready_lem g m e
good_rounds_lem Status.connecting g m e h = connecting_lem g m e
good_rounds_lem Status.disconnected g m e h = disconnected_lem g m e
good_rounds_lem Status.connected g m e h = (m, refl, e)
good_rounds_lem Status.offline g m e h = cc

-- From any status but `Offline`, as many rounds as lead to `Connected`, in which the server is
-- reached and the threads of the last connection end without a panic, end in `Connected`.
pub run-good_rounds :
    (g : Signal) (m : Connection)
    → is_wanted m.status ≡ true
    → (m' : Connection) × (run (good_rounds m.status g) (continues m) ≡ continues m')
      × (m'.status ≡ Status.connected)
unfolding IsConnectedAfter
run-good_rounds g m h = good_rounds_lem m.status g m refl h

-- The loop has ended, and the last it did was to notify `Offline`.
pub IsGone : Outcome → Type 0
IsGone o =
    (es : List Effect) × ((m : Connection) × (o ≡ ended m)
      × (m.effects ≡ es ++ notified WebsocketEvent.offline ∷ []))

IsGone-offline :
    (g : Signal) (m : Connection)
    → m.status ≡ Status.offline
    → IsGone (run (good g ∷ []) (continues m))
unfolding run step on_status emit IsGone
IsGone-offline g m e =
    subst (λ t. IsGone (on_status t (good g) m)) (sym e)
      (joining_lem IsGone m.has_handles _ ((join_threads m).effects, (_, refl, refl)))

-- A connected manager of a run that takes the close signal leaves its loop in the next round, if
-- the threads of the connection end without a panic; the last it does is to notify `Offline`.
pub run-close_signal :
    (joins reaches : Bool) (g : Signal) (m : Connection)
    → IsLive m
    → m.status ≡ Status.connected
    → IsGone (
        run
          (record { reaches = reaches; joins = joins; signal = close_signal } ∷ good g ∷ [])
          (continues m))
unfolding run step on_status on_signal emit update has_channels
run-close_signal joins reaches g m l e =
    let r : Round = record { reaches = reaches; joins = joins; signal = close_signal } in
    subst (λ t. IsGone (run (good g ∷ []) (on_status t r m))) (sym e)
      (taking_lem (λ o. IsGone (run (good g ∷ []) o)) m.has_close_receiver m.has_disconnect_channel
        _ (sym (ap (λ s. has_channels s m) e) ∙ l.channels) (IsGone-offline g _ refl))
