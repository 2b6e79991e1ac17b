-- ===== src/Socket/Control/Subscription.antt =====
-- The server's subscription against the set of active scriptpubkeys.
use mwck_rs.Prelude.{
  ◌+◌, ◌≤◌, ◌≡◌, refl, ◌∙◌, Bool, true, false, not, ◌||◌, List, [], ◌∷◌, ◌++◌, ◌==◌, arith,
  if◌then◌else◌, select,
}
use mwck_rs.Esplora.{ScriptBuf}
use mwck_rs.Event.{ControlEvent}
use mwck_rs.Socket.Control.{
  Frame, ping_action, close_handshake, track, Manager, start, contains, insert_all, remove_all,
  update_subscription, handle, Input, disconnect, control, step, run,
}

-- What the server sends events about, after these messages.
unfoldable pub subscribed : List ScriptBuf → List Frame → List ScriptBuf
subscribed now [] = now
subscribed now (ping_action ∷ fs) = subscribed now fs
subscribed now (close_handshake ∷ fs) = subscribed now fs
subscribed now (track spks ∷ fs) = subscribed spks fs

subscribed-append :
    (now : List ScriptBuf) (fs gs : List Frame)
    → subscribed now (fs ++ gs) ≡ subscribed (subscribed now fs) gs
unfolding subscribed
subscribed-append now [] gs = refl
subscribed-append now (ping_action ∷ fs) gs = subscribed-append now fs gs
subscribed-append now (close_handshake ∷ fs) gs = subscribed-append now fs gs
subscribed-append now (track spks ∷ fs) gs = subscribed-append spks fs gs

insert_all-changed :
    (spks active : List ScriptBuf) (changed : Bool)
    → (insert_all spks active changed).1 ≡ false
    → ((insert_all spks active changed).0 ≡ active) × (changed ≡ false)
unfolding insert_all
insert_all-changed [] active changed h = (refl, h)
insert_all-changed (spk ∷ spks) active changed h = ground (
  arith,
  insert_all-changed spks (if contains spk active then active else spk ∷ active)
      (changed || not (contains spk active)) h,
)

select-absent :
    (spk : ScriptBuf) (l : List ScriptBuf)
    → contains spk l ≡ false
    → select (λ k. not (k == spk)) l ≡ l
select-absent spk [] h = refl
select-absent spk (x ∷ l) h = ground (arith, select-absent spk l)

remove_all-changed :
    (spks active : List ScriptBuf) (changed : Bool)
    → (remove_all spks active changed).1 ≡ false
    → ((remove_all spks active changed).0 ≡ active) × (changed ≡ false)
unfolding remove_all
remove_all-changed [] active changed h = (refl, h)
remove_all-changed (spk ∷ spks) active changed h =
    let (e, f) =
      remove_all-changed spks (select (λ k. not (k == spk)) active) (changed || contains spk active)
        h in
    (e ∙ select-absent spk active (ground arith), ground arith)

-- While the loop runs, the server is subscribed to the active scriptpubkeys; the close signal has
-- been sent or its channel is still there.
pub record IsInSync (m : Manager) : Type 0 where
  pub synced : m.is_running ≡ true → subscribed [] m.frames ≡ m.active_spks
  pub one_close : m.closes + (if m.has_close_channel then 1 else 0) ≡ 1

update-IsInSync :
    (accepts : Bool) (active : List ScriptBuf) (changed : Bool) (m : Manager)
    → (changed ≡ false → active ≡ m.active_spks)
    → IsInSync m
    → IsInSync (update_subscription accepts (active, changed) m)
unfolding update_subscription subscribed
update-IsInSync accepts active changed m same s =
    ground (arith, same, s.synced, subscribed-append [] m.frames (track active ∷ []))

handle-IsInSync :
    (accepts : Bool) (event : ControlEvent) (m : Manager)
    → IsInSync m
    → IsInSync (handle accepts event m)
unfolding handle subscribed
handle-IsInSync accepts ControlEvent.close m s =
    ground (arith, s.synced, subscribed-append [] m.frames (close_handshake ∷ []))
handle-IsInSync accepts ControlEvent.ping m s =
    ground (arith, s.synced, subscribed-append [] m.frames (ping_action ∷ []))
handle-IsInSync accepts (ControlEvent.subscribe spks) m s =
    update-IsInSync accepts _ _ m (λ h. (insert_all-changed spks m.active_spks false h).0) s
handle-IsInSync accepts (ControlEvent.unsubscribe spks) m s =
    update-IsInSync accepts _ _ m (λ h. (remove_all-changed spks m.active_spks false h).0) s

start-IsInSync : IsInSync start
unfolding start subscribed
start-IsInSync = record { synced = λ h. refl; one_close = refl }

step-IsInSync : (i : Input) (m : Manager) → IsInSync m → IsInSync (step i m)
unfolding step
step-IsInSync disconnect m s = record { synced = λ h. cc; one_close = s.one_close }
step-IsInSync (control accepts event) m s = handle-IsInSync accepts event m s

run-IsInSync : (is : List Input) (m : Manager) → IsInSync m → IsInSync (run is m)
unfolding run
run-IsInSync [] m s = s
run-IsInSync (i ∷ is) m s = ground (arith, s, run-IsInSync is (step i m) (step-IsInSync i m s))

pub run-start-IsInSync : (is : List Input) → IsInSync (run is start)
run-start-IsInSync is = run-IsInSync is start start-IsInSync

-- From its start, whatever signals and control events the control loop has received and whichever
-- messages the socket has refused: if the loop still runs, the server's subscription is the set of
-- active scriptpubkeys, and the close signal has been sent at most once.
pub run-start-subscribed :
    (is : List Input)
    → (run is start).is_running ≡ true
    → (subscribed [] (run is start).frames ≡ (run is start).active_spks)
      × ((run is start).closes ≤ 1)
run-start-subscribed is h =
    let s = run-start-IsInSync is in (s.synced h, omega (arith, s.one_close))
