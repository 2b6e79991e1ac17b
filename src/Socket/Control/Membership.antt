-- ===== src/Socket/Control/Membership.antt =====
-- Which scriptpubkeys are active after control events that the socket accepts.
use mwck_rs.Prelude.{
  ◌≡◌, refl, ◌∙◌, ap, Bool, true, false, not, ◌&&◌, ◌||◌, List, [], ◌∷◌, ◌++◌, map, ◌==◌, arith,
  if◌then◌else◌, select,
}
use mwck_rs.Esplora.{ScriptBuf}
use mwck_rs.Event.{ControlEvent}
use mwck_rs.Socket.Control.{
  Manager, contains, insert_all, remove_all, update_subscription, handle, control, step, run,
}

contains-if :
    (k spk : ScriptBuf) (active : List ScriptBuf)
    → contains k (if contains spk active then active else spk ∷ active)
      ≡ (contains k active || spk == k)
contains-if k spk active = ground arith

insert_all-contains :
    (k : ScriptBuf) (spks active : List ScriptBuf) (changed : Bool)
    → contains k (insert_all spks active changed).0 ≡ (contains k active || contains k spks)
unfolding insert_all
insert_all-contains k [] active changed = ground arith
insert_all-contains k (spk ∷ spks) active changed =
    insert_all-contains k spks _ _
    ∙ ap (λ b. b || contains k spks) (contains-if k spk active)
    ∙ ground arith

contains-select :
    (k spk : ScriptBuf) (active : List ScriptBuf)
    → contains k (select (λ x. not (x == spk)) active) ≡ (contains k active && not (spk == k))
contains-select k spk [] = refl
contains-select k spk (x ∷ active) = ground (arith, contains-select k spk active)

remove_all-contains :
    (k : ScriptBuf) (spks active : List ScriptBuf) (changed : Bool)
    → contains k (remove_all spks active changed).0 ≡ (contains k active && not (contains k spks))
unfolding remove_all
remove_all-contains k [] active changed = ground arith
remove_all-contains k (spk ∷ spks) active changed =
    remove_all-contains k spks _ _
    ∙ ap (λ b. b && not (contains k spks)) (contains-select k spk active)
    ∙ ground arith

-- Control events on a socket that accepts what is written to it.
unfoldable pub obey : List ControlEvent → Manager → Manager
obey [] m = m
obey (e ∷ es) m = obey es (handle true e m)

pub obey-append :
    (es fs : List ControlEvent) (m : Manager) → obey (es ++ fs) m ≡ obey fs (obey es m)
unfolding obey
obey-append [] fs m = refl
obey-append (e ∷ es) fs m = obey-append es fs (handle true e m)

handle-is_running : (e : ControlEvent) (m : Manager) → (handle true e m).is_running ≡ m.is_running
unfolding handle update_subscription
handle-is_running ControlEvent.close m = ground arith
handle-is_running ControlEvent.ping m = refl
handle-is_running (ControlEvent.subscribe spks) m = ground arith
handle-is_running (ControlEvent.unsubscribe spks) m = ground arith

pub obey-is_running : (es : List ControlEvent) (m : Manager) → (obey es m).is_running ≡ m.is_running
unfolding obey
obey-is_running [] m = refl
obey-is_running (e ∷ es) m = obey-is_running es (handle true e m) ∙ handle-is_running e m

pub run-obey :
    (es : List ControlEvent) (m : Manager)
    → m.is_running ≡ true
    → run (map (control true) es) m ≡ obey es m
unfolding run step obey
run-obey [] m r = refl
run-obey (e ∷ es) m r =
    ap (λ b. if b then run (map (control true) es) (handle true e m) else m) r
    ∙ run-obey es (handle true e m) (handle-is_running e m ∙ r)

pub handle-subscribe :
    (k : ScriptBuf) (spks : List ScriptBuf) (m : Manager)
    → contains k (handle true (ControlEvent.subscribe spks) m).active_spks
      ≡ (contains k m.active_spks || contains k spks)
unfolding handle update_subscription
handle-subscribe k spks m = ground (arith, insert_all-contains k spks m.active_spks false)

pub handle-unsubscribe :
    (k : ScriptBuf) (spks : List ScriptBuf) (m : Manager)
    → contains k (handle true (ControlEvent.unsubscribe spks) m).active_spks
      ≡ (contains k m.active_spks && not (contains k spks))
unfolding handle update_subscription
handle-unsubscribe k spks m = ground (arith, remove_all-contains k spks m.active_spks false)
