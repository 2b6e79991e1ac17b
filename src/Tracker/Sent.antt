-- ===== src/Tracker/Sent.antt =====
-- The wallet events that a tracker sends.
use mwck_rs.Prelude.{
  ◌≡◌, refl, Bool, true, false, not, ◌&&◌, inl, inr, List, [], ◌∷◌, All, All-append, Bool-cases,
}
use mwck_rs.Event.{
  AddressEvent, WalletEvent, initializing, disconnected, address_ready, address_event,
}
use mwck_rs.Tracker.{Tracker, Sends, apply_event, process_event, set_loading, and_then}
use mwck_rs.Tracker.Queue.{apply_all, set_loading_lem}
use mwck_rs.Tracker.Runs.{Call, process, set}

-- What a call sends.
unfoldable pub call_sends : Call → Tracker → Sends
call_sends (process e realtime) t = process_event e realtime t
call_sends (set loading) t = set_loading loading t

unfoldable pub run_sends : List Call → Tracker → Sends
run_sends [] t = (t, [])
run_sends (c ∷ cs) t = and_then (call_sends c t) (run_sends cs)

-- The event reports that a transaction was dropped.
abbrev pub reports_removal : WalletEvent → Bool
reports_removal initializing = false
reports_removal disconnected = false
reports_removal (address_ready spk) = false
reports_removal (address_event (AddressEvent.removed spk tx)) = true
reports_removal (address_event (AddressEvent.mempool spk tx)) = false
reports_removal (address_event (AddressEvent.confirmed spk tx)) = false

abbrev pub IsNoRemoval : WalletEvent → Type 0
IsNoRemoval e = reports_removal e ≡ false

apply_event-sent : (e : AddressEvent) (t : Tracker) → All IsNoRemoval (apply_event e t).1
unfolding apply_event
apply_event-sent (AddressEvent.removed s tx) t = (refl, tt)
apply_event-sent (AddressEvent.mempool s tx) t = (refl, tt)
apply_event-sent (AddressEvent.confirmed s tx) t = (refl, tt)

apply_all-sent : (es : List AddressEvent) (t : Tracker) → All IsNoRemoval (apply_all es t).1
unfolding apply_all
apply_all-sent [] t = tt
apply_all-sent (e ∷ es) t =
    All-append IsNoRemoval (apply_event e t).1 _ (apply_event-sent e t)
      (apply_all-sent es (apply_event e t).0)

call_sends-sent : (c : Call) (t : Tracker) → All IsNoRemoval (call_sends c t).1
unfolding call_sends process_event
call_sends-sent (process e realtime) t = elim (Bool-cases (realtime && t.loading)) [
  | inl deferred ↦ rw deferred tt
  | inr now ↦ rw now (apply_event-sent e t)
]
call_sends-sent (set loading) t = rw set_loading_lem (elim (Bool-cases (t.loading && not loading)) [
  | inl ends ↦ rw ends (apply_all-sent t.queue t)
  | inr stays ↦ rw stays tt
])

-- No history of calls makes a tracker send an event that reports a dropped transaction, though its
-- transactions are removed: the arm of `Removed` sends `Confirmed`.
pub run_sends-IsNoRemoval : (cs : List Call) (t : Tracker) → All IsNoRemoval (run_sends cs t).1
unfolding run_sends
run_sends-IsNoRemoval [] t = tt
run_sends-IsNoRemoval (c ∷ cs) t =
    All-append IsNoRemoval (call_sends c t).1 _ (call_sends-sent c t)
      (run_sends-IsNoRemoval cs (call_sends c t).0)
