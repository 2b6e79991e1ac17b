-- ===== src/Socket/Connection/Growth.antt =====
-- What a round of the manager does comes after what it did.
use mwck_rs.Prelude.{
  ◌≡◌, refl, sym, ap, ◌∙◌, Bool, true, false, List, [], ◌∷◌, ◌++◌, append_assoc, append-nil, inl,
  inr, if◌then◌else◌, Bool-cases,
}
use mwck_rs.Event.{WebsocketEvent}
use mwck_rs.Socket.Connection.{
  Status, Effect, status_sent, notified, slept, joined, signalled_exit, Connection, Round,
  continues, ended, run, step, Outcome, panicked, Panic, thread_failed, no_close_channel,
  no_disconnect_channel, Signal, disconnect_signal, close_signal, close_error, on_status, on_signal,
  on_connecting, connect, on_disconnected, join_threads, update, emit,
}

-- What a manager that goes on or has ended did after these effects.
abbrev pub Adds : List Effect → Outcome → Type 0
Adds es (continues m) = (later : List Effect) × (m.effects ≡ es ++ later)
Adds es (ended m) = (later : List Effect) × (m.effects ≡ es ++ later)
Adds es (panicked p) = Unit

Adds-if :
    (b : Bool) (es : List Effect) (o : Outcome) (p : Panic)
    → Adds es o
    → Adds es (if b then o else panicked p)
Adds-if true es o p a = a
Adds-if false es o p a = tt

joined_effects :
    (m : Connection) → (later : List Effect) × ((join_threads m).effects ≡ m.effects ++ later)
unfolding join_threads emit
joined_effects m = elim (Bool-cases m.has_handles) [
  | inl h ↦ (joined ∷ [], rw h refl)
  | inr h ↦ ([], rw h (sym (append-nil m.effects)))
]

signal-Adds :
    (g : Signal) (m : Connection)
    → (later : List Effect) × ((on_signal g m).effects ≡ m.effects ++ later)
unfolding on_signal update emit
signal-Adds disconnect_signal m = (status_sent Status.disconnected ∷ [], refl)
signal-Adds close_signal m =
    (status_sent Status.offline ∷ signalled_exit ∷ [], append_assoc m.effects _ _)
signal-Adds close_error m =
    (status_sent Status.disconnected ∷ signalled_exit ∷ [], append_assoc m.effects _ _)

connecting-Adds :
    (reaches : Bool) (m : Connection)
    → (later : List Effect) × ((on_connecting reaches m).effects ≡ m.effects ++ later)
unfolding on_connecting connect update emit
connecting-Adds true m = (
  notified WebsocketEvent.connected ∷ status_sent Status.connected ∷ [],
  append_assoc m.effects _ _,
)
connecting-Adds false m = (
  notified WebsocketEvent.error ∷ status_sent Status.disconnected ∷ [],
  append_assoc m.effects _ _,
)

offline-Adds :
    (m : Connection)
    → Adds m.effects (ended (emit (notified WebsocketEvent.offline ∷ []) (join_threads m)))
unfolding emit
offline-Adds m =
    let (later, e) = joined_effects m in
    (
      later ++ notified WebsocketEvent.offline ∷ [],
      ap (λ es. es ++ notified WebsocketEvent.offline ∷ []) e ∙ append_assoc m.effects later _,
    )

disconnected-Adds : (m : Connection) → Adds m.effects (continues (on_disconnected (join_threads m)))
unfolding on_disconnected update emit
disconnected-Adds m =
    let (later, e) = joined_effects m in
    let slept_then = notified WebsocketEvent.ws_disconnected ∷ slept 30_000 ∷ [] in
    (
      later ++ (slept_then ++ status_sent Status.ready ∷ []),
      ap (λ es. (es ++ slept_then) ++ status_sent Status.ready ∷ []) e
          ∙ append_assoc (m.effects ++ later) slept_then _
          ∙ append_assoc m.effects later _,
    )

joining-Adds :
    (handles joins : Bool) (es : List Effect) (o : Outcome)
    → Adds es o
    → Adds es (if handles then (if joins then o else panicked thread_failed) else o)
joining-Adds true joins es o a = Adds-if joins es o thread_failed a
joining-Adds false joins es o a = a

on_status-Adds : (s : Status) (r : Round) (m : Connection) → Adds m.effects (on_status s r m)
unfolding on_status update
on_status-Adds Status.offline r m = joining-Adds m.has_handles r.joins m.effects _ (offline-Adds m)
on_status-Adds Status.ready r m = (status_sent Status.connecting ∷ [], refl)
on_status-Adds Status.connecting r m = connecting-Adds r.reaches m
on_status-Adds Status.disconnected r m =
    joining-Adds m.has_handles r.joins m.effects _ (disconnected-Adds m)
on_status-Adds Status.connected r m =
    Adds-if m.has_close_receiver m.effects _ no_close_channel
      (Adds-if m.has_disconnect_channel m.effects _ no_disconnect_channel (signal-Adds r.signal _))

Adds-after : (es fs later : List Effect) (o : Outcome) → fs ≡ es ++ later → Adds fs o → Adds es o
Adds-after es fs later (continues m) e (more, q) =
    (later ++ more, q ∙ ap (λ x. x ++ more) e ∙ append_assoc es later more)
Adds-after es fs later (ended m) e (more, q) =
    (later ++ more, q ∙ ap (λ x. x ++ more) e ∙ append_assoc es later more)
Adds-after es fs later (panicked p) e a = tt

pub run-Adds : (rs : List Round) (es : List Effect) (o : Outcome) → Adds es o → Adds es (run rs o)
unfolding run step
run-Adds [] es o a = a
run-Adds (r ∷ rs) es (continues m) (later, q) =
    run-Adds rs es (step r m) (Adds-after es m.effects later _ q (on_status-Adds m.status r m))
run-Adds (r ∷ rs) es (ended m) a = a
run-Adds (r ∷ rs) es (panicked p) a = a
