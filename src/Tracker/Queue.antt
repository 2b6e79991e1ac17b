-- ===== src/Tracker/Queue.antt =====
-- The queue of a tracker that is loading: what it defers, and what draining it does.
use mwck_rs.Prelude.{
  ℕ, zero, suc, ◌≤◌, ◌≡◌, refl, sym, ap, subst, inl, inr, Bool, true, false, not, ◌&&◌, List, [],
  ◌∷◌, ◌++◌, append_assoc, append-nil, arith, if◌then◌else◌, length, Bool-cases,
}
use mwck_rs.HashMap.{contains_key}
use mwck_rs.Esplora.{Txid, Tx}
use mwck_rs.Event.{AddressEvent}
use mwck_rs.Tracker.{
  Tracker, Sends, remove_found, remove_transaction, insert_transaction, add_transaction,
  apply_event, process_event, and_then, drain_loop, drain_queue, set_loading,
}

abbrev pub with_queue : List AddressEvent → Tracker → Tracker
with_queue q t = record t { queue = q }

abbrev pub with_loading : Bool → Tracker → Tracker
with_loading l t = record t { loading = l }

-- A list of events, each applied at once, in order.
unfoldable pub apply_all : List AddressEvent → Tracker → Sends
apply_all [] t = (t, [])
apply_all (e ∷ es) t = and_then (apply_event e t) (apply_all es)

-- A list of events, each handed to `process_event` as it comes in.
unfoldable pub receive_all : List AddressEvent → Tracker → Sends
receive_all [] t = (t, [])
receive_all (e ∷ es) t = and_then (process_event e true t) (receive_all es)

remove-with :
    (txid : Txid) (q : List AddressEvent) (l : Bool) (t : Tracker)
    → remove_transaction txid (with_loading l (with_queue q t))
      ≡ with_loading l (with_queue q (remove_transaction txid t))
unfolding remove_transaction remove_found
remove-with txid q l t = ground arith

add-with :
    (tx : Tx) (q : List AddressEvent) (l : Bool) (t : Tracker)
    → add_transaction tx (with_loading l (with_queue q t))
      ≡ with_loading l (with_queue q (add_transaction tx t))
unfolding add_transaction insert_transaction
add-with tx q l t = elim (Bool-cases (contains_key tx.txid t.transactions)) [
  | inl held ↦ rw (held, remove-with)
  | inr new_one ↦ rw new_one
]

-- Applying an event neither reads nor writes the queue and the flag.
pub apply_event-with :
    (e : AddressEvent) (q : List AddressEvent) (l : Bool) (t : Tracker)
    → apply_event e (with_loading l (with_queue q t))
      ≡ (with_loading l (with_queue q (apply_event e t).0), (apply_event e t).1)
unfolding apply_event
apply_event-with (AddressEvent.removed s tx) q l t = rw remove-with
apply_event-with (AddressEvent.mempool s tx) q l t = rw add-with
apply_event-with (AddressEvent.confirmed s tx) q l t = rw add-with

pub apply_all-with :
    (es q : List AddressEvent) (l : Bool) (t : Tracker)
    → apply_all es (with_loading l (with_queue q t))
      ≡ (with_loading l (with_queue q (apply_all es t).0), (apply_all es t).1)
unfolding apply_all
apply_all-with [] q l t = refl
apply_all-with (e ∷ es) q l t = rw (apply_event-with, apply_all-with es)

pub apply_all-append :
    (xs ys : List AddressEvent) (t : Tracker)
    → apply_all (xs ++ ys) t ≡ and_then (apply_all xs t) (apply_all ys)
unfolding apply_all
apply_all-append [] ys t = refl
apply_all-append (x ∷ xs) ys t = rw (apply_all-append xs ys, append_assoc)

-- With as much fuel as the queue is long, the loop applies the queue in order and empties it.
drain_loop-apply_all :
    (fuel : ℕ) (q : List AddressEvent) (t : Tracker)
    → length q ≤ fuel
    → drain_loop fuel (with_queue q t) ≡ apply_all q (with_queue [] t)
unfolding drain_loop apply_all process_event
drain_loop-apply_all zero [] t h = refl
drain_loop-apply_all zero (e ∷ q) t h = absurd (omega arith)
drain_loop-apply_all (suc fuel) [] t h = refl
drain_loop-apply_all (suc fuel) (e ∷ q) t h = rw (
  apply_event-with e q t.loading t,
  apply_event-with e [] t.loading t,
  drain_loop-apply_all fuel q (with_loading t.loading (apply_event e t).0) (omega arith),
)

pub drain_queue-apply_all : (t : Tracker) → drain_queue t ≡ apply_all t.queue (with_queue [] t)
unfolding drain_queue
drain_queue-apply_all t = drain_loop-apply_all (length t.queue) t.queue t (omega arith)

-- Ending the load of a tracker applies what was queued, in order, and leaves nothing queued.
-- Any other change of the flag applies nothing.
pub set_loading_lem :
    (loading : Bool) (t : Tracker)
    → set_loading loading t ≡ (
        if t.loading && not loading
        then (with_loading loading (with_queue [] (apply_all t.queue t).0), (apply_all t.queue t).1)
        else (with_loading loading t, []))
unfolding set_loading
set_loading_lem loading t = elim (Bool-cases (t.loading && not loading)) [
  | inl e ↦ rw (e, drain_queue-apply_all, apply_all-with t.queue [] t.loading t)
  | inr e ↦ rw e
]

pub process_event-now : (e : AddressEvent) (t : Tracker) → process_event e false t ≡ apply_event e t
unfolding process_event
process_event-now e t = refl

pub set_loading-true : (t : Tracker) → set_loading true t ≡ (with_loading true t, [])
set_loading-true t =
    rw set_loading_lem (elim (Bool-cases t.loading) [ inl e ↦ rw e | inr e ↦ rw e ])

-- While a tracker loads, realtime events only lengthen its queue.
receive_all-loading :
    (es : List AddressEvent) (t : Tracker)
    → receive_all es (with_loading true t) ≡ (with_loading true (with_queue (t.queue ++ es) t), [])
unfolding receive_all process_event
receive_all-loading [] t = rw append-nil
receive_all-loading (e ∷ es) t =
    rw (receive_all-loading es (with_queue (t.queue ++ e ∷ []) t), append_assoc)

-- A tracker that has loaded applies each event as it comes.
pub receive_all-loaded :
    (es : List AddressEvent) (t : Tracker)
    → receive_all es (with_loading false t) ≡ apply_all es (with_loading false t)
unfolding receive_all apply_all process_event
receive_all-loaded [] t = refl
receive_all-loaded (e ∷ es) t = rw (
  apply_event-with e t.queue false t,
  receive_all-loaded es (with_queue t.queue (apply_event e t).0),
)

abbrev pub set_then_apply : List AddressEvent → Tracker → Sends
set_then_apply es t =
    let (t', sent) = apply_all es t in (with_loading false (with_queue [] t'), sent)

pub finish_loading :
    (t : Tracker) → set_loading false (with_loading true t) ≡ set_then_apply t.queue t
finish_loading t =
    rw (set_loading_lem false (with_loading true t), apply_all-with t.queue t.queue true t)

defer :
    (es : List AddressEvent) (t : Tracker)
    → and_then (receive_all es (with_loading true t)) (set_loading false)
      ≡ and_then (set_loading false (with_loading true t)) (receive_all es)
defer es t = rw (
  receive_all-loading es t,
  finish_loading (with_queue (t.queue ++ es) t),
  finish_loading t,
  receive_all-loaded es (with_queue [] (apply_all t.queue t).0),
  apply_all-with es [] false (apply_all t.queue t).0,
  apply_all-with (t.queue ++ es) (t.queue ++ es) t.loading t,
  apply_all-append t.queue es t,
)

-- Deferring is not observable: a loading tracker that receives realtime events and then ends its
-- load has the state, and has sent the events, of a tracker that ended its load first and then
-- received them.
pub set_loading-receive_all :
    (es : List AddressEvent) (t : Tracker)
    → t.loading ≡ true
    → and_then (receive_all es t) (set_loading false)
      ≡ and_then (set_loading false t) (receive_all es)
set_loading-receive_all es t l =
    subst
      (λ s.
        and_then (receive_all es s) (set_loading false)
        ≡ and_then (set_loading false s) (receive_all es))
      (sym (ap (λ b. with_loading b t) l)) (defer es t)
