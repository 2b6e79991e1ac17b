-- ===== src/Tracker/Unordered.antt =====
-- Trackers up to the order in which their hash maps iterate.
pub mod Quotient
use mathlib.Core.List.{Perm}
use mathlib.Core.List.Perm
use mwck_rs.Prelude.{
  ℕ, ◌≡◌, refl, sym, ◌∙◌, ap, subst, Bool, true, false, not, ◌&&◌, inl, inr, Option, none, some,
  List, [], ◌∷◌, ◌++◌, arith, ◌==◌, if◌then◌else◌, All, Bool-cases, Option-cases,
}
use mwck_rs.HashMap.{Map, lookup, remove, contains_key, IsUnique, values}
use mwck_rs.HashMap.Unordered.{values_perm}
use mwck_rs.HashMap.Laws.{lookup-insert, lookup-remove, remove-IsUnique, remove_absent}
use mwck_rs.Esplora.{Txid, Tx, IsWellDated}
use mwck_rs.Event.{AddressEvent, WalletEvent}
use mwck_rs.Tracker.{
  Tracker, get_state, remove_found, remove_transaction, insert_transaction, add_transaction,
  apply_event, process_event, set_loading, Sends, and_then,
}
use mwck_rs.Tracker.Runs.{Call, process, set, process_event-IsBalanced, set_loading-IsBalanced}
use mwck_rs.Tracker.Sent.{call_sends, run_sends}
use mwck_rs.Tracker.Order.{sort_by_time}
use mwck_rs.Tracker.Ledger.{IsBalanced}
use mwck_rs.Tracker.Queue.{with_queue, with_loading, apply_all, set_loading_lem}
use mwck_rs.Tracker.Sorting.{sort_of_perm}
use mwck_rs.Tracker.Shown.{values-HaveOwnTxids}

-- Two trackers agree in all but the order of their transactions.
pub record Same (t u : Tracker) : Type 0 where
  pub scriptpubkey : t.scriptpubkey ≡ u.scriptpubkey
  pub balance : t.balance ≡ u.balance
  pub queue : t.queue ≡ u.queue
  pub loading : t.loading ≡ u.loading
  pub held : (j : Txid) → lookup j t.transactions ≡ lookup j u.transactions

found-Same :
    (t u : Tracker) (txid : Txid) (o : Option Tx)
    → Same t u
    → Same (remove_found t txid o) (remove_found u txid o)
unfolding remove_found
found-Same t u txid none s = s
found-Same t u txid (some tx) s = record {
  scriptpubkey = s.scriptpubkey;
  balance = rw (s.scriptpubkey, s.balance) refl;
  queue = s.queue;
  loading = s.loading;
  held = λ j.
      lookup-remove txid j t.transactions
      ∙ ap (λ o. if txid == j then none else o) (s.held j)
      ∙ sym (lookup-remove txid j u.transactions);
}

remove_transaction-Same :
    (txid : Txid) (t u : Tracker)
    → Same t u
    → Same (remove_transaction txid t) (remove_transaction txid u)
unfolding remove_transaction
remove_transaction-Same txid t u s =
    subst (λ o. Same (remove_found t txid (lookup txid t.transactions)) (remove_found u txid o))
      (s.held txid) (found-Same t u txid (lookup txid t.transactions) s)

insert_transaction-Same :
    (tx : Tx) (t u : Tracker) → Same t u → Same (insert_transaction tx t) (insert_transaction tx u)
unfolding insert_transaction
insert_transaction-Same tx t u s = record {
  scriptpubkey = s.scriptpubkey;
  balance = rw (s.scriptpubkey, s.balance) refl;
  queue = s.queue;
  loading = s.loading;
  held = λ j.
      lookup-insert tx.txid j tx t.transactions
      ∙ ap (λ o. if tx.txid == j then some tx else o) (s.held j)
      ∙ sym (lookup-insert tx.txid j tx u.transactions);
}

add_transaction-Same :
    (tx : Tx) (t u : Tracker) → Same t u → Same (add_transaction tx t) (add_transaction tx u)
unfolding add_transaction
add_transaction-Same tx t u s =
    insert_transaction-Same tx _ _ (elim (Option-cases (lookup tx.txid t.transactions)) [
      | inl e ↦ rw (e, contains_key, sym (s.held tx.txid) ∙ e, contains_key) s
      | inr (x, e) ↦
          rw (e, contains_key, sym (s.held tx.txid) ∙ e, contains_key)
            (remove_transaction-Same tx.txid t u s)
    ])

apply_event-Same :
    (e : AddressEvent) (t u : Tracker)
    → Same t u
    → Same (apply_event e t).0 (apply_event e u).0 × ((apply_event e t).1 ≡ (apply_event e u).1)
unfolding apply_event
apply_event-Same (AddressEvent.removed k tx) t u s =
    (remove_transaction-Same tx.txid t u s, rw s.scriptpubkey refl)
apply_event-Same (AddressEvent.mempool k tx) t u s =
    (add_transaction-Same tx t u s, rw s.scriptpubkey refl)
apply_event-Same (AddressEvent.confirmed k tx) t u s =
    (add_transaction-Same tx t u s, rw s.scriptpubkey refl)

-- Two results of calls on them, with the same events sent.
abbrev pub SameSends : Sends → Sends → Type 0
SameSends (t, sent) (u, sent') = Same t u × (sent ≡ sent')

and_then-Same :
    (a b : Sends) (f : Tracker → Sends)
    → SameSends a b
    → ((t u : Tracker) → Same t u → SameSends (f t) (f u))
    → SameSends (and_then a f) (and_then b f)
and_then-Same (t, sent) (u, sent') f (s, e) h = ((h t u s).0, cc (e, (h t u s).1))

apply_all-Same :
    (es : List AddressEvent) (t u : Tracker)
    → Same t u
    → SameSends (apply_all es t) (apply_all es u)
unfolding apply_all
apply_all-Same [] t u s = (s, refl)
apply_all-Same (e ∷ es) t u s =
    and_then-Same (apply_event e t) (apply_event e u) (apply_all es) (apply_event-Same e t u s)
      (apply_all-Same es)

with-Same :
    (q q' : List AddressEvent) (l l' : Bool) (t u : Tracker)
    → q ≡ q'
    → l ≡ l'
    → Same t u
    → Same (with_loading l (with_queue q t)) (with_loading l' (with_queue q' u))
with-Same q q' l l' t u e f s = record {
  scriptpubkey = s.scriptpubkey;
  balance = s.balance;
  queue = e;
  loading = f;
  held = s.held;
}

if-Same :
    (b b' : Bool) (x x' y y' : Sends)
    → b ≡ b'
    → SameSends x x'
    → SameSends y y'
    → SameSends (if b then x else y) (if b' then x' else y')
if-Same true b' x x' y y' e h k = rw (sym e) h
if-Same false b' x x' y y' e h k = rw (sym e) k

process_event-Same :
    (e : AddressEvent) (realtime : Bool) (t u : Tracker)
    → Same t u
    → SameSends (process_event e realtime t) (process_event e realtime u)
unfolding process_event
process_event-Same e realtime t u s =
    if-Same _ _ _ _ _ _ (ap (λ l. realtime && l) s.loading)
      (with-Same _ _ t.loading u.loading t u (ap (λ q. q ++ e ∷ []) s.queue) s.loading s, refl)
      (apply_event-Same e t u s)

drained-Same :
    (loading : Bool) (a b : Sends)
    → SameSends a b
    → SameSends
        (with_loading loading (with_queue [] a.0), a.1)
        (with_loading loading (with_queue [] b.0), b.1)
drained-Same loading (t, sent) (u, sent') (s, e) =
    (with-Same [] [] loading loading t u refl refl s, e)

set_loading-Same :
    (loading : Bool) (t u : Tracker)
    → Same t u
    → SameSends (set_loading loading t) (set_loading loading u)
set_loading-Same loading t u s =
    rw (set_loading_lem loading t, set_loading_lem loading u)
      (if-Same _ _ _ _ _ _ (ap (λ l. l && not loading) s.loading)
        (drained-Same loading _ _ (
          subst (λ q. SameSends (apply_all t.queue t) (apply_all q u)) s.queue
            (apply_all-Same t.queue t u s)))
        (with-Same t.queue u.queue loading loading t u s.queue refl s, refl))

call_sends-Same :
    (c : Call) (t u : Tracker) → Same t u → SameSends (call_sends c t) (call_sends c u)
unfolding call_sends
call_sends-Same (process e realtime) t u s = process_event-Same e realtime t u s
call_sends-Same (set loading) t u s = set_loading-Same loading t u s

pub run_sends-Same :
    (cs : List Call) (t u : Tracker) → Same t u → SameSends (run_sends cs t) (run_sends cs u)
unfolding run_sends
run_sends-Same [] t u s = (s, refl)
run_sends-Same (c ∷ cs) t u s =
    and_then-Same (call_sends c t) (call_sends c u) (run_sends cs) (call_sends-Same c t u s)
      (run_sends-Same cs)

get_state-Same :
    (t u : Tracker)
    → Same t u
    → IsBalanced t
    → IsBalanced u
    → All IsWellDated (values t.transactions)
    → get_state t ≡ get_state u
unfolding get_state
get_state-Same t u s b c d =
    let sorted =
      sort_of_perm (values t.transactions) (values u.transactions)
        (values_perm t.transactions u.transactions b.unique c.unique s.held)
        (values-HaveOwnTxids t.transactions b.keyed b.unique) d in
    rw (s.scriptpubkey, s.balance, sorted) refl

run_sends-IsBalanced : (cs : List Call) (t : Tracker) → IsBalanced t → IsBalanced (run_sends cs t).0
unfolding run_sends call_sends
run_sends-IsBalanced [] t b = b
run_sends-IsBalanced (process e realtime ∷ cs) t b =
    run_sends-IsBalanced cs _ (process_event-IsBalanced e realtime t b)
run_sends-IsBalanced (set loading ∷ cs) t b =
    run_sends-IsBalanced cs _ (set_loading-IsBalanced loading t b)

-- Take two balanced trackers with the same script, balances, queue and flag that hold the same
-- transactions, in hash maps that may iterate in different orders. After every history of calls
-- that leaves well dated transactions, both have sent the same events in the same order and show
-- the same state.
pub run_sends-get_state :
    (cs : List Call) (t u : Tracker)
    → Same t u
    → IsBalanced t
    → IsBalanced u
    → All IsWellDated (values (run_sends cs t).0.transactions)
    → ((run_sends cs t).1 ≡ (run_sends cs u).1)
      × (get_state (run_sends cs t).0 ≡ get_state (run_sends cs u).0)
run_sends-get_state cs t u s b c d =
    let after = run_sends-Same cs t u s in
    (
      after.1,
      get_state-Same _ _ after.0 (run_sends-IsBalanced cs t b) (run_sends-IsBalanced cs u c) d,
    )
