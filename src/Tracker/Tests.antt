-- ===== src/Tracker/Tests.antt =====
-- Runs of a tracker, and its theorems at concrete inputs.
use mathlib.Core.List.{Perm}
use mathlib.Core.List.Perm
use mwck_rs.Prelude.{◌≡◌, ◌↔◌, refl, true, false, List, [], ◌∷◌, arith, All, Ordering}
use mwck_rs.Prelude.Int.{pos}
use mwck_rs.HashMap.{values}
use mwck_rs.Event.{AddressEvent}
use mwck_rs.Samples.{alice, deposit, payment}
use mwck_rs.Tracker.Balance.{
  add64, sub64, apply_spent, apply_funded, apply_prevout, apply_vins, apply_vouts, total, get,
  as_i64, neg_i64,
}
use mwck_rs.Tracker.Order.{partial_cmp_tx_time, cmp_tx_time, in_time, insert_by_time, sort_by_time}
use mwck_rs.Tracker.{
  Tracker, new, get_state, remove_found, remove_transaction, insert_transaction, add_transaction,
  apply_event, process_event, drain_loop, drain_queue, set_loading, and_then, add_all, from,
}
use mwck_rs.Tracker.Ledger.{IsBalanced, new-IsBalanced, add_transaction-IsBalanced}
use mwck_rs.Tracker.Restore.{get_state-from}
use mwck_rs.Tracker.Queue.{receive_all, set_loading-receive_all}
use mwck_rs.Tracker.Runs.{Call, process, set, run, step, run-new-IsBalanced, get-total}
use mwck_rs.Tracker.Sorting.{IsSorted, cmp_tx_time-rank_cmp}
use mwck_rs.Tracker.Shown.{get_state_lem}
use mwck_rs.Tracker.Sent.{call_sends, run_sends, IsNoRemoval, run_sends-IsNoRemoval}
use mwck_rs.Tracker.Unordered.{Same, run_sends-get_state}
use mwck_rs.Tracker.Unordered.Quotient.{in_any_order, Alike, run-in_any_order}
use mwck_rs.Esplora.{Tx, IsWellDated}

-- What a run computes with.
program : Unit {0}
unfolding new get_state remove_found remove_transaction insert_transaction add_transaction
    apply_event process_event drain_loop drain_queue set_loading add_all from add64 sub64
    apply_spent apply_funded apply_prevout apply_vins apply_vouts total get as_i64 neg_i64
    partial_cmp_tx_time cmp_tx_time in_time insert_by_time sort_by_time run step
program = tt

-- Alice's tracker after a load with both transactions; the payment came in while it loaded.
abbrev history : List Call
history =
    process (AddressEvent.mempool alice payment) true
    ∷ process (AddressEvent.confirmed alice deposit) false
    ∷ set false
    ∷ []

abbrev alices : Tracker
alices = run history (new alice)

shown_balance : get (total alices.balance) ≡ pos 25
unfolding program
shown_balance = refl

shown_order : (get_state alices).transactions ≡ deposit ∷ payment ∷ []
unfolding program
shown_order = refl

-- A transaction that confirms moves its values from one balance to the other.
confirms :
    (run
      (process (AddressEvent.confirmed alice deposit) false ∷ [])
      alices).balance.confirmed.funded
    ≡ 50
unfolding program
confirms = refl

run-new-IsBalanced_example : IsBalanced alices
run-new-IsBalanced_example = run-new-IsBalanced alice history

get-total_example : get (total alices.balance) ≡ pos 25
unfolding program
get-total_example = get-total alices run-new-IsBalanced_example (omega arith) (omega arith)

set_loading-receive_all_example :
    and_then (receive_all (AddressEvent.mempool alice payment ∷ []) (new alice)) (set_loading false)
    ≡ and_then
        (set_loading false (new alice))
        (receive_all (AddressEvent.mempool alice payment ∷ []))
unfolding program
set_loading-receive_all_example =
    set_loading-receive_all (AddressEvent.mempool alice payment ∷ []) (new alice) refl

cmp_tx_time-rank_cmp_example : cmp_tx_time deposit payment ≡ Ordering.lt
cmp_tx_time-rank_cmp_example = cmp_tx_time-rank_cmp deposit payment (omega arith) tt

get_state_lem_example :
    IsSorted (get_state alices).transactions
    × Perm (get_state alices).transactions (values alices.transactions)
    × (sort_by_time (payment ∷ deposit ∷ []) ≡ (get_state alices).transactions)
unfolding program
get_state_lem_example =
    get_state_lem alices (payment ∷ deposit ∷ []) run-new-IsBalanced_example (omega arith)
      (Perm.swap payment deposit [])

run_sends-IsNoRemoval_example :
    All IsNoRemoval (run_sends (process (AddressEvent.removed alice payment) false ∷ []) alices).1
run_sends-IsNoRemoval_example =
    run_sends-IsNoRemoval (process (AddressEvent.removed alice payment) false ∷ []) alices

-- A tracker that holds the payment only.
abbrev paying : Tracker
paying = add_transaction payment (new alice)

get_state-from_example : get_state (from (get_state paying)) ≡ get_state paying
unfolding new add_transaction insert_transaction
get_state-from_example =
    get_state-from paying (add_transaction-IsBalanced payment (new alice) (new-IsBalanced alice))
      (tt, tt)

-- The payment and the deposit, added in either order.
abbrev one_order : Tracker
one_order = add_transaction deposit (add_transaction payment (new alice))

abbrev other_order : Tracker
other_order = add_transaction payment (add_transaction deposit (new alice))

IsBalanced-add_two : (a b : Tx) → IsBalanced (add_transaction a (add_transaction b (new alice)))
IsBalanced-add_two a b =
    add_transaction-IsBalanced a _ (add_transaction-IsBalanced b (new alice) (new-IsBalanced alice))

orders-Same : Same one_order other_order
unfolding program
orders-Same = record {
  scriptpubkey = refl;
  balance = refl;
  queue = refl;
  loading = refl;
  held = λ j. ground arith;
}

dated : All IsWellDated (values (run_sends (set false ∷ []) one_order).0.transactions)
unfolding program run_sends call_sends
dated = (tt, (omega arith, tt))

run_sends-get_state_example :
    ((run_sends (set false ∷ []) one_order).1 ≡ (run_sends (set false ∷ []) other_order).1)
    × (get_state (run_sends (set false ∷ []) one_order).0
        ≡ get_state (run_sends (set false ∷ []) other_order).0)
run_sends-get_state_example =
    run_sends-get_state (set false ∷ []) one_order other_order orders-Same
      (IsBalanced-add_two deposit payment) (IsBalanced-add_two payment deposit) dated

-- A payment that comes and goes before the deposit leaves nothing behind.
abbrev detour : List Call
detour =
    process (AddressEvent.mempool alice payment) false
    ∷ process (AddressEvent.removed alice payment) false
    ∷ process (AddressEvent.confirmed alice deposit) false
    ∷ []

abbrev direct : List Call
direct = process (AddressEvent.confirmed alice deposit) false ∷ []

run-in_any_order_example :
    (in_any_order (run detour (new alice)) ≡ in_any_order (run direct (new alice)))
    ↔ Alike (run detour (new alice)) (run direct (new alice))
run-in_any_order_example = run-in_any_order alice detour direct

detour-Alike : Alike (run detour (new alice)) (run direct (new alice))
unfolding program
detour-Alike = record { held = λ j. refl; queue = refl; loading = refl }

detour-direct : in_any_order (run detour (new alice)) ≡ in_any_order (run direct (new alice))
detour-direct = (run-in_any_order alice detour direct).1 detour-Alike
