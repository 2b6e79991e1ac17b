-- ===== src/Tracker/Unordered/Quotient.antt =====
-- The tracker with the order of its hash map forgotten.
use mathlib.Core.Quot
use mathlib.Core.Quot.{Quot, Quot-set}
use mwck_rs.Prelude.{
  ℕ, ◌≡◌, refl, sym, ◌∙◌, ap, inl, inr, ◌↔◌, Bool, not, ◌&&◌, Option, List, [], ◌∷◌, Bool-cases,
}
use mwck_rs.HashMap.{lookup, total}
use mwck_rs.HashMap.Unordered.{values_perm}
use mwck_rs.Esplora.{ScriptBuf, Txid, Tx}
use mwck_rs.Event.{AddressEvent}
use mwck_rs.Tracker.{Tracker, new, set_loading}
use mwck_rs.Tracker.Queue.{set_loading_lem}
use mwck_rs.Tracker.Balance.Sums.{Holds-eq, tx_spent, tx_funded}
use mwck_rs.Tracker.Ledger.{IsBalanced}
use mwck_rs.Tracker.History.{sum_by-perm}
use mwck_rs.Tracker.Restore.{total-values, Holds-unique}
use mwck_rs.Tracker.Runs.{
  Call, process, set, step, run, run-new-IsBalanced, process_event-scriptpubkey,
  apply_all-scriptpubkey,
}
use mwck_rs.Tracker.Unordered.{Same}

abbrev pub AnyOrder : Type 0
AnyOrder = Quot Same

abbrev pub in_any_order : Tracker → AnyOrder
in_any_order = Quot.mk

-- Two trackers hold the same transactions, queue the same events and both load or not. Nothing is
-- said of their balances.
pub record Alike (t u : Tracker) : Type 0 where
  pub held : (j : Txid) → lookup j t.transactions ≡ lookup j u.transactions
  pub queue : t.queue ≡ u.queue
  pub loading : t.loading ≡ u.loading

held_in : Txid → AnyOrder → Option Tx
held_in j = Quot.lift (hlevel) (λ t. lookup j t.transactions) (λ t u s. s.held j)

queue_in : AnyOrder → List AddressEvent
queue_in = Quot.lift (hlevel) (λ t. t.queue) (λ t u s. s.queue)

loading_in : AnyOrder → Bool
loading_in = Quot.lift (hlevel) (λ t. t.loading) (λ t u s. s.loading)

in_any_order-Alike : (t u : Tracker) → in_any_order t ≡ in_any_order u → Alike t u
unfolding held_in queue_in loading_in
in_any_order-Alike t u e = record {
  held = λ j. ap (held_in j) e;
  queue = ap queue_in e;
  loading = ap loading_in e;
}

-- The transactions held settle the balances of a balanced tracker.
same_sums :
    (t u : Tracker) (f : Tx → ℕ)
    → IsBalanced t
    → IsBalanced u
    → Alike t u
    → total f t.transactions ≡ total f u.transactions
same_sums t u f b c a =
    total-values f t.transactions
    ∙ sum_by-perm f _ _ (values_perm t.transactions u.transactions b.unique c.unique a.held)
    ∙ sym (total-values f u.transactions)

Alike-Same :
    (t u : Tracker)
    → t.scriptpubkey ≡ u.scriptpubkey
    → IsBalanced t
    → IsBalanced u
    → Alike t u
    → Same t u
Alike-Same t u e b c a = record {
  scriptpubkey = e;
  balance =
      Holds-unique t.balance u.balance _ _
        (Holds-eq t.balance _ _ _ _
          (λ k.
            same_sums t u (tx_spent t.scriptpubkey k) b c a
            ∙ ap (λ s. total (tx_spent s k) u.transactions) e)
          (λ k.
            same_sums t u (tx_funded t.scriptpubkey k) b c a
            ∙ ap (λ s. total (tx_funded s k) u.transactions) e)
          b.holds)
        c.holds;
  queue = a.queue;
  loading = a.loading;
  held = a.held;
}

set_loading-scriptpubkey :
    (loading : Bool) (t : Tracker) → (set_loading loading t).0.scriptpubkey ≡ t.scriptpubkey
set_loading-scriptpubkey loading t =
    rw set_loading_lem (elim (Bool-cases (t.loading && not loading)) [
      | inl ends ↦ rw ends (apply_all-scriptpubkey t.queue t)
      | inr stays ↦ rw stays refl
    ])

run-scriptpubkey : (cs : List Call) (t : Tracker) → (run cs t).scriptpubkey ≡ t.scriptpubkey
unfolding run step
run-scriptpubkey [] t = refl
run-scriptpubkey (process e realtime ∷ cs) t =
    run-scriptpubkey cs _ ∙ process_event-scriptpubkey e realtime t
run-scriptpubkey (set loading ∷ cs) t = run-scriptpubkey cs _ ∙ set_loading-scriptpubkey loading t

-- Forget the order of a tracker's hash map: trackers that agree in all else, their balances too,
-- become one. Two histories of calls on a new tracker of a script lead to one and the same then if,
-- and only if, they leave the same transactions held, the same queue and the same flag: however often
-- a transaction was added, replaced and removed on the way, the balances come out equal.
pub run-in_any_order :
    (spk : ScriptBuf) (cs ds : List Call)
    → (in_any_order (run cs (new spk)) ≡ in_any_order (run ds (new spk)))
      ↔ Alike (run cs (new spk)) (run ds (new spk))
run-in_any_order spk cs ds = (
  in_any_order-Alike _ _,
  λ a. Quot.sound (
      Alike-Same _ _ (run-scriptpubkey cs (new spk) ∙ sym (run-scriptpubkey ds (new spk)))
        (run-new-IsBalanced spk cs) (run-new-IsBalanced spk ds) a),
)
