-- ===== src/Tracker/History.antt =====
-- What a tracker shows that holds the transactions of one history of its address.
use mathlib.Core.List.{Perm, Permᴰ}
use mathlib.Core.Logic.{∥∥₁_elim}
use mwck_rs.Prelude.{
  ℕ, ◌≡◌, refl, sym, ◌∙◌, ap, subst, Option, none, List, [], ◌∷◌, map, arith, ◌==◌, find, All,
}
use mwck_rs.HashMap.{Map, lookup, IsUnique, values, total}
use mwck_rs.HashMap.Unordered.{values_perm}
use mwck_rs.Esplora.{ScriptBuf, Txid, Tx, IsWellDated}
use mwck_rs.Tracker.{State, Tracker, get_state}
use mwck_rs.Tracker.Balance.Sums.{Holds, Holds-eq, tx_spent, tx_funded}
use mwck_rs.Tracker.Ledger.{IsBalanced}
use mwck_rs.Tracker.Order.{sort_by_time}
use mwck_rs.Tracker.Restore.{sum_by, total-values}
use mwck_rs.Tracker.Sorting.{Apart, HaveOwnTxids, sort_of_perm}

abbrev pub in_history : Txid → List Tx → Option Tx
in_history j history = find (λ x. x.txid == j) history

-- A state of this address with the whole history, oldest first, and its sums as its balances.
pub record Shows (spk : ScriptBuf) (history : List Tx) (s : State) : Type 0 where
  pub scriptpubkey : s.scriptpubkey ≡ spk
  pub transactions : s.transactions ≡ sort_by_time history
  pub balance :
      Holds s.balance (λ k. sum_by (tx_spent spk k) history) (λ k. sum_by (tx_funded spk k) history)

-- The history as a map.
abbrev by_txid : List Tx → Map Tx
by_txid history = map (λ (x : Tx). (x.txid, x)) history

lookup-by_txid : (j : Txid) (l : List Tx) → lookup j (by_txid l) ≡ in_history j l
lookup-by_txid j [] = refl
lookup-by_txid j (x ∷ l) = ground (arith, lookup-by_txid j l)

values-by_txid : (l : List Tx) → values (by_txid l) ≡ l
values-by_txid [] = refl
values-by_txid (x ∷ l) = ap (λ r. x ∷ r) (values-by_txid l)

in_history-Apart : (x : Tx) (l : List Tx) → All (Apart x) l → in_history x.txid l ≡ none
in_history-Apart x [] a = refl
in_history-Apart x (y ∷ l) a = ground (arith, in_history-Apart x l a.1, a.0)

by_txid-IsUnique : (l : List Tx) → HaveOwnTxids l → IsUnique (by_txid l)
by_txid-IsUnique [] h = tt
by_txid-IsUnique (x ∷ l) h =
    (lookup-by_txid x.txid l ∙ in_history-Apart x l h.0, by_txid-IsUnique l h.1)

sum_by-Permᴰ : (f : Tx → ℕ) {l l' : List Tx} → Permᴰ l l' → sum_by f l ≡ sum_by f l'
sum_by-Permᴰ f Permᴰ.nil = refl
sum_by-Permᴰ f (Permᴰ.cons e p) = cc (e, sum_by-Permᴰ f p)
sum_by-Permᴰ f (Permᴰ.swap {a = a} {b = b} {l = l} e g) = omega (arith, ap f e, ap f g)
sum_by-Permᴰ f (Permᴰ.trans p q) = sum_by-Permᴰ f p ∙ sum_by-Permᴰ f q

ℕ-set : IsSet ℕ
ℕ-set = hlevel

pub sum_by-perm : (f : Tx → ℕ) (l l' : List Tx) → Perm l l' → sum_by f l ≡ sum_by f l'
sum_by-perm f l l' p = ∥∥₁_elim p (ℕ-set _ _) (λ q. sum_by-Permᴰ f q)

-- The state of a balanced tracker is settled by which transactions it holds.
pub get_state-Shows :
    (t : Tracker) (history : List Tx)
    → IsBalanced t
    → ((j : Txid) → lookup j t.transactions ≡ in_history j history)
    → HaveOwnTxids history
    → All IsWellDated history
    → Shows t.scriptpubkey history (get_state t)
unfolding get_state
get_state-Shows t history b same own dated =
    let p : Perm history (values t.transactions) =
      subst (λ l. Perm l (values t.transactions)) (values-by_txid history)
        (values_perm (by_txid history) t.transactions (by_txid-IsUnique history own) b.unique
          (λ j. lookup-by_txid j history ∙ sym (same j))) in
    let sums : (f : Tx → ℕ) → total f t.transactions ≡ sum_by f history =
      λ f. total-values f t.transactions ∙ sym (sum_by-perm f _ _ p) in
    record {
      scriptpubkey = refl;
      transactions = sym (sort_of_perm history (values t.transactions) p own dated);
      balance =
          Holds-eq t.balance _ _ _ _ (λ k. sums (tx_spent t.scriptpubkey k))
            (λ k. sums (tx_funded t.scriptpubkey k)) b.holds;
    }
