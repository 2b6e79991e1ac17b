-- ===== src/Tracker/Restore.antt =====
-- A tracker that is saved as a state and restored from it.
use mwck_rs.Prelude.{
  ℕ, ◌+◌, ◌≡◌, refl, sym, ap, ◌∙◌, Bool, none, List, [], ◌∷◌, ◌++◌, append_assoc, append-nil, arith,
  All, Bool-cases, inl, inr,
}
use mwck_rs.HashMap.{Map, lookup, insert, values, total, contains_key}
use mwck_rs.Esplora.{ScriptBuf, Tx, IsWellDated}
use mwck_rs.Tracker.Balance.{Balances}
use mwck_rs.Tracker.Balance.Sums.{Holds, Holds-eq, tx_spent, tx_funded}
use mwck_rs.Tracker.Order.{in_time, insert_by_time, sort_by_time}
use mwck_rs.Tracker.Ledger.{IsBalanced, lookup-add_transaction}
use mwck_rs.Tracker.Sorting.{Apart, HaveOwnTxids, sort_by_time-perm, sort_of_perm, sort_by_time-All}
use mwck_rs.Tracker.Runs.{add-scriptpubkey, from-IsBalanced}
use mwck_rs.Tracker.Shown.{values-HaveOwnTxids}
use mwck_rs.Tracker.{Tracker, new, get_state, insert_transaction, add_transaction, add_all, from}

-- The sum of a measure over a list.
abbrev pub sum_by : (Tx → ℕ) → List Tx → ℕ
sum_by f [] = 0
sum_by f (x ∷ xs) = f x + sum_by f xs

sum_by-insert_by_time :
    (f : Tx → ℕ) (x : Tx) (l : List Tx) → sum_by f (insert_by_time x l) ≡ f x + sum_by f l
unfolding insert_by_time
sum_by-insert_by_time f x [] = refl
sum_by-insert_by_time f x (y ∷ l) = ground (arith, sum_by-insert_by_time f x l)

sum_by-sort_by_time : (f : Tx → ℕ) (l : List Tx) → sum_by f (sort_by_time l) ≡ sum_by f l
unfolding sort_by_time
sum_by-sort_by_time f [] = refl
sum_by-sort_by_time f (x ∷ l) =
    sum_by-insert_by_time f x (sort_by_time l) ∙ ap (λ n. f x + n) (sum_by-sort_by_time f l)

pub total-values : (f : Tx → ℕ) (m : Map Tx) → total f m ≡ sum_by f (values m)
total-values f [] = refl
total-values f ((k, x) ∷ m) = ap (λ n. f x + n) (total-values f m)

All-Apart-insert :
    (y x : Tx) (l : List Tx) → Apart y x → All (Apart y) l → All (Apart y) (insert_by_time x l)
unfolding insert_by_time
All-Apart-insert y x [] a h = (a, tt)
All-Apart-insert y x (z ∷ l) a h = ground (arith, All-Apart-insert y x l a h.1)

insert_by_time-HaveOwnTxids :
    (x : Tx) (l : List Tx) → All (Apart x) l → HaveOwnTxids l → HaveOwnTxids (insert_by_time x l)
unfolding insert_by_time
insert_by_time-HaveOwnTxids x [] a h = (tt, tt)
insert_by_time-HaveOwnTxids x (y ∷ l) a h = elim (Bool-cases (in_time x y)) [
  | inl e ↦ rw e (a, h)
  | inr e ↦
      rw e (All-Apart-insert y x l (λ q. a.0 (sym q)) h.0, insert_by_time-HaveOwnTxids x l a.1 h.1)
]

sort_by_time-HaveOwnTxids : (l : List Tx) → HaveOwnTxids l → HaveOwnTxids (sort_by_time l)
unfolding sort_by_time
sort_by_time-HaveOwnTxids [] h = tt
sort_by_time-HaveOwnTxids (x ∷ l) h =
    insert_by_time-HaveOwnTxids x (sort_by_time l) (sort_by_time-All (Apart x) l h.0)
      (sort_by_time-HaveOwnTxids l h.1)

values-insert_new :
    (k : ℕ) (x : Tx) (m : Map Tx) → lookup k m ≡ none → values (insert k x m) ≡ values m ++ x ∷ []
values-insert_new k x [] h = refl
values-insert_new k x ((j, y) ∷ m) h = ground (arith, values-insert_new k x m)

values-add_new :
    (tx : Tx) (t : Tracker)
    → lookup tx.txid t.transactions ≡ none
    → values (add_transaction tx t).transactions ≡ values t.transactions ++ tx ∷ []
unfolding add_transaction insert_transaction
values-add_new tx t h = rw (h, contains_key) (values-insert_new tx.txid tx t.transactions h)

abbrev AreNew : Tracker → List Tx → Type 0
AreNew t l = All (λ x. lookup x.txid t.transactions ≡ none) l

AreNew-add :
    (tx : Tx) (t : Tracker) (l : List Tx)
    → All (Apart tx) l
    → AreNew t l
    → AreNew (add_transaction tx t) l
AreNew-add tx t [] a n = tt
AreNew-add tx t (x ∷ l) a n =
    (lookup-add_transaction tx t x.txid ∙ ground (arith, a.0, n.0), AreNew-add tx t l a.1 n.1)

values-add_all :
    (l : List Tx) (t : Tracker)
    → AreNew t l
    → HaveOwnTxids l
    → values (add_all l t).transactions ≡ values t.transactions ++ l
unfolding add_all
values-add_all [] t n h = sym (append-nil (values t.transactions))
values-add_all (x ∷ l) t n h =
    values-add_all l (add_transaction x t) (AreNew-add x t l h.0 n.1) h.1
    ∙ ap (λ v. v ++ l) (values-add_new x t n.0)
    ∙ append_assoc (values t.transactions) (x ∷ []) l

add_all-scriptpubkey : (l : List Tx) (t : Tracker) → (add_all l t).scriptpubkey ≡ t.scriptpubkey
unfolding add_all
add_all-scriptpubkey [] t = refl
add_all-scriptpubkey (x ∷ l) t = add_all-scriptpubkey l (add_transaction x t) ∙ add-scriptpubkey x t

pub Holds-unique : (b b' : Balances) (s f : Bool → ℕ) → Holds b s f → Holds b' s f → b ≡ b'
Holds-unique b b' s f h h' = λ i. record {
  mempool = record {
    funded = (h.funded_mempool ∙ sym h'.funded_mempool) i;
    spent = (h.spent_mempool ∙ sym h'.spent_mempool) i;
  };
  confirmed = record {
    funded = (h.funded_confirmed ∙ sym h'.funded_confirmed) i;
    spent = (h.spent_confirmed ∙ sym h'.spent_confirmed) i;
  };
}

AreNew-new : (spk : ScriptBuf) (l : List Tx) → AreNew (new spk) l
unfolding new
AreNew-new spk [] = tt
AreNew-new spk (x ∷ l) = (refl, AreNew-new spk l)

values-from :
    (spk : ScriptBuf) (l : List Tx) → HaveOwnTxids l → values (add_all l (new spk)).transactions ≡ l
unfolding new
values-from spk l h = values-add_all l (new spk) (AreNew-new spk l) h

-- A balanced tracker of well dated transactions that is saved as its state and restored from it
-- shows that state again, its balance included.
pub get_state-from :
    (t : Tracker)
    → IsBalanced t
    → All IsWellDated (values t.transactions)
    → get_state (from (get_state t)) ≡ get_state t
unfolding get_state from new
get_state-from t b d =
    let held = values t.transactions in
    let l = sort_by_time held in
    let own = values-HaveOwnTxids t.transactions b.keyed b.unique in
    let u = add_all l (new t.scriptpubkey) in
    let spk = add_all-scriptpubkey l (new t.scriptpubkey) in
    let same = values-from t.scriptpubkey l (sort_by_time-HaveOwnTxids held own) in
    let sums = λ (f : Tx → ℕ).
      total-values f u.transactions
      ∙ ap (sum_by f) same
      ∙ sum_by-sort_by_time f held
      ∙ sym (total-values f t.transactions) in
    let sorted_own = sort_by_time-HaveOwnTxids held own in
    let holds =
      Holds-eq u.balance _ _ _ _
        (λ k. ap (λ s. total (tx_spent s k) u.transactions) spk ∙ sums (tx_spent t.scriptpubkey k))
        (λ k.
          ap (λ s. total (tx_funded s k) u.transactions) spk ∙ sums (tx_funded t.scriptpubkey k))
        (from-IsBalanced (get_state t)).holds in
    let balance = Holds-unique u.balance t.balance _ _ holds b.holds in
    let sorted =
      sort_of_perm l held (sort_by_time-perm held) sorted_own
        (sort_by_time-All IsWellDated held d) in
    λ i. record {
      scriptpubkey = spk i;
      transactions = (ap sort_by_time same ∙ sorted) i;
      balance = balance i;
    }
