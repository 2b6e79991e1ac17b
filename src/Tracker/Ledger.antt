-- ===== src/Tracker/Ledger.antt =====
-- The balance of a tracker against the transactions that it holds.
use mwck_rs.Prelude.{
  ℕ, ◌≡◌, refl, ◌∙◌, inl, inr, Bool, Option, none, some, arith, ◌==◌, if◌then◌else◌, All,
  Bool-cases,
}
use mwck_rs.HashMap.{Map, lookup, remove, contains_key, IsUnique, total}
use mwck_rs.HashMap.Laws.{
  lookup-insert, lookup-remove, insert-IsUnique, remove-IsUnique, total-insert, total-remove,
  insert-All, remove-All,
}
use mwck_rs.Esplora.{ScriptBuf, Txid, Tx}
use mwck_rs.Tracker.Balance.Sums.{Holds, Holds-eq, tx_spent, tx_funded, tx-add, tx-sub}
use mwck_rs.Tracker.{
  Tracker, new, remove_found, remove_transaction, insert_transaction, add_transaction,
}

-- What the held transactions spend from the address, and what they pay to it.
abbrev pub held_spent : ScriptBuf → Map Tx → Bool → ℕ
held_spent spk txs k = total (tx_spent spk k) txs

abbrev pub held_funded : ScriptBuf → Map Tx → Bool → ℕ
held_funded spk txs k = total (tx_funded spk k) txs

-- Each transaction is held once, under its txid, and each counter is the sum over the
-- transactions held, up to the wrap-around of `u64`.
pub record IsBalanced (t : Tracker) : Type 0 where
  pub keyed : All (λ (e : ℕ × Tx). e.0 ≡ e.1.txid) t.transactions
  pub unique : IsUnique t.transactions
  pub holds :
      Holds t.balance
        (held_spent t.scriptpubkey t.transactions)
        (held_funded t.scriptpubkey t.transactions)

pub new-IsBalanced : (spk : ScriptBuf) → IsBalanced (new spk)
unfolding new
new-IsBalanced spk = record { keyed = tt; unique = tt; holds = omega arith }

remove_found-IsBalanced :
    (t : Tracker) (txid : Txid) (o : Option Tx)
    → lookup txid t.transactions ≡ o
    → IsBalanced t
    → IsBalanced (remove_found t txid o)
unfolding remove_found
remove_found-IsBalanced t txid none e b = b
remove_found-IsBalanced t txid (some tx) e b = record {
  keyed = remove-All (λ (e : ℕ × Tx). e.0 ≡ e.1.txid) txid t.transactions b.keyed;
  unique = remove-IsUnique txid t.transactions b.unique;
  holds =
      let spk = t.scriptpubkey in
      tx-sub spk tx t.balance (held_spent spk (remove txid t.transactions))
        (held_funded spk (remove txid t.transactions))
        (Holds-eq t.balance _ _ _ _
          (λ k. omega (arith, total-remove (tx_spent spk k) txid tx t.transactions b.unique e))
          (λ k. omega (arith, total-remove (tx_funded spk k) txid tx t.transactions b.unique e))
          b.holds);
}

pub remove_transaction-IsBalanced :
    (txid : Txid) (t : Tracker) → IsBalanced t → IsBalanced (remove_transaction txid t)
unfolding remove_transaction
remove_transaction-IsBalanced txid t b =
    remove_found-IsBalanced t txid (lookup txid t.transactions) refl b

insert_transaction-IsBalanced :
    (tx : Tx) (t : Tracker)
    → lookup tx.txid t.transactions ≡ none
    → IsBalanced t
    → IsBalanced (insert_transaction tx t)
unfolding insert_transaction
insert_transaction-IsBalanced tx t e b = record {
  keyed = insert-All (λ (e : ℕ × Tx). e.0 ≡ e.1.txid) tx.txid tx t.transactions refl b.keyed;
  unique = insert-IsUnique tx.txid tx t.transactions b.unique;
  holds =
      let spk = t.scriptpubkey in
      Holds-eq _ _ _ _ _
        (λ k. omega (arith, total-insert (tx_spent spk k) tx.txid tx t.transactions e))
        (λ k. omega (arith, total-insert (tx_funded spk k) tx.txid tx t.transactions e))
        (tx-add spk tx t.balance _ _ b.holds);
}

-- What `remove_transaction` leaves in the map.
remove_found-transactions :
    (txid : Txid) (t : Tracker) (o : Option Tx)
    → lookup txid t.transactions ≡ o
    → (j : Txid)
    → lookup j (remove_found t txid o).transactions
      ≡ (if txid == j then none else lookup j t.transactions)
unfolding remove_found
remove_found-transactions txid t none e j = ground arith
remove_found-transactions txid t (some tx) e j = lookup-remove txid j t.transactions

pub lookup-remove_transaction :
    (txid : Txid) (t : Tracker) (j : Txid)
    → lookup j (remove_transaction txid t).transactions
      ≡ (if txid == j then none else lookup j t.transactions)
unfolding remove_transaction
lookup-remove_transaction txid t j =
    remove_found-transactions txid t (lookup txid t.transactions) refl j

pub lookup-add_transaction :
    (tx : Tx) (t : Tracker) (j : Txid)
    → lookup j (add_transaction tx t).transactions
      ≡ (if tx.txid == j then some tx else lookup j t.transactions)
unfolding add_transaction insert_transaction
lookup-add_transaction tx t j = elim (Bool-cases (contains_key tx.txid t.transactions)) [
  | inl held ↦ rw (held, lookup-insert, lookup-remove_transaction) (ground arith)
  | inr new_one ↦ rw (new_one, lookup-insert)
]

pub add_transaction-IsBalanced :
    (tx : Tx) (t : Tracker) → IsBalanced t → IsBalanced (add_transaction tx t)
unfolding add_transaction
add_transaction-IsBalanced tx t b = elim (Bool-cases (contains_key tx.txid t.transactions)) [
  | inl held ↦ rw held (
      insert_transaction-IsBalanced tx _
        (lookup-remove_transaction tx.txid t tx.txid ∙ ground arith)
        (remove_transaction-IsBalanced tx.txid t b))
  | inr new_one ↦ rw new_one (insert_transaction-IsBalanced tx t (ground arith) b)
]
