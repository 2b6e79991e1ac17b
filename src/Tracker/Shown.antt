-- ===== src/Tracker/Shown.antt =====
-- What `get_state` shows of a tracker.
use mathlib.Core.List.{Perm}
use mwck_rs.Prelude.{ℕ, ◌≡◌, sym, none, List, [], ◌∷◌, arith, All}
use mwck_rs.HashMap.{Map, lookup, IsUnique, values}
use mwck_rs.Esplora.{Txid, Tx, IsWellDated}
use mwck_rs.Tracker.Ledger.{IsBalanced}
use mwck_rs.Tracker.Order.{sort_by_time}
use mwck_rs.Tracker.Sorting.{
  IsSorted, Apart, HaveOwnTxids, sort_by_time-IsSorted, sort_by_time-perm, sort_of_perm,
}
use mwck_rs.Tracker.{Tracker, get_state}

abbrev pub IsKeyed : Map Tx → Type 0
IsKeyed m = All (λ (e : ℕ × Tx). e.0 ≡ e.1.txid) m

Apart-values :
    (k : Txid) (x : Tx) (m : Map Tx)
    → k ≡ x.txid
    → IsKeyed m
    → lookup k m ≡ none
    → All (Apart x) (values m)
Apart-values k x [] e h n = tt
Apart-values k x ((j, y) ∷ m) e h n = ground (arith, Apart-values k x m e h.1)

pub values-HaveOwnTxids : (m : Map Tx) → IsKeyed m → IsUnique m → HaveOwnTxids (values m)
values-HaveOwnTxids [] h u = tt
values-HaveOwnTxids ((k, x) ∷ m) h u =
    (Apart-values k x m h.0 h.1 u.0, values-HaveOwnTxids m h.1 u.1)

-- The transactions of the state are those held, each once and oldest first, and no other list is
-- shown if the hash map iterates in another order.
pub get_state_lem :
    (t : Tracker) (order : List Tx)
    → IsBalanced t
    → All IsWellDated (values t.transactions)
    → Perm (values t.transactions) order
    → IsSorted (get_state t).transactions
      × Perm (get_state t).transactions (values t.transactions)
      × (sort_by_time order ≡ (get_state t).transactions)
unfolding get_state
get_state_lem t order b d p = (
  sort_by_time-IsSorted (values t.transactions) d,
  sort_by_time-perm (values t.transactions),
  sym (
      sort_of_perm (values t.transactions) order p
        (values-HaveOwnTxids t.transactions b.keyed b.unique) d),
)
