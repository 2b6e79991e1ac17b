-- ===== src/Tracker/Order.antt =====
-- src/wallet/address/mod.rs: the order of transactions, and the stable sort of `get_state`.
use mwck_rs.Prelude.{
  refl, ◌≢◌, Bool, true, false, not, ◌&&◌, ◌||◌, Option, none, some, List, [], ◌∷◌, arith, compare,
  Ordering, opt_eq, opt_compare, if◌then◌else◌,
}
use mwck_rs.Esplora.{Tx}

-- The `match` on the two `confirmed` flags.
abbrev pub cmp_confirmed : Tx → Tx → Bool → Bool → Option Ordering
cmp_confirmed a b true true = some (opt_compare a.status.block_height b.status.block_height)
cmp_confirmed a b true false = some Ordering.lt
cmp_confirmed a b false true = some Ordering.gt
cmp_confirmed a b false false = some Ordering.eq

unfoldable pub partial_cmp_tx_time : Tx → Tx → Option Ordering
partial_cmp_tx_time a b =
    if (a.status.confirmed || b.status.confirmed)
      && not (opt_eq a.status.block_height b.status.block_height)
    then cmp_confirmed a b a.status.confirmed b.status.confirmed
    else some (compare a.txid b.txid)

-- The `expect` of `cmp_tx_time` does not panic: the comparison always has a result.
pub partial_cmp_tx_time-ne-none : (a b : Tx) → partial_cmp_tx_time a b ≢ none
unfolding partial_cmp_tx_time
partial_cmp_tx_time-ne-none a b = ground arith

-- `Option::expect` where the value is known to be there.
unfoldable pub expect {ℓ} : {A : Type ℓ} (o : Option A) → o ≢ none → A
expect none h = absurd (h refl)
expect (some a) h = a

unfoldable pub cmp_tx_time : Tx → Tx → Ordering
unfolding expect
cmp_tx_time a b = expect (partial_cmp_tx_time a b) (partial_cmp_tx_time-ne-none a b)

-- Whether `a` may stand before `b`: `cmp_tx_time(a, b)` is not `Greater`.
unfoldable pub in_time : Tx → Tx → Bool
in_time a b = elim (cmp_tx_time a b) [ Ordering.gt ↦ false | _ ↦ true ]

-- The stable sort of the standard library, as insertion from the right.
unfoldable pub insert_by_time : Tx → List Tx → List Tx
insert_by_time x [] = x ∷ []
insert_by_time x (y ∷ ys) = if in_time x y then x ∷ y ∷ ys else y ∷ insert_by_time x ys

unfoldable pub sort_by_time : List Tx → List Tx
sort_by_time [] = []
sort_by_time (x ∷ xs) = insert_by_time x (sort_by_time xs)
