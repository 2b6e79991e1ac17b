-- ===== src/Wallet/Sync/Stale.antt =====
-- Which transactions a sync walks over before it meets one that is settled.
use mathlib.Core.List.{reverse-cons}
use mwck_rs.Prelude.{
  ℕ, ◌≡◌, refl, Bool, true, false, not, Option, List, [], ◌∷◌, ◌++◌, reverse, arith, All,
  All-append, find, select, take_while,
}
use mwck_rs.Esplora.{Tx, IsWellDated}
use mwck_rs.Tracker.{State}
use mwck_rs.Tracker.Sorting.{Before, IsSorted}
use mwck_rs.Wallet.Sync.{is_confirmed, last_confirmed, last_height, is_unsettled}

abbrev pub is_unconfirmed : Tx → Bool
is_unconfirmed tx = not tx.status.confirmed

pub reverse-All {κ} : (P : Tx → Type κ) (l : List Tx) → All P l → All P (reverse l)
reverse-All P [] h = tt
reverse-All P (x ∷ l) h =
    rw (reverse-cons x l) (All-append P (reverse l) (x ∷ []) (reverse-All P l h.1) (h.0, tt))

abbrev IsConfirmed : Tx → Type 0
IsConfirmed tx = tx.status.confirmed ≡ true

-- From the first confirmed transaction on, all are confirmed.
abbrev GoesDown : List Tx → Type 0
GoesDown [] = Unit
GoesDown (x ∷ xs) = (IsConfirmed x → All IsConfirmed xs) × GoesDown xs

append-GoesDown :
    (l : List Tx) (x : Tx)
    → All (λ y. IsConfirmed y → IsConfirmed x) l
    → GoesDown l
    → GoesDown (l ++ x ∷ [])
append-GoesDown [] x h g = (λ _. tt, tt)
append-GoesDown (y ∷ l) x h g =
    (λ c. All-append IsConfirmed l (x ∷ []) (g.0 c) (h.0 c, tt), append-GoesDown l x h.1 g.1)

IsConfirmed-Before :
    (x y : Tx) → IsWellDated x → IsWellDated y → Before x y → IsConfirmed y → IsConfirmed x
IsConfirmed-Before x y dx dy b c = ground arith

IsConfirmed-Before-All :
    (x : Tx) (l : List Tx)
    → IsWellDated x
    → All IsWellDated l
    → All (Before x) l
    → All (λ y. IsConfirmed y → IsConfirmed x) l
IsConfirmed-Before-All x [] dx d b = tt
IsConfirmed-Before-All x (y ∷ l) dx d b =
    (IsConfirmed-Before x y dx d.0 b.0, IsConfirmed-Before-All x l dx d.1 b.1)

sorted-GoesDown : (l : List Tx) → All IsWellDated l → IsSorted l → GoesDown (reverse l)
sorted-GoesDown [] d s = tt
sorted-GoesDown (x ∷ l) d s = rw (reverse-cons x l) (
    append-GoesDown (reverse l) x (reverse-All _ l (IsConfirmed-Before-All x l d.0 d.1 s.0))
      (sorted-GoesDown l d.1 s.1))

none_confirmed : (l : List Tx) → All IsConfirmed l → select is_unconfirmed l ≡ []
none_confirmed [] h = refl
none_confirmed (x ∷ l) h = ground (arith, none_confirmed l h.1)

settled : (x : Tx) → IsWellDated x → IsConfirmed x → is_unsettled x.status.block_height x ≡ false
settled x d c = ground arith

take_while_unsettled :
    (l : List Tx) (height : Option ℕ)
    → All IsWellDated l
    → GoesDown l
    → last_height (find is_confirmed l) ≡ height
    → take_while (is_unsettled height) l ≡ select is_unconfirmed l
take_while_unsettled [] height d g e = refl
take_while_unsettled (x ∷ l) height d g e =
    ground (arith, settled x d.0, none_confirmed l, g.0, take_while_unsettled l height d.1 g.1)

-- The newest confirmed transaction held is settled, so a sync walks over the mempool and no more.
pub unsettled-eq-unconfirmed :
    (s : State)
    → All IsWellDated s.transactions
    → IsSorted s.transactions
    → take_while (is_unsettled (last_height (last_confirmed s))) (reverse s.transactions)
      ≡ select is_unconfirmed (reverse s.transactions)
unfolding last_confirmed
unsettled-eq-unconfirmed s d h =
    take_while_unsettled (reverse s.transactions) _ (reverse-All IsWellDated s.transactions d)
      (sorted-GoesDown s.transactions d h) refl
