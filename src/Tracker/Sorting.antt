-- ===== src/Tracker/Sorting.antt =====
-- The order of transactions is total on well dated ones, and the sort of `get_state` sorts by it.
use mathlib.Core.List.{Perm, Permᴰ}
use mathlib.Core.List.Perm
use mathlib.Core.Logic.{∥∥₁_elim}
use mathlib.Core.Path.{subst₂}
use mwck_rs.Prelude.{
  ℕ, ◌^◌, ◌≤◌, ◌<◌, ◌≡◌, refl, sym, ◌∙◌, subst, ◌≢◌, ◌⊎◌, inl, inr, true, false, not, Option, none,
  some, List, [], ◌∷◌, arith, compare, Ordering, All, Bool-cases,
}
use mwck_rs.Esplora.{Tx, IsWellDated}
use mwck_rs.Tracker.Order.{
  partial_cmp_tx_time, partial_cmp_tx_time-ne-none, expect, cmp_tx_time, in_time, insert_by_time,
  sort_by_time,
}

-- Confirmed transactions count by height, and the mempool comes after every block.
abbrev pub height_rank : Option ℕ → ℕ
height_rank none = 2 ^ 32
height_rank (some h) = h

abbrev pub rank : Tx → ℕ
rank tx = height_rank tx.status.block_height

expect_lem {ℓ} : {A : Type ℓ} (o : Option A) (h : o ≢ none) (a : A) → o ≡ some a → expect o h ≡ a
unfolding expect
expect_lem none h a e = absurd (h refl)
expect_lem (some b) h a e = cc

cmp_of_partial : (a b : Tx) (o : Ordering) → partial_cmp_tx_time a b ≡ some o → cmp_tx_time a b ≡ o
unfolding cmp_tx_time
cmp_of_partial a b o e = expect_lem (partial_cmp_tx_time a b) (partial_cmp_tx_time-ne-none a b) o e

-- By rank, and by txid within a rank.
abbrev pub rank_cmp : Tx → Tx → Ordering
rank_cmp a b = elim (compare (rank a) (rank b)) [
  | Ordering.lt ↦ Ordering.lt
  | Ordering.gt ↦ Ordering.gt
  | Ordering.eq ↦ compare a.txid b.txid
]

partial_cmp-rank_cmp :
    (a b : Tx) → IsWellDated a → IsWellDated b → partial_cmp_tx_time a b ≡ some (rank_cmp a b)
unfolding partial_cmp_tx_time
partial_cmp-rank_cmp a b da db = ground arith

-- On well dated transactions `cmp_tx_time` is the lexicographic order of rank and txid.
pub cmp_tx_time-rank_cmp :
    (a b : Tx) → IsWellDated a → IsWellDated b → cmp_tx_time a b ≡ rank_cmp a b
cmp_tx_time-rank_cmp a b da db = cmp_of_partial a b (rank_cmp a b) (partial_cmp-rank_cmp a b da db)

abbrev pub Before : Tx → Tx → Type 0
Before a b = (rank a < rank b) ⊎ ((rank a ≡ rank b) × (a.txid ≤ b.txid))

pub in_time→Before : (a b : Tx) → IsWellDated a → IsWellDated b → in_time a b ≡ true → Before a b
unfolding in_time
in_time→Before a b da db h = ground (arith, cmp_tx_time-rank_cmp a b da db)

pub not-in_time→Before :
    (a b : Tx) → IsWellDated a → IsWellDated b → in_time a b ≡ false → Before b a
unfolding in_time
not-in_time→Before a b da db h = ground (arith, cmp_tx_time-rank_cmp a b da db)

pub Before→in_time : (a b : Tx) → IsWellDated a → IsWellDated b → Before a b → in_time a b ≡ true
unfolding in_time
Before→in_time a b da db h = ground (arith, cmp_tx_time-rank_cmp a b da db)

-- Each transaction stands before all that follow it.
abbrev pub IsSorted : List Tx → Type 0
IsSorted [] = Unit
IsSorted (x ∷ xs) = All (Before x) xs × IsSorted xs

Before-trans : (a b c : Tx) → Before a b → Before b c → Before a c
Before-trans a b c h k = omega arith

insert_by_time-All {κ} :
    (P : Tx → Type κ) (x : Tx) (l : List Tx) → P x → All P l → All P (insert_by_time x l)
unfolding insert_by_time
insert_by_time-All P x [] p h = (p, tt)
insert_by_time-All P x (y ∷ l) p h = ground (arith, insert_by_time-All P x l p h.1)

pub sort_by_time-All {κ} : (P : Tx → Type κ) (l : List Tx) → All P l → All P (sort_by_time l)
unfolding sort_by_time
sort_by_time-All P [] h = tt
sort_by_time-All P (x ∷ l) h =
    insert_by_time-All P x (sort_by_time l) h.0 (sort_by_time-All P l h.1)

pub All-Before : (x y : Tx) (l : List Tx) → Before x y → All (Before y) l → All (Before x) l
All-Before x y [] h k = tt
All-Before x y (z ∷ l) h k = (Before-trans x y z h k.0, All-Before x y l h k.1)

insert_by_time-IsSorted :
    (x : Tx) (l : List Tx)
    → IsWellDated x
    → All IsWellDated l
    → IsSorted l
    → IsSorted (insert_by_time x l)
unfolding insert_by_time
insert_by_time-IsSorted x [] d ds s = (tt, tt)
insert_by_time-IsSorted x (y ∷ l) d ds s = elim (Bool-cases (in_time x y)) [
  | inl e ↦ let h = in_time→Before x y d ds.0 e in rw e ((h, All-Before x y l h s.0), s)
  | inr e ↦ rw e (
    insert_by_time-All (Before y) x l (not-in_time→Before x y d ds.0 e) s.0,
    insert_by_time-IsSorted x l d ds.1 s.1,
  )
]

-- Oldest first: the result of the sort is sorted.
pub sort_by_time-IsSorted : (l : List Tx) → All IsWellDated l → IsSorted (sort_by_time l)
unfolding sort_by_time
sort_by_time-IsSorted [] d = tt
sort_by_time-IsSorted (x ∷ l) d =
    insert_by_time-IsSorted x (sort_by_time l) d.0 (sort_by_time-All IsWellDated l d.1)
      (sort_by_time-IsSorted l d.1)

insert_by_time-perm : (x : Tx) (l : List Tx) → Perm (insert_by_time x l) (x ∷ l)
unfolding insert_by_time
insert_by_time-perm x [] = Perm.refl (x ∷ [])
insert_by_time-perm x (y ∷ l) = elim (Bool-cases (in_time x y)) [
  | inl e ↦ rw e (Perm.refl (x ∷ y ∷ l))
  | inr e ↦ rw e (Perm.trans (Perm.cons y (insert_by_time-perm x l)) (Perm.swap x y l))
]

pub sort_by_time-perm : (l : List Tx) → Perm (sort_by_time l) l
unfolding sort_by_time
sort_by_time-perm [] = Perm.refl []
sort_by_time-perm (x ∷ l) =
    Perm.trans (insert_by_time-perm x (sort_by_time l)) (Perm.cons x (sort_by_time-perm l))

in_time_flip :
    (x y : Tx) → x.txid ≢ y.txid → IsWellDated x → IsWellDated y → in_time y x ≡ not (in_time x y)
unfolding in_time
in_time_flip x y ne dx dy =
    ground (arith, cmp_tx_time-rank_cmp x y dx dy, cmp_tx_time-rank_cmp y x dy dx)

in_time_trans :
    (x y z : Tx)
    → IsWellDated x
    → IsWellDated y
    → IsWellDated z
    → in_time x y ≡ true
    → in_time y z ≡ true
    → in_time x z ≡ true
in_time_trans x y z dx dy dz h k =
    Before→in_time x z dx dz
      (Before-trans x y z (in_time→Before x y dx dy h) (in_time→Before y z dy dz k))

-- Two transactions with different txids go into a list in either order.
insert_comm :
    (x y : Tx) (l : List Tx)
    → x.txid ≢ y.txid
    → IsWellDated x
    → IsWellDated y
    → All IsWellDated l
    → insert_by_time x (insert_by_time y l) ≡ insert_by_time y (insert_by_time x l)
unfolding insert_by_time
insert_comm x y [] ne dx dy d = ground (arith, in_time_flip x y ne dx dy)
insert_comm x y (z ∷ l) ne dx dy d = ground (
  arith,
  in_time_flip x y ne dx dy,
  in_time_trans x y z dx dy d.0,
  in_time_trans y x z dy dx d.0,
  insert_comm x y l ne dx dy d.1,
)

-- No other transaction of a list has the txid.
abbrev pub Apart : Tx → Tx → Type 0
Apart x y = x.txid ≢ y.txid

abbrev pub HaveOwnTxids : List Tx → Type 0
HaveOwnTxids [] = Unit
HaveOwnTxids (x ∷ xs) = All (Apart x) xs × HaveOwnTxids xs

Permᴰ-All {κ} : (P : Tx → Type κ) {l l' : List Tx} → Permᴰ l l' → All P l → All P l'
Permᴰ-All P Permᴰ.nil h = tt
Permᴰ-All P (Permᴰ.cons e p) h = (subst P e h.0, Permᴰ-All P p h.1)
Permᴰ-All P (Permᴰ.swap e f) h = (subst P f h.1.0, (subst P e h.0, h.1.1))
Permᴰ-All P (Permᴰ.trans p q) h = Permᴰ-All P q (Permᴰ-All P p h)

Permᴰ-HaveOwnTxids : {l l' : List Tx} → Permᴰ l l' → HaveOwnTxids l → HaveOwnTxids l'
Permᴰ-HaveOwnTxids Permᴰ.nil h = tt
Permᴰ-HaveOwnTxids (Permᴰ.cons {b = b} {l₂ = l₂} e p) h =
    (subst (λ x. All (Apart x) l₂) e (Permᴰ-All _ p h.0), Permᴰ-HaveOwnTxids p h.1)
Permᴰ-HaveOwnTxids (Permᴰ.swap {l = l} e f) h = (
  (subst₂ Apart f e (λ q. h.0.0 (sym q)), subst (λ x. All (Apart x) l) f h.1.0),
  (subst (λ x. All (Apart x) l) e h.0.1, h.1.1),
)
Permᴰ-HaveOwnTxids (Permᴰ.trans p q) h = Permᴰ-HaveOwnTxids q (Permᴰ-HaveOwnTxids p h)

sort_of_permᴰ :
    {l l' : List Tx}
    → Permᴰ l l'
    → HaveOwnTxids l
    → All IsWellDated l
    → sort_by_time l ≡ sort_by_time l'
unfolding sort_by_time
sort_of_permᴰ Permᴰ.nil h d = refl
sort_of_permᴰ (Permᴰ.cons e p) h d = cc (e, sort_of_permᴰ p h.1 d.1)
sort_of_permᴰ (Permᴰ.swap {a = a} {b = b} {l = l} e f) h d =
    insert_comm a b (sort_by_time l) h.0.0 d.0 d.1.0 (sort_by_time-All IsWellDated l d.1.1)
    ∙ cc (e, f)
sort_of_permᴰ (Permᴰ.trans p q) h d =
    sort_of_permᴰ p h d ∙ sort_of_permᴰ q (Permᴰ-HaveOwnTxids p h) (Permᴰ-All IsWellDated p d)

Tx_list-set : IsSet (List Tx)
Tx_list-set = hlevel

-- The order in which the transactions come does not matter to the sort.
pub sort_of_perm :
    (l l' : List Tx)
    → Perm l l'
    → HaveOwnTxids l
    → All IsWellDated l
    → sort_by_time l ≡ sort_by_time l'
sort_of_perm l l' p h d = ∥∥₁_elim p (Tx_list-set _ _) (λ q. sort_of_permᴰ q h d)
