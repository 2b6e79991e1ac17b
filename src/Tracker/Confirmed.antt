-- ===== src/Tracker/Confirmed.antt =====
-- The confirmed part of a sorted history.
use mwck_rs.Prelude.{
  ◌≡◌, refl, sym, ◌∙◌, ap, Bool, inl, inr, List, [], ◌∷◌, arith, if◌then◌else◌, All, select,
  All-select, Bool-cases,
}
use mwck_rs.Esplora.{Tx, IsWellDated}
use mwck_rs.Tracker.Order.{in_time, insert_by_time, sort_by_time}
use mwck_rs.Tracker.Sorting.{
  Before, IsSorted, Before→in_time, in_time→Before, All-Before, sort_by_time-All,
  sort_by_time-IsSorted,
}

-- What stands before all of a list goes to its front.
insert_by_time-front :
    (x : Tx) (l : List Tx)
    → IsWellDated x
    → All IsWellDated l
    → All (Before x) l
    → insert_by_time x l ≡ x ∷ l
unfolding insert_by_time
insert_by_time-front x [] d ds b = refl
insert_by_time-front x (y ∷ l) d ds b = rw (Before→in_time x y d ds.0 b.0) refl

select-insert_by_time :
    (p : Tx → Bool) (x : Tx) (l : List Tx)
    → IsWellDated x
    → All IsWellDated l
    → IsSorted l
    → select p (insert_by_time x l) ≡ (if p x then insert_by_time x (select p l) else select p l)
unfolding insert_by_time
select-insert_by_time p x [] d ds s = ground arith
select-insert_by_time p x (y ∷ l) d ds s = elim (Bool-cases (in_time x y)) [
  | inl first ↦
      let b = in_time→Before x y d ds.0 first in
      let front =
        insert_by_time-front x (select p (y ∷ l)) d (All-select _ p (y ∷ l) ds)
          (All-select _ p (y ∷ l) (b, All-Before x y l b s.0)) in
      rw (first, insert_by_time) (ap (λ r. if p x then r else select p (y ∷ l)) (sym front))
  | inr later ↦ ground (arith, later, select-insert_by_time p x l d ds.1 s.1)
]

-- Sorting and then keeping some is keeping some and then sorting.
pub select-sort_by_time :
    (p : Tx → Bool) (l : List Tx)
    → All IsWellDated l
    → select p (sort_by_time l) ≡ sort_by_time (select p l)
unfolding sort_by_time
select-sort_by_time p [] d = refl
select-sort_by_time p (x ∷ l) d =
    let sorted = sort_by_time l in
    select-insert_by_time p x sorted d.0 (sort_by_time-All IsWellDated l d.1)
      (sort_by_time-IsSorted l d.1)
    ∙ elim (Bool-cases (p x)) [
      | inl kept ↦ rw (kept, select-sort_by_time p l d.1) refl
      | inr dropped ↦ rw (dropped, select-sort_by_time p l d.1) refl
    ]
