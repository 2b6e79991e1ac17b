-- ===== src/HashMap/Laws.antt =====
-- The laws of the hash map that the components use.
use mwck_rs.Prelude.{ℕ, ◌+◌, ◌≡◌, refl, none, some, [], ◌∷◌, arith, ◌==◌, if◌then◌else◌, All}
use mwck_rs.HashMap.{Map, lookup, insert, remove, IsUnique, total}

module _ {ℓ} {V : Type ℓ} where
  pub lookup-insert :
      (k j : ℕ) (v : V) (m : Map V)
      → lookup j (insert k v m) ≡ (if k == j then some v else lookup j m)
  lookup-insert k j v [] = refl
  lookup-insert k j v ((i, w) ∷ m) = ground (arith, lookup-insert k j v m)

  pub lookup-remove :
      (k j : ℕ) (m : Map V) → lookup j (remove k m) ≡ (if k == j then none else lookup j m)
  lookup-remove k j [] = ground arith
  lookup-remove k j ((i, w) ∷ m) = ground (arith, lookup-remove k j m)

  pub insert-IsUnique : (k : ℕ) (v : V) (m : Map V) → IsUnique m → IsUnique (insert k v m)
  insert-IsUnique k v [] u = (refl, tt)
  insert-IsUnique k v ((i, w) ∷ m) u =
      ground (arith, insert-IsUnique k v m u.1, lookup-insert k i v m)

  pub remove-IsUnique : (k : ℕ) (m : Map V) → IsUnique m → IsUnique (remove k m)
  remove-IsUnique k [] u = tt
  remove-IsUnique k ((i, w) ∷ m) u = ground (arith, remove-IsUnique k m u.1, lookup-remove k i m)

  pub remove_absent : (k : ℕ) (m : Map V) → lookup k m ≡ none → remove k m ≡ m
  remove_absent k [] e = refl
  remove_absent k ((i, w) ∷ m) e = ground (arith, remove_absent k m)

  pub total-insert :
      (f : V → ℕ) (k : ℕ) (v : V) (m : Map V)
      → lookup k m ≡ none
      → total f (insert k v m) ≡ total f m + f v
  total-insert f k v [] e = omega arith
  total-insert f k v ((i, w) ∷ m) e = ground (arith, total-insert f k v m)

  pub total-remove :
      (f : V → ℕ) (k : ℕ) (v : V) (m : Map V)
      → IsUnique m
      → lookup k m ≡ some v
      → total f (remove k m) + f v ≡ total f m
  total-remove f k v [] u e = cc
  total-remove f k v ((i, w) ∷ m) u e = ground (arith, total-remove f k v m u.1, remove_absent k m)

  module _ {κ} (P : ℕ × V → Type κ) where
    pub insert-All : (k : ℕ) (v : V) (m : Map V) → P (k, v) → All P m → All P (insert k v m)
    insert-All k v [] p h = (p, tt)
    insert-All k v ((i, w) ∷ m) p h = ground (arith, insert-All k v m p h.1)

    pub remove-All : (k : ℕ) (m : Map V) → All P m → All P (remove k m)
    remove-All k [] h = tt
    remove-All k ((i, w) ∷ m) h = ground (arith, remove-All k m h.1)
