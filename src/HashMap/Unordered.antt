-- ===== src/HashMap/Unordered.antt =====
-- The values of a hash map up to the order in which it iterates.
use mathlib.Core.List.{Perm}
use mathlib.Core.List.Perm
use mwck_rs.Prelude.{
  ℕ, ◌≡◌, refl, sym, subst, inl, inr, Bool-cases, none, some, [], ◌∷◌, arith, ◌==◌,
}
use mwck_rs.HashMap.{Map, lookup, remove, IsUnique, values}
use mwck_rs.HashMap.Laws.{lookup-remove, remove-IsUnique, remove_absent}

module _ {ℓ} {V : Type ℓ} where
  values-remove :
      (k : ℕ) (v : V) (m : Map V)
      → IsUnique m
      → lookup k m ≡ some v
      → Perm (values m) (v ∷ values (remove k m))
  values-remove k v [] u e = cc
  values-remove k v ((j, w) ∷ m) u e = elim (Bool-cases (j == k)) [
    | inl at ↦
        let same : w ≡ v = ground arith in
        let gone : lookup k m ≡ none = ground arith in
        rw (at, remove_absent k m gone, same) (Perm.refl (v ∷ values m))
    | inr other ↦
        let held : lookup k m ≡ some v = ground arith in
        rw other (
          Perm.trans (Perm.cons w (values-remove k v m u.1 held))
            (Perm.swap v w (values (remove k m))))
  ]

  values-none : (m : Map V) → ((j : ℕ) → lookup j m ≡ none) → m ≡ []
  values-none [] h = refl
  values-none ((j, w) ∷ m) h = absurd (ground (arith, h j))

  -- Two maps that answer every lookup alike hold the same values.
  pub values_perm :
      (m n : Map V)
      → IsUnique m
      → IsUnique n
      → ((j : ℕ) → lookup j m ≡ lookup j n)
      → Perm (values m) (values n)
  values_perm [] n u v h =
      subst (λ l. Perm [] (values l)) (sym (values-none n λ j. sym (h j))) (Perm.refl [])
  values_perm ((k, x) ∷ m) n u v h =
      Perm.trans
        (Perm.cons x (
          values_perm m (remove k n) u.1 (remove-IsUnique k n v)
            (λ j. ground (arith, h j, lookup-remove k j n))))
        (Perm.symm (values-remove k x n v (ground (arith, h k))))
