-- ===== src/BdkExt/SortedMap.antt =====
-- `BTreeMap` and `BTreeSet`, keyed by numbers, as association lists in ascending order of the keys.
use mwck_rs.Prelude.{
  ℕ, ◌<◌, ◌≤◌, ◌≡◌, refl, some, List, [], ◌∷◌, arith, ltb, leb, ◌==◌, if◌then◌else◌, All, select,
}
use mwck_rs.HashMap.{Map, lookup}

-- `m.insert(k, v)`
unfoldable pub put : ℕ → ℕ → Map ℕ → Map ℕ
put k v [] = (k, v) ∷ []
put k v ((j, w) ∷ m) =
    let rest = put k v m in
    if ltb k j then (k, v) ∷ (j, w) ∷ m else (if k == j then (k, v) ∷ m else (j, w) ∷ rest)

-- `collect` into a map.
unfoldable pub collect_map : List (ℕ × ℕ) → Map ℕ → Map ℕ
collect_map [] m = m
collect_map ((k, v) ∷ es) m = collect_map es (put k v m)

-- `set.insert(k)`
unfoldable pub put_key : ℕ → List ℕ → List ℕ
put_key k [] = k ∷ []
put_key k (j ∷ ks) =
    let rest = put_key k ks in if ltb k j then k ∷ j ∷ ks else (if k == j then j ∷ ks else j ∷ rest)

-- `collect` into a set.
unfoldable pub collect_set : List ℕ → List ℕ → List ℕ
collect_set [] set = set
collect_set (k ∷ ks) set = collect_set ks (put_key k set)

-- `m.split_off(&k)`
abbrev pub split_off : ℕ → Map ℕ → Map ℕ
split_off k m = select (λ (e : ℕ × ℕ). leb k e.0) m

abbrev pub IsAscending : Map ℕ → Type 0
IsAscending [] = Unit
IsAscending ((k, v) ∷ m) = All (λ (e : ℕ × ℕ). k < e.0) m × IsAscending m

pub put-All {κ} :
    (P : ℕ × ℕ → Type κ) (k v : ℕ) (m : Map ℕ) → P (k, v) → All P m → All P (put k v m)
unfolding put
put-All P k v [] p a = (p, tt)
put-All P k v ((j, w) ∷ m) p a = ground (arith, put-All P k v m p a.1)

pub collect_map-All {κ} :
    (P : ℕ × ℕ → Type κ) (es : List (ℕ × ℕ)) (m : Map ℕ)
    → All P es
    → All P m
    → All P (collect_map es m)
unfolding collect_map
collect_map-All P [] m a b = b
collect_map-All P ((k, v) ∷ es) m a b = collect_map-All P es (put k v m) a.1 (put-All P k v m a.0 b)

All-below :
    (j k : ℕ) (m : Map ℕ) → j < k → All (λ (e : ℕ × ℕ). k < e.0) m → All (λ (e : ℕ × ℕ). j < e.0) m
All-below j k [] h a = tt
All-below j k ((i, w) ∷ m) h a = (omega (arith, a.0), All-below j k m h a.1)

pub put-IsAscending : (k v : ℕ) (m : Map ℕ) → IsAscending m → IsAscending (put k v m)
unfolding put
put-IsAscending k v [] a = (tt, tt)
put-IsAscending k v ((j, w) ∷ m) a =
    ground
      (arith, All-below k j m, put-IsAscending k v m a.1, put-All (λ (e : ℕ × ℕ). j < e.0) k v m)

pub collect_map-IsAscending :
    (es : List (ℕ × ℕ)) (m : Map ℕ) → IsAscending m → IsAscending (collect_map es m)
unfolding collect_map
collect_map-IsAscending [] m a = a
collect_map-IsAscending ((k, v) ∷ es) m a =
    collect_map-IsAscending es (put k v m) (put-IsAscending k v m a)

pub lookup-put :
    (k v : ℕ) (m : Map ℕ) (j : ℕ) → lookup j (put k v m) ≡ (if k == j then some v else lookup j m)
unfolding put
lookup-put k v [] j = refl
lookup-put k v ((i, w) ∷ m) j = ground (arith, lookup-put k v m j)

pub lookup-All {κ} :
    (P : ℕ × ℕ → Type κ) (k v : ℕ) (m : Map ℕ) → All P m → lookup k m ≡ some v → P (k, v)
lookup-All P k v [] a e = cc
lookup-All P k v ((j, w) ∷ m) a e = ground (arith, a.0, lookup-All P k v m a.1)

pub split_off-All {κ} : (P : ℕ × ℕ → Type κ) (k : ℕ) (m : Map ℕ) → All P m → All P (split_off k m)
split_off-All P k [] a = tt
split_off-All P k ((j, w) ∷ m) a = ground (arith, split_off-All P k m a.1)

pub split_off-IsAscending : (k : ℕ) (m : Map ℕ) → IsAscending m → IsAscending (split_off k m)
split_off-IsAscending k [] a = tt
split_off-IsAscending k ((j, w) ∷ m) a =
    ground (arith, split_off-IsAscending k m a.1, split_off-All (λ (e : ℕ × ℕ). j < e.0) k m a.0)

pub split_off-from : (k : ℕ) (m : Map ℕ) → All (λ (e : ℕ × ℕ). k ≤ e.0) (split_off k m)
split_off-from k [] = tt
split_off-from k ((j, w) ∷ m) = ground (arith, split_off-from k m)
