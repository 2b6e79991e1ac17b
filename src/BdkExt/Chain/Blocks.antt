-- ===== src/BdkExt/Chain/Blocks.antt =====
-- The map of blocks that the update of the local chain fetches.
use mwck_rs.Prelude.{
  ℕ, ◌+◌, ◌-◌, ◌%◌, ◌^◌, ◌≤◌, ◌<◌, ◌≡◌, ◌≢◌, refl, inl, inr, some, List, [], ◌∷◌, arith, ltb, leb,
  ◌==◌, if◌then◌else◌, All, Bool-cases, Option-cases,
}
use mwck_rs.HashMap.{Map, lookup}
use mwck_rs.Api.{Result, ok, err, Result-cases}
use mwck_rs.BdkExt.SortedMap.{
  put, collect_map, IsAscending, put-All, put-IsAscending, collect_map-All, collect_map-IsAscending,
  lookup-All,
}
use mwck_rs.BdkExt.Chain.{
  BlockId, CheckPoints, BlockClient, assume_final_depth, zip_down, fetch_heights, updated_hash,
  first_key,
}

-- What `CheckPoint` documents: `iter` of a pushed checkpoint is the new one and those before, a
-- block higher than the checkpoint's can be pushed.
pub record IsCheckPoints {C : Type 0} (points : CheckPoints C) : Type 0 where
  pub block-make : (b : BlockId) → points.block_id (points.make b) ≡ b
  pub iter-make : (b : BlockId) → points.iter (points.make b) ≡ points.make b ∷ []
  pub push_above :
      (cp : C) (b : BlockId)
      → (points.block_id cp).height < b.height
      → (cp' : C) × (points.push cp b ≡ some cp')
        × (points.block_id cp' ≡ b)
        × (points.iter cp' ≡ cp' ∷ points.iter cp)

abbrev pub entry : BlockId → ℕ × ℕ
entry b = (b.height, b.hash)

-- A map with a first entry, in order, all of whose entries are good.
pub record IsGood (P : ℕ × ℕ → Type 0) (m : Map ℕ) : Type 0 where
  pub ascending : IsAscending m
  pub all_good : All P m
  pub first : (k : ℕ) × (first_key m ≡ some k)

pub first-put : (k v : ℕ) (m : Map ℕ) → (j : ℕ) × (first_key (put k v m) ≡ some j)
unfolding put
first-put k v [] = (k, refl)
first-put k v ((j, w) ∷ m) = elim (Bool-cases (ltb k j)) [
  | inl e ↦ (k, rw e refl)
  | inr e ↦ elim (Bool-cases (k == j)) [ inl f ↦ (k, rw (e, f) refl) | inr f ↦ (j, rw (e, f) refl) ]
]

put-IsGood :
    (P : ℕ × ℕ → Type 0) (k v : ℕ) (m : Map ℕ) → P (k, v) → IsGood P m → IsGood P (put k v m)
put-IsGood P k v m p g = record {
  ascending = put-IsAscending k v m g.ascending;
  all_good = put-All P k v m p g.all_good;
  first = first-put k v m;
}

-- How deep a block is below the local tip, in `u32`.
abbrev pub depth : ℕ → BlockId → ℕ
depth tip_height block = (tip_height + 2 ^ 32 - block.height) % 2 ^ 32

pub above :
    (h k : ℕ) (m : Map ℕ)
    → h + 1 ≡ k
    → All (λ (e : ℕ × ℕ). k ≤ e.0) m
    → All (λ (e : ℕ × ℕ). h < e.0) m
above h k [] e a = tt
above h k ((j, v) ∷ m) e a = (omega (arith, a.0), above h k m e a.1)

first-collect :
    (es : List (ℕ × ℕ)) (m : Map ℕ)
    → (k : ℕ) × (first_key m ≡ some k)
    → (k : ℕ) × (first_key (collect_map es m) ≡ some k)
unfolding collect_map
first-collect [] m f = f
first-collect ((k, v) ∷ es) m f = first-collect es (put k v m) (first-put k v m)

pub blocks-IsGood :
    (P : ℕ × ℕ → Type 0) (n : ℕ) (hashes : List ℕ)
    → All P (zip_down n hashes)
    → hashes ≢ []
    → IsGood P (collect_map (zip_down n hashes) [])
unfolding zip_down collect_map
blocks-IsGood P n [] a h = absurd (h refl)
blocks-IsGood P n (hash ∷ hashes) a h = record {
  ascending = collect_map-IsAscending (zip_down n (hash ∷ hashes)) [] tt;
  all_good = collect_map-All P (zip_down n (hash ∷ hashes)) [] a tt;
  first =
      first-collect (if n == 0 then [] else zip_down (n - 1) hashes) (put n hash [])
        (first-put n hash []);
}

module _ {E : Type 0} (P : ℕ × ℕ → Type 0) (client : BlockClient E)
    (hashes_good : (height hash : ℕ)
      → client.get_block_hash height ≡ ok hash
      → P (height, hash)) where
  abbrev pub IsGoodMap : Result E (Map ℕ) → Type 0
  IsGoodMap (err e) = Unit
  IsGoodMap (ok m) = IsGood P m

  pub fetch_heights-IsGood :
      (tip : ℕ) (heights : List ℕ) (m : Map ℕ)
      → IsGood P m
      → IsGoodMap (fetch_heights client tip heights m)
  unfolding fetch_heights
  fetch_heights-IsGood tip [] m g = g
  fetch_heights-IsGood tip (height ∷ heights) m g = elim (Bool-cases (ltb tip height)) [
    | inl above ↦ rw above (fetch_heights-IsGood tip heights m g)
    | inr below ↦ elim (Option-cases (lookup height m)) [
      | inr (hash, known) ↦ rw (below, known, fetch_heights) (fetch_heights-IsGood tip heights m g)
      | inl vacant ↦ elim (Result-cases (client.get_block_hash height)) [
        | inr (e, failed) ↦ rw (below, vacant, failed, fetch_heights) tt
        | inl (hash, there) ↦
            rw (below, vacant, there, fetch_heights)
              (fetch_heights-IsGood tip heights (put height hash m)
                (put-IsGood P height hash m (hashes_good height hash there) g))
      ]
    ]
  ]

  abbrev pub IsGoodHash : BlockId → Result E (ℕ × Map ℕ) → Type 0
  IsGoodHash block (err e) = Unit
  IsGoodHash block (ok (hash, m)) = P (block.height, hash) × IsGood P m

  pub updated_hash-IsGood :
      (tip_height : ℕ) (block : BlockId) (m : Map ℕ)
      → (assume_final_depth ≤ depth tip_height block → P (entry block))
      → IsGood P m
      → IsGoodHash block (updated_hash client tip_height block m)
  unfolding updated_hash
  updated_hash-IsGood tip_height block m deep g = elim (Option-cases (lookup block.height m)) [
    | inr (hash, known) ↦
        rw (known, updated_hash) (lookup-All P block.height hash m g.all_good known, g)
    | inl vacant ↦ elim (Bool-cases (leb assume_final_depth (depth tip_height block))) [
      | inl final ↦
          let p = deep (ground arith) in
          rw (vacant, final, updated_hash) (p, put-IsGood P block.height block.hash m p g)
      | inr shallow ↦ elim (Result-cases (client.get_block_hash block.height)) [
        | inr (e, failed) ↦ rw (vacant, shallow, failed, updated_hash) tt
        | inl (hash, there) ↦
            let p = hashes_good block.height hash there in
            rw (vacant, shallow, there, updated_hash) (p, put-IsGood P block.height hash m p g)
      ]
    ]
  ]
