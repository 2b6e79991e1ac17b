-- ===== src/BdkExt/Chain.antt =====
-- examples/bdk_mempool/src/async_ext.rs: `update_local_chain`. `CheckPoint` of `bdk_chain` is a
-- parameter, and so is the client of the REST server. Heights are `u32`.
pub mod Blocks
pub mod Update
mod Tests
use mwck_rs.Prelude.{
  ℕ, ◌+◌, ◌-◌, ◌%◌, ◌^◌, Bool, true, false, Option, none, some, List, [], ◌∷◌, ltb, leb, ◌==◌,
  if◌then◌else◌,
}
use mwck_rs.HashMap.{Map, lookup}
use mwck_rs.Api.{Result, ok, err}
use mwck_rs.BdkExt.SortedMap.{put, collect_map, collect_set, split_off}

-- `BlockId`; a block hash is a number.
pub record BlockId : Type 0 where
  pub height : ℕ
  pub hash : ℕ

-- The calls of `CheckPoint`: `iter` goes from a checkpoint down, `push` fails with none.
pub record CheckPoints (C : Type 0) : Type 0 where
  pub block_id : C → BlockId
  pub iter : C → List C
  pub make : BlockId → C
  pub push : C → BlockId → Option C

-- The calls of the client. `get_blocks` is taken by the hashes of what it returns.
pub record BlockClient (E : Type 0) : Type 0 where
  pub get_height : Result E ℕ
  pub get_blocks : ℕ → Result E (List ℕ)
  pub get_block_hash : ℕ → Result E ℕ

abbrev pub assume_final_depth : ℕ
assume_final_depth = 15

-- `(0..=height).rev().zip(hashes)`
unfoldable pub zip_down : ℕ → List ℕ → List (ℕ × ℕ)
zip_down height [] = []
zip_down height (hash ∷ hashes) =
    let rest = zip_down (height - 1) hashes in (height, hash) ∷ (if height == 0 then [] else rest)

-- The loop over `request_heights`.
unfoldable pub fetch_heights : {E : Type 0} → BlockClient E → ℕ → List ℕ → Map ℕ → Result E (Map ℕ)
fetch_heights client tip [] m = ok m
fetch_heights client tip (height ∷ heights) m =
    let skipped = fetch_heights client tip heights m in
    if ltb tip height then skipped else elim (lookup height m) [
      | some hash ↦ skipped
      | none ↦ elim (client.get_block_hash height) [
        | err e ↦ err e
        | ok hash ↦ fetch_heights client tip heights (put height hash m)
      ]
    ]

-- `updated_hash`, and the map with its entry.
unfoldable pub updated_hash :
    {E : Type 0} → BlockClient E → ℕ → BlockId → Map ℕ → Result E (ℕ × Map ℕ)
updated_hash client tip_height block m = elim (lookup block.height m) [
  | some hash ↦ ok (hash, m)
  | none ↦
      if leb assume_final_depth ((tip_height + 2 ^ 32 - block.height) % 2 ^ 32)
      then ok (block.hash, put block.height block.hash m)
      else elim (client.get_block_hash block.height) [
        | err e ↦ err e
        | ok hash ↦ ok (hash, put block.height hash m)
      ]
]

-- `keys().next()`
abbrev pub first_key : Map ℕ → Option ℕ
first_key [] = none
first_key ((k, v) ∷ m) = some k

module _ {C E : Type 0} (points : CheckPoints C) (client : BlockClient E) where
  -- The loop over the local checkpoints: the map, and `earliest_agreement_cp`; `none` is a panic.
  unfoldable pub find_agreement :
      ℕ → List C → Map ℕ → Option C → Option (Result E (Map ℕ × Option C))
  find_agreement tip_height [] m agreed = some (ok (m, agreed))
  find_agreement tip_height (cp ∷ cps) m agreed =
      elim (updated_hash client tip_height (points.block_id cp) m) [
        | err e ↦ some (err e)
        | ok (hash, m') ↦
            if (points.block_id cp).hash == hash
            then elim (first_key m') [
              | none ↦ none
              | some first_new_height ↦
                  if leb (points.block_id cp).height first_new_height
                  then some (ok (m', some cp))
                  else find_agreement tip_height cps m' (some cp)
            ]
            else find_agreement tip_height cps m' agreed
      ]

  -- `earliest_agreement_cp`, where there may be no local tip.
  unfoldable pub earliest_agreement : Option C → Map ℕ → Option (Result E (Map ℕ × Option C))
  earliest_agreement none m = some (ok (m, none))
  earliest_agreement (some local_tip) m =
      find_agreement (points.block_id local_tip).height (points.iter local_tip) m none

  unfoldable pub first_cp : Map ℕ → Option C → Option C
  first_cp m (some cp) = some cp
  first_cp [] none = none
  first_cp ((height, hash) ∷ m) none = some (points.make (record { height = height; hash = hash }))

  -- The `fold` of the pushes.
  unfoldable pub extend : C → Map ℕ → Option C
  extend cp [] = some cp
  extend cp ((height, hash) ∷ m) = elim (points.push cp (record { height = height; hash = hash })) [
    | none ↦ none
    | some cp' ↦ extend cp' m
  ]

  unfoldable pub extend_first : Option C → Map ℕ → Option C
  extend_first none m = none
  extend_first (some cp) m = extend cp (split_off (((points.block_id cp).height + 1) % 2 ^ 32) m)

  -- What follows the fetches: the tip of the update.
  unfoldable pub build_tip : Option (Result E (Map ℕ × Option C)) → Option (Result E C)
  build_tip none = none
  build_tip (some (err e)) = some (err e)
  build_tip (some (ok (m, agreed))) = elim (extend_first (first_cp m agreed) m) [
    | none ↦ none
    | some tip ↦ some (ok tip)
  ]

  unfoldable pub after_heights : Option C → Result E (Map ℕ) → Option (Result E C)
  after_heights local_tip (err e) = some (err e)
  after_heights local_tip (ok m) = build_tip (earliest_agreement local_tip m)

  unfoldable pub after_blocks : Option C → List ℕ → ℕ → Result E (List ℕ) → Option (Result E C)
  after_blocks local_tip request_heights tip (err e) = some (err e)
  after_blocks local_tip request_heights tip (ok hashes) = after_heights local_tip (
      fetch_heights client tip (collect_set request_heights [])
        (collect_map (zip_down tip hashes) []))

  unfoldable pub after_height : Option C → List ℕ → Result E ℕ → Option (Result E C)
  after_height local_tip request_heights (err e) = some (err e)
  after_height local_tip request_heights (ok tip) =
      after_blocks local_tip request_heights tip (client.get_blocks tip)

  -- The tip of the update; `none` is a panic.
  unfoldable pub update_local_chain : Option C → List ℕ → Option (Result E C)
  update_local_chain local_tip request_heights =
      after_height local_tip request_heights client.get_height
