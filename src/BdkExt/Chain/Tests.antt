-- ===== src/BdkExt/Chain/Tests.antt =====
-- The update of a local chain at a concrete input.
use mwck_rs.Prelude.{
  ℕ, ◌+◌, ◌<◌, ◌≡◌, ◌≢◌, refl, ap, subst, All, none, some, List, [], ◌∷◌, arith, ltb, if◌then◌else◌,
}
use mwck_rs.Api.{Result, ok, err}
use mwck_rs.BdkExt.Chain.{
  BlockId, CheckPoints, BlockClient, update_local_chain, zip_down, after_height, after_blocks,
  after_heights, earliest_agreement, find_agreement, updated_hash, fetch_heights, build_tip,
  extend_first, first_cp, extend,
}
use mwck_rs.BdkExt.SortedMap.{collect_map, collect_set, put, put_key}
use mwck_rs.BdkExt.Chain.Blocks.{IsCheckPoints}
use mwck_rs.BdkExt.Chain.Update.{IsUpdate, update_local_chain-IsUpdate}

-- Checkpoints as lists that are not empty.
data Point : Type 0 where
  bottom : BlockId → Point
  over : BlockId → Point → Point

abbrev block_of : Point → BlockId
block_of (bottom b) = b
block_of (over b p) = b

abbrev points_of : Point → List Point
points_of (bottom b) = bottom b ∷ []
points_of (over b p) = over b p ∷ points_of p

abbrev listed : CheckPoints Point
listed = record {
  block_id = block_of;
  iter = points_of;
  make = bottom;
  push = λ cp b. if ltb (block_of cp).height b.height then some (over b cp) else none;
}

listed-IsCheckPoints : IsCheckPoints listed
listed-IsCheckPoints = record {
  block-make = λ b. refl;
  iter-make = λ b. refl;
  push_above = λ cp b h. (over b cp, ground arith, refl, refl);
}

-- The block of height h has the hash 100 + h; the tip is at 3.
abbrev IsMined : ℕ × ℕ → Type 0
IsMined e = (e.1 ≡ 100 + e.0) × (e.0 < 1000)

abbrev mined : BlockClient ℕ
mined = record {
  get_height = ok 3;
  get_blocks = λ tip. ok (103 ∷ 102 ∷ []);
  get_block_hash = λ height. if ltb 3 height then err 404 else ok (100 + height);
}

abbrev block : ℕ → ℕ → BlockId
block height hash = record { height = height; hash = hash }

-- The local block at 2 was reorganised away.
abbrev local : Point
local = over (block 2 7) (over (block 1 101) (bottom (block 0 100)))

updated :
    update_local_chain listed mined (some local) (1 ∷ 9 ∷ [])
    ≡ some
        (ok (over (block 3 103) (over (block 2 102) (over (block 1 101) (bottom (block 0 100))))))
unfolding update_local_chain after_height after_blocks after_heights earliest_agreement
    find_agreement updated_hash fetch_heights zip_down collect_map collect_set put put_key build_tip
    extend_first first_cp extend
updated = refl

mined-hashes : (height hash : ℕ) → mined.get_block_hash height ≡ ok hash → IsMined (height, hash)
mined-hashes height hash e = ground arith

value : {A : Type 0} → A → Result ℕ A → A
value a (ok b) = b
value a (err e) = a

mined-blocks :
    (n : ℕ) (hashes : List ℕ)
    → mined.get_height ≡ ok n
    → mined.get_blocks n ≡ ok hashes
    → All IsMined (zip_down n hashes) × (hashes ≢ [])
unfolding zip_down value
mined-blocks n hashes e f =
    subst (λ k. All IsMined (zip_down k hashes) × (hashes ≢ [])) (ap (value 0) e)
      (subst (λ hs. All IsMined (zip_down 3 hs) × (hs ≢ [])) (ap (value []) f)
        (((refl, ground arith), ((refl, ground arith), tt)), (λ q. cc q)))

update_local_chain-IsUpdate_example :
    IsUpdate listed mined IsMined
      (λ p. Unit {0})
      mined-hashes
      listed-IsCheckPoints
      (update_local_chain listed mined (some local) (1 ∷ 9 ∷ []))
update_local_chain-IsUpdate_example =
    update_local_chain-IsUpdate listed mined IsMined (λ p. Unit {0}) mined-hashes
      listed-IsCheckPoints (λ e h. omega (arith, h.1)) mined-blocks (some local) (1 ∷ 9 ∷ []) tt
      (tt, (tt, (tt, tt)))
