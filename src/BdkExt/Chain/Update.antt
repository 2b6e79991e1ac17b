-- ===== src/BdkExt/Chain/Update.antt =====
-- Which blocks the update of the local chain is made of, and that it never panics.
use mwck_rs.Prelude.{
  ℕ, ◌+◌, ◌%◌, ◌^◌, ◌≤◌, ◌<◌, ◌≡◌, ◌≢◌, refl, sym, subst, ◌∙◌, ap, ◌⊎◌, inl, inr, Option, none,
  some, List, [], ◌∷◌, ◌++◌, append_assoc, arith, leb, ◌==◌, if◌then◌else◌, All, All-append, select,
  Bool-cases,
}
use mwck_rs.HashMap.{Map}
use mwck_rs.Api.{Result, ok, err, Result-cases}
use mwck_rs.BdkExt.SortedMap.{
  collect_map, collect_set, split_off, IsAscending, split_off-All, split_off-IsAscending,
  split_off-from,
}
use mwck_rs.BdkExt.Chain.{
  BlockId, CheckPoints, BlockClient, assume_final_depth, zip_down, updated_hash, find_agreement,
  earliest_agreement, first_cp, extend, extend_first, build_tip, after_heights, after_blocks,
  after_height, update_local_chain,
}
use mwck_rs.BdkExt.Chain.Blocks.{
  IsCheckPoints, entry, above, blocks-IsGood, IsGood, depth, IsGoodHash, updated_hash-IsGood,
  fetch_heights-IsGood, IsGoodMap,
}

module _ {C E : Type 0} (points : CheckPoints C) (client : BlockClient E) (P : ℕ × ℕ → Type 0)
    (Q : C → Type 0)
    (hashes_good : (height hash : ℕ)
      → client.get_block_hash height ≡ ok hash
      → P (height, hash)) where
  -- The block of a checkpoint is good.
  abbrev pub IsGoodPoint : C → Type 0
  IsGoodPoint cp = P (entry (points.block_id cp))

  abbrev IsAgreed : Option C → Type 0
  IsAgreed none = Unit
  IsAgreed (some cp) = IsGoodPoint cp × Q cp

  abbrev IsAgreement : Option (Result E (Map ℕ × Option C)) → Type 0
  IsAgreement none = ⊥
  IsAgreement (some (err e)) = Unit
  IsAgreement (some (ok (m, agreed))) = IsGood P m × IsAgreed agreed

  abbrev pub local_points : Option C → List C
  local_points none = []
  local_points (some t) = points.iter t

  -- The local checkpoints that the update takes as final.
  abbrev pub deep_below : ℕ → List C → List C
  deep_below tip_height cps =
      select (λ cp. leb assume_final_depth (depth tip_height (points.block_id cp))) cps

  abbrev pub deep_points : Option C → List C
  deep_points none = []
  deep_points (some t) = deep_below (points.block_id t).height (points.iter t)

  -- A deep local checkpoint is good, and each local one may be agreed on.
  abbrev IsLocal : ℕ → C → Type 0
  IsLocal tip_height cp =
      (assume_final_depth ≤ depth tip_height (points.block_id cp) → IsGoodPoint cp) × Q cp

  All-IsLocal :
      (tip_height : ℕ) (cps : List C)
      → All IsGoodPoint (deep_below tip_height cps)
      → All Q cps
      → All (IsLocal tip_height) cps
  All-IsLocal tip_height [] d q = tt
  All-IsLocal tip_height (cp ∷ cps) d q =
      elim (Bool-cases (leb assume_final_depth (depth tip_height (points.block_id cp)))) [
        | inl deep ↦
            let (p, d') : IsGoodPoint cp × All IsGoodPoint (deep_below tip_height cps) =
              subst
                (λ b.
                  All IsGoodPoint
                    (if b then cp ∷ deep_below tip_height cps else deep_below tip_height cps))
                deep d in
            ((λ h. p, q.0), All-IsLocal tip_height cps d' q.1)
        | inr shallow ↦
            let d' : All IsGoodPoint (deep_below tip_height cps) =
              subst
                (λ b.
                  All IsGoodPoint
                    (if b then cp ∷ deep_below tip_height cps else deep_below tip_height cps))
                shallow d in
            ((λ h. absurd (ground arith), q.0), All-IsLocal tip_height cps d' q.1)
      ]

  find_agreement-IsAgreement :
      (tip_height : ℕ) (cps : List C) (m : Map ℕ) (agreed : Option C)
      → All (IsLocal tip_height) cps
      → IsGood P m
      → IsAgreed agreed
      → IsAgreement (find_agreement points client tip_height cps m agreed)
  unfolding find_agreement
  find_agreement-IsAgreement tip_height [] m agreed l g a = (g, a)
  find_agreement-IsAgreement tip_height (cp ∷ cps) m agreed l g a =
      let block = points.block_id cp in
      let good = updated_hash-IsGood P client hashes_good tip_height block m l.0.0 g in
      elim (Result-cases (updated_hash client tip_height block m)) [
        | inr (e, failed) ↦ rw (failed, find_agreement) tt
        | inl ((hash, m'), there) ↦
            let (p, g') : P (block.height, hash) × IsGood P m' =
              subst (IsGoodHash P client hashes_good block) there good in
            elim (Bool-cases (block.hash == hash)) [
              | inr differ ↦
                  rw (there, differ, find_agreement)
                    (find_agreement-IsAgreement tip_height cps m' agreed l.1 g' a)
              | inl same ↦
                  let q : IsGoodPoint cp = subst (λ h. P (block.height, h)) (ground arith) p in
                  let (k, first) = g'.first in
                  elim (Bool-cases (leb block.height k)) [
                    | inl low ↦ rw (there, same, first, low, find_agreement) (g', (q, l.0.1))
                    | inr high ↦
                        rw (there, same, first, high, find_agreement)
                          (find_agreement-IsAgreement tip_height cps m' (some cp) l.1 g' (q, l.0.1))
                  ]
            ]
      ]

  module _ (laws : IsCheckPoints points) where
    extend-new :
        (cp : C) (m : Map ℕ)
        → IsAscending m
        → All (λ (e : ℕ × ℕ). (points.block_id cp).height < e.0) m
        → All P m
        → (t : C) × ((news : List C) × (extend points client cp m ≡ some t)
            × (points.iter t ≡ news ++ points.iter cp)
            × All IsGoodPoint news)
    unfolding extend
    extend-new cp [] a h p = (cp, ([], refl, refl, tt))
    extend-new cp ((height, hash) ∷ m) a h p =
        let (cp', pushed, block, below) =
          laws.push_above cp (record { height = height; hash = hash }) h.0 in
        let (t, (news, built, over, good)) =
          extend-new cp' m a.1
            (subst (λ (b : BlockId). All (λ (e : ℕ × ℕ). b.height < e.0) m) (sym block) a.0) p.1 in
        (
          t,
          (
            news ++ cp' ∷ [],
            rw (pushed, extend) built,
            over ∙ ap (λ l. news ++ l) below ∙ sym (append_assoc news (cp' ∷ []) (points.iter cp)),
            All-append IsGoodPoint news (cp' ∷ []) good
                (subst (λ b. P (entry b)) (sym block) p.0, tt),
          ),
        )

    -- What an update is: a checkpoint that was agreed on or a new one, and new good blocks on it.
    pub IsUpdate : Option (Result E C) → Type 0
    IsUpdate none = ⊥
    IsUpdate (some (err e)) = Unit
    IsUpdate (some (ok t)) =
        (base : C) × ((news : List C) × (points.iter t ≡ news ++ points.iter base)
          × All IsGoodPoint news
          × IsGoodPoint base
          × (Q base ⊎ (points.iter base ≡ base ∷ [])))

    module _ (small : (e : ℕ × ℕ) → P e → e.0 + 1 < 2 ^ 32) where
      extend_first-new :
          (base : C) (m : Map ℕ)
          → IsGood P m
          → IsGoodPoint base
          → (t : C) × ((news : List C) × (extend_first points client (some base) m ≡ some t)
              × (points.iter t ≡ news ++ points.iter base)
              × All IsGoodPoint news)
      unfolding extend_first
      extend_first-new base m g p =
          let k = ((points.block_id base).height + 1) % 2 ^ 32 in
          let h = small (entry (points.block_id base)) p in
          extend-new base (split_off k m) (split_off-IsAscending k m g.ascending)
            (above (points.block_id base).height k (split_off k m) (omega arith)
              (split_off-from k m))
            (split_off-All P k m g.all_good)

      build_on :
          (base : C) (m : Map ℕ) (agreed : Option C)
          → first_cp points client m agreed ≡ some base
          → IsGood P m
          → IsGoodPoint base
          → Q base ⊎ (points.iter base ≡ base ∷ [])
          → IsUpdate (build_tip points client (some (ok (m, agreed))))
      unfolding build_tip IsUpdate
      build_on base m agreed f g p q =
          let (t, (news, built, over, good)) = extend_first-new base m g p in
          rw (f, built, build_tip) (base, (news, over, good, p, q))

      build_tip-IsUpdate :
          (o : Option (Result E (Map ℕ × Option C)))
          → IsAgreement o
          → IsUpdate (build_tip points client o)
      unfolding build_tip IsUpdate first_cp
      build_tip-IsUpdate none a = a
      build_tip-IsUpdate (some (err e)) a = tt
      build_tip-IsUpdate (some (ok (m, some cp))) a =
          build_on cp m (some cp) refl a.0 a.1.0 (inl a.1.1)
      build_tip-IsUpdate (some (ok ([], none))) a = cc (a.0.first.1)
      build_tip-IsUpdate (some (ok ((height, hash) ∷ m, none))) a =
          let b : BlockId = record { height = height; hash = hash } in
          build_on (points.make b) ((height, hash) ∷ m) none refl a.0
            (subst (λ x. P (entry x)) (sym (laws.block-make b)) a.0.all_good.0)
            (inr (laws.iter-make b))

      after_heights-IsUpdate :
          (local_tip : Option C) (r : Result E (Map ℕ))
          → All IsGoodPoint (deep_points local_tip)
          → All Q (local_points local_tip)
          → IsGoodMap P client hashes_good r
          → IsUpdate (after_heights points client local_tip r)
      unfolding after_heights earliest_agreement IsUpdate
      after_heights-IsUpdate local_tip (err e) d q g = tt
      after_heights-IsUpdate none (ok m) d q g = build_tip-IsUpdate (some (ok (m, none))) (g, tt)
      after_heights-IsUpdate (some t) (ok m) d q g =
          let h = (points.block_id t).height in
          build_tip-IsUpdate (find_agreement points client h (points.iter t) m none) (
            find_agreement-IsAgreement h (points.iter t) m none (All-IsLocal h (points.iter t) d q)
              g tt)

      after_blocks-IsUpdate :
          (local_tip : Option C) (request_heights : List ℕ) (n : ℕ) (r : Result E (List ℕ))
          → ((hashes : List ℕ) → r ≡ ok hashes → All P (zip_down n hashes) × (hashes ≢ []))
          → All IsGoodPoint (deep_points local_tip)
          → All Q (local_points local_tip)
          → IsUpdate (after_blocks points client local_tip request_heights n r)
      unfolding after_blocks IsUpdate
      after_blocks-IsUpdate local_tip request_heights n (err e) blocks d q = tt
      after_blocks-IsUpdate local_tip request_heights n (ok hashes) blocks d q =
          let (good, some_block) = blocks hashes refl in
          after_heights-IsUpdate local_tip _ d q (
            fetch_heights-IsGood P client hashes_good n (collect_set request_heights [])
              (collect_map (zip_down n hashes) []) (blocks-IsGood P n hashes good some_block))

      after_height-IsUpdate :
          (r : Result E ℕ)
          → ((n : ℕ) (hashes : List ℕ)
              → r ≡ ok n
              → client.get_blocks n ≡ ok hashes
              → All P (zip_down n hashes) × (hashes ≢ []))
          → (local_tip : Option C) (request_heights : List ℕ)
          → All IsGoodPoint (deep_points local_tip)
          → All Q (local_points local_tip)
          → IsUpdate (after_height points client local_tip request_heights r)
      unfolding after_height IsUpdate
      after_height-IsUpdate (err e) blocks local_tip request_heights d q = tt
      after_height-IsUpdate (ok n) blocks local_tip request_heights d q =
          after_blocks-IsUpdate local_tip request_heights n (client.get_blocks n)
            (λ hashes listed. blocks n hashes refl listed) d q

      -- Take a property of blocks, of a height below 2^32 - 1, that every block the server answers
      -- with and every local one 15 or more below the local tip has, where the server lists at least
      -- one block of its tip. Then the update never panics, and if no call fails its tip is a row of
      -- blocks with the property on a checkpoint that has it too, which is a local one or a new one
      -- with nothing below.
      pub update_local_chain-IsUpdate :
          ((n : ℕ) (hashes : List ℕ)
            → client.get_height ≡ ok n
            → client.get_blocks n ≡ ok hashes
            → All P (zip_down n hashes) × (hashes ≢ []))
          → (local_tip : Option C) (request_heights : List ℕ)
          → All IsGoodPoint (deep_points local_tip)
          → All Q (local_points local_tip)
          → IsUpdate (update_local_chain points client local_tip request_heights)
      unfolding update_local_chain
      update_local_chain-IsUpdate blocks local_tip request_heights d q =
          after_height-IsUpdate client.get_height blocks local_tip request_heights d q
