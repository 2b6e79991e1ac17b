-- ===== src/Api/Paging.antt =====
-- One round of `fetch_address_history` against the history that the server holds.
use mwck_rs.Prelude.{
  ℕ, suc, ◌+◌, ◌*◌, ◌≤◌, ◌≡◌, refl, sym, ◌∙◌, ap, ◌⊎◌, inl, inr, Bool, true, false, ◌&&◌, Option,
  none, some, List, [], ◌∷◌, ◌++◌, append_assoc, arith, ◌==◌, opt_eq, opt_ltb, length,
  length-append, last?, any,
}
use mwck_rs.Esplora.{Txid, Tx}
use mwck_rs.Api.{Progress, sees_height, absorb}
use mwck_rs.Api.Server.{page, after_page, page-split, page_cases, any-append, any-last, split_last}

abbrev pub is_txid : Option Txid → Tx → Bool
is_txid until tx = opt_eq (some tx.txid) until

abbrev pub is_below : Option ℕ → Tx → Bool
is_below until tx = tx.status.confirmed && opt_ltb tx.status.block_height until

-- What the next request names.
abbrev pub Cursor : List Tx → Option Txid → Type 0
Cursor got last =
    ((got ≡ []) × (last ≡ none))
    ⊎ ((xs : List Tx) × (t : Tx) × (got ≡ xs ++ t ∷ []) × (last ≡ some t.txid))

pub record IsAt (until_txid : Option Txid) (until_height : Option ℕ) (history rest : List Tx)
    (p : Progress) : Type 0 where
  pub split : history ≡ p.all_txs ++ rest
  pub cursor : p.done ≡ false → Cursor p.all_txs p.last_txid
  pub finished : p.done ≡ true → rest ≡ []
  pub seen_txid :
      p.found_txid ≡ true → (until_txid ≡ none) ⊎ (any (is_txid until_txid) p.all_txs ≡ true)
  pub seen_height :
      p.found_height ≡ true → (until_height ≡ none) ⊎ (any (is_below until_height) p.all_txs ≡ true)

-- The fuel that is left is enough: one check when the last page is there, and else a round for
-- each page of 50.
abbrev pub Enough : Bool → ℕ → List Tx → Type 0
Enough true fuel rest = 1 ≤ fuel
Enough false fuel rest = length rest + 100 ≤ 50 * fuel

pub not-Enough-zero : (done : Bool) (rest : List Tx) → ¬ Enough done 0 rest
not-Enough-zero true rest h = omega arith
not-Enough-zero false rest h = omega arith

module _ (until_txid : Option Txid) (until_height : Option ℕ) (limit : Bool) where
  absorb-seen_txid :
      (p : Progress) (txs : List Tx)
      → (p.found_txid ≡ true → (until_txid ≡ none) ⊎ (any (is_txid until_txid) p.all_txs ≡ true))
      → (absorb until_txid until_height limit p txs).found_txid ≡ true
      → (until_txid ≡ none)
        ⊎ (any (is_txid until_txid) (absorb until_txid until_height limit p txs).all_txs ≡ true)
  unfolding absorb
  absorb-seen_txid p txs h e = ground (arith, h, any-append (is_txid until_txid) p.all_txs txs)

  height_from :
      (p : Progress) (txs : List Tx) (o : Option Tx)
      → last? txs ≡ o
      → (p.found_height ≡ true
          → (until_height ≡ none) ⊎ (any (is_below until_height) p.all_txs ≡ true))
      → sees_height until_height p.found_height o ≡ true
      → (until_height ≡ none) ⊎ (any (is_below until_height) (p.all_txs ++ txs) ≡ true)
  height_from p txs none l h e =
      ground (arith, h e, any-append (is_below until_height) p.all_txs txs)
  height_from p txs (some t) l h e = ground (
    arith,
    h,
    any-last (is_below until_height) txs t l,
    any-append (is_below until_height) p.all_txs txs,
  )

  absorb-Cursor :
      (p : Progress) (txs : List Tx)
      → (absorb until_txid until_height limit p txs).done ≡ false
      → Cursor
          (absorb until_txid until_height limit p txs).all_txs
          (absorb until_txid until_height limit p txs).last_txid
  unfolding absorb
  absorb-Cursor p [] e = cc
  absorb-Cursor p (x ∷ l) e =
      let (xs, t, s, f) = split_last x l in
      inr (
        p.all_txs ++ xs,
        t,
        ap (◌++◌ p.all_txs) s ∙ sym (append_assoc p.all_txs xs (t ∷ [])),
        ground (arith, f),
      )

  absorb-done :
      (p : Progress) (txs rest' : List Tx)
      → p.done ≡ false
      → (length txs ≡ 50) ⊎ ((rest' ≡ []) × ((length txs == 50) ≡ false))
      → (absorb until_txid until_height limit p txs).done ≡ true
      → rest' ≡ []
  unfolding absorb
  absorb-done p txs rest' d (inl full) e = cc (rw full at e)
  absorb-done p txs rest' d (inr short) e = short.0

  -- A round of the loop moves one page from what is left to what is fetched.
  pub absorb-IsAt :
      (history rest : List Tx) (p : Progress)
      → IsAt until_txid until_height history rest p
      → p.done ≡ false
      → IsAt until_txid until_height history
          (after_page rest)
          (absorb until_txid until_height limit p (page rest))
  unfolding absorb
  absorb-IsAt history rest p at d = record {
    split =
        at.split
        ∙ ap (◌++◌ p.all_txs) (page-split rest)
        ∙ sym (append_assoc p.all_txs (page rest) (after_page rest));
    cursor = absorb-Cursor p (page rest);
    finished = absorb-done p (page rest) (after_page rest) d (page_cases rest);
    seen_txid = absorb-seen_txid p (page rest) at.seen_txid;
    seen_height = height_from p (page rest) (last? (page rest)) refl at.seen_height;
  }

  pub next_Enough :
      (fuel : ℕ) (rest : List Tx) (p : Progress)
      → p.done ≡ false
      → Enough false (suc fuel) rest
      → Enough (absorb until_txid until_height limit p (page rest)).done fuel (after_page rest)
  unfolding absorb
  next_Enough fuel rest p d h = elim (page_cases rest) [
    | inl full ↦
        let sum : length rest ≡ length (page rest) + length (after_page rest) =
          ap length (page-split rest) ∙ length-append (page rest) (after_page rest) in
        rw (full, d) (omega (arith, sum, full))
    | inr (_, short) ↦ rw short (omega arith)
  ]
