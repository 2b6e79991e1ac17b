-- ===== src/BdkExt/TxGraph/Keychains.antt =====
-- The loop over the keychains: the scripts of each that the graph covers.
use mwck_rs.Prelude.{
  ℕ, ◌≡◌, ◌≢◌, refl, sym, ap, subst, ◌∙◌, true, Option, none, some, List, [], ◌∷◌, arith, ◌==◌,
  if◌then◌else◌, All, Bool-cases, inl, inr, Option-cases, leb, select,
}
use mwck_rs.HashMap.{Map, lookup, contains_key, IsUnique}
use mwck_rs.Esplora.{ScriptBuf, Txid, Tx}
use mwck_rs.Api.{ok}
use mwck_rs.BdkExt.{scan}
use mwck_rs.BdkExt.SortedMap.{lookup-put, IsAscending}
use mwck_rs.BdkExt.TxGraph.{TxGraph, TxClient, scanned, insert_last, scan_keychains}
use mwck_rs.BdkExt.TxGraph.Outpoints.{IsTxGraph, and_ok-ok, ok_inj}
use mwck_rs.BdkExt.TxGraph.Scanned.{
  HasAll, HoldsScript, HoldsUpTo, HoldsUpTo-HasAll, scan-IsScanned,
}

-- Keychains with the indices and scripts of each.
abbrev pub Keychains : Type 0
Keychains = Map (List (ℕ × ScriptBuf))

abbrev pub AreAscending : Keychains → Type 0
AreAscending keychains = All (λ (e : ℕ × List (ℕ × ScriptBuf)). IsAscending e.1) keychains

module _ {T G E : Type 0} (ops : TxGraph T G) (client : TxClient T E) (txid_of : T → Txid)
    (laws : IsTxGraph ops txid_of) (to_tx-txid : (tx : Tx) → txid_of (ops.to_tx tx) ≡ tx.txid) where
  abbrev Grows : G → G → Type 0
  Grows graph graph' = HasAll ops client txid_of laws to_tx-txid graph graph'

  abbrev Covers : ℕ → G → List (ℕ × ScriptBuf) → Type 0
  Covers i graph spks = HoldsUpTo ops client txid_of laws to_tx-txid i graph spks

  -- The graph has the transactions of every keychain up to its last active index.
  abbrev pub HoldsActive : Keychains → G × Map ℕ → Type 0
  HoldsActive keychains r =
      (k : ℕ) (spks : List (ℕ × ScriptBuf)) (i : ℕ)
      → lookup k keychains ≡ some spks
      → lookup k r.1 ≡ some i
      → Covers i r.0 spks

  lookup-insert_last :
      (k j : ℕ) (index : Option ℕ) (last : Map ℕ)
      → k ≢ j
      → lookup j (insert_last ops client k index last) ≡ lookup j last
  unfolding insert_last
  lookup-insert_last k j none last h = refl
  lookup-insert_last k j (some i) last h = lookup-put k i last j ∙ ground (arith, h)

  lookup-insert_own :
      (k : ℕ) (index : Option ℕ) (last : Map ℕ)
      → lookup k last ≡ none
      → lookup k (insert_last ops client k index last) ≡ index
  unfolding insert_last
  lookup-insert_own k none last h = h
  lookup-insert_own k (some i) last h = lookup-put k i last k ∙ ground arith

  -- The keychains have no last active index yet.
  abbrev AreFresh : Keychains → Map ℕ → Type 0
  AreFresh keychains last = (k : ℕ) → contains_key k keychains ≡ true → lookup k last ≡ none

  insert_last-AreFresh :
      (j : ℕ) (js : List (ℕ × ScriptBuf)) (keychains : Keychains) (index : Option ℕ) (last : Map ℕ)
      → lookup j keychains ≡ none
      → AreFresh ((j, js) ∷ keychains) last
      → AreFresh keychains (insert_last ops client j index last)
  insert_last-AreFresh j js keychains index last u f k h =
      let apart : j ≢ k = λ same.
        let missing : lookup k keychains ≡ none = ap (λ i. lookup i keychains) (sym same) ∙ u in
        ground (arith, missing, h) in
      lookup-insert_last j k index last apart ∙ f k (ground (arith, h))

  own_scripts :
      (j k : ℕ) (js spks : List (ℕ × ScriptBuf)) (keychains : Keychains)
      → j == k ≡ true
      → lookup k ((j, js) ∷ keychains) ≡ some spks
      → js ≡ spks
  own_scripts j k js spks keychains same q =
      let q' : some js ≡ some spks =
        subst (λ b. (if b then some js else lookup k keychains) ≡ some spks) same q in
      ap (λ o. elim o [ none ↦ js | some z ↦ z ]) q'

  module _ (stop_gap : ℕ) where
    -- The keychains that follow leave the index of another one.
    scan_keychains-lookup :
        (keychains : Keychains) (graph : G) (last : Map ℕ) (r : G × Map ℕ) (k : ℕ)
        → lookup k keychains ≡ none
        → scan_keychains ops client stop_gap keychains graph last ≡ ok r
        → lookup k r.1 ≡ lookup k last
    unfolding scan_keychains
    scan_keychains-lookup [] graph last r k h e =
        ap (λ p. lookup k p.1) (sym (ok_inj (graph, last) r e))
    scan_keychains-lookup ((j, spks) ∷ keychains) graph last r k h e =
        let (p, _, rest) =
          and_ok-ok (scan (scanned ops client) client.confirmed_txs stop_gap spks graph none) _ r
            e in
        scan_keychains-lookup keychains p.0 _ r k (ground (arith, h)) rest
        ∙ lookup-insert_last j k p.1 last (ground (arith, h))

    pub scan_keychains-HoldsActive :
        (keychains : Keychains) (graph : G) (last : Map ℕ) (r : G × Map ℕ)
        → IsUnique keychains
        → AreAscending keychains
        → AreFresh keychains last
        → scan_keychains ops client stop_gap keychains graph last ≡ ok r
        → Grows graph r.0 × HoldsActive keychains r
    unfolding scan_keychains
    scan_keychains-HoldsActive [] graph last r u a f e =
        (subst (λ p. Grows graph p.0) (ok_inj (graph, last) r e) (λ j h. h), λ k spks i q. cc q)
    scan_keychains-HoldsActive ((j, js) ∷ keychains) graph last r u a f e =
        let (p, found, rest) =
          and_ok-ok (scan (scanned ops client) client.confirmed_txs stop_gap js graph none) _ r e in
        let (x, covered) =
          scan-IsScanned ops client txid_of laws to_tx-txid stop_gap js graph none p a.0
            (λ l q. cc q) found in
        let (y, active) =
          scan_keychains-HoldsActive keychains p.0 _ r u.1 a.1
            (insert_last-AreFresh j js keychains p.1 last u.0 f) rest in
        let own : lookup j r.1 ≡ p.1 =
          scan_keychains-lookup keychains p.0 _ r j u.0 rest
          ∙ lookup-insert_own j p.1 last (f j (ground arith)) in
        (
          λ t h. y t (x t h),
          λ k spks i q lastly. elim (Bool-cases (j == k)) [
            | inl same ↦ subst (Covers i r.0) (own_scripts j k js spks keychains same q) (
                HoldsUpTo-HasAll ops client txid_of laws to_tx-txid i p.0 r.0 js y
                  (covered i (sym own ∙ ap (λ m. lookup m r.1) (ground (arith, same)) ∙ lastly)))
            | inr apart ↦ active k spks i (ground (arith, q)) lastly
          ],
        )

  -- The graph has what the server answers for each script up to an index.
  abbrev pub HoldsIndex : Option ℕ → G → List (ℕ × ScriptBuf) → Type 0
  HoldsIndex none graph spks = Unit
  HoldsIndex (some i) graph spks =
      All
        (λ (e : ℕ × ScriptBuf).
          HoldsScript ops client txid_of laws to_tx-txid (client.confirmed_txs e.1) graph)
        (select (λ (e : ℕ × ScriptBuf). leb e.0 i) spks)

  Covers-HoldsIndex :
      (i : ℕ) (graph : G) (spks : List (ℕ × ScriptBuf))
      → Covers i graph spks
      → HoldsIndex (some i) graph spks
  Covers-HoldsIndex i graph [] c = tt
  Covers-HoldsIndex i graph (e ∷ spks) c = elim (Bool-cases (leb e.0 i)) [
    | inl low ↦ rw low (c.0 (ground arith), Covers-HoldsIndex i graph spks c.1)
    | inr high ↦ rw high (Covers-HoldsIndex i graph spks c.1)
  ]

  pub HoldsActive-All :
      (keychains : Keychains) (r : G × Map ℕ)
      → IsUnique keychains
      → HoldsActive keychains r
      → All (λ (e : ℕ × List (ℕ × ScriptBuf)). HoldsIndex (lookup e.0 r.1) r.0 e.1) keychains
  HoldsActive-All [] r u a = tt
  HoldsActive-All ((j, js) ∷ keychains) r u a =
      let own : HoldsIndex (lookup j r.1) r.0 js = elim (Option-cases (lookup j r.1)) [
        | inl e ↦ rw e tt
        | inr (i, e) ↦ rw e (Covers-HoldsIndex i r.0 js (a j js i (ground arith) e))
      ] in
      (
        own,
        HoldsActive-All keychains r u.1 (λ k spks i q l. elim (Bool-cases (j == k)) [
          | inl same ↦ cc (sym (ap (λ k. lookup k keychains) (ground (arith, same)) ∙ q) ∙ u.0)
          | inr apart ↦ a k spks i (ground (arith, q)) l
        ]),
      )
