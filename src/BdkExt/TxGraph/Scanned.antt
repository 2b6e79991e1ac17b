-- ===== src/BdkExt/TxGraph/Scanned.antt =====
-- Which transactions the scan of a keychain leaves in the graph.
use mwck_rs.Prelude.{
  ℕ, ◌≤◌, ◌<◌, ◌≡◌, refl, sym, ap, subst, ◌∙◌, Bool, true, false, ◌||◌, Option, some, List, [], ◌∷◌,
  arith, opt_ltb, ◌==◌, if◌then◌else◌, All, Bool-cases, inl, inr,
}
use mwck_rs.Esplora.{ScriptBuf, Txid, Tx}
use mwck_rs.Api.{Result, ok, err, Result-cases}
use mwck_rs.BdkExt.{
  anchor_from_status, insert_some_anchor, insert_history, is_active, gap_end, scan,
}
use mwck_rs.BdkExt.Scan.{scan-step}
use mwck_rs.BdkExt.SortedMap.{IsAscending}
use mwck_rs.BdkExt.TxGraph.{TxGraph, TxClient, scanned}
use mwck_rs.BdkExt.TxGraph.Failure.{scan-failed}
use mwck_rs.BdkExt.TxGraph.Outpoints.{
  IsTxGraph, if_true, if_false, ok_inj, Extends, insert_some_anchor-has,
}

module _ {T G E : Type 0} (ops : TxGraph T G) (client : TxClient T E) (txid_of : T → Txid)
    (laws : IsTxGraph ops txid_of) (to_tx-txid : (tx : Tx) → txid_of (ops.to_tx tx) ≡ tx.txid) where
  -- The graph has every transaction of another.
  abbrev pub HasAll : G → G → Type 0
  HasAll graph graph' = Extends ops client txid_of laws graph graph'

  abbrev HoldsTxs : G → List Tx → Type 0
  HoldsTxs graph txs = All (λ (tx : Tx). ops.has_tx tx.txid graph ≡ true) txs

  -- The graph has what the server answers for a script.
  abbrev pub HoldsScript : Result E (List Tx) → G → Type 0
  HoldsScript (err e) graph = Unit
  HoldsScript (ok txs) graph = HoldsTxs graph txs

  HoldsTxs-HasAll :
      (graph graph' : G) (txs : List Tx)
      → HasAll graph graph'
      → HoldsTxs graph txs
      → HoldsTxs graph' txs
  HoldsTxs-HasAll graph graph' [] x h = tt
  HoldsTxs-HasAll graph graph' (tx ∷ txs) x h =
      (x tx.txid h.0, HoldsTxs-HasAll graph graph' txs x h.1)

  HoldsScript-HasAll :
      (r : Result E (List Tx)) (graph graph' : G)
      → HasAll graph graph'
      → HoldsScript r graph
      → HoldsScript r graph'
  HoldsScript-HasAll (err e) graph graph' x h = tt
  HoldsScript-HasAll (ok txs) graph graph' x h = HoldsTxs-HasAll graph graph' txs x h

  has-insert_tx :
      (tx : Tx) (j : Txid) (graph : G)
      → ops.has_tx j (
          insert_some_anchor
            (scanned ops client)
            tx.txid
            (anchor_from_status tx.status)
            (ops.insert_tx (ops.to_tx tx) graph))
        ≡ (tx.txid == j || ops.has_tx j graph)
  has-insert_tx tx j graph =
      insert_some_anchor-has ops client txid_of laws j tx.txid (anchor_from_status tx.status) _
      ∙ laws.has_tx-insert_tx j (ops.to_tx tx) graph
      ∙ ap (λ i. i == j || ops.has_tx j graph) (to_tx-txid tx)

  insert_history-HasAll :
      (txs : List Tx) (graph : G)
      → HasAll graph (insert_history (scanned ops client) txs graph)
        × HoldsTxs (insert_history (scanned ops client) txs graph) txs
  unfolding insert_history
  insert_history-HasAll [] graph = (λ j h. h, tt)
  insert_history-HasAll (tx ∷ txs) graph =
      let (x, held) = insert_history-HasAll txs _ in
      (
        λ j h. x j (has-insert_tx tx j graph ∙ ground (arith, h)),
        (x tx.txid (has-insert_tx tx tx.txid graph ∙ ground arith), held),
      )

  -- The graph has what the server answers for each script up to this index.
  abbrev pub HoldsUpTo : ℕ → G → List (ℕ × ScriptBuf) → Type 0
  HoldsUpTo i graph spks =
      All (λ (e : ℕ × ScriptBuf). e.0 ≤ i → HoldsScript (client.confirmed_txs e.1) graph) spks

  HoldsUpTo-below :
      (i index : ℕ) (graph : G) (spks : List (ℕ × ScriptBuf))
      → i ≤ index
      → All (λ (e : ℕ × ScriptBuf). index < e.0) spks
      → HoldsUpTo i graph spks
  HoldsUpTo-below i index graph [] h a = tt
  HoldsUpTo-below i index graph (e ∷ spks) h a =
      (λ le. absurd (omega (arith, h, a.0, le)), HoldsUpTo-below i index graph spks h a.1)

  pub HoldsUpTo-HasAll :
      (i : ℕ) (graph graph' : G) (spks : List (ℕ × ScriptBuf))
      → HasAll graph graph'
      → HoldsUpTo i graph spks
      → HoldsUpTo i graph' spks
  HoldsUpTo-HasAll i graph graph' [] x h = tt
  HoldsUpTo-HasAll i graph graph' (e ∷ spks) x h = (
    λ le. HoldsScript-HasAll (client.confirmed_txs e.1) graph graph' x (h.0 le),
    HoldsUpTo-HasAll i graph graph' spks x h.1,
  )

  -- What a scan from one graph leaves.
  abbrev pub IsScanned : G → List (ℕ × ScriptBuf) → G × Option ℕ → Type 0
  IsScanned graph spks r = HasAll graph r.0 × ((i : ℕ) → r.1 ≡ some i → HoldsUpTo i r.0 spks)

  -- A last active index comes before these scripts.
  abbrev pub IsBefore : Option ℕ → List (ℕ × ScriptBuf) → Type 0
  IsBefore last spks = (l : ℕ) → last ≡ some l → All (λ (e : ℕ × ScriptBuf). l < e.0) spks

  last-below :
      (active : Bool) (index : ℕ) (spk : ScriptBuf) (spks : List (ℕ × ScriptBuf)) (last : Option ℕ)
      → IsBefore last ((index, spk) ∷ spks)
      → (i : ℕ) → (if active then some index else last) ≡ some i
      → i ≤ index
  last-below true index spk spks last b i q = ground (arith, q)
  last-below false index spk spks last b i q = omega (arith, (b i q).0)

  last-IsBefore :
      (active : Bool) (index : ℕ) (spk : ScriptBuf) (spks : List (ℕ × ScriptBuf)) (last : Option ℕ)
      → All (λ (e : ℕ × ScriptBuf). index < e.0) spks
      → IsBefore last ((index, spk) ∷ spks)
      → IsBefore (if active then some index else last) spks
  last-IsBefore true index spk spks last a b l q =
      subst (λ i. All (λ (e : ℕ × ScriptBuf). i < e.0) spks) (ground (arith, q)) a
  last-IsBefore false index spk spks last a b l q = (b l q).1

  module _ (stop_gap : ℕ) where
    scan-active :
        (index : ℕ) (spk : ScriptBuf) (spks : List (ℕ × ScriptBuf)) (graph : G) (last : Option ℕ)
        (r : G × Option ℕ) (txs : List Tx)
        → IsAscending ((index, spk) ∷ spks)
        → IsBefore last ((index, spk) ∷ spks)
        → client.confirmed_txs spk ≡ ok txs
        → let last' = if is_active txs then some index else last in
          let graph' = insert_history (scanned ops client) txs graph in
          (if opt_ltb (gap_end stop_gap last') (some index)
              then ok (graph', last')
              else scan (scanned ops client) client.confirmed_txs stop_gap spks graph' last')
            ≡ ok r
          → ((graph' : G) (last' : Option ℕ)
              → IsBefore last' spks
              → scan (scanned ops client) client.confirmed_txs stop_gap spks graph' last' ≡ ok r
              → IsScanned graph' spks r)
          → IsScanned graph ((index, spk) ∷ spks) r
    scan-active index spk spks graph last r txs a b got e later =
        let last' = if is_active txs then some index else last in
        let graph' = insert_history (scanned ops client) txs graph in
        let (x, held) = insert_history-HasAll txs graph in
        let here : HoldsScript (client.confirmed_txs spk) graph' =
          subst (λ r. HoldsScript r graph') (sym got) held in
        let after = last-below (is_active txs) index spk spks last b in
        let before = last-IsBefore (is_active txs) index spk spks last a.0 b in
        elim (Bool-cases (opt_ltb (gap_end stop_gap last') (some index))) [
          | inl stop ↦
              subst (IsScanned graph ((index, spk) ∷ spks))
                (ok_inj (graph', last') r (if_true _ _ _ _ stop e))
                (x, λ i q. (λ le. here, HoldsUpTo-below i index graph' spks (after i q) a.0))
          | inr go ↦
              let (y, rest) = later graph' last' before (if_false _ _ _ _ go e) in
              (
                λ j h. y j (x j h),
                λ i q. (
                  λ le. HoldsScript-HasAll (client.confirmed_txs spk) graph' r.0 y here,
                  rest i q,
                ),
              )
        ]

    pub scan-IsScanned :
        (spks : List (ℕ × ScriptBuf)) (graph : G) (last : Option ℕ) (r : G × Option ℕ)
        → IsAscending spks
        → IsBefore last spks
        → scan (scanned ops client) client.confirmed_txs stop_gap spks graph last ≡ ok r
        → IsScanned graph spks r
    unfolding scan
    scan-IsScanned [] graph last r a b e =
        subst (IsScanned graph []) (ok_inj (graph, last) r e) (λ j h. h, λ i q. tt)
    scan-IsScanned ((index, spk) ∷ spks) graph last r a b e =
        elim (Result-cases (client.confirmed_txs spk)) [
          | inl (txs, got) ↦
              scan-active index spk spks graph last r txs a b got
                (sym (
                    scan-step (scanned ops client) client.confirmed_txs (λ _. txs) stop_gap index
                      spk spks graph last _ got refl)
                  ∙ e)
                (λ g l before q. scan-IsScanned spks g l r a.1 before q)
          | inr (x, failed) ↦
              cc (sym (scan-failed ops client stop_gap index spk spks graph last x failed) ∙ e)
        ]
