-- ===== src/BdkExt/TxGraph/Complete.antt =====
-- The update of the graph as a whole: that it ends, and which transactions it leaves in the graph.
use mwck_rs.Prelude.{
  ℕ, ◌<◌, ◌≡◌, refl, ap, ◌∙◌, some, List, [], arith, ltb, if◌then◌else◌, length, All, inl, inr,
}
use mwck_rs.HashMap.{Map, lookup, IsUnique}
use mwck_rs.Esplora.{ScriptBuf, Txid, Tx}
use mwck_rs.Api.{Result, ok, err, Result-cases}
use mwck_rs.BdkExt.TxGraph.{
  TxGraph, TxClient, OutPoint, scan_keychains, fetch_outpoints, after_refresh, after_scan,
  update_tx_graph,
}
use mwck_rs.BdkExt.TxGraph.Outpoints.{IsTxGraph, Knows, IsHeld, fetch_outpoints-Extends}
use mwck_rs.BdkExt.TxGraph.Ends.{IsRefreshed, refresh-ends}
use mwck_rs.BdkExt.TxGraph.Failure.{IsFailure, fetch_outpoints-FailsBy, scan_keychains-FailsBy}
use mwck_rs.BdkExt.TxGraph.Keychains.{
  Keychains, AreAscending, HoldsActive, HoldsIndex, HoldsActive-All, scan_keychains-HoldsActive,
}
use mwck_rs.BdkExt.TxGraph.Scanned.{HoldsUpTo-HasAll}

module _ {T G E : Type 0} (ops : TxGraph T G) (client : TxClient T E) (txid_of : T → Txid)
    (laws : IsTxGraph ops txid_of) (to_tx-txid : (tx : Tx) → txid_of (ops.to_tx tx) ≡ tx.txid) where
  -- What the update leaves; its error is one that a call has returned.
  abbrev pub IsComplete : Keychains → List OutPoint → Result E (G × Map ℕ) → Type 0
  IsComplete keychains outpoints (err e) = IsFailure ops client e
  IsComplete keychains outpoints (ok r) =
      All (IsHeld ops client txid_of laws r.0) outpoints
      × All
          (λ (e : ℕ × List (ℕ × ScriptBuf)).
            HoldsIndex ops client txid_of laws to_tx-txid (lookup e.0 r.1) r.0 e.1)
          keychains

  module _ (outpoints : List OutPoint)
      (known : All (λ (op : OutPoint). Knows ops client txid_of laws op.txid) outpoints)
      (spenders : (op : OutPoint) (j : Txid)
        → client.get_output_status op.txid op.vout ≡ ok (some (some j))
        → Knows ops client txid_of laws j) where
    after_refresh-IsComplete :
        (keychains : Keychains) (graph : G) (last : Map ℕ) (r : Result E G)
        → IsUnique keychains
        → HoldsActive ops client txid_of laws to_tx-txid keychains (graph, last)
        → IsRefreshed ops client txid_of laws graph r
        → (r' : Result E (G × Map ℕ)) × (after_refresh ops client outpoints last (some r) ≡ some r')
          × IsComplete keychains outpoints r'
    unfolding after_refresh
    after_refresh-IsComplete keychains graph last (err e) u a k = (err e, refl, k)
    after_refresh-IsComplete keychains graph last (ok g) u a k =
        elim (Result-cases (fetch_outpoints ops client outpoints g)) [
          | inr (x, failed) ↦
              (err x, rw failed refl, fetch_outpoints-FailsBy ops client outpoints g x failed)
          | inl (g', got) ↦
              let (y, held) =
                fetch_outpoints-Extends ops client txid_of laws outpoints g g' known spenders got in
              (
                ok (g', last),
                rw got refl,
                (
                  held,
                  HoldsActive-All ops client txid_of laws to_tx-txid keychains (g', last) u
                      (λ j spks i q l.
                        HoldsUpTo-HasAll ops client txid_of laws to_tx-txid i graph g' spks
                          (λ t h. y t (k t h)) (a j spks i q l)),
                ),
              )
        ]

    -- Where a graph keeps the transactions inserted, and the server has the transaction of
    -- every outpoint and every spending transaction that it names for one: with fuel for every
    -- txid, each keychain once, and its scripts in ascending order of their indices, the
    -- update of the graph ends, with an error only if a call of the client has returned that
    -- error. Else the graph has of each outpoint the transaction, and the one that spends it
    -- if there is one; and of each keychain with a last active index all transactions that the
    -- server answers for its scripts up to that index.
    pub update_tx_graph-IsComplete :
        (fuel : ℕ) (keychain_spks : Keychains) (txids : List Txid) (stop_gap parallel_requests : ℕ)
        → length txids < fuel
        → IsUnique keychain_spks
        → AreAscending keychain_spks
        → (r : Result E (G × Map ℕ)) × (update_tx_graph ops client fuel keychain_spks txids
              outpoints stop_gap parallel_requests
            ≡ some r)
          × IsComplete keychain_spks outpoints r
    unfolding update_tx_graph after_scan
    update_tx_graph-IsComplete fuel keychain_spks txids stop_gap parallel h u a =
        elim (Result-cases (scan_keychains ops client stop_gap keychain_spks ops.empty [])) [
          | inr (x, failed) ↦ (
            err x,
            rw (failed, after_scan) refl,
            scan_keychains-FailsBy ops client stop_gap keychain_spks ops.empty [] x failed,
          )
          | inl (p, got) ↦
              let (x, active) =
                scan_keychains-HoldsActive ops client txid_of laws to_tx-txid stop_gap keychain_spks
                  ops.empty [] p u a (λ k c. refl) got in
              let (r, e, k) =
                refresh-ends ops client txid_of laws fuel (if ltb parallel 1 then 1 else parallel)
                  txids p.0 (ground arith) h in
              let (r', e', c) = after_refresh-IsComplete keychain_spks p.0 p.1 r u active k in
              (r', rw (got, after_scan) (ap (after_refresh ops client outpoints p.1) e ∙ e'), c)
        ]
