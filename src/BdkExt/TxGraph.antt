-- ===== src/BdkExt/TxGraph.antt =====
-- examples/bdk_mempool/src/async_ext.rs: `update_tx_graph` as a whole. `TxGraph` of `bdk_chain`,
-- the transactions that it holds and the client of the REST server are parameters; a keychain is a
-- number, and the keychains come in ascending order.
pub mod Refresh
pub mod Outpoints
pub mod Scanned
pub mod Keychains
pub mod Failure
pub mod Ends
pub mod Complete
mod Tests
use mwck_rs.Prelude.{
  ℕ, zero, suc, ◌-◌, ◌^◌, Bool, true, false, not, Option, none, some, List, [], ◌∷◌, ltb,
  if◌then◌else◌, take, drop, select,
}
use mwck_rs.HashMap.{Map}
use mwck_rs.Esplora.{ScriptBuf, Txid, TxStatus, Tx}
use mwck_rs.Api.{Result, ok, err}
use mwck_rs.BdkExt.{ConfirmationTimeAnchor, anchor_from_status, Graph, insert_some_anchor, scan}
use mwck_rs.BdkExt.SortedMap.{put}
use mwck_rs.BdkExt.Scan.{unlimited, enumerate}

-- The calls of `TxGraph`: `has_tx` is `get_tx(..).is_some()`.
pub record TxGraph (T G : Type 0) : Type 0 where
  pub to_tx : Tx → T
  pub insert_tx : T → G → G
  pub insert_anchor : Txid → ConfirmationTimeAnchor → G → G
  pub has_tx : Txid → G → Bool
  pub empty : G

pub record OutPoint : Type 0 where
  pub txid : Txid
  pub vout : ℕ

-- The calls of the client; of an output's status only the spending txid is read.
pub record TxClient (T E : Type 0) : Type 0 where
  pub confirmed_txs : ScriptBuf → Result E (List Tx)
  pub get_tx : Txid → Result E (Option T)
  pub get_tx_status : Txid → Result E TxStatus
  pub get_output_status : Txid → ℕ → Result E (Option (Option Txid))

-- `?` on a result, and what follows.
abbrev pub and_ok {ℓ} : {E A B : Type ℓ} → Result E A → (A → Result E B) → Result E B
and_ok (ok a) f = f a
and_ok (err e) f = err e

module _ {T G E : Type 0} (ops : TxGraph T G) (client : TxClient T E) where
  abbrev pub scanned : Graph G
  scanned = record {
    insert_tx = λ tx graph. ops.insert_tx (ops.to_tx tx) graph;
    insert_anchor = ops.insert_anchor;
  }

  unfoldable pub insert_last : ℕ → Option ℕ → Map ℕ → Map ℕ
  insert_last keychain none last = last
  insert_last keychain (some index) last = put keychain index last

  -- The loop over the keychains: the graph, and `last_active_indexes`.
  unfoldable pub scan_keychains :
      ℕ → List (ℕ × List (ℕ × ScriptBuf)) → G → Map ℕ → Result E (G × Map ℕ)
  scan_keychains stop_gap [] graph last = ok (graph, last)
  scan_keychains stop_gap ((keychain, spks) ∷ keychains) graph last =
      and_ok (scan scanned client.confirmed_txs stop_gap spks graph none)
        (λ r. scan_keychains stop_gap keychains r.0 (insert_last keychain r.1 last))

  -- `try_collect` of the requests of a chunk, in their order.
  unfoldable pub fetch_statuses : List Txid → Result E (List (Txid × TxStatus))
  fetch_statuses [] = ok []
  fetch_statuses (txid ∷ txids) =
      and_ok (client.get_tx_status txid)
        (λ status. and_ok (fetch_statuses txids) (λ statuses. ok ((txid, status) ∷ statuses)))

  unfoldable pub insert_anchors : List (Txid × TxStatus) → G → G
  insert_anchors [] graph = graph
  insert_anchors ((txid, status) ∷ statuses) graph =
      insert_anchors statuses (insert_some_anchor scanned txid (anchor_from_status status) graph)

  -- The txids of a chunk that are asked for.
  abbrev pub missing_of : List Txid → G → List Txid
  missing_of txids graph = select (λ txid. not (ops.has_tx txid graph)) txids

  -- The loop over the txids, on fuel: a unit for each chunk; `none` is out of fuel.
  unfoldable pub refresh : ℕ → ℕ → List Txid → G → Option (Result E G)
  refresh zero parallel txids graph = none
  refresh (suc fuel) parallel txids graph = elim (missing_of (take parallel txids) graph) [
    | [] ↦ some (ok graph)
    | txid ∷ missing ↦ elim (fetch_statuses (txid ∷ missing)) [
      | err e ↦ some (err e)
      | ok statuses ↦ refresh fuel parallel (drop parallel txids) (insert_anchors statuses graph)
    ]
  ]

  abbrev pub insert_some_tx : Option T → G → G
  insert_some_tx none graph = graph
  insert_some_tx (some tx) graph = ops.insert_tx tx graph

  -- The block under `graph.get_tx(txid).is_none()`, which stands twice in the loop.
  unfoldable pub fetch_missing : Txid → G → Result E G
  fetch_missing txid graph =
      if ops.has_tx txid graph
      then ok graph
      else and_ok (client.get_tx txid) (λ tx. and_ok (client.get_tx_status txid) (λ status.
        ok (insert_some_anchor scanned txid (anchor_from_status status) (insert_some_tx tx graph))))

  unfoldable pub fetch_spender : Option (Option Txid) → G → Result E G
  fetch_spender none graph = ok graph
  fetch_spender (some none) graph = ok graph
  fetch_spender (some (some txid)) graph = fetch_missing txid graph

  unfoldable pub fetch_outpoint : OutPoint → G → Result E G
  fetch_outpoint op graph = and_ok (fetch_missing op.txid graph) (λ graph'.
      and_ok (client.get_output_status op.txid op.vout) (λ status. fetch_spender status graph'))

  -- The loop over the outpoints.
  unfoldable pub fetch_outpoints : List OutPoint → G → Result E G
  fetch_outpoints [] graph = ok graph
  fetch_outpoints (op ∷ outpoints) graph =
      and_ok (fetch_outpoint op graph) (λ graph'. fetch_outpoints outpoints graph')

  -- What follows the loop over the txids.
  unfoldable pub after_refresh :
      List OutPoint → Map ℕ → Option (Result E G) → Option (Result E (G × Map ℕ))
  after_refresh outpoints last none = none
  after_refresh outpoints last (some r) =
      some
        (and_ok r (λ graph. and_ok (fetch_outpoints outpoints graph) (λ graph'. ok (graph', last))))

  unfoldable pub after_scan :
      ℕ → List Txid → List OutPoint → ℕ → Result E (G × Map ℕ) → Option (Result E (G × Map ℕ))
  after_scan fuel txids outpoints parallel (err e) = some (err e)
  after_scan fuel txids outpoints parallel (ok (graph, last)) =
      after_refresh outpoints last (refresh fuel parallel txids graph)

  unfoldable pub update_tx_graph :
      ℕ
      → List (ℕ × List (ℕ × ScriptBuf))
      → List Txid
      → List OutPoint
      → ℕ
      → ℕ
      → Option (Result E (G × Map ℕ))
  update_tx_graph fuel keychain_spks txids outpoints stop_gap parallel_requests =
      after_scan fuel txids outpoints (if ltb parallel_requests 1 then 1 else parallel_requests)
        (scan_keychains stop_gap keychain_spks ops.empty [])

  -- `.map(|(g, _)| g)`
  unfoldable pub graph_only : Option (Result E (G × Map ℕ)) → Option (Result E G)
  graph_only none = none
  graph_only (some r) = some (and_ok r (λ p. ok p.0))

  unfoldable pub update_tx_graph_without_keychain :
      ℕ → List ScriptBuf → List Txid → List OutPoint → ℕ → Option (Result E G)
  update_tx_graph_without_keychain fuel misc_spks txids outpoints parallel_requests = graph_only (
      update_tx_graph fuel ((0, enumerate 0 misc_spks) ∷ []) txids outpoints unlimited
        parallel_requests)
