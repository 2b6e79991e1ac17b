-- ===== src/BdkExt.antt =====
-- examples/bdk_mempool: the scan of a keychain in `update_tx_graph` (src/async_ext.rs) and the
-- anchors of src/lib.rs. `TxGraph` of `bdk_chain` is a parameter, and so is what the client
-- answers for a script.
pub mod Scan
pub mod Gap
pub mod SortedMap
pub mod Chain
pub mod TxGraph
pub mod Client
mod Tests
use mwck_rs.Prelude.{
  ℕ, ◌+◌, ◌%◌, ◌^◌, Bool, true, false, Option, none, some, List, [], ◌∷◌, opt_ltb, if◌then◌else◌,
}
use mwck_rs.Esplora.{ScriptBuf, Txid, TxStatus, Tx}
use mwck_rs.Api.{Result, ok, err}

-- `ConfirmationTimeAnchor`.
pub record ConfirmationTimeAnchor : Type 0 where
  pub anchor_height : ℕ
  pub anchor_hash : ℕ
  pub confirmation_height : ℕ
  pub confirmation_time : ℕ

unfoldable pub anchor_of : Option ℕ → Option ℕ → Option ℕ → Option ConfirmationTimeAnchor
anchor_of (some height) (some hash) (some time) = some (record {
  anchor_height = height;
  anchor_hash = hash;
  confirmation_height = height;
  confirmation_time = time;
})
anchor_of (some height) (some hash) none = none
anchor_of (some height) none time = none
anchor_of none hash time = none

unfoldable pub anchor_from_status : TxStatus → Option ConfirmationTimeAnchor
anchor_from_status status = anchor_of status.block_height status.block_hash status.block_time

-- The calls of `TxGraph`.
pub record Graph (G : Type 0) : Type 0 where
  pub insert_tx : Tx → G → G
  pub insert_anchor : Txid → ConfirmationTimeAnchor → G → G

abbrev pub insert_some_anchor :
    {G : Type 0} → Graph G → Txid → Option ConfirmationTimeAnchor → G → G
insert_some_anchor ops txid none graph = graph
insert_some_anchor ops txid (some anchor) graph = ops.insert_anchor txid anchor graph

-- The `for` loop over the transactions of a script.
unfoldable pub insert_history : {G : Type 0} → Graph G → List Tx → G → G
insert_history ops [] graph = graph
insert_history ops (tx ∷ txs) graph =
    insert_history ops txs
      (insert_some_anchor ops tx.txid (anchor_from_status tx.status) (ops.insert_tx tx graph))

-- `last_active_index.map(|i| i + stop_gap as u32)`.
unfoldable pub gap_end : ℕ → Option ℕ → Option ℕ
gap_end stop_gap none = none
gap_end stop_gap (some i) = some ((i + stop_gap % 2 ^ 32) % 2 ^ 32)

unfoldable pub is_active : List Tx → Bool
is_active [] = false
is_active (tx ∷ txs) = true

-- The loop over the scripts of a keychain: the graph, and `last_active_index`.
unfoldable pub scan :
    {G E : Type 0}
    → Graph G
    → (ScriptBuf → Result E (List Tx))
    → ℕ
    → List (ℕ × ScriptBuf)
    → G
    → Option ℕ
    → Result E (G × Option ℕ)
scan ops confirmed_txs stop_gap [] graph last_active = ok (graph, last_active)
scan ops confirmed_txs stop_gap ((index, spk) ∷ spks) graph last_active = elim (confirmed_txs spk) [
  | err e ↦ err e
  | ok txs ↦
      let last = if is_active txs then some index else last_active in
      let graph' = insert_history ops txs graph in
      let rest = scan ops confirmed_txs stop_gap spks graph' last in
      if opt_ltb (gap_end stop_gap last) (some index) then ok (graph', last) else rest
]
