-- ===== src/BdkExt/Client.antt =====
-- examples/bdk_mempool/src/async_ext.rs on the client that it extends, src/async_client.rs: each
-- history that `update_tx_graph` asks for is a call of the client's wallet, which may watch a new
-- address. The other calls go to the REST client and leave the wallet as it is.
pub mod Fixed
mod Tests
use mwck_rs.Prelude.{ℕ, Option, none, some, List, [], ◌∷◌, ltb, opt_ltb, if◌then◌else◌}
use mwck_rs.HashMap.{Map}
use mwck_rs.Esplora.{ScriptBuf, Txid, Tx}
use mwck_rs.Api.{Result, ok, err}
use mwck_rs.Wallet.Sync.{Error}
use mwck_rs.Wallet.{Wallet, Api}
use mwck_rs.AsyncClient.{mwck_confirmed_scripthash_txs}
use mwck_rs.BdkExt.{Graph, insert_history, gap_end, is_active}
use mwck_rs.BdkExt.TxGraph.{TxGraph, TxClient, OutPoint, scanned, insert_last, after_scan}

-- A result of a call of the wallet, and what follows; `none` is a panic.
abbrev pub after_call {ℓ} :
    {E A B : Type ℓ}
    → Wallet × Option (Result E A)
    → (A → Wallet → Wallet × Option (Result E B))
    → Wallet × Option (Result E B)
after_call (w, none) f = (w, none)
after_call (w, some (err e)) f = (w, some (err e))
after_call (w, some (ok a)) f = f a w

module _ {E T G : Type 0} (api : Api E) (ops : TxGraph T G) (client : TxClient T (Error E)) where
  -- The loop over the scripts of a keychain.
  unfoldable pub scan_with :
      ℕ
      → List (ℕ × ScriptBuf)
      → G
      → Option ℕ
      → Wallet
      → Wallet × Option (Result (Error E) (G × Option ℕ))
  scan_with stop_gap [] graph last_active w = (w, some (ok (graph, last_active)))
  scan_with stop_gap ((index, spk) ∷ spks) graph last_active w =
      after_call (mwck_confirmed_scripthash_txs api spk w) (λ txs w'.
        let last = if is_active txs then some index else last_active in
        let graph' = insert_history (scanned ops client) txs graph in
        let rest = scan_with stop_gap spks graph' last w' in
        if opt_ltb (gap_end stop_gap last) (some index)
        then (w', some (ok (graph', last)))
        else rest)

  -- The loop over the keychains.
  unfoldable pub scan_keychains_with :
      ℕ
      → List (ℕ × List (ℕ × ScriptBuf))
      → G
      → Map ℕ
      → Wallet
      → Wallet × Option (Result (Error E) (G × Map ℕ))
  scan_keychains_with stop_gap [] graph last w = (w, some (ok (graph, last)))
  scan_keychains_with stop_gap ((keychain, spks) ∷ keychains) graph last w =
      after_call (scan_with stop_gap spks graph none w) (λ r w'.
        scan_keychains_with stop_gap keychains r.0 (insert_last ops client keychain r.1 last) w')

  -- `update_tx_graph`; `none` is a panic, or out of fuel.
  unfoldable pub after_scan_with :
      ℕ
      → List Txid
      → List OutPoint
      → ℕ
      → Wallet × Option (Result (Error E) (G × Map ℕ))
      → Wallet × Option (Result (Error E) (G × Map ℕ))
  after_scan_with fuel txids outpoints parallel (w, none) = (w, none)
  after_scan_with fuel txids outpoints parallel (w, some r) =
      (w, after_scan ops client fuel txids outpoints parallel r)

  unfoldable pub update_tx_graph_with :
      ℕ
      → List (ℕ × List (ℕ × ScriptBuf))
      → List Txid
      → List OutPoint
      → ℕ
      → ℕ
      → Wallet
      → Wallet × Option (Result (Error E) (G × Map ℕ))
  update_tx_graph_with fuel keychain_spks txids outpoints stop_gap parallel_requests w =
      after_scan_with fuel txids outpoints
        (if ltb parallel_requests 1 then 1 else parallel_requests)
        (scan_keychains_with stop_gap keychain_spks ops.empty [] w)
