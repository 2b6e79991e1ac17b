-- ===== src/BdkExt/TxGraph/Tests.antt =====
-- The loops over txids and outpoints at concrete inputs.
use mwck_rs.Prelude.{ℕ, ◌+◌, ◌≡◌, refl, some, List, [], ◌∷◌, arith, ◌==◌, any}
use mwck_rs.HashMap.{Map}
use mwck_rs.Esplora.{ScriptBuf, Txid}
use mwck_rs.Samples.{alice, bob, deposit}
use mwck_rs.Api.{Result, ok}
use mwck_rs.BdkExt.{anchor_from_status, anchor_of}
use mwck_rs.BdkExt.TxGraph.{
  TxGraph, TxClient, OutPoint, refresh, fetch_outpoints, fetch_outpoint, fetch_missing,
  fetch_spender, update_tx_graph,
}
use mwck_rs.BdkExt.TxGraph.Refresh.{refresh_each, refresh-each}
use mwck_rs.BdkExt.TxGraph.Outpoints.{IsTxGraph}
use mwck_rs.BdkExt.TxGraph.Complete.{IsComplete, update_tx_graph-IsComplete}

-- A graph that is the txids of its transactions, and the height that each anchor names.
abbrev Held : Type 0
Held = List Txid × List (Txid × ℕ)

abbrev listed : TxGraph Txid Held
listed = record {
  to_tx = λ tx. tx.txid;
  insert_tx = λ tx graph. (tx ∷ graph.0, graph.1);
  insert_anchor = λ txid anchor graph. (graph.0, (txid, anchor.confirmation_height) ∷ graph.1);
  has_tx = λ txid graph. any (λ tx. tx == txid) graph.0;
  empty = ([], []);
}

-- Every transaction is there, in block 100; each is spent by the next.
abbrev server : TxClient Txid ℕ
server = record {
  confirmed_txs = λ spk. ok (deposit ∷ []);
  get_tx = λ txid. ok (some txid);
  get_tx_status = λ txid. ok deposit.status;
  get_output_status = λ txid vout. ok (some (some (vout + 5)));
}

listed-IsTxGraph : IsTxGraph listed (λ tx. tx)
listed-IsTxGraph = record {
  has_tx-insert_tx = λ j tx graph. refl;
  has_tx-insert_anchor = λ j txid anchor graph. refl;
}

refresh-each_example :
    refresh listed server 4 2 (1 ∷ 2 ∷ 3 ∷ []) ([], [])
    ≡ some (ok ([], (3, 100) ∷ (2, 100) ∷ (1, 100) ∷ []))
unfolding refresh_each anchor_from_status anchor_of
refresh-each_example =
    refresh-each listed server (λ j txid anchor graph. refl) 4 2 (1 ∷ 2 ∷ 3 ∷ []) ([], [])
      (omega arith) (omega arith) (refl, (refl, (refl, tt)))

-- A chunk that the graph has already ends the loop, with a txid left.
skipped : refresh listed server 4 1 (1 ∷ 2 ∷ []) (1 ∷ [], []) ≡ some (ok (1 ∷ [], []))
unfolding refresh
skipped = refl

abbrev outpoint : OutPoint
outpoint = record { txid = 1; vout = 2 }

abbrev filled : Held
filled = (7 ∷ 1 ∷ [], (7, 100) ∷ (1, 100) ∷ [])

filled-ok : fetch_outpoints listed server (outpoint ∷ []) ([], []) ≡ ok filled
unfolding fetch_outpoints fetch_outpoint fetch_missing fetch_spender anchor_from_status anchor_of
filled-ok = refl

-- A keychain with two scripts, and one with none.
abbrev keychains : Map (List (ℕ × ScriptBuf))
keychains = (0, (0, alice) ∷ (1, bob) ∷ []) ∷ (1, []) ∷ []

update_tx_graph-IsComplete_example :
    (r : Result ℕ (Held × Map ℕ)) × (update_tx_graph listed server 4 keychains
        (1 ∷ 2 ∷ 3 ∷ [])
        (outpoint ∷ [])
        20
        2
      ≡ some r)
    × IsComplete listed server (λ tx. tx) listed-IsTxGraph (λ tx. refl) keychains (outpoint ∷ []) r
update_tx_graph-IsComplete_example =
    update_tx_graph-IsComplete listed server (λ tx. tx) listed-IsTxGraph (λ tx. refl)
      (outpoint ∷ []) ((1, refl, refl), tt) (λ op j e. (j, refl, refl)) 4 keychains (1 ∷ 2 ∷ 3 ∷ [])
      20 2 (omega arith) (refl, (refl, tt)) (((omega arith, tt), (tt, tt)), (tt, tt))
