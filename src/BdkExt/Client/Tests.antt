-- ===== src/BdkExt/Client/Tests.antt =====
-- The update of the graph on a new wallet.
use mwck_rs.Prelude.{ℕ, ◌+◌, ◌≡◌, some, List, [], ◌∷◌, ◌==◌, any, Option}
use mwck_rs.HashMap.{Map}
use mwck_rs.Esplora.{ScriptBuf, Txid}
use mwck_rs.Samples.{alice, bob, deposit}
use mwck_rs.Api.{Result, ok}
use mwck_rs.Wallet.Sync.{Error}
use mwck_rs.Wallet.{Wallet, Api, new_wallet}
use mwck_rs.Wallet.Store.{IsSound, new_wallet-IsSound}
use mwck_rs.Wallet.Answers.{answer}
use mwck_rs.BdkExt.TxGraph.{TxGraph, TxClient, update_tx_graph}
use mwck_rs.BdkExt.Client.{update_tx_graph_with}
use mwck_rs.BdkExt.Client.Fixed.{on_wallet, update_tx_graph_with-update_tx_graph}

-- A graph that is the txids of its transactions.
abbrev txids : TxGraph Txid (List Txid)
txids = record {
  to_tx = λ tx. tx.txid;
  insert_tx = λ tx graph. tx ∷ graph;
  insert_anchor = λ txid anchor graph. graph;
  has_tx = λ txid graph. any (λ tx. tx == txid) graph;
  empty = [];
}

abbrev server : TxClient Txid (Error ℕ)
server = record {
  confirmed_txs = λ spk. ok [];
  get_tx = λ txid. ok (some txid);
  get_tx_status = λ txid. ok deposit.status;
  get_output_status = λ txid vout. ok (some (some (vout + 5)));
}

-- The server has the deposit for every address.
abbrev online : Api ℕ
online spk until_txid until_height = ok (deposit ∷ [])

abbrev keychains : Map (List (ℕ × ScriptBuf))
keychains = (0, (0, alice) ∷ (1, bob) ∷ []) ∷ []

abbrev updated : Wallet × Option (Result (Error ℕ) (List Txid × Map ℕ))
updated = update_tx_graph_with online txids server 4 keychains (1 ∷ 3 ∷ []) [] 20 2 new_wallet

update_tx_graph_with-update_tx_graph_example :
    (updated.1
      ≡ update_tx_graph txids
          (on_wallet online txids server (answer online new_wallet))
          4
          keychains
          (1 ∷ 3 ∷ [])
          []
          20
          2)
    × IsSound updated.0
update_tx_graph_with-update_tx_graph_example =
    update_tx_graph_with-update_tx_graph online txids server 4 keychains (1 ∷ 3 ∷ []) [] 20 2
      new_wallet new_wallet-IsSound
