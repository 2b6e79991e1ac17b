-- ===== src/WalletProgram/Tests.antt =====
-- A run of the program against a server that has the deposit for every address.
use mwck_rs.WalletProgram.{
  main, after_graph, after_chain, after_apply, after_commit, after_faucet, after_build, after_sign,
  after_broadcast, BdkWallet, Calls,
}
use mwck_rs.BdkExt.Client.{update_tx_graph_with, scan_keychains_with, scan_with, after_scan_with}
use mwck_rs.BdkExt.TxGraph.{
  after_scan, after_refresh, refresh, fetch_outpoints, insert_last, TxGraph,
}
use mwck_rs.BdkExt.{insert_history, anchor_from_status, anchor_of, gap_end, is_active}
use mwck_rs.BdkExt.Chain.{
  update_local_chain, after_height, after_blocks, after_heights, earliest_agreement, find_agreement,
  updated_hash, fetch_heights, zip_down, build_tip, extend_first, first_cp, extend, BlockId,
  CheckPoints,
}
use mwck_rs.BdkExt.SortedMap.{collect_map, collect_set, put, put_key}
use mwck_rs.AsyncClient.{mwck_confirmed_scripthash_txs, map_state}
use mwck_rs.AsyncClient.Delegated.{
  tx_client, block_client, from_esplora, block_hashes, spending_txid, EsploraClient,
}
use mwck_rs.Wallet.{
  get_and_watch, first_state, watch, watch_start, insert_new, sync_all, sync_address_history,
  on_tracker, collect, get_address_state, new_wallet,
}
use mwck_rs.Wallet.Sync.{
  sync_tracker, after_fetch, sync_fetched, process_fetched, remove_stale, last_confirmed,
}
use mwck_rs.Tracker.{
  new, get_state, set_loading, drain_queue, drain_loop, process_event, apply_event, add_transaction,
  insert_transaction, remove_transaction, remove_found,
}
use mwck_rs.Tracker.Order.{sort_by_time, insert_by_time, in_time, cmp_tx_time, partial_cmp_tx_time}
use mwck_rs.Prelude.{
  ℕ, ◌+◌, ◌*◌, ◌≡◌, refl, some, none, List, [], ◌∷◌, ◌==◌, any, ltb, if◌then◌else◌, length, true,
}
use mwck_rs.Esplora.{ScriptBuf, Txid}
use mwck_rs.Samples.{alice, bob, deposit}
use mwck_rs.Api.{ok}
use mwck_rs.Wallet.Store.{new_wallet-IsSound}
use mwck_rs.WalletProgram.Outcome.{IsOutcome, main-IsOutcome}

abbrev server : EsploraClient Txid ℕ
server = record {
  get_tx = λ txid. ok (some txid);
  get_tx_status = λ txid. ok deposit.status;
  get_output_status = λ txid vout. ok none;
  broadcast = λ tx. ok tt;
  get_height = ok 101;
  get_block_hash = λ height. ok (1000 + height);
  get_blocks = λ height. ok (record { id = 1101 } ∷ record { id = 1100 } ∷ []);
}

-- A graph that is the txids of its transactions.
abbrev txids : TxGraph Txid (List Txid)
txids = record {
  to_tx = λ tx. tx.txid;
  insert_tx = λ tx graph. tx ∷ graph;
  insert_anchor = λ txid anchor graph. graph;
  has_tx = λ txid graph. any (λ tx. tx == txid) graph;
  empty = [];
}

-- Checkpoints as lists of blocks, the highest first.
abbrev top : List BlockId → BlockId
top [] = record { height = 0; hash = 1000 }
top (b ∷ bs) = b

abbrev down : List BlockId → List (List BlockId)
down [] = []
down (b ∷ bs) = (b ∷ bs) ∷ down bs

abbrev blocks : CheckPoints (List BlockId)
blocks = record {
  block_id = top;
  iter = down;
  make = λ b. b ∷ [];
  push = λ cp b. if ltb (top cp).height b.height then some (b ∷ cp) else none;
}

-- A wallet that is its balance, 3000 for each transaction of an update.
abbrev balance : BdkWallet ℕ (List BlockId) (List Txid) Txid ScriptBuf ℕ
balance = record {
  get_address = λ w. w;
  latest_checkpoint = λ w. none;
  spks_of_all_keychains = λ w. (0, (0, alice) ∷ (1, bob) ∷ []) ∷ [];
  missing_heights = λ w. [];
  apply_update = λ u w. ok (w + 3000 * length u.graph);
  commit = λ w. ok w;
  total = λ w. w;
  build_tx = λ spk amount w. ok (spk, w);
  sign = λ psbt w. ok (psbt, true);
  extract_tx = λ psbt. psbt;
}

abbrev online : Calls ℕ (List BlockId) (List Txid) Txid ScriptBuf ℕ ℕ
online = record {
  api = λ spk until_txid until_height. ok (deposit ∷ []);
  graphs = txids;
  txs = tx_client server (λ spk. ok []);
  points = blocks;
  blocks = block_client server;
  broadcast = server.broadcast;
  bdk = balance;
  faucet_address = ok bob;
}

-- Both addresses have the deposit, so the wallet has 6000 and pays the faucet.
pays : (main online 0 new_wallet).0.broadcasts ≡ bob ∷ []
unfolding main after_graph after_chain after_apply after_commit after_faucet after_build after_sign
    after_broadcast update_tx_graph_with scan_keychains_with scan_with after_scan_with after_scan
    after_refresh refresh fetch_outpoints insert_last insert_history anchor_from_status anchor_of
    gap_end is_active mwck_confirmed_scripthash_txs map_state get_and_watch first_state watch
    watch_start insert_new sync_all sync_address_history on_tracker collect get_address_state
    new_wallet sync_tracker after_fetch sync_fetched process_fetched remove_stale last_confirmed new
    get_state set_loading drain_queue drain_loop process_event apply_event add_transaction
    insert_transaction remove_transaction remove_found sort_by_time insert_by_time in_time
    cmp_tx_time partial_cmp_tx_time update_local_chain after_height after_blocks after_heights
    earliest_agreement find_agreement updated_hash fetch_heights zip_down collect_map collect_set
    put put_key build_tip extend_first first_cp extend tx_client block_client from_esplora
    block_hashes spending_txid
pays = refl

main-IsOutcome_example : IsOutcome online 0 new_wallet (main online 0 new_wallet)
main-IsOutcome_example = main-IsOutcome online 0 new_wallet new_wallet-IsSound
