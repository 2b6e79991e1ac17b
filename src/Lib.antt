-- ===== src/Lib.antt =====
-- A library that keeps the state of bitcoin addresses in step with a mempool.space server: an
-- address's history comes over REST, what changes after comes over a websocket.
--
-- Parts, and how they interact. A `Wallet` (src/wallet/mod.rs) watches addresses. For each it holds
-- a `Tracker` (src/wallet/address/mod.rs) with the address's transactions and balance. `watch` makes
-- the trackers, asks the websocket for the addresses, and syncs each tracker: it fetches the newest
-- part of the history by pages (src/api/mod.rs), removes what the server no longer knows, adds what
-- it sent, and applies the events that came in meanwhile, which the tracker has queued. A connection
-- manager (src/socket/connection.rs) keeps a websocket open with three loops: control.rs writes
-- subscriptions and pings, message.rs reads events for the wallet, ping.rs notices a silent server.
-- `MempoolAsync` (src/async_client.rs) is the client of a wallet by its URL.
--
-- Files.
--   Prelude, HashMap, Text: the shared helpers. A `HashMap` or `HashSet` is an association list in
--     some order of iteration, a text the list of its bytes.
--   Esplora: the values of the `bitcoin` and `esplora_client` crates, as far as they are read.
--   Event: the events of src/wallet/address/mod.rs, src/wallet/mod.rs, src/socket/message.rs and
--     src/socket/control.rs.
--   Tracker: src/wallet/address/mod.rs. Tracker/Balance and Tracker/Order have its counters and its
--     order of transactions. A call gives the new tracker and the events that it sent.
--   Api: `Client::scripthash_txs` and `Client::fetch_address_history` of src/api/mod.rs. Api/Server
--     describes a server that serves one history in pages.
--   Wallet: src/wallet/mod.rs. Wallet/Sync has `sync_address_history` on one tracker; the map of
--     addresses gives references into a store of trackers, since an unwatched tracker may still be
--     held by a sync. Wallet/Steps has the tasks of a wallet as interleaved steps, each under the
--     locks that the code takes for it, Wallet/Subscribed its control events as the control loop
--     takes them, and Wallet/Loop its event loop on what the message loop broadcasts.
--     Wallet/Sync/Fresh is a first sync down to the server's pages, Wallet/Sync/Again a later one.
--     Wallet/Resync is what it does when the websocket connects again, and Wallet/Answers what a
--     wallet answers for an address, watched or not; Wallet/Served puts these together with the
--     server's pages and Tracker/History, which says what a tracker shows of a history. Wallet/Failed
--     is the case in which the history cannot be fetched.
--   Tracker/Restore: a tracker saved as its state and restored. Tracker/Unordered: trackers up to the
--     order in which their hash maps iterate, and Tracker/Unordered/Quotient the type of those;
--     Tracker/Confirmed is the confirmed part of a sorted history, which AsyncClient/History uses.
--   Socket/Control, Socket/Message, Socket/Ping, Socket/Connection: the loops of src/socket, each a
--     step on its local variables for what its `select!` takes, and a run over a list of these.
--   Socket/System: one connection of connection.rs with the three loops that its `connect` spawns, as
--     interleaved steps, each enabled by the signals that wait for it. The loops have subscribed to
--     the disconnect channel before the first step.
--   Socket/Client: `start` and `stop` of src/socket/mod.rs and `stop` of connection.rs, on the list of
--     what the status channel yields to them.
--   AsyncClient: src/async_client.rs, and the URLs of `Wallet::new`. AsyncClient/Delegated has the
--     calls that examples/bdk_mempool makes through `delegate!`.
--   BdkExt: of examples/bdk_mempool, the scan of a keychain in its src/async_ext.rs, and its
--     src/lib.rs. BdkExt/Chain is `update_local_chain` of async_ext.rs, with its `BTreeMap` in
--     BdkExt/SortedMap; BdkExt/TxGraph is `update_tx_graph`, with its loops over txids and outpoints,
--     on fixed answers of the client, and BdkExt/Client is the same on the wallet of the client, which
--     watches each address that is asked for.
--   WalletProgram: examples/bdk_mempool_wallet/src/main.rs, from the moment its client has connected,
--     with the two updates of async_ext.rs. A run gives what it left and how it ended.
--   WasmWatcher: examples/wasm_wallet_watcher/src/lib.rs, its `JsWallet` with the task of
--     `subscribe`. WasmWatcher/Lock has the mutex around the wallet, as interleaved steps of the calls
--     that lock it, of the connection manager and of the wallet's event loop.
--   Samples and the modules named Tests: concrete inputs.
--
-- Numbers. Values and counters are natural numbers; the counters of a balance and the number of
-- connections wrap around as in a release build. A `Txid` and a `ScriptBuf` are numbers.
--
-- Fuel. `fetch_loop` and so `fetch_address_history` run on fuel, a unit for each page: a history of
-- n transactions needs no more than n / 50 + 2. `drain_loop` has the length of the queue. `refresh` of
-- BdkExt/TxGraph has a unit for each chunk of txids, and a chunk takes a txid at least, so their number
-- and one more are enough.
--
-- Parameters. The HTTP client, the hash of a script, the text of a txid, the JSON parser, the texts
-- of addresses, for BdkExt the graph and the checkpoints of `bdk_chain` and the answers of the REST
-- client, and for WalletProgram the wallet of `bdk` are arguments. Of the server, the theorems on
-- fetches assume that it serves one history in pages of 50, newest first. A REST client of BdkExt
-- answers the same question the same way during an update.
--
-- Not modelled: logging, `Display`, the opening of sockets, the spawning of tasks and the capacity of
-- broadcast channels but the disconnect channel, since these are calls of tokio, tungstenite and
-- wasm_bindgen; the delegated calls of `esplora_client` that nothing in the repository makes; the
-- logger of examples/wasm_wallet_watcher; how examples/bdk_mempool_wallet opens its store, and the
-- events that its client receives while it runs.
pub mod Prelude
pub mod HashMap
pub mod Esplora
pub mod Event
pub mod Text
pub mod Socket
pub mod AsyncClient
pub mod BdkExt
pub mod WasmWatcher
pub mod Samples
pub mod Tracker
pub mod Api
pub mod Wallet
pub mod WalletProgram
