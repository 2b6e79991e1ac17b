-- ===== src/WalletProgram.antt =====
-- examples/bdk_mempool_wallet/src/main.rs: the program that brings a wallet of `bdk` up to date
-- through the extension and pays from it, from the moment its client has connected. The wallet of
-- `bdk` is a parameter.
pub mod Outcome
mod Tests
use mwck_rs.Prelude.{
  ℕ, Bool, true, false, Option, none, some, List, [], ◌∷◌, ◌++◌, ltb, if◌then◌else◌,
}
use mwck_rs.HashMap.{Map}
use mwck_rs.Esplora.{ScriptBuf}
use mwck_rs.Api.{Result, ok, err}
use mwck_rs.Wallet.Sync.{Error}
use mwck_rs.Wallet.{Wallet, Api}
use mwck_rs.BdkExt.TxGraph.{TxGraph, TxClient}
use mwck_rs.BdkExt.Chain.{CheckPoints, BlockClient, update_local_chain}
use mwck_rs.BdkExt.Client.{update_tx_graph_with}

-- `LocalUpdate`; its chain is the tip.
pub record LocalUpdate (C G : Type 0) : Type 0 where
  pub last_active_indices : Map ℕ
  pub graph : G
  pub tip : C

-- The calls of `bdk::Wallet`: its states are `W`, its transactions under way `B`, its errors `F`.
-- `build_tx` stands for the builder with one recipient, up to `finish`.
pub record BdkWallet (W C G T B F : Type 0) : Type 0 where
  pub get_address : W → W
  pub latest_checkpoint : W → Option C
  pub spks_of_all_keychains : W → List (ℕ × List (ℕ × ScriptBuf))
  pub missing_heights : W → List ℕ
  pub apply_update : LocalUpdate C G → W → Result F W
  pub commit : W → Result F W
  pub total : W → ℕ
  pub build_tx : ScriptBuf → ℕ → W → Result F (B × W)
  pub sign : B → W → Result F (B × Bool)
  pub extract_tx : B → T

-- All that the program calls: the server, the graph and the checkpoints of `bdk_chain`, the wallet
-- of `bdk`, and the address that it pays to.
pub record Calls (W C G T B F E : Type 0) : Type 0 where
  pub api : Api E
  pub graphs : TxGraph T G
  pub txs : TxClient T (Error E)
  pub points : CheckPoints C
  pub blocks : BlockClient (Error E)
  pub broadcast : T → Result E (Unit {0})
  pub bdk : BdkWallet W C G T B F
  pub faucet_address : Result F ScriptBuf

abbrev pub send_amount : ℕ
send_amount = 5000

abbrev pub stop_gap : ℕ
stop_gap = 50

abbrev pub parallel_requests : ℕ
parallel_requests = 5

-- The two wallets, what was written to the store, and what was handed to the server, in order.
pub record Env (W T : Type 0) : Type 0 where
  pub wallet : W
  pub client : Wallet
  pub committed : List W
  pub broadcasts : List T

-- How the program ends: with an error of the client, of its server or of the wallet, with a panic,
-- with `exit(0)`, or with a transaction sent.
pub data Ending (T F E : Type 0) : Type 0 where
  client_error : Error E → Ending T F E
  server_error : E → Ending T F E
  wallet_error : F → Ending T F E
  panicked : Ending T F E
  exited : Ending T F E
  finished : T → Ending T F E

module _ {W C G T B F E : Type 0} (calls : Calls W C G T B F E) where
  unfoldable pub after_broadcast : T → Env W T → Result E (Unit {0}) → Env W T × Ending T F E
  after_broadcast tx env (err e) = (env, server_error e)
  after_broadcast tx env (ok u) = (env, finished tx)

  -- `assert!(finalized)`, and what follows it.
  unfoldable pub after_sign : Env W T → Result F (B × Bool) → Env W T × Ending T F E
  after_sign env (err f) = (env, wallet_error f)
  after_sign env (ok (psbt, false)) = (env, panicked)
  after_sign env (ok (psbt, true)) =
      let tx = calls.bdk.extract_tx psbt in
      after_broadcast tx (record env { broadcasts = env.broadcasts ++ tx ∷ [] })
        (calls.broadcast tx)

  unfoldable pub after_build : Env W T → Result F (B × W) → Env W T × Ending T F E
  after_build env (err f) = (env, wallet_error f)
  after_build env (ok (psbt, w)) = after_sign (record env { wallet = w }) (calls.bdk.sign psbt w)

  unfoldable pub after_faucet : Env W T → Result F ScriptBuf → Env W T × Ending T F E
  after_faucet env (err f) = (env, wallet_error f)
  after_faucet env (ok spk) = after_build env (calls.bdk.build_tx spk send_amount env.wallet)

  unfoldable pub after_commit : Env W T → Result F W → Env W T × Ending T F E
  after_commit env (err f) = (env, wallet_error f)
  after_commit env (ok w) =
      let env' = record env { wallet = w; committed = env.committed ++ w ∷ [] } in
      if ltb (calls.bdk.total w) send_amount
      then (env', exited)
      else after_faucet env' calls.faucet_address

  unfoldable pub after_apply : Env W T → Result F W → Env W T × Ending T F E
  after_apply env (err f) = (env, wallet_error f)
  after_apply env (ok w) = after_commit (record env { wallet = w }) (calls.bdk.commit w)

  unfoldable pub after_chain :
      G → Map ℕ → Env W T → Option (Result (Error E) C) → Env W T × Ending T F E
  after_chain graph last env none = (env, panicked)
  after_chain graph last env (some (err e)) = (env, client_error e)
  after_chain graph last env (some (ok tip)) =
      let update : LocalUpdate C G = record {
        last_active_indices = last;
        graph = graph;
        tip = tip;
      } in
      after_apply env (calls.bdk.apply_update update env.wallet)

  unfoldable pub after_graph :
      Option C → Env W T → Option (Result (Error E) (G × Map ℕ)) → Env W T × Ending T F E
  after_graph prev_tip env none = (env, panicked)
  after_graph prev_tip env (some (err e)) = (env, client_error e)
  after_graph prev_tip env (some (ok (graph, last))) =
      after_chain graph last env (
        update_local_chain calls.points calls.blocks prev_tip
          (calls.bdk.missing_heights env.wallet))

  -- The program on a wallet and a client that has connected. It updates no single txids, so a unit
  -- of fuel is enough.
  unfoldable pub main : W → Wallet → Env W T × Ending T F E
  main wallet client =
      let w = calls.bdk.get_address wallet in
      let (client', r) =
        update_tx_graph_with calls.api calls.graphs calls.txs 1 (calls.bdk.spks_of_all_keychains w)
          [] [] stop_gap parallel_requests client in
      after_graph (calls.bdk.latest_checkpoint w)
        (record { wallet = w; client = client'; committed = []; broadcasts = [] }) r
