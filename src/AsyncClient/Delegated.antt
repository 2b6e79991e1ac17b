-- ===== src/AsyncClient/Delegated.antt =====
-- src/async_client.rs: the calls of `MempoolAsync` that `delegate!` hands to the REST client of its
-- wallet, those that examples/bdk_mempool makes, and that client behind the error of the wallet.
use mwck_rs.Prelude.{ℕ, Option, none, some, List, map}
use mwck_rs.Esplora.{ScriptBuf, Txid, TxStatus, Tx}
use mwck_rs.Api.{Result, ok, err}
use mwck_rs.Wallet.Sync.{Error, esplora_error}
use mwck_rs.BdkExt.Chain.{BlockClient}
use mwck_rs.BdkExt.TxGraph.{TxClient}

-- `OutputStatus`, of which the spending txid is read, and `BlockSummary`, of which the hash is.
pub record OutputStatus : Type 0 where
  pub txid : Option Txid

pub record BlockSummary : Type 0 where
  pub id : ℕ

-- The calls of `esplora_client::AsyncClient`; `T` are its transactions and `E` its errors.
pub record EsploraClient (T E : Type 0) : Type 0 where
  pub get_tx : Txid → Result E (Option T)
  pub get_tx_status : Txid → Result E TxStatus
  pub get_output_status : Txid → ℕ → Result E (Option OutputStatus)
  pub broadcast : T → Result E (Unit {0})
  pub get_height : Result E ℕ
  pub get_block_hash : ℕ → Result E ℕ
  pub get_blocks : Option ℕ → Result E (List BlockSummary)

-- `?` from the error of the client to that of the wallet.
unfoldable pub from_esplora : {E A : Type 0} → Result E A → Result (Error E) A
from_esplora (ok a) = ok a
from_esplora (err e) = err (esplora_error e)

-- `get_output_status` as the extension reads it.
unfoldable pub spending_txid :
    {E : Type 0} → Result E (Option OutputStatus) → Result E (Option (Option Txid))
spending_txid (err e) = err e
spending_txid (ok none) = ok none
spending_txid (ok (some status)) = ok (some status.txid)

unfoldable pub block_hashes : {E : Type 0} → Result E (List BlockSummary) → Result E (List ℕ)
block_hashes (err e) = err e
block_hashes (ok blocks) = ok (map (λ b. b.id) blocks)

module _ {T E : Type 0} (client : EsploraClient T E) where
  -- What the extension asks of the client for the graph, but for the histories.
  unfoldable pub tx_client : (ScriptBuf → Result (Error E) (List Tx)) → TxClient T (Error E)
  tx_client confirmed_txs = record {
    confirmed_txs = confirmed_txs;
    get_tx = λ txid. from_esplora (client.get_tx txid);
    get_tx_status = λ txid. from_esplora (client.get_tx_status txid);
    get_output_status =
        λ txid vout. from_esplora (spending_txid (client.get_output_status txid vout));
  }

  -- And for the chain.
  unfoldable pub block_client : BlockClient (Error E)
  block_client = record {
    get_height = from_esplora client.get_height;
    get_blocks = λ height. from_esplora (block_hashes (client.get_blocks (some height)));
    get_block_hash = λ height. from_esplora (client.get_block_hash height);
  }
