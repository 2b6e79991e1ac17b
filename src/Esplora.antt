-- ===== src/Esplora.antt =====
-- The values of the `bitcoin` and `esplora_client` crates that the code reads, with the fields that
-- it reads. A `Txid` is the number that its 32 bytes spell, which has the order of the bytes; a
-- `ScriptBuf` is only compared, hashed and passed on, and is a number that spells its bytes.
use mwck_rs.Prelude.{ℕ, ◌<◌, ◌^◌, Bool, true, false, Option, none, some, List}

abbrev pub Txid : Type 0
Txid = ℕ

abbrev pub ScriptBuf : Type 0
ScriptBuf = ℕ

pub record PrevOut : Type 0 where
  pub value : ℕ
  pub scriptpubkey : ScriptBuf

pub record Vin : Type 0 where
  pub prevout : Option PrevOut

pub record Vout : Type 0 where
  pub value : ℕ
  pub scriptpubkey : ScriptBuf

pub record TxStatus : Type 0 where
  pub confirmed : Bool
  pub block_height : Option ℕ
  pub block_hash : Option ℕ
  pub block_time : Option ℕ

pub record Tx : Type 0 where
  pub txid : Txid
  pub vin : List Vin
  pub vout : List Vout
  pub status : TxStatus

-- What the server's statuses satisfy: a confirmed transaction has the height of its block, a
-- `u32`, and an unconfirmed one has none.
abbrev pub IsDated : Bool → Option ℕ → Type 0
IsDated true (some h) = h < 2 ^ 32
IsDated true none = ⊥
IsDated false (some h) = ⊥
IsDated false none = Unit

abbrev pub IsWellDated : Tx → Type 0
IsWellDated tx = IsDated tx.status.confirmed tx.status.block_height
