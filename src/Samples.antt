-- ===== src/Samples.antt =====
-- Transactions and a server for the tests.
use mwck_rs.Prelude.{ℕ, true, false, none, some, [], ◌∷◌, ltb, if◌then◌else◌, length}
use mwck_rs.Esplora.{ScriptBuf, Tx}
use mwck_rs.Api.{ok, Http, Hashes, fetch_address_history}
use mwck_rs.Wallet.Sync.{Fetch}

abbrev pub alice : ScriptBuf
alice = 7

abbrev pub bob : ScriptBuf
bob = 8

-- Pays 50 to Alice, in block 100.
abbrev pub deposit : Tx
deposit = record {
  txid = 1;
  vin = [];
  vout = record { value = 50; scriptpubkey = alice } ∷ [];
  status = record {
    confirmed = true;
    block_height = some 100;
    block_hash = some 1;
    block_time = some 1;
  };
}

-- Spends that output: 20 to Bob and 25 back to Alice.
abbrev pub payment : Tx
payment = record {
  txid = 2;
  vin = record { prevout = some (record { value = 50; scriptpubkey = alice }) } ∷ [];
  vout =
      record { value = 20; scriptpubkey = bob } ∷ record { value = 25; scriptpubkey = alice } ∷ [];
  status = record { confirmed = false; block_height = none; block_hash = none; block_time = none };
}

abbrev pub no_hashes : Hashes
no_hashes = record { script_hash = λ _. []; txid_text = λ _. [] }

-- A server with the deposit as its whole history: the first page is the shorter request.
abbrev pub one_page : Http ℕ
one_page = record {
  url = [];
  get = λ n url. if ltb (length url) 30 then ok (deposit ∷ []) else ok [];
}

-- The fetch from that server.
abbrev pub paged : Fetch ℕ
paged until_txid until_height =
    elim (fetch_address_history one_page no_hashes alice 3 until_txid until_height) [
      | none ↦ ok []
      | some r ↦ r
    ]
