-- ===== src/AsyncClient/Tests.antt =====
-- The client's theorems at concrete inputs.
use mwck_rs.Prelude.{
  ℕ, ◌≡◌, refl, sym, ap, ◌∙◌, [], ◌∷◌, ◌++◌, arith, true, some, none, List, length, ltb, ◌==◌,
  if◌then◌else◌,
}
use mwck_rs.HashMap.{lookup}
use mwck_rs.Tracker.Order.{sort_by_time, insert_by_time, in_time, cmp_tx_time, partial_cmp_tx_time}
use mwck_rs.Text.{codes, decimal}
use mwck_rs.Esplora.{Tx}
use mwck_rs.Samples.{alice, deposit, payment}
use mwck_rs.Api.{ok, Http, Hashes, page_url, scripthash_txs, fetch_address_history}
use mwck_rs.Api.Server.{page, Serves}
use mwck_rs.Wallet.{Wallet, Api, new_wallet}
use mwck_rs.Wallet.Store.{new_wallet-IsSound}
use mwck_rs.AsyncClient.{from_url, mwck_scripthash_txs, mwck_confirmed_scripthash_txs}
use mwck_rs.AsyncClient.Url.{from_url_lem}
use mwck_rs.AsyncClient.History.{mwck-histories}

-- A URL of the test network's API leads to the API of the main network.
from_url_lem_example :
    from_url (codes "https://mempool.space/testnet/api")
    ≡ some (codes "https://mempool.space/api", codes "wss://mempool.space/api/v1/ws")
from_url_lem_example =
    from_url_lem true (codes "mempool.space") (codes "/testnet/api") (ground arith) (ground arith)

-- A server with the payment in its mempool and the deposit in a block; the requests that name one of
-- them are the longer ones.
abbrev hashes : Hashes
hashes = record {
  script_hash = λ _. [];
  txid_text = λ txid. if txid == 1 then codes "0123456789" else [];
}

abbrev two : Http ℕ
two = record {
  url = [];
  get = λ n url.
      if ltb (length url) 30
      then ok (payment ∷ deposit ∷ [])
      else (if ltb (length url) 45 then ok (deposit ∷ []) else ok []);
}

after_one :
    (n : ℕ) (xs : List Tx) (t : Tx) (ys : List Tx)
    → payment ∷ deposit ∷ [] ≡ xs ++ t ∷ ys
    → scripthash_txs two hashes n alice (some t.txid) none ≡ ok (page ys)
unfolding scripthash_txs page_url decimal page
after_one n [] t [] e = cc
after_one n [] t (y ∷ []) e =
    let named : payment ≡ t = cc e in
    let next : deposit ≡ y = cc e in
    ap (λ (x : Tx). scripthash_txs two hashes n alice (some x.txid) none) (sym named)
    ∙ ap (λ x. ok (x ∷ [])) next
after_one n [] t (y ∷ z ∷ ys) e = cc
after_one n (x ∷ []) t [] e =
    let named : deposit ≡ t = cc e in
    ap (λ (x : Tx). scripthash_txs two hashes n alice (some x.txid) none) (sym named)
after_one n (x ∷ []) t (y ∷ ys) e = cc
after_one n (x ∷ y ∷ []) t ys e = cc
after_one n (x ∷ y ∷ z ∷ xs) t ys e = cc

two-Serves : Serves two hashes alice (payment ∷ deposit ∷ [])
unfolding scripthash_txs page_url decimal page
two-Serves = record { from_start = λ n. refl; from_txid = after_one }

abbrev online : Api ℕ
online spk until_txid until_height =
    elim (fetch_address_history two hashes alice 3 until_txid until_height) [
      | none ↦ ok []
      | some r ↦ r
    ]

new_wallet-absent : lookup alice new_wallet.addresses ≡ none
unfolding new_wallet
new_wallet-absent = refl

mwck-histories_example :
    (w : Wallet) × (mwck_scripthash_txs online alice new_wallet
      ≡ (w, some (ok (deposit ∷ payment ∷ []))))
    × ((mwck_confirmed_scripthash_txs online alice w).1 ≡ some (ok (deposit ∷ [])))
    × ((mwck_confirmed_scripthash_txs online alice new_wallet).1 ≡ some (ok (deposit ∷ [])))
unfolding sort_by_time insert_by_time in_time cmp_tx_time partial_cmp_tx_time
mwck-histories_example =
    mwck-histories online two hashes alice (payment ∷ deposit ∷ []) 3 new_wallet new_wallet-IsSound
      new_wallet-absent two-Serves (omega arith) (λ a h r e. rw (e, online))
      (ground arith, (tt, tt)) (tt, (omega arith, tt))
