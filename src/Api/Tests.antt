-- ===== src/Api/Tests.antt =====
-- Runs of the paging, and its theorems at concrete inputs.
use mwck_rs.Prelude.{ℕ, ◌≡◌, refl, true, none, some, List, [], ◌∷◌, ◌++◌, arith}
use mwck_rs.Text.{codes, decimal}
use mwck_rs.Esplora.{Tx}
use mwck_rs.Samples.{alice, deposit, no_hashes, one_page}
use mwck_rs.Api.{ok, page_url, scripthash_txs, fetch_address_history}
use mwck_rs.Api.Server.{page, Serves}
use mwck_rs.Api.Fetch.{Fetched, fetch_address_history-Fetched, fetch-at_height}

request_text :
    page_url
      (record { script_hash = λ _. codes "ab"; txid_text = λ _. codes "cd" })
      (codes "http://h/api")
      alice
      (some 1)
      50
    ≡ codes "http://h/api/scripthash/ab/txs?max_txs=50&after_txid=cd"
unfolding page_url decimal
request_text = refl

after_deposit :
    (n : ℕ) (xs : List Tx) (t : Tx) (ys : List Tx)
    → deposit ∷ [] ≡ xs ++ t ∷ ys
    → scripthash_txs one_page no_hashes n alice (some t.txid) none ≡ ok (page ys)
unfolding scripthash_txs page_url decimal page
after_deposit n [] t [] e = refl
after_deposit n [] t (y ∷ ys) e = cc
after_deposit n (x ∷ []) t ys e = cc
after_deposit n (x ∷ y ∷ xs) t ys e = cc

pub one_page-Serves : Serves one_page no_hashes alice (deposit ∷ [])
unfolding scripthash_txs page_url decimal page
one_page-Serves = record { from_start = λ n. refl; from_txid = after_deposit }

fetch_address_history-Fetched_example :
    (all : List Tx) × (fetch_address_history one_page no_hashes alice 3 (some 1) (some 100)
      ≡ some (ok all))
    × Fetched (some 1) (some 100) true (deposit ∷ []) all
fetch_address_history-Fetched_example =
    fetch_address_history-Fetched one_page no_hashes alice (deposit ∷ []) (some 1) (some 100) 3
      one_page-Serves (omega arith)

-- The deposit is at height 100, and still the search for that height goes on to the end.
fetch-at_height_example :
    fetch_address_history one_page no_hashes alice 3 none (some 100) ≡ some (ok (deposit ∷ []))
fetch-at_height_example =
    fetch-at_height one_page no_hashes alice (deposit ∷ []) 3 100 one_page-Serves (omega arith) refl
