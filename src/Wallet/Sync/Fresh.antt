-- ===== src/Wallet/Sync/Fresh.antt =====
-- The first sync of an address, down to the server's pages.
use mathlib.Core.List.{reverse-cons}
use mwck_rs.Prelude.{
  ℕ, ◌+◌, ◌*◌, ◌≤◌, ◌≡◌, refl, sym, ◌∙◌, Option, none, some, List, [], ◌∷◌, ◌++◌, reverse, ◌==◌,
  if◌then◌else◌, length, find,
}
use mwck_rs.HashMap.{lookup}
use mwck_rs.Esplora.{ScriptBuf, Txid, Tx}
use mwck_rs.Api.{Result, Http, Hashes, fetch_address_history}
use mwck_rs.Api.Server.{Serves}
use mwck_rs.Api.Fetch.{fetch-whole}
use mwck_rs.Tracker.{new, get_state}
use mwck_rs.Tracker.Ledger.{new-IsBalanced}
use mwck_rs.Tracker.Held.{last_told}
use mwck_rs.Tracker.Order.{sort_by_time}
use mwck_rs.Wallet.Sync.{Fetch, is_fetched, sync_tracker, last_confirmed}
use mwck_rs.Wallet.Sync.Held.{last_copy, last_asked, last_copy-any, lookup-sync_tracker}

-- `fetch` is `fetch_address_history` against this server, run with this fuel.
abbrev pub IsFetchFrom : {E : Type 0} → Http E → Hashes → ScriptBuf → ℕ → Fetch E → Type 0
IsFetchFrom {E} http hashes spk fuel fetch =
    (until_txid : Option Txid) (until_height : Option ℕ) (r : Result E (List Tx))
    → fetch_address_history http hashes spk fuel until_txid until_height ≡ some r
    → fetch until_txid until_height ≡ r

last_copy-snoc :
    (j : Txid) (l : List Tx) (x : Tx) (old : Option Tx)
    → last_copy j (l ++ x ∷ []) old ≡ (if x.txid == j then some x else last_copy j l old)
unfolding last_copy
last_copy-snoc j [] x old = refl
last_copy-snoc j (y ∷ l) x old = last_copy-snoc j l x (if y.txid == j then some y else old)

last_copy-reverse :
    (j : Txid) (l : List Tx) → last_copy j (reverse l) none ≡ find (λ x. x.txid == j) l
unfolding last_copy
last_copy-reverse j [] = refl
last_copy-reverse j (x ∷ l) =
    rw (reverse-cons x l, last_copy-snoc j (reverse l) x none, last_copy-reverse j l)

pub lookup-find :
    (j : Txid) (history : List Tx)
    → (if is_fetched (reverse history) j then last_copy j (reverse history) none else none)
      ≡ find (λ x. x.txid == j) history
lookup-find j history = sym (last_copy-any j (reverse history) none) ∙ last_copy-reverse j history

new_asks :
    {E : Type 0} (fetch : Fetch E) (spk : ScriptBuf) → last_asked fetch (new spk) ≡ fetch none none
unfolding new get_state sort_by_time last_confirmed
new_asks fetch spk = refl

-- The first sync of an address against a server that holds a history of it: under each txid the
-- tracker then holds the transaction of the history, and nothing where the history has none.
pub lookup-sync_new :
    {E : Type 0} (http : Http E) (hashes : Hashes) (spk : ScriptBuf) (history : List Tx) (fuel : ℕ)
    (fetch : Fetch E) (j : Txid)
    → Serves http hashes spk history
    → length history + 100 ≤ 50 * fuel
    → IsFetchFrom http hashes spk fuel fetch
    → lookup j (sync_tracker fetch spk (new spk)).0.0.transactions ≡ find (λ x. x.txid == j) history
unfolding new last_told
lookup-sync_new http hashes spk history fuel fetch j s h run =
    lookup-sync_tracker fetch spk (new spk) (reverse history) j (new-IsBalanced spk) tt
      (new_asks fetch spk ∙ run none none _ (fetch-whole http hashes spk history fuel s h))
    ∙ lookup-find j history
