-- ===== src/Wallet/Sync.antt =====
-- src/wallet/mod.rs: `sync_address_history`, on the tracker that it has locked. `fetch` is
-- what `api.fetch_address_history` returns for the address.
pub mod Events
pub mod Stale
pub mod Held
pub mod Fresh
pub mod Again
mod Tests
use mwck_rs.Prelude.{
  ℕ, Bool, true, false, not, ◌&&◌, ◌||◌, Option, none, some, List, [], ◌∷◌, ◌++◌, map, reverse,
  ◌==◌, opt_ltb, is_none, if◌then◌else◌, any, find, take_while,
}
use mwck_rs.Esplora.{ScriptBuf, Txid, Tx}
use mwck_rs.Event.{AddressEvent, WalletEvent, address_ready}
use mwck_rs.Api.{Result, ok, err}
use mwck_rs.Tracker.{State, Tracker, Sends, get_state, process_event, set_loading, and_then}

-- `wallet::Error`, over the error of `esplora_client`.
pub data Error (E : Type 0) : Type 0 where
  esplora_error : E → Error E
  missing : Error E

abbrev pub Fetch : Type 0 → Type 0
Fetch E = Option Txid → Option ℕ → Result E (List Tx)

abbrev pub is_confirmed : Tx → Bool
is_confirmed tx = tx.status.confirmed

-- `.iter().rev().find(|tx| tx.status.confirmed)`.
unfoldable pub last_confirmed : State → Option Tx
last_confirmed s = find is_confirmed (reverse s.transactions)

abbrev pub last_txid : Option Tx → Option Txid
last_txid none = none
last_txid (some tx) = some tx.txid

abbrev pub last_height : Option Tx → Option ℕ
last_height none = none
last_height (some tx) = tx.status.block_height

-- The test of the `take_while`.
abbrev pub is_unsettled : Option ℕ → Tx → Bool
is_unsettled height tx =
    not tx.status.confirmed || (is_none height || opt_ltb height tx.status.block_height)

-- `fetched_txids.contains(&txid)`, the set built from the fetched transactions.
abbrev pub is_fetched : List Tx → Txid → Bool
is_fetched fetched txid = any (λ tx. tx.txid == txid) fetched

-- The first loop: what the server no longer knows is removed.
unfoldable pub remove_stale : ScriptBuf → List Tx → List Tx → Tracker → Sends
remove_stale spk fetched [] t = (t, [])
remove_stale spk fetched (tx ∷ txs) t =
    and_then
      (if is_fetched fetched tx.txid
        then (t, [])
        else process_event (AddressEvent.removed spk tx) false t)
      (remove_stale spk fetched txs)

-- The second loop.
unfoldable pub process_fetched : ScriptBuf → List Tx → Tracker → Sends
process_fetched spk [] t = (t, [])
process_fetched spk (tx ∷ txs) t =
    and_then
      (if tx.status.confirmed
        then process_event (AddressEvent.confirmed spk tx) false t
        else process_event (AddressEvent.mempool spk tx) false t)
      (process_fetched spk txs)

-- What follows the fetch, the event at the end included.
unfoldable pub sync_fetched : ScriptBuf → State → List Tx → Tracker → Sends
sync_fetched spk initial fetched t =
    let stale =
      take_while (is_unsettled (last_height (last_confirmed initial)))
        (reverse initial.transactions) in
    let (t', sent) =
      and_then (and_then (remove_stale spk fetched stale t) (process_fetched spk fetched))
        (set_loading false) in
    (t', sent ++ address_ready spk ∷ [])

-- The `?` on the fetch, and what follows it; `sent` is what was sent before.
unfoldable pub after_fetch :
    {E : Type 0} → ScriptBuf → State → Sends → Result E (List Tx) → Sends × Result (Error E) State
after_fetch spk initial (t, sent) (err e) = ((t, sent), err (esplora_error e))
after_fetch spk initial (t, sent) (ok fetched) =
    let (t', more) = sync_fetched spk initial fetched t in ((t', sent ++ more), ok (get_state t'))

-- The body under the lock: the tracker and the events sent, and the result.
unfoldable pub sync_tracker :
    {E : Type 0} → Fetch E → ScriptBuf → Tracker → Sends × Result (Error E) State
sync_tracker fetch spk t =
    let started = set_loading true t in
    let initial = get_state started.0 in
    let last = last_confirmed initial in
    after_fetch spk initial started (fetch (last_txid last) (last_height last))
