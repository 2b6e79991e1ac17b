-- ===== src/Wallet/Tests.antt =====
-- Runs of a wallet, and its theorems at concrete inputs.
use mwck_rs.Prelude.{ℕ, ◌≡◌, refl, true, none, some, List, [], ◌∷◌, map, ap, subst, Option}
use mwck_rs.HashMap.{Map, IsUnique, lookup, contains_key}
use mwck_rs.Event.{AddressEvent}
use mwck_rs.Samples.{alice, bob, deposit, payment}
use mwck_rs.Api.{ok, err}
use mwck_rs.Tracker.{State, Tracker, new, add_transaction, insert_transaction}
use mwck_rs.Tracker.Ledger.{new-IsBalanced, add_transaction-IsBalanced}
use mwck_rs.Tracker.Held.{last_told}
use mwck_rs.Wallet.Sync.{Fetch, esplora_error, sync_tracker}
use mwck_rs.Wallet.Sync.Events.{sync_tracker-synced}
use mwck_rs.Wallet.Sync.Held.{lookup-sync_tracker}
use mwck_rs.Wallet.Store.{
  IsSound, new_wallet-IsSound, insert_new-IsSound, sync_address_history-IsSound,
}
use mwck_rs.Wallet.Steps.{here, next, inserts, unwatches, Reach-new-IsSound}
use mwck_rs.Wallet.Watch.{spks_of, watch-ok, watch_race}
use mwck_rs.Socket.Control.{contains}
use mwck_rs.Socket.Control.Subscription.{subscribed}
use mwck_rs.Wallet.Subscribed.{watches, unwatches, calls, loop_after, calls-subscribed}
use mwck_rs.Socket.Message.{
  Parser, Input, received, text, failure, disconnect, Reader, WebsocketAddressTransactions,
  WebsocketResponse,
}
use mwck_rs.Socket.Message
use mwck_rs.Socket.Message.Heard.{HasMaps, said_in_stream}
use mwck_rs.Wallet.{
  get_and_watch, Wallet, Api, new_wallet, insert_new, watch_start, watch, collect, unwatch,
  init_addresses, sync_address_history, on_tracker, event_loop,
}
use mwck_rs.Wallet.Failed.{empty_state, get_and_watch-failed}
use mwck_rs.Wallet.Loop.{event_loop-run}

-- The server knows the deposit, or cannot be reached.
abbrev online : Fetch ℕ
online until_txid until_height = ok (deposit ∷ [])

abbrev offline : Fetch ℕ
offline until_txid until_height = err 503

-- A tracker that holds the payment only.
abbrev paying : Tracker
paying = add_transaction payment (new alice)

lookup-sync_tracker_example : lookup 2 (sync_tracker online alice paying).0.0.transactions ≡ none
unfolding new add_transaction insert_transaction last_told
lookup-sync_tracker_example =
    lookup-sync_tracker online alice paying (deposit ∷ []) 2
      (add_transaction-IsBalanced payment (new alice) (new-IsBalanced alice)) (tt, tt) refl

sync_tracker-synced_example :
    sync_tracker offline alice (new alice) ≡ ((new alice, []), err (esplora_error 503))
unfolding new
sync_tracker-synced_example = sync_tracker-synced offline alice (new alice)

Reach-new-IsSound_example : IsSound (unwatch (alice ∷ []) (insert_new (alice ∷ []) [] new_wallet).0)
Reach-new-IsSound_example =
    Reach-new-IsSound ℕ _ (next (next here (inserts (alice ∷ []))) (unwatches (alice ∷ [])))

abbrev both_online : Api ℕ
both_online spk = online

watch-ok_example :
    (states : List State) × ((watch both_online (alice ∷ bob ∷ []) new_wallet).1 ≡ some (ok states))
    × (spks_of states ≡ alice ∷ bob ∷ [])
    × IsSound (watch both_online (alice ∷ bob ∷ []) new_wallet).0
watch-ok_example = watch-ok both_online (alice ∷ bob ∷ []) new_wallet new_wallet-IsSound

watch_race_example :
    collect (alice ∷ []) (unwatch (alice ∷ []) (watch_start both_online (alice ∷ []) new_wallet))
    ≡ none
watch_race_example = watch_race both_online (alice ∷ []) (alice ∷ []) alice new_wallet refl refl

-- Alice's address, watched and not yet synced.
abbrev watching : Wallet
watching = (insert_new (alice ∷ []) [] new_wallet).0

abbrev incoming : AddressEvent
incoming = AddressEvent.mempool alice payment

calls-subscribed_example :
    contains bob (
      subscribed []
        (loop_after
          (calls both_online
            (watches (bob ∷ []) ∷ unwatches (alice ∷ []) ∷ [])
            (init_addresses both_online (record watching { controls = [] }))).controls).frames)
    ≡ contains_key bob
        (calls both_online
          (watches (bob ∷ []) ∷ unwatches (alice ∷ []) ∷ [])
          (init_addresses both_online (record watching { controls = [] }))).addresses
calls-subscribed_example =
    calls-subscribed both_online (watches (bob ∷ []) ∷ unwatches (alice ∷ []) ∷ []) watching bob

-- Alice's address, synced, and a stream that says that the payment came and then the deposit went.
abbrev synced_wallet : Wallet
synced_wallet = sync_address_history both_online alice 0 (insert_new (alice ∷ []) [] new_wallet).0

abbrev synced_tracker : Tracker
synced_tracker = (sync_tracker online alice (new alice)).0.0

abbrev from_str : Parser
from_str json = some (record {
  multi_scriptpubkey_transactions =
      some
        ((alice, record { mempool = payment ∷ []; confirmed = []; removed = deposit ∷ [] }) ∷ []);
})

abbrev stream : List Input
stream = received 1 (text []) ∷ received 2 failure ∷ disconnect ∷ []

abbrev reader : Reader
reader = record { last_response = 0; sent = []; disconnects = 0; is_running = true }

synced_wallet-held :
    (lookup alice synced_wallet.addresses ≡ some 0)
    × (lookup 0 synced_wallet.trackers ≡ some synced_tracker)
unfolding new_wallet insert_new sync_address_history on_tracker
synced_wallet-held = (refl, refl)

abbrev payload_of :
    Map WebsocketAddressTransactions → Option WebsocketResponse → Map WebsocketAddressTransactions
payload_of old none = old
payload_of old (some r) = elim r.multi_scriptpubkey_transactions [ none ↦ old | some m ↦ m ]

from_str-HasMaps : HasMaps from_str
from_str-HasMaps json m e = subst IsUnique (ap (payload_of []) e) (refl, tt)

event_loop-run_example :
    (w : Wallet) × (t : Tracker) × (event_loop both_online
        (map some (Message.run from_str stream reader).sent)
        synced_wallet
      ≡ (w, true))
    × IsSound w
    × (lookup alice w.addresses ≡ some 0)
    × (lookup 0 w.trackers ≡ some t)
    × ((j : ℕ)
        → lookup j t.transactions
          ≡ said_in_stream j alice from_str stream (lookup j synced_tracker.transactions))
event_loop-run_example =
    event_loop-run both_online from_str from_str-HasMaps stream reader refl refl synced_wallet alice
      0 synced_tracker
      (sync_address_history-IsSound both_online alice 0 _
        (insert_new-IsSound (alice ∷ []) [] new_wallet new_wallet-IsSound))
      synced_wallet-held.0 synced_wallet-held.1
      (ap (λ r. r.0.0.loading) (sync_tracker-synced online alice (new alice)))

abbrev all_offline : Api ℕ
all_offline spk = offline

new_wallet-absent : lookup alice new_wallet.addresses ≡ none
unfolding new_wallet
new_wallet-absent = refl

get_and_watch-failed_example :
    (w : Wallet) × (get_and_watch all_offline alice new_wallet ≡ (w, some (ok (empty_state alice))))
    × IsSound w
    × ((get_and_watch both_online alice w).1 ≡ some (ok (empty_state alice)))
get_and_watch-failed_example =
    get_and_watch-failed all_offline alice 503 new_wallet both_online new_wallet-IsSound
      new_wallet-absent refl
