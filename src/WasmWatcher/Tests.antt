-- ===== src/WasmWatcher/Tests.antt =====
-- The watcher at a concrete input.
use mwck_rs.Prelude.{◌≡◌, refl, Option, some, List, [], ◌∷◌, true, false, none, ℕ}
use mwck_rs.Text.{Str, codes, str_eq}
use mwck_rs.Event.{AddressEvent, WalletEvent, disconnected, address_ready, address_event}
use mwck_rs.Samples.{alice, bob, payment}
use mwck_rs.Esplora.{ScriptBuf}
use mwck_rs.Tracker.{new, get_state}
use mwck_rs.Tracker.Balance.{new_balances}
use mwck_rs.Tracker.Order.{sort_by_time}
use mwck_rs.Wallet.{Wallet, insert_new, new_wallet, get_address_state, Api}
use mwck_rs.WasmWatcher.{Watcher, Addresses, testnet, signet, run, start, network_of}
use mwck_rs.Api.{err}
use mwck_rs.Socket.Connection.{
  Status, Connection, Round, close_signal, fresh, step, on_status, update, on_connecting,
}
use mwck_rs.WasmWatcher.Lock.{Shared, connecting, runs, here, next}
use mwck_rs.WasmWatcher.Lock.Unreached.{Reach-connecting}
use mwck_rs.WasmWatcher.Ready.{expected, run-start-expected}

-- A wallet that watches Alice and has loaded nothing.
abbrev watching : Wallet
watching = (insert_new (alice ∷ []) [] new_wallet).0

abbrev name : ScriptBuf → Str
name spk = spk ∷ []

abbrev addresses : Addresses
addresses network spk = some (name spk)

-- Bob is not ready, and Alice not after the disconnect.
abbrev events : List (Option WalletEvent × Wallet)
events =
    (some (address_ready alice), watching)
    ∷ (some (address_event (AddressEvent.mempool bob payment)), watching)
    ∷ (some (address_event (AddressEvent.mempool alice payment)), watching)
    ∷ (some disconnected, watching)
    ∷ (some (address_event (AddressEvent.mempool alice payment)), watching)
    ∷ []

run-start-expected_example :
    (s : Watcher) × (run addresses testnet events start ≡ some s)
    × (s.shown
        ≡ record { address = name alice; tx_count = 0; balance = new_balances }
          ∷ record { address = name alice; tx_count = 0; balance = new_balances }
          ∷ [])
unfolding expected insert_new new_wallet new start get_address_state get_state sort_by_time
run-start-expected_example = run-start-expected addresses testnet name (λ spk. refl) events

chosen : network_of (codes "signet") ≡ signet
unfolding network_of str_eq
chosen = refl

abbrev offline : Api ℕ
offline spk until_txid until_height = err 503

-- Two rounds in which the server is not reached.
abbrev unreached : Round
unreached = record { reaches = false; joins = true; signal = close_signal }

abbrev no_parser : Str → Option ScriptBuf
no_parser address = none

abbrev locked : Shared
locked = record { holder = some connecting; wallet = watching; since = []; manager = fresh }

abbrev once : Connection
once = update Status.connecting fresh

abbrev twice : Connection
twice = on_connecting false once

Reach-connecting_example :
    ((record locked { manager = twice }).holder ≡ some connecting)
    × (watching.addresses ≡ watching.addresses)
unfolding step on_status update fresh
Reach-connecting_example =
    Reach-connecting offline no_parser watching (record locked { manager = twice })
      (next (next here (runs unreached once refl refl)) (runs unreached twice refl refl))
