-- ===== src/WasmWatcher/Lock.antt =====
-- examples/wasm_wallet_watcher/src/lib.rs: the mutex around the wallet of `JsWallet`, which each call
-- locks for as long as it waits for the wallet, beside the connection manager and the event loop
-- that a `connect` has started. One thread runs them all, between their waits.
pub mod Unreached
use mwck_rs.Prelude.{◌≡◌, Bool, true, false, Option, none, some, List, ◌++◌}
use mwck_rs.Text.{Str}
use mwck_rs.Esplora.{ScriptBuf}
use mwck_rs.Event.{WebsocketEvent}
use mwck_rs.Socket.Connection.{Effect, Connection, Round, continues, step}
use mwck_rs.Socket.Client.{client_start, client_stop}
use mwck_rs.Socket.Client.Waits.{statuses}
use mwck_rs.Wallet.{Wallet, Api, on_message}
use mwck_rs.WasmWatcher.{track_address}

-- What locks the wallet: the calls of `JsWallet`, and the task of `subscribe` for each state it shows.
pub data Task : Type 0 where
  connecting disconnecting subscribing showing : Task
  tracking : Str → Task

abbrev pub is_connect : Task → Bool
is_connect connecting = true
is_connect disconnecting = false
is_connect subscribing = false
is_connect showing = false
is_connect (tracking address) = false

-- The wallet under its mutex, with the call that holds it, what the manager had done when that call
-- began to listen to its statuses, and the manager.
pub record Shared : Type 0 where
  pub holder : Option Task
  pub wallet : Wallet
  pub since : List Effect
  pub manager : Connection

-- What may happen next, where the manager meets rounds as given; what `disconnect` sends it is among
-- these. `connect` and `disconnect` let go of the mutex when their `start` and `stop` return,
-- `track_address` when the wallet has watched the address, which is one step here, and the others at
-- once. There is no second `connect`, which would start a manager more.
pub data Step {E : Type 0} (api : Api E) (from_str : Str → Option ScriptBuf)
    (Meets : Round → Type 0) (s : Shared) : Shared → Type 0 where
  runs :
      (r : Round) (m : Connection)
      → Meets r
      → step r s.manager ≡ continues m
      → Step api from_str Meets s (record s { manager = m })
  hears :
      (e : Option WebsocketEvent) (w : Wallet)
      → on_message api e s.wallet ≡ some w
      → Step api from_str Meets s (record s { wallet = w })
  locks :
      (task : Task)
      → s.holder ≡ none
      → is_connect task ≡ false
      → Step api from_str Meets s (record s { holder = some task; since = s.manager.effects })
  connects :
      (later : List Effect)
      → s.holder ≡ some connecting
      → s.manager.effects ≡ s.since ++ later
      → client_start true (statuses later) ≡ true
      → Step api from_str Meets s (record s { holder = none })
  disconnects :
      (later : List Effect)
      → s.holder ≡ some disconnecting
      → s.manager.effects ≡ s.since ++ later
      → (client_stop true (statuses later)).1 ≡ true
      → Step api from_str Meets s (record s { holder = none })
  tracks :
      (address : Str)
      → s.holder ≡ some (tracking address)
      → Step api from_str Meets s
          (record s { holder = none; wallet = (track_address api from_str address s.wallet).0 })
  subscribes : s.holder ≡ some subscribing → Step api from_str Meets s (record s { holder = none })
  shows : s.holder ≡ some showing → Step api from_str Meets s (record s { holder = none })

pub data Reach {E : Type 0} (api : Api E) (from_str : Str → Option ScriptBuf)
    (Meets : Round → Type 0) (s : Shared) : Shared → Type 0 where
  here : Reach api from_str Meets s s
  next :
      {u v : Shared}
      → Reach api from_str Meets s u
      → Step api from_str Meets u v
      → Reach api from_str Meets s v
