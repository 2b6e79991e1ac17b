-- ===== src/WasmWatcher.antt =====
-- examples/wasm_wallet_watcher/src/lib.rs: the wallet for JavaScript. The texts of addresses and
-- their parser are parameters; a balance is handed over as it is.
pub mod Ready
pub mod Lock
mod Tests
use mwck_rs.Prelude.{
  ℕ, ◌+◌, Bool, true, false, Option, none, some, List, [], ◌∷◌, ◌++◌, any, length, ◌==◌,
  if◌then◌else◌,
}
use mwck_rs.Text.{Str, codes, str_eq}
use mwck_rs.Esplora.{ScriptBuf}
use mwck_rs.Event.{
  WebsocketEvent, WalletEvent, initializing, disconnected, address_ready, address_event, event_spk,
}
use mwck_rs.Api.{Result, ok, err}
use mwck_rs.Tracker.{State}
use mwck_rs.Tracker.Balance.{Balances}
use mwck_rs.Socket.Connection.{Status}
use mwck_rs.Wallet.{
  Wallet, Api, watch, get_address_state, connect as wallet_connect, disconnect as wallet_disconnect,
}
use mwck_rs.Wallet.Sync.{Error}
use mwck_rs.AsyncClient.{Options}

-- `bitcoin::Network`, as far as it is chosen here.
pub data Network : Type 0 where
  bitcoin testnet signet regtest : Network

unfoldable pub network_of : Str → Network
network_of network_str =
    if str_eq network_str (codes "testnet")
    then testnet
    else (if str_eq network_str (codes "signet")
        then signet
        else (if str_eq network_str (codes "regtest") then regtest else bitcoin))

-- `JsWallet::new`: the network, and the options of its wallet.
unfoldable pub new : Str → Str → Network × Options
new host network_str = (network_of network_str, record { hostname = host; secure = false })

-- A call of `onAddressEvent`.
pub record Shown : Type 0 where
  pub address : Str
  pub tx_count : ℕ
  pub balance : Balances

-- The task of `subscribe`: its set of ready addresses, and what it has shown.
pub record Watcher : Type 0 where
  pub ready_addresses : List ScriptBuf
  pub shown : List Shown

-- `Address::from_script(..)` for a network; none is an error, at which the code panics.
abbrev pub Addresses : Type 0
Addresses = Network → ScriptBuf → Option Str

abbrev pub is_ready : ScriptBuf → List ScriptBuf → Bool
is_ready spk ready = any (λ k. k == spk) ready

abbrev pub show_state : Str → Option State → Watcher → Watcher
show_state address none s = s
show_state address (some state) s = record s {
  shown =
      s.shown
      ++ record { address = address; tx_count = length state.transactions; balance = state.balance }
        ∷ [];
}

-- What both arms do with a scriptpubkey; none is a panic.
unfoldable pub show : Addresses → Network → ScriptBuf → Wallet → Watcher → Option Watcher
show addresses network spk w s = elim (addresses network spk) [
  | none ↦ none
  | some address ↦ some (show_state address (get_address_state spk w) s)
]

-- The `match` on what is received: an event, or none for an error; `w` is the wallet at that time.
unfoldable pub on_event :
    Addresses → Network → Option WalletEvent → Wallet → Watcher → Option Watcher
on_event addresses network none w s = some s
on_event addresses network (some initializing) w s = some s
on_event addresses network (some disconnected) w s = some (record s { ready_addresses = [] })
on_event addresses network (some (address_ready spk)) w s = show addresses network spk w (record s {
  ready_addresses =
      if is_ready spk s.ready_addresses then s.ready_addresses else spk ∷ s.ready_addresses;
})
on_event addresses network (some (address_event event)) w s =
    let spk = event_spk event in
    if is_ready spk s.ready_addresses then show addresses network spk w s else some s

-- The loop, on what it receives and the wallets at those times.
unfoldable pub run :
    Addresses → Network → List (Option WalletEvent × Wallet) → Watcher → Option Watcher
run addresses network [] s = some s
run addresses network ((event, w) ∷ events) s = elim (on_event addresses network event w s) [
  | none ↦ none
  | some s' ↦ run addresses network events s'
]

unfoldable pub start : Watcher
start = record { ready_addresses = []; shown = [] }

-- `is_ok()` on what `watch` returns.
unfoldable pub is_ok : {E A : Type 0} → Option (Result E A) → Option Bool
is_ok none = none
is_ok (some (ok a)) = some true
is_ok (some (err e)) = some false

-- `track_address`, with the parser of addresses.
unfoldable pub track_address :
    {E : Type 0} → Api E → (Str → Option ScriptBuf) → Str → Wallet → Wallet × Option Bool
track_address api from_str address w = elim (from_str address) [
  | none ↦ (w, some false)
  | some scriptpubkey ↦ let (w', r) = watch api (scriptpubkey ∷ []) w in (w', is_ok r)
]

-- `JsWallet::connect` and `disconnect`, which wait.
unfoldable pub connect :
    {E : Type 0}
    → Api E
    → List (Option Status)
    → List (Option WebsocketEvent)
    → Wallet
    → (Wallet × Bool) × Bool
connect api statuses events w = wallet_connect api true statuses events w

unfoldable pub disconnect : List (Option Status) → Wallet → Wallet × Bool
disconnect statuses w = wallet_disconnect true statuses w
