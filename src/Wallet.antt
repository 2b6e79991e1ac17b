-- ===== src/Wallet.antt =====
-- src/wallet/mod.rs: the wallet. The trackers behind their `Arc<Mutex<_>>` are a store, and the
-- map of addresses holds references into it. A method returns the new wallet beside its result;
-- the wallet keeps the events broadcast and the control events sent, in order.
pub mod Sync
pub mod Store
pub mod Steps
pub mod Watched
pub mod Watch
pub mod Routing
pub mod Subscribed
pub mod Loop
pub mod Resync
pub mod Answers
pub mod Served
pub mod Failed
mod Tests
use mwck_rs.Prelude.{
  ℕ, suc, ◌+◌, Bool, true, false, Option, none, some, List, [], ◌∷◌, ◌++◌, if◌then◌else◌,
}
use mwck_rs.HashMap.{Map, lookup, insert, remove, contains_key, keys}
use mwck_rs.Esplora.{ScriptBuf, Txid, Tx}
use mwck_rs.Event.{
  AddressEvent, WalletEvent, disconnected, WebsocketEvent, ws_address_event, ControlEvent,
  subscribe, unsubscribe, event_spk,
}
use mwck_rs.Api.{Result, ok, err}
use mwck_rs.Socket.Connection.{Status}
use mwck_rs.Socket.Client.{client_start, client_stop}
use mwck_rs.Tracker.{State, Tracker, Sends, new, get_state, process_event}
use Sync.{Error, missing, Fetch, sync_tracker}

pub record Wallet : Type 0 where
  pub addresses : Map ℕ
  pub trackers : Map Tracker
  pub next_ref : ℕ
  pub sent : List WalletEvent
  pub controls : List ControlEvent

-- `Wallet::new`, once the REST client is built.
unfoldable pub new_wallet : Wallet
new_wallet = record { addresses = []; trackers = []; next_ref = 0; sent = []; controls = [] }

-- `api.fetch_address_history`, per address.
abbrev pub Api : Type 0 → Type 0
Api E = ScriptBuf → Fetch E

-- `ws.track_scriptpubkeys` and `ws.untrack_scriptpubkeys`.
abbrev pub track_scriptpubkeys : List ScriptBuf → Wallet → Wallet
track_scriptpubkeys spks w = record w { controls = w.controls ++ subscribe spks ∷ [] }

abbrev pub untrack_scriptpubkeys : List ScriptBuf → Wallet → Wallet
untrack_scriptpubkeys spks w = record w { controls = w.controls ++ unsubscribe spks ∷ [] }

-- A call on the tracker behind a reference, under its lock.
unfoldable pub on_tracker : ℕ → (Tracker → Sends) → Wallet → Wallet
on_tracker ref f w = elim (lookup ref w.trackers) [
  | none ↦ w
  | some t ↦
      let (t', sent) = f t in
      record w { trackers = insert ref t' w.trackers; sent = w.sent ++ sent }
]

-- `sync_address_history`; the callers drop its result.
unfoldable pub sync_address_history : {E : Type 0} → Api E → ScriptBuf → ℕ → Wallet → Wallet
sync_address_history api spk ref w = on_tracker ref (λ t. (sync_tracker (api spk) spk t).0) w

unfoldable pub handle_address_event : AddressEvent → Bool → Wallet → Wallet
handle_address_event event realtime w = elim (lookup (event_spk event) w.addresses) [
  | none ↦ w
  | some ref ↦ on_tracker ref (process_event event realtime) w
]

-- The locked block of `watch`: a tracker for each new address. The second part is `newly_synced`.
unfoldable pub insert_new : List ScriptBuf → Map ℕ → Wallet → Wallet × Map ℕ
insert_new [] newly w = (w, newly)
insert_new (spk ∷ spks) newly w =
    let added = record w {
      addresses = insert spk w.next_ref w.addresses;
      trackers = insert w.next_ref (new spk) w.trackers;
      next_ref = w.next_ref + 1;
    } in
    let rest = insert_new spks (insert spk w.next_ref newly) added in
    let same = insert_new spks newly w in if contains_key spk w.addresses then same else rest

-- `for (spk, tracker_arc) in ...`, each synced in turn.
unfoldable pub sync_all : {E : Type 0} → Api E → Map ℕ → Wallet → Wallet
sync_all api [] w = w
sync_all api ((spk, ref) ∷ refs) w = sync_all api refs (sync_address_history api spk ref w)

-- `addresses.get(spk)`, and the state of the tracker behind it.
unfoldable pub get_address_state : ScriptBuf → Wallet → Option State
get_address_state spk w = elim (lookup spk w.addresses) [
  | none ↦ none
  | some ref ↦ elim (lookup ref w.trackers) [ none ↦ none | some t ↦ some (get_state t) ]
]

-- The last loop of `watch`; `none` is the panic of its `expect`.
unfoldable pub collect : List ScriptBuf → Wallet → Option (List State)
collect [] w = some []
collect (spk ∷ spks) w = elim (get_address_state spk w) [
  | none ↦ none
  | some s ↦ elim (collect spks w) [ none ↦ none | some rest ↦ some (s ∷ rest) ]
]

-- The part of `watch` before it locks the addresses for the second time.
unfoldable pub watch_start : {E : Type 0} → Api E → List ScriptBuf → Wallet → Wallet
watch_start api spks w =
    let (w', newly) = insert_new spks [] (track_scriptpubkeys spks w) in sync_all api newly w'

-- `watch` with nothing in between; `none` is a panic.
unfoldable pub watch :
    {E : Type 0} → Api E → List ScriptBuf → Wallet → Wallet × Option (Result (Error E) (List State))
watch api spks w =
    let w' = watch_start api spks w in
    (w', elim (collect spks w') [ none ↦ none | some states ↦ some (ok states) ])

-- The removals of `unwatch`.
unfoldable pub remove_addresses : List ScriptBuf → Map ℕ → Map ℕ
remove_addresses [] m = m
remove_addresses (spk ∷ spks) m = remove_addresses spks (remove spk m)

unfoldable pub unwatch : List ScriptBuf → Wallet → Wallet
unwatch spks w =
    untrack_scriptpubkeys spks (record w { addresses = remove_addresses spks w.addresses })

-- `vec.first().cloned().ok_or(Error::Missing)` on the result of `watch`.
unfoldable pub first_state :
    {E : Type 0} → Option (Result (Error E) (List State)) → Option (Result (Error E) State)
first_state none = none
first_state (some (err e)) = some (err e)
first_state (some (ok [])) = some (err missing)
first_state (some (ok (s ∷ states))) = some (ok s)

unfoldable pub get_and_watch :
    {E : Type 0} → Api E → ScriptBuf → Wallet → Wallet × Option (Result (Error E) State)
get_and_watch api spk w =
    let (w', states) = watch api (spk ∷ []) w in
    elim (get_address_state spk w) [ none ↦ (w', first_state states) | some s ↦ (w, some (ok s)) ]

-- The states of all trackers, in the order of the map.
states_of : Map ℕ → Wallet → List State
states_of [] w = []
states_of ((spk, ref) ∷ refs) w = elim (lookup ref w.trackers) [
  | none ↦ states_of refs w
  | some t ↦ get_state t ∷ states_of refs w
]

pub get_all_states : Wallet → List State
unfolding states_of
get_all_states w = states_of w.addresses w

unfoldable pub init_addresses : {E : Type 0} → Api E → Wallet → Wallet
init_addresses api w = sync_all api w.addresses (track_scriptpubkeys (keys w.addresses) w)

-- One message in the loop of `connect`; `none` ends the loop. A receive error is `none`.
unfoldable pub on_message : {E : Type 0} → Api E → Option WebsocketEvent → Wallet → Option Wallet
on_message api none w = some w
on_message api (some WebsocketEvent.offline) w = none
on_message api (some WebsocketEvent.ws_disconnected) w =
    some (record w { sent = w.sent ++ disconnected ∷ [] })
on_message api (some WebsocketEvent.connected) w = some (init_addresses api w)
on_message api (some WebsocketEvent.error) w = some w
on_message api (some (ws_address_event event)) w = some (handle_address_event event true w)

-- The loop that `connect` spawns, on what it receives: the wallet, and whether the loop goes on.
unfoldable pub event_loop :
    {E : Type 0} → Api E → List (Option WebsocketEvent) → Wallet → Wallet × Bool
event_loop api [] w = (w, true)
event_loop api (e ∷ es) w = elim (on_message api e w) [
  | none ↦ (w, false)
  | some w' ↦ event_loop api es w'
]

-- `connect`, with what its loop and its `start` receive: what becomes of the loop, and whether it
-- has returned.
unfoldable pub connect :
    {E : Type 0}
    → Api E
    → Bool
    → List (Option Status)
    → List (Option WebsocketEvent)
    → Wallet
    → (Wallet × Bool) × Bool
connect api wait_for_connection statuses events w =
    (event_loop api events w, client_start wait_for_connection statuses)

-- `disconnect`, with the statuses that its `stop` receives: whether it has returned.
unfoldable pub disconnect : Bool → List (Option Status) → Wallet → Wallet × Bool
disconnect wait_for_close statuses w =
    let (controls, returned) = client_stop wait_for_close statuses in
    (record w { controls = w.controls ++ controls }, returned)
