-- ===== src/Socket/Client.antt =====
-- src/socket/mod.rs and the `stop` of src/socket/connection.rs: what a client sends and waits for.
-- The status channel yields a status or an error, which here is none.
pub mod Waits
use mwck_rs.Prelude.{Bool, true, false, Option, none, some, List, [], ◌∷◌, if◌then◌else◌}
use mwck_rs.Event.{ControlEvent, close}
use mwck_rs.Socket.Connection.{Status}

-- The loop in `start`, up to its `break`: whether it has returned after these receives.
unfoldable pub start_returns : List (Option Status) → Bool
start_returns [] = false
start_returns (some Status.connected ∷ events) = true
start_returns (some Status.offline ∷ events) = true
start_returns (some Status.ready ∷ events) = start_returns events
start_returns (some Status.connecting ∷ events) = start_returns events
start_returns (some Status.disconnected ∷ events) = start_returns events
start_returns (none ∷ events) = start_returns events

-- `Client::start`: without a wait it returns at once.
unfoldable pub client_start : Bool → List (Option Status) → Bool
client_start wait_for_connection events = if wait_for_connection then start_returns events else true

-- The `while let` loop of `Manager::stop`, which an error ends too.
unfoldable pub stop_returns : List (Option Status) → Bool
stop_returns [] = false
stop_returns (some Status.offline ∷ events) = true
stop_returns (some Status.connected ∷ events) = stop_returns events
stop_returns (some Status.ready ∷ events) = stop_returns events
stop_returns (some Status.connecting ∷ events) = stop_returns events
stop_returns (some Status.disconnected ∷ events) = stop_returns events
stop_returns (none ∷ events) = true

-- `Manager::stop`: the control events that it sends, and whether it has returned.
unfoldable pub manager_stop : List (Option Status) → List ControlEvent × Bool
manager_stop events = (close ∷ [], stop_returns events)

-- `Client::stop`: without a wait the future is dropped before it has run.
unfoldable pub client_stop : Bool → List (Option Status) → List ControlEvent × Bool
client_stop wait_for_close events = if wait_for_close then manager_stop events else ([], true)
