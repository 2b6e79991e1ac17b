-- ===== src/Socket/System.antt =====
-- src/socket: one connection as a whole, the manager of connection.rs with the control, message and
-- ping loops that it has spawned, and the channels between them. The loops have subscribed to the
-- disconnect channel; the manager does so when it comes to wait for it.
pub mod Told
pub mod Ends
mod Tests
use mwck_rs.Prelude.{
  ℕ, suc, zero, ◌+◌, ◌≤◌, ◌≡◌, Bool, true, false, not, ◌&&◌, ◌||◌, Option, List, [], ◌∷◌, ltb, leb,
  ◌==◌, if◌then◌else◌,
}
use mwck_rs.Event.{ControlEvent}
use mwck_rs.Socket.Connection.{
  Status, Connection, Signal, disconnect_signal, close_signal, close_error, Round, Outcome,
  continues, ended, panicked,
}
use mwck_rs.Socket.Connection
use mwck_rs.Socket.Control
use mwck_rs.Socket.Message.{Parser, Incoming, Reader, received, disconnect}
use mwck_rs.Socket.Message
use mwck_rs.Socket.Ping.{Pinger, Tick}
use mwck_rs.Socket.Ping

-- The tasks, and what waits on the disconnect channel for each: for the ping loop, which only looks
-- once a second and may fall behind, the number of signals. `signalled` is whether one was sent.
pub record System : Type 0 where
  pub manager : Connection
  pub control : Control.Manager
  pub reader : Reader
  pub pinger : Pinger
  pub manager_listens : Bool
  pub to_manager : Bool
  pub to_control : Bool
  pub to_reader : Bool
  pub to_pinger : ℕ
  pub signalled : Bool

-- `disconnect_channel.send(true)`: every receiver that is subscribed gets it.
unfoldable pub broadcast : System → System
broadcast s = record s {
  to_manager = s.to_manager || s.manager_listens;
  to_control = true;
  to_reader = true;
  to_pinger = s.to_pinger + 1;
  signalled = true;
}

unfoldable pub broadcast_if : Bool → System → System
broadcast_if b s = if b then broadcast s else s

-- A round of the control loop that takes a control event.
unfoldable pub control_round : Bool → ControlEvent → System → System
control_round accepts event s =
    let m = Control.step (Control.control accepts event) s.control in
    broadcast_if (ltb s.control.disconnects m.disconnects) (record s { control = m })

-- A round of the message loop that takes a message.
unfoldable pub reader_round : Parser → ℕ → Incoming → System → System
reader_round from_str now msg s =
    let m = Message.step from_str (received now msg) s.reader in
    broadcast_if (ltb s.reader.disconnects m.disconnects) (record s { reader = m })

-- `try_recv` on the disconnect channel, which holds one signal: a receiver that is behind first
-- gets an error, which is not `Ok(true)`, and then the last signal.
unfoldable pub after_try_recv : ℕ → Bool × ℕ
after_try_recv zero = (false, 0)
after_try_recv (suc zero) = (true, 0)
after_try_recv (suc (suc n)) = (false, 1)

-- A round of the ping loop after its `try_recv`.
unfoldable pub pinger_with : Bool × ℕ → Option ℕ → ℕ → System → System
pinger_with (told, left) last_response now s =
    let m =
      Ping.step (record { is_disconnected = told; last_response = last_response; now = now })
        s.pinger in
    broadcast_if (ltb s.pinger.disconnects m.disconnects)
      (record s { pinger = m; to_pinger = left })

-- A round of the ping loop.
unfoldable pub pinger_round : Option ℕ → ℕ → System → System
pinger_round last_response now s = pinger_with (after_try_recv s.to_pinger) last_response now s

-- What a round of the manager leaves of it, where the loop goes on or has ended.
unfoldable pub outcome_of : Connection → Outcome → Connection
outcome_of m (continues m') = m'
outcome_of m (ended m') = m'
outcome_of m (panicked p) = m

-- The manager's round in `Connected`; the arm of the close channel tells the threads to exit.
unfoldable pub manager_round : Signal → System → System
manager_round signal s =
    let r : Round = record { reaches = false; joins = true; signal = signal } in
    let s' = record s { manager = outcome_of s.manager (Connection.step r s.manager) } in
    broadcast_if
      (elim signal [ disconnect_signal ↦ false | close_signal ↦ true | close_error ↦ true ]) s'

abbrev pub is_connected : Status → Bool
is_connected Status.connected = true
is_connected Status.ready = false
is_connected Status.connecting = false
is_connected Status.disconnected = false
is_connected Status.offline = false

-- A step of one task, where what it waits for is there.
pub data Step (s : System) : System → Type 0 where
  controls :
      (accepts : Bool) (event : ControlEvent)
      → s.control.is_running ≡ true
      → Step s (control_round accepts event s)
  control_stops :
      s.control.is_running ≡ true
      → s.to_control ≡ true
      → Step s
          (record s { control = Control.step Control.disconnect s.control; to_control = false })
  reads :
      (from_str : Parser) (now : ℕ) (msg : Incoming)
      → s.reader.is_running ≡ true
      → Step s (reader_round from_str now msg s)
  reader_stops :
      (from_str : Parser)
      → s.reader.is_running ≡ true
      → s.to_reader ≡ true
      → Step s (record s { reader = Message.step from_str disconnect s.reader; to_reader = false })
  ticks :
      (last_response : Option ℕ) (now : ℕ)
      → s.pinger.is_running ≡ true
      → Step s (pinger_round last_response now s)
  listens : is_connected s.manager.status ≡ true → Step s (record s { manager_listens = true })
  hears :
      is_connected s.manager.status ≡ true
      → s.to_manager ≡ true
      → Step s (manager_round disconnect_signal s)
  closes :
      is_connected s.manager.status ≡ true
      → s.manager_listens ≡ true
      → s.control.closes ≡ 1
      → Step s (manager_round close_signal s)
  loses :
      is_connected s.manager.status ≡ true
      → s.manager_listens ≡ true
      → s.control.is_running ≡ false
      → s.control.closes ≡ 0
      → Step s (manager_round close_error s)

pub data Reach (s : System) : System → Type 0 where
  here : Reach s s
  next : {t u : System} → Reach s t → Step t u → Reach s u

-- A connection once `connect` has spawned the loops and the manager is connected.
unfoldable pub opened : ℕ → Connection → System
opened now m = record {
  manager = Connection.on_connecting true m;
  control = Control.start;
  reader = record { last_response = now; sent = []; disconnects = 0; is_running = true };
  pinger = Ping.start;
  manager_listens = false;
  to_manager = false;
  to_control = false;
  to_reader = false;
  to_pinger = 0;
  signalled = false;
}
