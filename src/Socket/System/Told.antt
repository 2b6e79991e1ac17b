-- ===== src/Socket/System/Told.antt =====
-- Whether every loop of a connection comes to its end once the manager waits for that.
use mwck_rs.Prelude.{
  ℕ, suc, zero, ◌≡◌, refl, Bool, true, false, not, ◌&&◌, ◌||◌, arith, ltb, leb, Option, none, some,
}
use mwck_rs.Event.{ControlEvent}
use mwck_rs.Socket.Control
use mwck_rs.Socket.Message
use mwck_rs.Socket.Message.{Parser, Incoming, text, other, failure, Reader}
use mwck_rs.Socket.Ping
use mwck_rs.Socket.Ping.{Pinger}
use mwck_rs.Socket.Connection
use mwck_rs.Socket.Connection.{Connection, Signal, disconnect_signal, close_signal, close_error}
use mwck_rs.Socket.System.{
  pinger_with, System, broadcast, broadcast_if, control_round, reader_round, after_try_recv,
  pinger_round, manager_round, is_connected, opened, Step, controls, control_stops, reads,
  reader_stops, ticks, listens, hears, closes, loses, Reach, here, next,
}

-- Every loop that runs has a disconnect signal waiting for it.
abbrev pub is_told : System → Bool
is_told s =
    (not s.control.is_running || s.to_control)
    && ((not s.reader.is_running || s.to_reader) && (not s.pinger.is_running || leb 1 s.to_pinger))

-- Once a signal was sent all are told, and without one all run and the manager is connected.
pub record IsTold (s : System) : Type 0 where
  pub told : (not s.signalled || is_told s) ≡ true
  pub connected : (s.signalled || is_connected s.manager.status) ≡ true
  pub control : (s.signalled || s.control.is_running) ≡ true
  pub reader : (s.signalled || s.reader.is_running) ≡ true
  pub pinger : (s.signalled || s.pinger.is_running) ≡ true
  pub to_control : (s.signalled || not s.to_control) ≡ true
  pub to_reader : (s.signalled || not s.to_reader) ≡ true
  pub to_pinger : (s.signalled || not (leb 1 s.to_pinger)) ≡ true
  pub to_manager : (s.signalled || not s.to_manager) ≡ true

broadcast-IsTold : (s : System) → IsTold (broadcast s)
unfolding broadcast
broadcast-IsTold s = ground arith

broadcast_if-IsTold : (b : Bool) (s : System) → (b ≡ false → IsTold s) → IsTold (broadcast_if b s)
unfolding broadcast_if
broadcast_if-IsTold true s h = broadcast-IsTold s
broadcast_if-IsTold false s h = h refl

-- A loop that sends no signal goes on.
handle-quiet :
    (accepts : Bool) (event : ControlEvent) (m : Control.Manager)
    → ltb m.disconnects (Control.handle accepts event m).disconnects ≡ false
    → (Control.handle accepts event m).is_running ≡ m.is_running
unfolding Control.handle Control.update_subscription
handle-quiet accepts ControlEvent.close m q = ground arith
handle-quiet accepts ControlEvent.ping m q = ground arith
handle-quiet accepts (ControlEvent.subscribe spks) m q = ground arith
handle-quiet accepts (ControlEvent.unsubscribe spks) m q = ground arith

control_round-IsTold :
    (accepts : Bool) (event : ControlEvent) (s : System)
    → IsTold s
    → IsTold (control_round accepts event s)
unfolding control_round Control.step
control_round-IsTold accepts event s t = broadcast_if-IsTold _ _ (λ q.
    let e = handle-quiet accepts event s.control q in
    ground (
      arith, e, t.told, t.connected, t.control, t.reader, t.pinger, t.to_control, t.to_reader,
      t.to_pinger, t.to_manager,
    ))

on_incoming-running :
    (from_str : Parser) (msg : Incoming) (m : Reader)
    → (Message.on_incoming from_str msg m).is_running ≡ m.is_running
unfolding Message.on_incoming
on_incoming-running from_str (text json) m = refl
on_incoming-running from_str failure m = refl
on_incoming-running from_str other m = refl

reader_round-IsTold :
    (from_str : Parser) (now : ℕ) (msg : Incoming) (s : System)
    → IsTold s
    → IsTold (reader_round from_str now msg s)
unfolding reader_round Message.step
reader_round-IsTold from_str now msg s t = broadcast_if-IsTold _ _ (λ q.
    let e = on_incoming-running from_str msg (record s.reader { last_response = now }) in
    ground (
      arith, e, t.told, t.connected, t.control, t.reader, t.pinger, t.to_control, t.to_reader,
      t.to_pinger, t.to_manager,
    ))

check_response-quiet :
    (o : Option ℕ) (now : ℕ) (m : Pinger)
    → ltb m.disconnects (Ping.check_response o now m).disconnects ≡ false
    → (Ping.check_response o now m).is_running ≡ m.is_running
unfolding Ping.check_response Ping.check
check_response-quiet none now m q = refl
check_response-quiet (some t) now m q = ground arith

-- What `try_recv` finds: a signal only where there is one, and it leaves one if there are more.
try_recv-left :
    (n : ℕ)
    → let (told, left) = after_try_recv n in
      ((not told || leb 1 n) ≡ true)
      × ((told || (not (leb 1 n) || leb 1 left)) ≡ true)
      × ((leb 1 n || not (leb 1 left)) ≡ true)
unfolding after_try_recv
try_recv-left zero = (refl, refl, refl)
try_recv-left (suc zero) = (refl, refl, refl)
try_recv-left (suc (suc n)) = (refl, ground arith, ground arith)

pinger_with-IsTold :
    (told : Bool) (left : ℕ) (o : Option ℕ) (now : ℕ) (s : System)
    → (not told || leb 1 s.to_pinger) ≡ true
    → (told || (not (leb 1 s.to_pinger) || leb 1 left)) ≡ true
    → (leb 1 s.to_pinger || not (leb 1 left)) ≡ true
    → IsTold s
    → IsTold (pinger_with (told, left) o now s)
unfolding pinger_with Ping.step
pinger_with-IsTold true left o now s a b c t = broadcast_if-IsTold _ _ (λ q. ground (
  arith, t.told, t.connected, t.control, t.reader, t.pinger, t.to_control, t.to_reader, t.to_pinger,
  t.to_manager,
))
pinger_with-IsTold false left o now s a b c t = broadcast_if-IsTold _ _ (λ q.
    let e = check_response-quiet o now s.pinger q in
    ground (
      arith, e, t.told, t.connected, t.control, t.reader, t.pinger, t.to_control, t.to_reader,
      t.to_pinger, t.to_manager,
    ))

pinger_round-IsTold :
    (o : Option ℕ) (now : ℕ) (s : System) → IsTold s → IsTold (pinger_round o now s)
unfolding pinger_round
pinger_round-IsTold o now s t =
    let (a, b, c) = try_recv-left s.to_pinger in pinger_with-IsTold _ _ o now s a b c t

manager_round-IsTold :
    (g : Signal) (s : System)
    → IsTold s
    → (g ≡ disconnect_signal → s.signalled ≡ true)
    → IsTold (manager_round g s)
unfolding manager_round broadcast_if
manager_round-IsTold disconnect_signal s t h =
    let q = h refl in
    ground (
      arith, q, t.told, t.connected, t.control, t.reader, t.pinger, t.to_control, t.to_reader,
      t.to_pinger, t.to_manager,
    )
manager_round-IsTold close_signal s t h = broadcast-IsTold _
manager_round-IsTold close_error s t h = broadcast-IsTold _

Step-IsTold : {s u : System} → Step s u → IsTold s → IsTold u
unfolding Control.step Message.step
Step-IsTold {s = s} (controls accepts event r) t = control_round-IsTold accepts event s t
Step-IsTold (control_stops r w) t = ground (
  arith, t.told, t.connected, t.control, t.reader, t.pinger, t.to_control, t.to_reader, t.to_pinger,
  t.to_manager,
)
Step-IsTold {s = s} (reads from_str now msg r) t = reader_round-IsTold from_str now msg s t
Step-IsTold (reader_stops from_str r w) t = ground (
  arith, t.told, t.connected, t.control, t.reader, t.pinger, t.to_control, t.to_reader, t.to_pinger,
  t.to_manager,
)
Step-IsTold {s = s} (ticks o now r) t = pinger_round-IsTold o now s t
Step-IsTold (listens c) t = ground (
  arith, t.told, t.connected, t.control, t.reader, t.pinger, t.to_control, t.to_reader, t.to_pinger,
  t.to_manager,
)
Step-IsTold {s = s} (hears c w) t =
    manager_round-IsTold disconnect_signal s t (λ _. ground (arith, t.to_manager))
Step-IsTold {s = s} (closes c l n) t = manager_round-IsTold close_signal s t (λ e. cc e)
Step-IsTold {s = s} (loses c l r n) t = manager_round-IsTold close_error s t (λ e. cc e)

pub Reach-IsTold : {s u : System} → Reach s u → IsTold s → IsTold u
Reach-IsTold here t = t
Reach-IsTold (next r st) t = Step-IsTold st (Reach-IsTold r t)

opened-IsTold : (now : ℕ) (m : Connection) → IsTold (opened now m)
unfolding opened Connection.on_connecting Connection.connect Connection.update Connection.emit
    Control.start Ping.start
opened-IsTold now m = record {
  told = refl;
  connected = refl;
  control = refl;
  reader = refl;
  pinger = refl;
  to_control = refl;
  to_reader = refl;
  to_pinger = refl;
  to_manager = refl;
}

-- From a connection whose loops have subscribed, in every order of the steps of its tasks: once the
-- manager is no longer connected, each loop has ended or has a disconnect signal waiting for it.
pub Reach-opened-is_told :
    (now : ℕ) (m : Connection) (s : System)
    → Reach (opened now m) s
    → is_connected s.manager.status ≡ false
    → is_told s ≡ true
Reach-opened-is_told now m s r c =
    let t = Reach-IsTold r (opened-IsTold now m) in ground (arith, t.told, t.connected)
