-- ===== src/Socket/System/Tests.antt =====
-- A connection whose socket refuses a subscription.
use mwck_rs.Prelude.{◌≡◌, refl, true, false, [], ◌∷◌}
use mwck_rs.Event.{ControlEvent}
use mwck_rs.Samples.{alice}
use mwck_rs.Socket.Control
use mwck_rs.Socket.Connection
use mwck_rs.Socket.Connection.{fresh, disconnect_signal}
use mwck_rs.Socket.System.{
  System, opened, control_round, manager_round, broadcast_if, broadcast, controls, listens, hears,
  Reach, here, next, is_connected, outcome_of,
}
use mwck_rs.Socket.System.Ends.{loops_end}

abbrev listening : System
listening = record (opened 0 fresh) { manager_listens = true }

abbrev refused : System
refused = control_round false (ControlEvent.subscribe (alice ∷ [])) listening

abbrev lost : System
lost = manager_round disconnect_signal refused

refused-Reach : Reach (opened 0 fresh) lost
unfolding opened fresh Connection.on_connecting Connection.connect Connection.update Connection.emit
    Control.start control_round broadcast_if broadcast Control.step Control.handle
    Control.update_subscription Control.insert_all
refused-Reach =
    next
      (next (next here (listens refl)) (controls false (ControlEvent.subscribe (alice ∷ [])) refl))
      (hears refl refl)

lost-disconnected : is_connected lost.manager.status ≡ false
unfolding opened fresh Connection.on_connecting Connection.connect Connection.update Connection.emit
    Control.start control_round broadcast_if broadcast Control.step Control.handle
    Control.update_subscription Control.insert_all manager_round outcome_of Connection.step
    Connection.on_status Connection.on_signal
lost-disconnected = refl

loops_end_example :
    (u : System) × Reach lost u
    × (u.control.is_running ≡ false)
    × (u.reader.is_running ≡ false)
    × (u.pinger.is_running ≡ false)
loops_end_example = loops_end 0 fresh lost refused-Reach lost-disconnected
