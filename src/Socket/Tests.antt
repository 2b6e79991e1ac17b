-- ===== src/Socket/Tests.antt =====
-- Runs of the managers of a connection, and their theorems at concrete inputs.
use mwck_rs.Prelude.{◌++◌, ℕ, ◌≤◌, ◌≡◌, refl, arith, true, false, some, List, [], ◌∷◌}
use mwck_rs.HashMap.{Map}
use mwck_rs.Event.{ControlEvent, WebsocketEvent}
use mwck_rs.Samples.{alice, bob, deposit, payment}
use mwck_rs.Socket.Control.{Input, disconnect, control, track, Manager}
use mwck_rs.Socket.Control
use mwck_rs.Socket.Control.Subscription.{subscribed, run-start-subscribed}
use mwck_rs.Socket.Connection.{
  Effect, Status, status_sent, notified, joined, signalled_exit, ended, Round, Connection, fresh,
  continues, disconnect_signal, close_signal, close_error,
}
use mwck_rs.Socket.Connection
use mwck_rs.Socket.Connection.Lawful.{is_edge, after, is_path, dials, rests, is_dialled}
use mwck_rs.Socket.Connection.Runs.{has_channels, IsLawful, IsLive, run-fresh-IsLawful}
use mwck_rs.Socket.Connection.Progress.{
  good, good_rounds, is_wanted, IsGone, run-good_rounds, run-close_signal,
}
use mwck_rs.Socket.Client.{client_start, client_stop}
use mwck_rs.Socket.Client.Waits.{statuses, ended-returns}
use mwck_rs.Socket.Ping
use mwck_rs.Socket.Ping.{from_secs, Tick, Pinger, start}
use mwck_rs.Socket.Ping.Silence.{silent, run-silent}
use mwck_rs.Socket.Message.{WebsocketAddressTransactions, Parser}

-- Alice is subscribed twice, Bob once; then the client closes, and unsubscribes Alice.
abbrev inputs : List Input
inputs =
    control true (ControlEvent.subscribe (alice ∷ []))
    ∷ control true (ControlEvent.subscribe (alice ∷ bob ∷ []))
    ∷ control true ControlEvent.close
    ∷ control true (ControlEvent.unsubscribe (alice ∷ []))
    ∷ []

run-start-subscribed_example :
    (subscribed [] (Control.run inputs Control.start).frames ≡ bob ∷ [])
    × ((Control.run inputs Control.start).closes ≤ 1)
unfolding Control.run Control.step Control.start Control.handle Control.update_subscription
    Control.insert_all Control.remove_all
run-start-subscribed_example = run-start-subscribed inputs refl

-- The server is first not reached; the connection is lost, and then closed.
abbrev rounds : List Round
rounds =
    good disconnect_signal
    ∷ record { reaches = false; joins = true; signal = close_error }
    ∷ good disconnect_signal
    ∷ good disconnect_signal
    ∷ good disconnect_signal
    ∷ good disconnect_signal
    ∷ good disconnect_signal
    ∷ []

run-fresh-IsLawful_example : IsLawful (Connection.run rounds (continues fresh))
run-fresh-IsLawful_example = run-fresh-IsLawful rounds

run-good_rounds_example :
    (m : Connection) × (Connection.run
        (good disconnect_signal ∷ good disconnect_signal ∷ [])
        (continues fresh)
      ≡ continues m)
    × (m.status ≡ Status.connected)
unfolding fresh good_rounds is_wanted
run-good_rounds_example = run-good_rounds disconnect_signal fresh refl

-- The manager once it is connected.
abbrev online : Connection
online = record {
  status = Status.connected;
  has_handles = true;
  has_close_receiver = true;
  has_disconnect_channel = true;
  connection_count = 1;
  effects =
      status_sent Status.connecting
      ∷ notified WebsocketEvent.connected
      ∷ status_sent Status.connected
      ∷ [];
}

online-IsLive : IsLive online
unfolding has_channels after is_path dials rests is_dialled is_edge
online-IsLive = record { channels = refl; path = record { path = refl; at = refl; rate = refl } }

run-close_signal_example : IsGone (
    Connection.run
      (record { reaches = false; joins = false; signal = close_signal } ∷ good close_error ∷ [])
      (continues online))
run-close_signal_example = run-close_signal false false close_error online online-IsLive refl

-- Rounds 1, 31, 32, 61 and 62 seconds after a response.
abbrev times : List ℕ
times = from_secs 1 ∷ from_secs 31 ∷ from_secs 32 ∷ from_secs 61 ∷ from_secs 62 ∷ []

run-silent_example :
    ((Ping.run (silent 0 times) start).pings ≡ 1)
    × ((Ping.run (silent 0 times) start).disconnects ≡ 1)
run-silent_example = run-silent 0 0 times (ground arith)

-- A message that says the payment is removed, and then that it is in the mempool.
abbrev said_of_alice : Map WebsocketAddressTransactions
said_of_alice =
    (alice, record { mempool = payment ∷ []; confirmed = deposit ∷ []; removed = payment ∷ [] })
    ∷ []

abbrev from_str : Parser
from_str json = some (record { multi_scriptpubkey_transactions = some said_of_alice })

-- A run that connects, and one that closes that connection.
abbrev opening : List Round
opening = good disconnect_signal ∷ good disconnect_signal ∷ []

abbrev closing : List Round
closing = good close_signal ∷ good disconnect_signal ∷ []

abbrev connection_up : Connection
connection_up = record {
  status = Status.connected;
  has_handles = true;
  has_close_receiver = true;
  has_disconnect_channel = true;
  connection_count = 1;
  effects =
      status_sent Status.connecting
      ∷ notified WebsocketEvent.connected
      ∷ status_sent Status.connected
      ∷ [];
}

abbrev closed : Connection
closed = record {
  status = Status.offline;
  has_handles = false;
  has_close_receiver = false;
  has_disconnect_channel = false;
  connection_count = 1;
  effects =
      connection_up.effects
      ++ status_sent Status.offline
        ∷ signalled_exit
        ∷ joined
        ∷ notified WebsocketEvent.offline
        ∷ [];
}

opens_up :
    (Connection.run opening (continues fresh) ≡ continues connection_up)
    × (Connection.run closing (continues connection_up) ≡ ended closed)
unfolding Connection.run Connection.step fresh Connection.on_status Connection.update
    Connection.on_connecting Connection.connect Connection.emit Connection.on_signal
    Connection.join_threads
opens_up = (refl, refl)

ended-returns_example :
    (later : List Effect) × (closed.effects ≡ connection_up.effects ++ later)
    × (client_start true (statuses later) ≡ true)
    × ((client_stop true (statuses later)).1 ≡ true)
ended-returns_example =
    ended-returns opening closing connection_up closed opens_up.0 (λ e. cc e) opens_up.1
