-- ===== src/Socket/Connection.antt =====
-- src/socket/connection.rs: the state machine that keeps one websocket connection alive.
pub mod Lawful
pub mod Runs
pub mod Growth
pub mod Progress
use mwck_rs.Prelude.{ℕ, ◌+◌, ◌%◌, ◌^◌, Bool, true, false, List, [], ◌∷◌, ◌++◌, if◌then◌else◌}
use mwck_rs.Event.{WebsocketEvent}

pub data Status : Type 0 where
  ready connected connecting disconnected offline : Status

-- What the manager does that others see, in order: `StatusUpdater` broadcasts a status, `notify` an
-- event; it waits for the threads of a connection, sleeps, or tells the threads to exit.
pub data Effect : Type 0 where
  status_sent : Status → Effect
  notified : WebsocketEvent → Effect
  slept : ℕ → Effect
  joined signalled_exit : Effect

-- The locals of `start`: of the channels and handles, whether the option holds one.
pub record Connection : Type 0 where
  pub status : Status
  pub has_handles : Bool
  pub has_close_receiver : Bool
  pub has_disconnect_channel : Bool
  pub connection_count : ℕ
  pub effects : List Effect

unfoldable pub fresh : Connection
fresh = record {
  status = Status.ready;
  has_handles = false;
  has_close_receiver = false;
  has_disconnect_channel = false;
  connection_count = 0;
  effects = [];
}

-- What the `select!` of a connected round takes: the disconnect channel, or the close channel with
-- a value or with the error of a dropped sender.
pub data Signal : Type 0 where
  disconnect_signal close_signal close_error : Signal

-- What a round of the loop meets, as far as its status asks for it: whether the server is reached,
-- whether the threads end without a panic, and the signal.
pub record Round : Type 0 where
  pub reaches : Bool
  pub joins : Bool
  pub signal : Signal

-- The three `expect`s.
pub data Panic : Type 0 where
  no_close_channel no_disconnect_channel thread_failed : Panic

pub data Outcome : Type 0 where
  continues ended : Connection → Outcome
  panicked : Panic → Outcome

unfoldable pub emit : List Effect → Connection → Connection
emit es m = record m { effects = m.effects ++ es }

-- `StatusUpdater::update`.
unfoldable pub update : Status → Connection → Connection
update s m = record m { status = s; effects = m.effects ++ status_sent s ∷ [] }

-- `connect`, on whether the socket was opened: the result, and the manager that has notified it.
unfoldable pub connect : Bool → Connection → Bool × Connection
connect true m = (true, emit (notified WebsocketEvent.connected ∷ []) m)
connect false m = (false, emit (notified WebsocketEvent.error ∷ []) m)

-- The arm of `Connecting`.
unfoldable pub on_connecting : Bool → Connection → Connection
on_connecting reaches m =
    let (is_open, m') = connect reaches m in
    let m'' = update (if is_open then Status.connected else Status.disconnected) (record m' {
      has_handles = is_open;
      has_close_receiver = is_open;
      has_disconnect_channel = is_open;
    }) in
    record m'' { connection_count = (m''.connection_count + 1) % 2 ^ 32 }

-- `handles.take()` and the wait for each of them.
unfoldable pub join_threads : Connection → Connection
join_threads m = if m.has_handles then emit (joined ∷ []) (record m { has_handles = false }) else m

-- The arm of `Disconnected`, after the wait.
unfoldable pub on_disconnected : Connection → Connection
on_disconnected m =
    update Status.ready (emit (notified WebsocketEvent.ws_disconnected ∷ slept 30_000 ∷ []) m)

-- The `select!` of the arm of `Connected`.
unfoldable pub on_signal : Signal → Connection → Connection
on_signal disconnect_signal m = update Status.disconnected m
on_signal close_signal m = emit (signalled_exit ∷ []) (update Status.offline m)
on_signal close_error m = emit (signalled_exit ∷ []) (update Status.disconnected m)

-- One round of the loop of `start`; the round that leaves it notifies `Offline`.
unfoldable pub on_status : Status → Round → Connection → Outcome
on_status Status.offline r m =
    if m.has_handles
    then (if r.joins
        then ended (emit (notified WebsocketEvent.offline ∷ []) (join_threads m))
        else panicked thread_failed)
    else ended (emit (notified WebsocketEvent.offline ∷ []) (join_threads m))
on_status Status.ready r m = continues (update Status.connecting m)
on_status Status.connecting r m = continues (on_connecting r.reaches m)
on_status Status.disconnected r m =
    if m.has_handles
    then (if r.joins then continues (on_disconnected (join_threads m)) else panicked thread_failed)
    else continues (on_disconnected (join_threads m))
on_status Status.connected r m =
    if m.has_close_receiver
    then (if m.has_disconnect_channel
        then continues (
            on_signal r.signal
              (record m { has_close_receiver = false; has_disconnect_channel = false }))
        else panicked no_disconnect_channel)
    else panicked no_close_channel

unfoldable pub step : Round → Connection → Outcome
step r m = on_status m.status r m

-- The rounds that the loop takes of these.
unfoldable pub run : List Round → Outcome → Outcome
run [] o = o
run (r ∷ rs) (continues m) = run rs (step r m)
run (r ∷ rs) (ended m) = ended m
run (r ∷ rs) (panicked p) = panicked p
