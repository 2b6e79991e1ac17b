-- ===== src/Socket/Connection/Runs.antt =====
-- What the connection's state machine does in every run, and when it connects and ends.
use mwck_rs.Prelude.{
  ◌≡◌, refl, Bool, true, false, ◌&&◌, List, [], ◌∷◌, append_assoc, arith, if◌then◌else◌,
}
use mwck_rs.Event.{WebsocketEvent}
use mwck_rs.Socket.Connection.{
  Status, status_sent, notified, slept, joined, signalled_exit, Connection, fresh, Signal,
  disconnect_signal, close_signal, close_error, Round, no_close_channel, no_disconnect_channel,
  thread_failed, Outcome, continues, ended, panicked, emit, update, connect, on_connecting,
  join_threads, on_disconnected, on_signal, on_status, step, run,
}
use mwck_rs.Socket.Connection.Lawful.{
  is_edge, after, is_path, dials, rests, is_dialled, IsPath, append-IsPath,
}

-- What the arm of `Connected` takes is there.
unfoldable pub has_channels : Status → Connection → Bool
has_channels Status.connected m = m.has_close_receiver && m.has_disconnect_channel
has_channels Status.ready m = true
has_channels Status.connecting m = true
has_channels Status.disconnected m = true
has_channels Status.offline m = true

pub record IsLive (m : Connection) : Type 0 where
  pub channels : has_channels m.status m ≡ true
  pub path : IsPath m.effects m.status

-- A loop that goes on is live, one that has ended went offline, and a panic is that of a thread.
unfoldable pub IsLawful : Outcome → Type 0
IsLawful (continues m) = IsLive m
IsLawful (ended m) = IsPath m.effects Status.offline
IsLawful (panicked p) = p ≡ thread_failed

join_threads-IsPath :
    (m : Connection) (s : Status) → IsPath m.effects s → IsPath (join_threads m).effects s
unfolding join_threads emit after is_path dials rests
join_threads-IsPath m s l =
    ground (arith, l, append-IsPath m.effects (joined ∷ []) s s l refl refl refl)

on_disconnected-IsPath :
    (m : Connection)
    → IsPath m.effects Status.disconnected
    → IsPath (on_disconnected m).effects Status.ready
unfolding on_disconnected emit update after is_path dials rests is_dialled is_edge
on_disconnected-IsPath m l =
    rw
      (append_assoc m.effects (notified WebsocketEvent.ws_disconnected ∷ slept 30_000 ∷ [])
        (status_sent Status.ready ∷ []))
      (append-IsPath m.effects _ Status.disconnected Status.ready l refl refl refl)

on_connecting-IsLive :
    (reaches : Bool) (m : Connection)
    → IsPath m.effects Status.connecting
    → IsLive (on_connecting reaches m)
unfolding on_connecting connect emit update after is_path dials rests is_dialled is_edge
    has_channels
on_connecting-IsLive true m l = record {
  channels = refl;
  path =
      rw
        (append_assoc m.effects (notified WebsocketEvent.connected ∷ [])
          (status_sent Status.connected ∷ []))
        (append-IsPath m.effects _ Status.connecting Status.connected l refl refl refl);
}
on_connecting-IsLive false m l = record {
  channels = refl;
  path =
      rw
        (append_assoc m.effects (notified WebsocketEvent.error ∷ [])
          (status_sent Status.disconnected ∷ []))
        (append-IsPath m.effects _ Status.connecting Status.disconnected l refl refl refl);
}

on_signal-IsLive :
    (g : Signal) (m : Connection) → IsPath m.effects Status.connected → IsLive (on_signal g m)
unfolding on_signal emit update after is_path dials rests is_dialled is_edge has_channels
on_signal-IsLive disconnect_signal m l = record {
  channels = refl;
  path = append-IsPath m.effects _ Status.connected Status.disconnected l refl refl refl;
}
on_signal-IsLive close_signal m l = record {
  channels = refl;
  path =
      rw (append_assoc m.effects (status_sent Status.offline ∷ []) (signalled_exit ∷ []))
        (append-IsPath m.effects _ Status.connected Status.offline l refl refl refl);
}
on_signal-IsLive close_error m l = record {
  channels = refl;
  path =
      rw (append_assoc m.effects (status_sent Status.disconnected ∷ []) (signalled_exit ∷ []))
        (append-IsPath m.effects _ Status.connected Status.disconnected l refl refl refl);
}

-- A panic of a thread apart, waiting for the threads keeps the law.
joining-IsLawful :
    (handles joins : Bool) (o : Outcome)
    → IsLawful o
    → IsLawful (if handles then (if joins then o else panicked thread_failed) else o)
unfolding IsLawful
joining-IsLawful true true o l = l
joining-IsLawful true false o l = refl
joining-IsLawful false joins o l = l

-- Neither `expect` on a channel fails where both are there.
taking-IsLawful :
    (a b : Bool) (o : Outcome)
    → (a && b) ≡ true
    → IsLawful o
    → IsLawful
        (if a then (if b then o else panicked no_disconnect_channel) else panicked no_close_channel)
taking-IsLawful true true o h l = l
taking-IsLawful true false o h l = cc
taking-IsLawful false b o h l = cc

on_status-IsLawful :
    (s : Status) (r : Round) (m : Connection)
    → IsPath m.effects s
    → has_channels s m ≡ true
    → IsLawful (on_status s r m)
unfolding on_status has_channels emit update after is_path dials rests is_dialled is_edge IsLawful
    on_disconnected
on_status-IsLawful Status.offline r m l c = joining-IsLawful m.has_handles r.joins _ (
    append-IsPath _ (notified WebsocketEvent.offline ∷ []) Status.offline Status.offline
      (join_threads-IsPath m Status.offline l) refl refl refl)
on_status-IsLawful Status.ready r m l c = record {
  channels = refl;
  path = append-IsPath m.effects _ Status.ready Status.connecting l refl refl refl;
}
on_status-IsLawful Status.connecting r m l c = on_connecting-IsLive r.reaches m l
on_status-IsLawful Status.disconnected r m l c = joining-IsLawful m.has_handles r.joins _ (record {
  channels = refl;
  path = on_disconnected-IsPath (join_threads m) (join_threads-IsPath m Status.disconnected l);
})
on_status-IsLawful Status.connected r m l c =
    taking-IsLawful m.has_close_receiver m.has_disconnect_channel _ c
      (on_signal-IsLive r.signal _ l)

pub run-IsLawful : (rs : List Round) (o : Outcome) → IsLawful o → IsLawful (run rs o)
unfolding run step IsLawful
run-IsLawful [] o l = l
run-IsLawful (r ∷ rs) (continues m) l =
    run-IsLawful rs (step r m) (on_status-IsLawful m.status r m l.path l.channels)
run-IsLawful (r ∷ rs) (ended m) l = l
run-IsLawful (r ∷ rs) (panicked p) l = l

fresh-IsLive : IsLive fresh
unfolding fresh has_channels after is_path dials rests is_dialled
fresh-IsLive = record { channels = refl; path = record { path = refl; at = refl; rate = refl } }

-- From its start, whatever the rounds meet, the connection manager panics only where a thread did;
-- the statuses it broadcasts follow the edges that the comments name, and it attempts at most one
-- connection more than it has waited 30 seconds.
pub run-fresh-IsLawful : (rs : List Round) → IsLawful (run rs (continues fresh))
unfolding IsLawful
run-fresh-IsLawful rs = run-IsLawful rs (continues fresh) fresh-IsLive
