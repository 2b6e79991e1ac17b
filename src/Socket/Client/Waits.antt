-- ===== src/Socket/Client/Waits.antt =====
-- When the client's waits end, against the statuses that the connection manager broadcasts.
use mwck_rs.Prelude.{
  ◌≡◌, ◌≢◌, refl, sym, ap, ◌∙◌, subst, true, Option, some, List, [], ◌∷◌, ◌++◌, append-nil, arith,
  ◌⊎◌, inl, inr,
}
use mwck_rs.Socket.Connection.{
  Status, Effect, status_sent, notified, slept, joined, signalled_exit, Connection, fresh, Round,
  continues, ended, run,
}
use mwck_rs.Socket.Connection.Growth.{Adds, run-Adds}
use mwck_rs.Socket.Connection.Lawful.{after, after-append, IsPath}
use mwck_rs.Socket.Connection.Runs.{IsLive, IsLawful, run-IsLawful, run-fresh-IsLawful}
use mwck_rs.Socket.Client.{start_returns, stop_returns, client_start, client_stop, manager_stop}

-- The statuses among what the manager did, as a receiver gets them that falls behind on none.
unfoldable pub statuses : List Effect → List (Option Status)
statuses [] = []
statuses (status_sent s ∷ es) = some s ∷ statuses es
statuses (notified e ∷ es) = statuses es
statuses (slept n ∷ es) = statuses es
statuses (joined ∷ es) = statuses es
statuses (signalled_exit ∷ es) = statuses es

start-after :
    (s : Status) (es : List Effect)
    → after s es ≡ Status.connected
    → (s ≡ Status.connected) ⊎ (start_returns (statuses es) ≡ true)
unfolding after statuses start_returns
start-after s [] e = inl e
start-after s (status_sent Status.connected ∷ es) e = inr refl
start-after s (status_sent Status.offline ∷ es) e = inr refl
start-after s (status_sent Status.ready ∷ es) e = ground (arith, start-after Status.ready es e)
start-after s (status_sent Status.connecting ∷ es) e =
    ground (arith, start-after Status.connecting es e)
start-after s (status_sent Status.disconnected ∷ es) e =
    ground (arith, start-after Status.disconnected es e)
start-after s (notified x ∷ es) e = start-after s es e
start-after s (slept n ∷ es) e = start-after s es e
start-after s (joined ∷ es) e = start-after s es e
start-after s (signalled_exit ∷ es) e = start-after s es e

start-offline :
    (s : Status) (es : List Effect)
    → after s es ≡ Status.offline
    → (s ≡ Status.offline) ⊎ (start_returns (statuses es) ≡ true)
unfolding after statuses start_returns
start-offline s [] e = inl e
start-offline s (status_sent Status.connected ∷ es) e = inr refl
start-offline s (status_sent Status.offline ∷ es) e = inr refl
start-offline s (status_sent Status.ready ∷ es) e = ground (arith, start-offline Status.ready es e)
start-offline s (status_sent Status.connecting ∷ es) e =
    ground (arith, start-offline Status.connecting es e)
start-offline s (status_sent Status.disconnected ∷ es) e =
    ground (arith, start-offline Status.disconnected es e)
start-offline s (notified x ∷ es) e = start-offline s es e
start-offline s (slept n ∷ es) e = start-offline s es e
start-offline s (joined ∷ es) e = start-offline s es e
start-offline s (signalled_exit ∷ es) e = start-offline s es e

stop-after :
    (s : Status) (es : List Effect)
    → after s es ≡ Status.offline
    → (s ≡ Status.offline) ⊎ (stop_returns (statuses es) ≡ true)
unfolding after statuses stop_returns
stop-after s [] e = inl e
stop-after s (status_sent Status.offline ∷ es) e = inr refl
stop-after s (status_sent Status.connected ∷ es) e =
    ground (arith, stop-after Status.connected es e)
stop-after s (status_sent Status.ready ∷ es) e = ground (arith, stop-after Status.ready es e)
stop-after s (status_sent Status.connecting ∷ es) e =
    ground (arith, stop-after Status.connecting es e)
stop-after s (status_sent Status.disconnected ∷ es) e =
    ground (arith, stop-after Status.disconnected es e)
stop-after s (notified x ∷ es) e = stop-after s es e
stop-after s (slept n ∷ es) e = stop-after s es e
stop-after s (joined ∷ es) e = stop-after s es e
stop-after s (signalled_exit ∷ es) e = stop-after s es e

-- Once a run of the manager has connected, the `start` of a client that waits and has received every
-- status has returned.
pub connected-returns :
    (rs : List Round) (m : Connection)
    → run rs (continues fresh) ≡ continues m
    → m.status ≡ Status.connected
    → client_start true (statuses m.effects) ≡ true
unfolding client_start IsLawful
connected-returns rs m e c =
    let live : IsLive m = subst IsLawful e (run-fresh-IsLawful rs) in
    ground (arith, start-after Status.ready m.effects (live.path.at ∙ c))

-- From a manager that is not offline, once its run has ended: what it did since is the later part of
-- its effects, and `start` and `stop` of a client that waits, subscribed then and has received every
-- status since have both returned.
pub ended-returns :
    (rs rs' : List Round) (m m' : Connection)
    → run rs (continues fresh) ≡ continues m
    → m.status ≢ Status.offline
    → run rs' (continues m) ≡ ended m'
    → (later : List Effect) × (m'.effects ≡ m.effects ++ later)
      × (client_start true (statuses later) ≡ true)
      × ((client_stop true (statuses later)).1 ≡ true)
unfolding client_start client_stop manager_stop IsLawful
ended-returns rs rs' m m' e here e' =
    let live : IsLive m = subst IsLawful e (run-fresh-IsLawful rs) in
    let path : IsPath m'.effects Status.offline =
      subst IsLawful e' (run-IsLawful rs' (continues m) live) in
    let (later, q) : Adds m.effects (ended m') =
      subst (Adds m.effects) e'
        (run-Adds rs' m.effects (continues m) ([], sym (append-nil m.effects))) in
    let at : after m.status later ≡ Status.offline =
      ap (λ s. after s later) (sym live.path.at)
      ∙ sym (after-append Status.ready m.effects later)
      ∙ ap (after Status.ready) (sym q)
      ∙ path.at in
    (
      later,
      q,
      ground (arith, here, start-offline m.status later at),
      ground (arith, here, stop-after m.status later at),
    )
