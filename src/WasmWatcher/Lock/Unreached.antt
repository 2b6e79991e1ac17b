-- ===== src/WasmWatcher/Lock/Unreached.antt =====
-- What the mutex does to a wallet whose server cannot be reached.
use mwck_rs.Prelude.{
  ℕ, ◌≡◌, refl, sym, ◌∙◌, ap, subst, Bool, true, false, ◌||◌, Option, none, some, List, [], ◌∷◌,
  ◌++◌, append_assoc, inl, inr, Option-cases, if◌then◌else◌,
}
use mwck_rs.Text.{Str}
use mwck_rs.Esplora.{ScriptBuf}
use mwck_rs.HashMap.{Map, lookup}
use mwck_rs.Event.{WebsocketEvent, AddressEvent, ws_address_event, event_spk}
use mwck_rs.Socket.Connection.{
  Status, Effect, status_sent, notified, slept, joined, signalled_exit, Connection, Round, fresh,
  continues, ended, panicked, Outcome, step, on_status, on_connecting, on_disconnected,
  join_threads, connect, update, emit,
}
use mwck_rs.Socket.Client.{start_returns, client_start}
use mwck_rs.Socket.Client.Waits.{statuses}
use mwck_rs.Wallet.{Wallet, Api, on_message, init_addresses, handle_address_event, on_tracker}
use mwck_rs.Tracker.{Tracker, Sends, process_event}
use mwck_rs.Wallet.Watched.{sync_all-addresses}
use mwck_rs.WasmWatcher.Lock.{
  connecting, Shared, Step, runs, hears, locks, connects, disconnects, tracks, subscribes, shows,
  Reach, here, next,
}

-- The server is not reached in this round.
abbrev pub IsUnreached : Round → Type 0
IsUnreached r = r.reaches ≡ false

start_returns-append :
    (es fs : List Effect)
    → start_returns (statuses (es ++ fs))
      ≡ (start_returns (statuses es) || start_returns (statuses fs))
unfolding statuses start_returns
start_returns-append [] fs = refl
start_returns-append (status_sent Status.connected ∷ es) fs = refl
start_returns-append (status_sent Status.offline ∷ es) fs = refl
start_returns-append (status_sent Status.ready ∷ es) fs = start_returns-append es fs
start_returns-append (status_sent Status.connecting ∷ es) fs = start_returns-append es fs
start_returns-append (status_sent Status.disconnected ∷ es) fs = start_returns-append es fs
start_returns-append (notified x ∷ es) fs = start_returns-append es fs
start_returns-append (slept n ∷ es) fs = start_returns-append es fs
start_returns-append (joined ∷ es) fs = start_returns-append es fs
start_returns-append (signalled_exit ∷ es) fs = start_returns-append es fs

-- The manager has no connection, and `start` has heard of none.
abbrev is_trying : Status → Bool
is_trying Status.ready = true
is_trying Status.connecting = true
is_trying Status.disconnected = true
is_trying Status.connected = false
is_trying Status.offline = false

record IsTrying (m : Connection) : Type 0 where
  trying : is_trying m.status ≡ true
  unheard : start_returns (statuses m.effects) ≡ false

fresh-IsTrying : IsTrying fresh
unfolding fresh start_returns statuses
fresh-IsTrying = record { trying = refl; unheard = refl }

-- Effects that `start` does not return on.
more :
    (m m' : Connection) (es : List Effect)
    → IsTrying m
    → is_trying m'.status ≡ true
    → m'.effects ≡ m.effects ++ es
    → start_returns (statuses es) ≡ false
    → IsTrying m'
more m m' es i h e q = record {
  trying = h;
  unheard =
      ap (λ l. start_returns (statuses l)) e
      ∙ start_returns-append m.effects es
      ∙ rw (i.unheard, q) refl;
}

-- A round that goes on goes on trying.
GoesOnTrying : Outcome → Type 0
GoesOnTrying (continues m) = IsTrying m
GoesOnTrying (ended m) = Unit
GoesOnTrying (panicked p) = Unit

either_way {κ} :
    {A : Type 0} (P : A → Type κ) (b : Bool) (x y : A) → P x → P y → P (if b then x else y)
either_way P true x y p q = p
either_way P false x y p q = q

ready_again : (m : Connection) → IsTrying m → IsTrying (on_disconnected m)
unfolding on_disconnected emit update start_returns statuses
ready_again m i =
    more m _ (notified WebsocketEvent.ws_disconnected ∷ slept 30000 ∷ status_sent Status.ready ∷ [])
      i refl (append_assoc m.effects _ _) refl

join_threads-IsTrying : (m : Connection) → IsTrying m → IsTrying (join_threads m)
unfolding join_threads emit start_returns statuses
join_threads-IsTrying m i =
    either_way IsTrying m.has_handles _ _ (more m _ (joined ∷ []) i i.trying refl refl) i

not_reached : (m : Connection) → IsTrying m → IsTrying (on_connecting false m)
unfolding on_connecting connect emit update start_returns statuses
not_reached m i =
    more m _ (notified WebsocketEvent.error ∷ status_sent Status.disconnected ∷ []) i refl
      (append_assoc m.effects _ _) refl

on_status-GoesOnTrying :
    (s : Status) (r : Round) (m : Connection)
    → IsUnreached r
    → m.status ≡ s
    → IsTrying m
    → GoesOnTrying (on_status s r m)
unfolding on_status GoesOnTrying update start_returns statuses
on_status-GoesOnTrying Status.ready r m u e i =
    more m _ (status_sent Status.connecting ∷ []) i refl refl refl
on_status-GoesOnTrying Status.connecting r m u e i = rw u (not_reached m i)
on_status-GoesOnTrying Status.disconnected r m u e i =
    let again = ready_again (join_threads m) (join_threads-IsTrying m i) in
    either_way GoesOnTrying m.has_handles _ _ (either_way GoesOnTrying r.joins _ _ again tt) again
on_status-GoesOnTrying Status.connected r m u e i = cc (sym (ap is_trying e) ∙ i.trying)
on_status-GoesOnTrying Status.offline r m u e i = cc (sym (ap is_trying e) ∙ i.trying)

step-GoesOnTrying :
    (r : Round) (m : Connection) → IsUnreached r → IsTrying m → GoesOnTrying (step r m)
unfolding step
step-GoesOnTrying r m u i = on_status-GoesOnTrying m.status r m u refl i

on_tracker-addresses :
    (ref : ℕ) (f : Tracker → Sends) (w : Wallet) → (on_tracker ref f w).addresses ≡ w.addresses
unfolding on_tracker
on_tracker-addresses ref f w = elim (Option-cases (lookup ref w.trackers)) [
  | inl e ↦ rw (e, on_tracker) refl
  | inr (t, e) ↦ rw (e, on_tracker) refl
]

some-addresses :
    (v w w' : Wallet) → v.addresses ≡ w.addresses → some v ≡ some w' → w'.addresses ≡ w.addresses
some-addresses v w w' e q = let same : v ≡ w' = cc q in ap (λ u. u.addresses) (sym same) ∙ e

handle-addresses :
    (event : AddressEvent) (w : Wallet)
    → (handle_address_event event true w).addresses ≡ w.addresses
unfolding handle_address_event
handle-addresses event w = elim (Option-cases (lookup (event_spk event) w.addresses)) [
  | inl e ↦ rw (e, handle_address_event) refl
  | inr (ref, e) ↦
      rw (e, handle_address_event) (on_tracker-addresses ref (process_event event true) w)
]

on_message-addresses :
    {E : Type 0} (api : Api E) (e : Option WebsocketEvent) (w w' : Wallet)
    → on_message api e w ≡ some w'
    → w'.addresses ≡ w.addresses
unfolding on_message init_addresses
on_message-addresses api none w w' q = cc q
on_message-addresses api (some WebsocketEvent.offline) w w' q = cc q
on_message-addresses api (some WebsocketEvent.ws_disconnected) w w' q = some-addresses _ w w' refl q
on_message-addresses api (some WebsocketEvent.connected) w w' q =
    some-addresses _ w w' (sync_all-addresses api w.addresses _) q
on_message-addresses api (some WebsocketEvent.error) w w' q = cc q
on_message-addresses api (some (ws_address_event event)) w w' q =
    some-addresses _ w w' (handle-addresses event w) q

-- A connect holds the mutex, the wallet watches these addresses, and the manager tries on.
record IsHeld (addresses : Map ℕ) (s : Shared) : Type 0 where
  held : s.holder ≡ some connecting
  from_start : s.since ≡ []
  watched : s.wallet.addresses ≡ addresses
  manager : IsTrying s.manager

module _ {E : Type 0} (api : Api E) (from_str : Str → Option ScriptBuf) where
  Step-IsHeld :
      (addresses : Map ℕ) {s s' : Shared}
      → Step api from_str IsUnreached s s'
      → IsHeld addresses s
      → IsHeld addresses s'
  unfolding client_start GoesOnTrying
  Step-IsHeld addresses {s = s} (runs r m u e) h = record {
    held = h.held;
    from_start = h.from_start;
    watched = h.watched;
    manager = subst GoesOnTrying e (step-GoesOnTrying r s.manager u h.manager);
  }
  Step-IsHeld addresses {s = s} (hears e w q) h = record {
    held = h.held;
    from_start = h.from_start;
    watched = on_message-addresses api e s.wallet w q ∙ h.watched;
    manager = h.manager;
  }
  Step-IsHeld addresses (locks task free k) h = cc (sym free ∙ h.held)
  Step-IsHeld addresses {s = s} (connects later k e returned) h =
      let all : s.manager.effects ≡ later = e ∙ ap (λ l. l ++ later) h.from_start in
      cc (sym returned ∙ ap (λ l. start_returns (statuses l)) (sym all) ∙ h.manager.unheard)
  Step-IsHeld addresses (disconnects later k e returned) h = cc (sym k ∙ h.held)
  Step-IsHeld addresses (tracks address k) h = cc (sym k ∙ h.held)
  Step-IsHeld addresses (subscribes k) h = cc (sym k ∙ h.held)
  Step-IsHeld addresses (shows k) h = cc (sym k ∙ h.held)

  Reach-IsHeld :
      (addresses : Map ℕ) {s s' : Shared}
      → Reach api from_str IsUnreached s s'
      → IsHeld addresses s
      → IsHeld addresses s'
  Reach-IsHeld addresses here h = h
  Reach-IsHeld addresses (next r st) h = Step-IsHeld addresses st (Reach-IsHeld addresses r h)

  -- From a `connect` that holds the mutex with a new manager: as long as the server is not reached,
  -- in every order of what happens, it holds the mutex and the wallet watches the addresses that it
  -- watched. So neither `disconnect` nor `track_address` gets the wallet, and no state is shown.
  pub Reach-connecting :
      (w : Wallet) (s : Shared)
      → Reach api from_str IsUnreached
          (record { holder = some connecting; wallet = w; since = []; manager = fresh })
          s
      → (s.holder ≡ some connecting) × (s.wallet.addresses ≡ w.addresses)
  Reach-connecting w s r =
      let h =
        Reach-IsHeld w.addresses r
          (record { held = refl; from_start = refl; watched = refl; manager = fresh-IsTrying }) in
      (h.held, h.watched)
