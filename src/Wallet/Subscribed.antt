-- ===== src/Wallet/Subscribed.antt =====
-- The wallet's control events against the control loop that takes them: the server's subscription
-- and the watched addresses.
use mwck_rs.Prelude.{
  ℕ, ◌≡◌, refl, sym, ◌∙◌, ap, true, not, ◌&&◌, ◌||◌, List, [], ◌∷◌, ◌++◌, map, arith, Bool-cases,
  Option-cases, inl, inr,
}
use mwck_rs.HashMap.{Map, lookup, contains_key, keys, insert}
use mwck_rs.HashMap.Laws.{lookup-insert}
use mwck_rs.Esplora.{ScriptBuf}
use mwck_rs.Event.{AddressEvent, ControlEvent, event_spk}
use mwck_rs.Tracker.{Tracker, Sends}
use mwck_rs.Socket.Control.{Manager, start, contains, handle, control, run}
use mwck_rs.Socket.Control.Subscription.{subscribed, run-start-IsInSync}
use mwck_rs.Socket.Control.Membership.{
  obey, obey-append, obey-is_running, run-obey, handle-subscribe, handle-unsubscribe,
}
use mwck_rs.Wallet.{
  Wallet, Api, track_scriptpubkeys, on_tracker, sync_address_history, handle_address_event,
  insert_new, sync_all, watch_start, unwatch, init_addresses,
}
use mwck_rs.Wallet.Store.{lookup-remove_addresses, with_new}
use mwck_rs.Wallet.Watched.{insert_known, insert_unknown, sync_all-addresses}
use mwck_rs.Wallet.Watch.{watch_start-addresses}

-- What a client and the server make the wallet do while a connection lasts.
pub data Call : Type 0 where
  watches unwatches : List ScriptBuf → Call
  receives : AddressEvent → Call

unfoldable pub call : {E : Type 0} → Api E → Call → Wallet → Wallet
call api (watches spks) w = watch_start api spks w
call api (unwatches spks) w = unwatch spks w
call api (receives event) w = handle_address_event event true w

unfoldable pub calls : {E : Type 0} → Api E → List Call → Wallet → Wallet
calls api [] w = w
calls api (c ∷ cs) w = calls api cs (call api c w)

-- The control loop of a connection after these control events, if its socket accepts all.
abbrev pub loop_after : List ControlEvent → Manager
loop_after es = run (map (control true) es) start

on_tracker-controls :
    (ref : ℕ) (f : Tracker → Sends) (w : Wallet) → (on_tracker ref f w).controls ≡ w.controls
unfolding on_tracker
on_tracker-controls ref f w = elim (Option-cases (lookup ref w.trackers)) [
  | inl e ↦ rw (e, on_tracker)
  | inr (t, e) ↦ rw (e, on_tracker)
]

on_tracker-addresses :
    (ref : ℕ) (f : Tracker → Sends) (w : Wallet) → (on_tracker ref f w).addresses ≡ w.addresses
unfolding on_tracker
on_tracker-addresses ref f w = elim (Option-cases (lookup ref w.trackers)) [
  | inl e ↦ rw (e, on_tracker)
  | inr (t, e) ↦ rw (e, on_tracker)
]

pub sync_all-controls :
    {E : Type 0} (api : Api E) (refs : Map ℕ) (w : Wallet)
    → (sync_all api refs w).controls ≡ w.controls
unfolding sync_all sync_address_history
sync_all-controls api [] w = refl
sync_all-controls api ((spk, ref) ∷ refs) w =
    sync_all-controls api refs (sync_address_history api spk ref w) ∙ on_tracker-controls ref _ w

insert_new-controls :
    (spks : List ScriptBuf) (newly : Map ℕ) (w : Wallet)
    → (insert_new spks newly w).0.controls ≡ w.controls
unfolding insert_new
insert_new-controls [] newly w = refl
insert_new-controls (spk ∷ spks) newly w = elim (Bool-cases (contains_key spk w.addresses)) [
  | inl h ↦
      ap (λ r. r.0.controls) (insert_known spk spks newly w h) ∙ insert_new-controls spks newly w
  | inr h ↦
      ap (λ r. r.0.controls) (insert_unknown spk spks newly w h)
      ∙ insert_new-controls spks (insert spk w.next_ref newly) (with_new spk w)
]

insert_new-contains :
    (k : ScriptBuf) (spks : List ScriptBuf) (newly : Map ℕ) (w : Wallet)
    → contains_key k (insert_new spks newly w).0.addresses
      ≡ (contains_key k w.addresses || contains k spks)
unfolding insert_new
insert_new-contains k [] newly w = ground arith
insert_new-contains k (spk ∷ spks) newly w = elim (Bool-cases (contains_key spk w.addresses)) [
  | inl h ↦
      ap (λ r. contains_key k r.0.addresses) (insert_known spk spks newly w h)
      ∙ insert_new-contains k spks newly w
      ∙ ground arith
  | inr h ↦
      ap (λ r. contains_key k r.0.addresses) (insert_unknown spk spks newly w h)
      ∙ insert_new-contains k spks (insert spk w.next_ref newly) (with_new spk w)
      ∙ ground (arith, lookup-insert spk k w.next_ref w.addresses)
]

handle-controls :
    (e : AddressEvent) (w : Wallet) → (handle_address_event e true w).controls ≡ w.controls
unfolding handle_address_event
handle-controls e w = elim (Option-cases (lookup (event_spk e) w.addresses)) [
  | inl h ↦ rw (h, handle_address_event)
  | inr (ref, h) ↦ rw (h, handle_address_event) (on_tracker-controls ref _ w)
]

pub handle-addresses :
    (e : AddressEvent) (w : Wallet) → (handle_address_event e true w).addresses ≡ w.addresses
unfolding handle_address_event
handle-addresses e w = elim (Option-cases (lookup (event_spk e) w.addresses)) [
  | inl h ↦ rw (h, handle_address_event)
  | inr (ref, h) ↦ rw (h, handle_address_event) (on_tracker-addresses ref _ w)
]

contains-keys : (k : ScriptBuf) (m : Map ℕ) → contains k (keys m) ≡ contains_key k m
contains-keys k [] = refl
contains-keys k ((j, r) ∷ m) = ground (arith, contains-keys k m)

-- The control loop has the watched addresses as its active scriptpubkeys.
abbrev Agrees : Wallet → Type 0
Agrees w =
    (k : ScriptBuf) → contains k (obey w.controls start).active_spks ≡ contains_key k w.addresses

obey-snoc :
    (es : List ControlEvent) (e : ControlEvent)
    → obey (es ++ e ∷ []) start ≡ handle true e (obey es start)
unfolding obey
obey-snoc es e = obey-append es (e ∷ []) start

watch_start-controls :
    {E : Type 0} (api : Api E) (spks : List ScriptBuf) (w : Wallet)
    → (watch_start api spks w).controls ≡ w.controls ++ ControlEvent.subscribe spks ∷ []
unfolding watch_start
watch_start-controls api spks w =
    sync_all-controls api _ _ ∙ insert_new-controls spks [] (track_scriptpubkeys spks w)

call-Agrees : {E : Type 0} (api : Api E) (c : Call) (w : Wallet) → Agrees w → Agrees (call api c w)
unfolding call unwatch
call-Agrees api (watches spks) w a k =
    ap (λ es. contains k (obey es start).active_spks) (watch_start-controls api spks w)
    ∙ ap (λ m. contains k m.active_spks) (obey-snoc w.controls (ControlEvent.subscribe spks))
    ∙ handle-subscribe k spks (obey w.controls start)
    ∙ ap (λ b. b || contains k spks) (a k)
    ∙ sym (
        ap (contains_key k) (watch_start-addresses api spks w)
        ∙ insert_new-contains k spks [] (track_scriptpubkeys spks w))
call-Agrees api (unwatches spks) w a k =
    ap (λ m. contains k m.active_spks) (obey-snoc w.controls (ControlEvent.unsubscribe spks))
    ∙ handle-unsubscribe k spks (obey w.controls start)
    ∙ ap (λ b. b && not (contains k spks)) (a k)
    ∙ ground (arith, lookup-remove_addresses spks w.addresses k)
call-Agrees api (receives e) w a k =
    ap (λ es. contains k (obey es start).active_spks) (handle-controls e w)
    ∙ a k
    ∙ ap (contains_key k) (sym (handle-addresses e w))

calls-Agrees :
    {E : Type 0} (api : Api E) (cs : List Call) (w : Wallet) → Agrees w → Agrees (calls api cs w)
unfolding calls
calls-Agrees api [] w a = a
calls-Agrees api (c ∷ cs) w a = calls-Agrees api cs (call api c w) (call-Agrees api c w a)

init_addresses-Agrees :
    {E : Type 0} (api : Api E) (w : Wallet)
    → Agrees (init_addresses api (record w { controls = [] }))
unfolding init_addresses obey start
init_addresses-Agrees api w k =
    ap (λ es. contains k (obey es start).active_spks) (sync_all-controls api w.addresses _)
    ∙ handle-subscribe k (keys w.addresses) start
    ∙ contains-keys k w.addresses
    ∙ ap (contains_key k) (sym (sync_all-addresses api w.addresses _))

start-is_running : start.is_running ≡ true
unfolding start
start-is_running = refl

subscribed-loop_after :
    (es : List ControlEvent) → subscribed [] (loop_after es).frames ≡ (obey es start).active_spks
subscribed-loop_after es =
    let r = run-obey es start start-is_running in
    (run-start-IsInSync (map (control true) es)).synced
      (ap (λ m. m.is_running) r ∙ obey-is_running es start ∙ start-is_running)
    ∙ ap (λ m. m.active_spks) r

-- When a wallet answers a new connection and then calls of `watch` and `unwatch` and events follow,
-- one after the other, the control loop of that connection, whose socket accepts what is written,
-- has the server subscribed to exactly the addresses that the wallet watches. The wallet is taken
-- with the control events since the connection.
pub calls-subscribed :
    {E : Type 0} (api : Api E) (cs : List Call) (w : Wallet) (k : ScriptBuf)
    → contains k (
        subscribed []
          (loop_after
            (calls api cs (init_addresses api (record w { controls = [] }))).controls).frames)
      ≡ contains_key k (calls api cs (init_addresses api (record w { controls = [] }))).addresses
calls-subscribed api cs w k =
    ap (contains k) (subscribed-loop_after _)
    ∙ calls-Agrees api cs (init_addresses api (record w { controls = [] }))
        (init_addresses-Agrees api w) k
