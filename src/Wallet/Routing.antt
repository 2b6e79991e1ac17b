-- ===== src/Wallet/Routing.antt =====
-- Which tracker an address event reaches.
use mwck_rs.Prelude.{
  ℕ, ◌≡◌, refl, sym, ◌∙◌, ap, ◌≢◌, Bool, true, inl, inr, some, List, ◌++◌, arith, ◌==◌, any,
  Option-cases,
}
use mwck_rs.HashMap.{lookup, insert}
use mwck_rs.HashMap.Laws.{lookup-insert}
use mwck_rs.Esplora.{ScriptBuf}
use mwck_rs.Event.{AddressEvent, WalletEvent, event_spk}
use mwck_rs.Tracker.{Tracker, get_state, process_event}
use mwck_rs.Wallet.{Wallet, on_tracker, handle_address_event, get_address_state, unwatch}
use mwck_rs.Wallet.Store.{IsSound, lookup-remove_addresses}

-- Once an address is unwatched, its events change nothing and send nothing.
pub handle_address_event-unwatch :
    (e : AddressEvent) (realtime : Bool) (spks : List ScriptBuf) (w : Wallet)
    → any (λ spk. spk == event_spk e) spks ≡ true
    → handle_address_event e realtime (unwatch spks w) ≡ unwatch spks w
unfolding handle_address_event unwatch
handle_address_event-unwatch e realtime spks w h =
    rw (lookup-remove_addresses spks w.addresses (event_spk e), handle_address_event, h)

pub own_ref :
    (w : Wallet) (k j : ScriptBuf) (ref : ℕ)
    → IsSound w
    → lookup k w.addresses ≡ some ref
    → lookup j w.addresses ≡ some ref
    → k ≡ j
own_ref w k j ref s e f =
    let (t, a, b) = s.owned k ref e in
    let (u, c, d) = s.owned j ref f in
    let same : t ≡ u = cc (a, c) in sym b ∙ ap (λ (x : Tracker). x.scriptpubkey) same ∙ d

pub get_address_state-at :
    (k : ScriptBuf) (w : Wallet) (ref : ℕ) (t : Tracker)
    → lookup k w.addresses ≡ some ref
    → lookup ref w.trackers ≡ some t
    → get_address_state k w ≡ some (get_state t)
unfolding get_address_state
get_address_state-at k w ref t e f = rw (e, get_address_state, f, get_address_state)

pub routed :
    (e : AddressEvent) (realtime : Bool) (w : Wallet) (ref : ℕ) (t : Tracker)
    → lookup (event_spk e) w.addresses ≡ some ref
    → lookup ref w.trackers ≡ some t
    → handle_address_event e realtime w ≡ record w {
      trackers = insert ref (process_event e realtime t).0 w.trackers;
      sent = w.sent ++ (process_event e realtime t).1;
    }
unfolding handle_address_event on_tracker
routed e realtime w ref t known held = rw (known, handle_address_event, held, on_tracker)

others :
    (k : ScriptBuf) (w : Wallet) (ref : ℕ) (t : Tracker) (sent : List WalletEvent)
    → ((r : ℕ) → lookup k w.addresses ≡ some r → r ≢ ref)
    → get_address_state k (record w { trackers = insert ref t w.trackers; sent = sent })
      ≡ get_address_state k w
unfolding get_address_state
others k w ref t sent h = elim (Option-cases (lookup k w.addresses)) [
  | inl e ↦ rw (e, get_address_state)
  | inr (r, e) ↦
      let same : lookup r (insert ref t w.trackers) ≡ lookup r w.trackers =
        lookup-insert ref r t w.trackers ∙ ground (arith, h r e) in
      rw (e, get_address_state, same, get_address_state)
]

-- In a sound wallet an event reaches the tracker of the address that it names, and no other: that
-- tracker processes it, what it sends is broadcast, and every other address shows the state that
-- it showed before.
pub handle_address_event_lem :
    (e : AddressEvent) (realtime : Bool) (w : Wallet) (ref : ℕ) (t : Tracker)
    → IsSound w
    → lookup (event_spk e) w.addresses ≡ some ref
    → lookup ref w.trackers ≡ some t
    → let w' = handle_address_event e realtime w in
      (get_address_state (event_spk e) w' ≡ some (get_state (process_event e realtime t).0))
      × (w'.sent ≡ w.sent ++ (process_event e realtime t).1)
      × ((k : ScriptBuf) → k ≢ event_spk e → get_address_state k w' ≡ get_address_state k w)
handle_address_event_lem e realtime w ref t s known held =
    rw (routed e realtime w ref t known held) (
      get_address_state-at (event_spk e) _ ref _ known
          (lookup-insert ref ref (process_event e realtime t).0 w.trackers ∙ ground arith),
      refl,
      λ k ne.
          others k w ref _ _
            (λ r f same. ne (own_ref w k (event_spk e) ref s (rw same at f) known)),
    )
