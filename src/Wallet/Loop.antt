-- ===== src/Wallet/Loop.antt =====
-- From the websocket to the trackers: what the wallet's event loop makes of what the message loop
-- broadcasts.
use mwck_rs.Prelude.{
  ℕ, ◌≡◌, ◌≢◌, refl, sym, ◌∙◌, ap, subst, true, false, some, List, [], ◌∷◌, ◌++◌, map, arith, ◌==◌,
  if◌then◌else◌, All, Bool-cases, Option-cases, inl, inr,
}
use mwck_rs.HashMap.{lookup}
use mwck_rs.HashMap.Laws.{lookup-insert}
use mwck_rs.Esplora.{Txid, ScriptBuf}
use mwck_rs.Event.{
  AddressEvent, event_spk, WebsocketEvent, ws_address_event, offline, ws_disconnected, connected,
  error,
}
use mwck_rs.Tracker.{Tracker, process_event}
use mwck_rs.Tracker.Queue.{apply_all, receive_all, with_loading, receive_all-loaded}
use mwck_rs.Tracker.Held.{lookup-apply_all}
use mwck_rs.Socket.Message.{Parser, Input, Reader, run}
use mwck_rs.Socket.Message.Applied.{events_for}
use mwck_rs.Socket.Message.Heard.{
  HasMaps, said_in_stream, heard, run-heard, last_told-heard, IsAddressEvent, heard-All,
}
use mwck_rs.Wallet.{Wallet, Api, handle_address_event, on_message, event_loop}
use mwck_rs.Wallet.Store.{IsSound, handle_address_event-IsSound}
use mwck_rs.Wallet.Routing.{own_ref, routed}
use mwck_rs.Wallet.Subscribed.{handle-addresses}

-- What an event does to the tracker of an address.
after_event :
    (e : AddressEvent) (w : Wallet) (spk : ScriptBuf) (ref : ℕ) (t : Tracker)
    → IsSound w
    → lookup spk w.addresses ≡ some ref
    → lookup ref w.trackers ≡ some t
    → lookup ref (handle_address_event e true w).trackers
      ≡ some (if event_spk e == spk then (process_event e true t).0 else t)
unfolding handle_address_event
after_event e w spk ref t s known held = elim (Bool-cases (event_spk e == spk)) [
  | inl same ↦
      let named : lookup (event_spk e) w.addresses ≡ some ref = ground arith in
      rw same (
        ap (λ v. lookup ref v.trackers) (routed e true w ref t named held)
        ∙ lookup-insert ref ref (process_event e true t).0 w.trackers
        ∙ ground arith)
  | inr apart ↦ elim (Option-cases (lookup (event_spk e) w.addresses)) [
    | inl unknown ↦ rw (apart, unknown, handle_address_event) held
    | inr (r, named) ↦
        let (u, at_r, _) = s.owned (event_spk e) r named in
        let differs : r ≢ ref = λ at.
          let same = own_ref w (event_spk e) spk ref s (named ∙ ap some at) known in
          ground (arith, same) in
        rw apart (
          ap (λ v. lookup ref v.trackers) (routed e true w r u named at_r)
          ∙ lookup-insert r ref (process_event e true u).0 w.trackers
          ∙ ground (arith, differs, held))
  ]
]

-- An event loop that receives address events goes on, and the tracker of an address receives those
-- for it.
event_loop-receives :
    {E : Type 0} (api : Api E) (es : List WebsocketEvent) (w : Wallet) (spk : ScriptBuf) (ref : ℕ)
    (t : Tracker)
    → All IsAddressEvent es
    → IsSound w
    → lookup spk w.addresses ≡ some ref
    → lookup ref w.trackers ≡ some t
    → (w' : Wallet) × (event_loop api (map some es) w ≡ (w', true))
      × IsSound w'
      × (lookup spk w'.addresses ≡ some ref)
      × (lookup ref w'.trackers ≡ some (receive_all (events_for spk es) t).0)
unfolding event_loop on_message events_for receive_all
event_loop-receives api [] w spk ref t a s known held = (w, refl, s, known, held)
event_loop-receives api (ws_address_event e ∷ es) w spk ref t a s known held =
    let t' = (if event_spk e == spk then (process_event e true t).0 else t) in
    let (w', runs, s', known', held') =
      event_loop-receives api es (handle_address_event e true w) spk ref t' a.1
        (handle_address_event-IsSound e true w s) (ap (lookup spk) (handle-addresses e w) ∙ known)
        (after_event e w spk ref t s known held) in
    (
      w',
      runs,
      s',
      known',
      held'
          ∙ ap some (elim (Bool-cases (event_spk e == spk)) [
            | inl named ↦ rw named refl
            | inr apart ↦ rw apart refl
          ]),
    )
event_loop-receives api (offline ∷ es) w spk ref t a s known held = absurd a.0
event_loop-receives api (ws_disconnected ∷ es) w spk ref t a s known held = absurd a.0
event_loop-receives api (connected ∷ es) w spk ref t a s known held = absurd a.0
event_loop-receives api (error ∷ es) w spk ref t a s known held = absurd a.0

-- Take a sound wallet and the tracker of a watched address that has loaded, and let a message
-- loop that has broadcast nothing yet run over any stream, of texts, other messages and errors,
-- where the parser gives payloads with at most one entry for an address. If the wallet's event
-- loop receives what the message loop broadcasts, in order, it goes on, the wallet stays sound
-- and watches the address with the same tracker, and that holds under each txid what the texts
-- before the disconnect signal say of it, one after the other, or else what it held before.
pub event_loop-run :
    {E : Type 0} (api : Api E) (from_str : Parser)
    → HasMaps from_str
    → (is : List Input) (m : Reader) → m.is_running ≡ true
    → m.sent ≡ []
    → (w : Wallet) (spk : ScriptBuf) (ref : ℕ) (t : Tracker) → IsSound w
    → lookup spk w.addresses ≡ some ref
    → lookup ref w.trackers ≡ some t
    → t.loading ≡ false
    → (w' : Wallet) × (t' : Tracker) × (event_loop api (map some (run from_str is m).sent) w
        ≡ (w', true))
      × IsSound w'
      × (lookup spk w'.addresses ≡ some ref)
      × (lookup ref w'.trackers ≡ some t')
      × ((j : Txid)
          → lookup j t'.transactions ≡ said_in_stream j spk from_str is (lookup j t.transactions))
event_loop-run api from_str u is m running unsent w spk ref t s known held loaded =
    let sent : (run from_str is m).sent ≡ heard from_str is =
      run-heard from_str is m running ∙ ap (λ es. es ++ heard from_str is) unsent in
    let es = events_for spk (heard from_str is) in
    let (w', runs, s', known', held') =
      event_loop-receives api (heard from_str is) w spk ref t (heard-All from_str is) s known
        held in
    let applied : receive_all es t ≡ apply_all es t =
      subst (λ u. receive_all es u ≡ apply_all es u) (ap (λ l. with_loading l t) (sym loaded))
        (receive_all-loaded es t) in
    (
      w',
      (receive_all es t).0,
      ap (λ es. event_loop api (map some es) w) sent ∙ runs,
      s',
      known',
      held',
      λ j.
          ap (λ (r : Tracker × List _). lookup j r.0.transactions) applied
          ∙ lookup-apply_all es t j
          ∙ last_told-heard from_str u is spk j (lookup j t.transactions),
    )
