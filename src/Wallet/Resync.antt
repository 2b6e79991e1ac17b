-- ===== src/Wallet/Resync.antt =====
-- What a new connection does to the trackers: `init_addresses` syncs each once.
use mwck_rs.Prelude.{
  ℕ, ◌≡◌, ◌≢◌, refl, sym, subst, ◌∙◌, ap, false, inl, inr, some, none, List, [], ◌∷◌, ◌++◌, arith,
  ◌==◌, if◌then◌else◌, All, Bool-cases, Option-cases,
}
use mwck_rs.HashMap.{Map, lookup, keys, values, IsUnique}
use mwck_rs.HashMap.Laws.{lookup-insert}
use mwck_rs.Esplora.{ScriptBuf, Txid, Tx, IsWellDated}
use mwck_rs.Event.{ControlEvent, WebsocketEvent}
use mwck_rs.Api.{ok}
use mwck_rs.Tracker.{Tracker, Sends}
use mwck_rs.Tracker.Held.{last_told}
use mwck_rs.Wallet.Sync.{sync_tracker, is_fetched}
use mwck_rs.Wallet.Sync.Held.{last_asked, last_copy, if_confirmed, lookup-sync_tracker}
use mwck_rs.Wallet.{
  Wallet, Api, track_scriptpubkeys, on_tracker, sync_address_history, sync_all, init_addresses,
  on_message,
}
use mwck_rs.Wallet.Store.{IsSound, sync_all-IsSound}
use mwck_rs.Wallet.Watched.{sync_all-addresses}
use mwck_rs.Wallet.Watch.{track-IsSound}
use mwck_rs.Wallet.Routing.{own_ref}
use mwck_rs.Wallet.Subscribed.{sync_all-controls}
use mwck_rs.Wallet.Sync.Events.{synced, sync_tracker-synced}

pub on_tracker-at :
    (ref : ℕ) (f : Tracker → Sends) (w : Wallet) (t : Tracker)
    → lookup ref w.trackers ≡ some t
    → lookup ref (on_tracker ref f w).trackers ≡ some (f t).0
unfolding on_tracker
on_tracker-at ref f w t e =
    rw (e, on_tracker) (lookup-insert ref ref (f t).0 w.trackers ∙ ground arith)

pub on_tracker-other :
    (ref r : ℕ) (f : Tracker → Sends) (w : Wallet)
    → ref ≢ r
    → lookup r (on_tracker ref f w).trackers ≡ lookup r w.trackers
unfolding on_tracker
on_tracker-other ref r f w h = elim (Option-cases (lookup ref w.trackers)) [
  | inl e ↦ rw (e, on_tracker)
  | inr (t, e) ↦ rw (e, on_tracker) (lookup-insert ref r (f t).0 w.trackers ∙ ground (arith, h))
]

-- No two addresses have the same reference.
abbrev pub HaveOwnRefs : Map ℕ → Type 0
HaveOwnRefs refs =
    (k j : ScriptBuf) (r : ℕ) → lookup k refs ≡ some r → lookup j refs ≡ some r → k ≡ j

lookup-tail :
    (k r : ℕ) (refs : Map ℕ) (j x : ℕ)
    → lookup k refs ≡ none
    → lookup j refs ≡ some x
    → lookup j ((k, r) ∷ refs) ≡ some x
lookup-tail k r refs j x u e = elim (Bool-cases (k == j)) [
  | inl same ↦ let q : k ≡ j = ground (arith, same) in cc (sym u ∙ ap (λ i. lookup i refs) q ∙ e)
  | inr apart ↦ rw apart e
]

some_inj : (a b : ℕ) → some a ≡ some b → a ≡ b
some_inj a b e = ap (λ o. elim o [ none ↦ a | some x ↦ x ]) e

lookup-head : (k r : ℕ) (refs : Map ℕ) → lookup k ((k, r) ∷ refs) ≡ some r
lookup-head k r refs = ground arith

module _ {E : Type 0} (api : Api E) where
  pub sync_all-other :
      (refs : Map ℕ) (w : Wallet) (ref : ℕ)
      → IsUnique refs
      → ((j : ScriptBuf) → lookup j refs ≢ some ref)
      → lookup ref (sync_all api refs w).trackers ≡ lookup ref w.trackers
  unfolding sync_all sync_address_history
  sync_all-other [] w ref u h = refl
  sync_all-other ((k, r) ∷ refs) w ref u h =
      sync_all-other refs (sync_address_history api k r w) ref u.1
        (λ j e. h j (lookup-tail k r refs j ref u.0 e))
      ∙ on_tracker-other r ref _ w (λ e. h k (lookup-head k r refs ∙ ap some e))

  sync_first :
      (k r : ℕ) (refs : Map ℕ) (w : Wallet) (t : Tracker)
      → IsUnique ((k, r) ∷ refs)
      → HaveOwnRefs ((k, r) ∷ refs)
      → lookup r w.trackers ≡ some t
      → lookup r (sync_all api ((k, r) ∷ refs) w).trackers ≡ some (sync_tracker (api k) k t).0.0
  unfolding sync_all sync_address_history
  sync_first k r refs w t u own held =
      sync_all-other refs (sync_address_history api k r w) r u.1 (λ j e.
        let same : k ≡ j = own k j r (lookup-head k r refs) (lookup-tail k r refs j r u.0 e) in
        cc (sym u.0 ∙ ap (λ i. lookup i refs) same ∙ e))
      ∙ on_tracker-at r _ w t held

  -- Of addresses with references of their own, each tracker is synced once.
  pub sync_all-at :
      (refs : Map ℕ) (w : Wallet) (spk : ScriptBuf) (ref : ℕ) (t : Tracker)
      → IsUnique refs
      → HaveOwnRefs refs
      → lookup spk refs ≡ some ref
      → lookup ref w.trackers ≡ some t
      → lookup ref (sync_all api refs w).trackers ≡ some (sync_tracker (api spk) spk t).0.0
  unfolding sync_all sync_address_history
  sync_all-at [] w spk ref t u own known held = cc known
  sync_all-at ((k, r) ∷ refs) w spk ref t u own known held = elim (Bool-cases (k == spk)) [
    | inl same ↦
        let at : r ≡ ref =
          some_inj r ref
            (subst (λ b. (if b then some r else lookup spk refs) ≡ some ref) same known) in
        let named : k ≡ spk = ground (arith, same) in
        subst
          (λ i.
            lookup i (sync_all api ((k, r) ∷ refs) w).trackers
            ≡ some (sync_tracker (api spk) spk t).0.0)
          at
          (sync_first k r refs w t u own (ap (λ i. lookup i w.trackers) at ∙ held)
            ∙ ap (λ i. some (sync_tracker (api i) i t).0.0) named)
    | inr apart ↦
        sync_all-at refs (sync_address_history api k r w) spk ref t u.1
          (λ i j x a b. own i j x (lookup-tail k r refs i x u.0 a) (lookup-tail k r refs j x u.0 b))
          (subst (λ b. (if b then some r else lookup spk refs) ≡ some ref) apart known)
          (on_tracker-other r ref _ w (λ e.
              let same : k ≡ spk = own k spk ref (lookup-head k r refs ∙ ap some e) known in
              ground (arith, same, apart))
            ∙ held)
  ]

-- Take a sound wallet, a watched address whose tracker holds well dated
-- transactions, and let the fetch of its history succeed. When a connection is made, the wallet's
-- event loop goes on, asks that connection for all its addresses, stays sound and watches the address
-- with the same tracker, which has loaded and whose queue is empty: it holds a fetched transaction as
-- its last fetched copy, of the others the confirmed ones only, and the events that were queued apply
-- on top.
pub on_message-connected :
    {E : Type 0} (api : Api E) (w : Wallet) (spk : ScriptBuf) (ref : ℕ) (t : Tracker)
    (fetched : List Tx)
    → IsSound w
    → lookup spk w.addresses ≡ some ref
    → lookup ref w.trackers ≡ some t
    → All IsWellDated (values t.transactions)
    → last_asked (api spk) t ≡ ok fetched
    → (w' : Wallet) × (t' : Tracker) × (on_message api (some WebsocketEvent.connected) w ≡ some w')
      × IsSound w'
      × (w'.controls ≡ w.controls ++ ControlEvent.subscribe (keys w.addresses) ∷ [])
      × (lookup spk w'.addresses ≡ some ref)
      × (lookup ref w'.trackers ≡ some t')
      × (t'.loading ≡ false)
      × (t'.queue ≡ [])
      × ((j : Txid)
          → lookup j t'.transactions
            ≡ last_told j t.queue (
                if is_fetched fetched j
                then last_copy j fetched none
                else if_confirmed (lookup j t.transactions)))
unfolding on_message init_addresses
on_message-connected api w spk ref t fetched s known held dated got =
    let w1 = track_scriptpubkeys (keys w.addresses) w in
    let own : HaveOwnRefs w.addresses = λ k j r a b. own_ref w k j r s a b in
    let run = sync_tracker-synced (api spk) spk t ∙ ap (synced spk t) got in
    (
      init_addresses api w,
      (sync_tracker (api spk) spk t).0.0,
      refl,
      sync_all-IsSound api w.addresses w1 (track-IsSound (keys w.addresses) w s),
      sync_all-controls api w.addresses w1,
      ap (lookup spk) (sync_all-addresses api w.addresses w1) ∙ known,
      sync_all-at api w.addresses w1 spk ref t s.unique own known held,
      ap (λ r. r.0.0.loading) run,
      ap (λ r. r.0.0.queue) run,
      λ j. lookup-sync_tracker (api spk) spk t fetched j (s.balanced ref t held) dated got,
    )
