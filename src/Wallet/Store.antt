-- ===== src/Wallet/Store.antt =====
-- The store of trackers behind the map of addresses, and what every atomic step keeps of it.
use mwck_rs.Prelude.{
  ℕ, ◌+◌, ◌≤◌, ◌≡◌, refl, ◌∙◌, subst, Bool, true, false, inl, inr, none, some, List, [], ◌∷◌, ◌++◌,
  arith, ◌==◌, if◌then◌else◌, any, Bool-cases, Option-cases,
}
use mwck_rs.HashMap.{Map, lookup, insert, remove, contains_key, IsUnique}
use mwck_rs.HashMap.Laws.{lookup-insert, lookup-remove, insert-IsUnique, remove-IsUnique}
use mwck_rs.Esplora.{ScriptBuf, Tx}
use mwck_rs.Event.{AddressEvent, event_spk}
use mwck_rs.Api.{Result, ok, err}
use mwck_rs.Tracker.{Tracker, Sends, new, get_state, process_event}
use mwck_rs.Tracker.Ledger.{IsBalanced, new-IsBalanced}
use mwck_rs.Tracker.Runs.{
  with-IsBalanced, apply_all-IsBalanced, apply_all-scriptpubkey, process_event-IsBalanced,
  process_event-scriptpubkey,
}
use mwck_rs.Wallet.Sync.{Fetch, sync_tracker}
use mwck_rs.Wallet.Sync.Events.{synced, sync_events, sync_tracker-synced}
use mwck_rs.Wallet.{
  Wallet, Api, new_wallet, on_tracker, sync_address_history, handle_address_event, insert_new,
  sync_all, remove_addresses, unwatch,
}

-- An address stands in the map once. Each has a tracker of its own script, references from `next_ref` on are free, and every
-- tracker is balanced, those that no address refers to any more included.
pub record IsSound (w : Wallet) : Type 0 where
  pub owned :
      (spk : ScriptBuf) (ref : ℕ)
      → lookup spk w.addresses ≡ some ref
      → (t : Tracker) × (lookup ref w.trackers ≡ some t) × (t.scriptpubkey ≡ spk)
  pub unique : IsUnique w.addresses
  pub fresh : (ref : ℕ) → w.next_ref ≤ ref → lookup ref w.trackers ≡ none
  pub balanced : (ref : ℕ) (t : Tracker) → lookup ref w.trackers ≡ some t → IsBalanced t

pub new_wallet-IsSound : IsSound new_wallet
unfolding new_wallet
new_wallet-IsSound = record {
  owned = λ spk ref e. cc;
  unique = tt;
  fresh = λ ref h. refl;
  balanced = λ ref t e. cc;
}

-- A call on a tracker that keeps its script and its balance.
abbrev pub Keeps : (Tracker → Sends) → Type 0
Keeps f =
    (t : Tracker) → IsBalanced t → IsBalanced (f t).0 × ((f t).0.scriptpubkey ≡ t.scriptpubkey)

process_event-Keeps : (e : AddressEvent) (realtime : Bool) → Keeps (process_event e realtime)
process_event-Keeps e realtime t b =
    (process_event-IsBalanced e realtime t b, process_event-scriptpubkey e realtime t)

synced-Keeps :
    {E : Type 0} (spk : ScriptBuf) (t : Tracker) (o : Result E (List Tx))
    → IsBalanced t
    → IsBalanced (synced spk t o).0.0 × ((synced spk t o).0.0.scriptpubkey ≡ t.scriptpubkey)
synced-Keeps spk t (err e) b = (with-IsBalanced t.queue true t b, refl)
synced-Keeps spk t (ok fetched) b =
    let es = sync_events spk (get_state t) fetched ++ t.queue in
    (with-IsBalanced [] false _ (apply_all-IsBalanced es t b), apply_all-scriptpubkey es t)

pub sync-Keeps :
    {E : Type 0} (fetch : Fetch E) (spk : ScriptBuf) → Keeps (λ t. (sync_tracker fetch spk t).0)
sync-Keeps fetch spk t b = rw (sync_tracker-synced fetch spk t) (synced-Keeps spk t _ b)

-- A write of the store at a reference that is taken.
write-IsSound :
    (w : Wallet) (ref : ℕ) (t t' : Tracker) (sent : List _)
    → IsSound w
    → lookup ref w.trackers ≡ some t
    → IsBalanced t'
    → t'.scriptpubkey ≡ t.scriptpubkey
    → IsSound (record w { trackers = insert ref t' w.trackers; sent = sent })
write-IsSound w ref t t' sent s e b k = record {
  owned = λ spk r a.
      let (u, f, g) = s.owned spk r a in
      elim (Bool-cases (ref == r)) [
        | inl same ↦ (t', lookup-insert ref r t' w.trackers ∙ ground arith, ground arith)
        | inr other ↦ (u, lookup-insert ref r t' w.trackers ∙ ground arith, g)
      ];
  unique = s.unique;
  fresh = λ r h. lookup-insert ref r t' w.trackers ∙ ground (arith, s.fresh r h);
  balanced = λ r u a. elim (Bool-cases (ref == r)) [
    | inl same ↦ subst IsBalanced (ground (arith, lookup-insert ref r t' w.trackers)) b
    | inr other ↦ s.balanced r u (ground (arith, lookup-insert ref r t' w.trackers))
  ];
}

on_tracker-IsSound :
    (f : Tracker → Sends) (ref : ℕ) (w : Wallet)
    → Keeps f
    → IsSound w
    → IsSound (on_tracker ref f w)
unfolding on_tracker
on_tracker-IsSound f ref w k s = elim (Option-cases (lookup ref w.trackers)) [
  | inl e ↦ rw (e, on_tracker) s
  | inr (t, e) ↦
      let (b, same) = k t (s.balanced ref t e) in
      rw (e, on_tracker) (write-IsSound w ref t (f t).0 (w.sent ++ (f t).1) s e b same)
]

pub sync_address_history-IsSound :
    {E : Type 0} (api : Api E) (spk : ScriptBuf) (ref : ℕ) (w : Wallet)
    → IsSound w
    → IsSound (sync_address_history api spk ref w)
unfolding sync_address_history
sync_address_history-IsSound api spk ref w = on_tracker-IsSound _ ref w (sync-Keeps (api spk) spk)

pub handle_address_event-IsSound :
    (e : AddressEvent) (realtime : Bool) (w : Wallet)
    → IsSound w
    → IsSound (handle_address_event e realtime w)
unfolding handle_address_event
handle_address_event-IsSound e realtime w s =
    elim (Option-cases (lookup (event_spk e) w.addresses)) [
      | inl unknown ↦ rw (unknown, handle_address_event) s
      | inr (ref, known) ↦
          rw (known, handle_address_event)
            (on_tracker-IsSound _ ref w (process_event-Keeps e realtime) s)
    ]

-- A new address, with a new tracker at the next reference.
abbrev pub with_new : ScriptBuf → Wallet → Wallet
with_new spk w = record w {
  addresses = insert spk w.next_ref w.addresses;
  trackers = insert w.next_ref (new spk) w.trackers;
  next_ref = w.next_ref + 1;
}

new-scriptpubkey : (spk : ScriptBuf) → (new spk).scriptpubkey ≡ spk
unfolding new
new-scriptpubkey spk = refl

pub with_new-IsSound : (spk : ScriptBuf) (w : Wallet) → IsSound w → IsSound (with_new spk w)
with_new-IsSound spk w s = record {
  owned = λ k r a. elim (Bool-cases (spk == k)) [
    | inl same ↦ (
      new spk,
      lookup-insert w.next_ref r (new spk) w.trackers
          ∙ ground (arith, lookup-insert spk k w.next_ref w.addresses),
      new-scriptpubkey spk ∙ ground arith,
    )
    | inr other ↦
        let old : lookup k w.addresses ≡ some r =
          ground (arith, lookup-insert spk k w.next_ref w.addresses) in
        let (u, f, g) = s.owned k r old in
        (u, lookup-insert w.next_ref r (new spk) w.trackers ∙ ground (arith, s.fresh r), g)
  ];
  unique = insert-IsUnique spk w.next_ref w.addresses s.unique;
  fresh = λ r h. lookup-insert w.next_ref r (new spk) w.trackers ∙ ground (arith, s.fresh r);
  balanced = λ r u a. elim (Bool-cases (w.next_ref == r)) [
    | inl same ↦
        subst IsBalanced (ground (arith, lookup-insert w.next_ref r (new spk) w.trackers))
          (new-IsBalanced spk)
    | inr other ↦ s.balanced r u (ground (arith, lookup-insert w.next_ref r (new spk) w.trackers))
  ];
}

pub insert_new-IsSound :
    (spks : List ScriptBuf) (newly : Map ℕ) (w : Wallet)
    → IsSound w
    → IsSound (insert_new spks newly w).0
unfolding insert_new
insert_new-IsSound [] newly w s = s
insert_new-IsSound (spk ∷ spks) newly w s = elim (Bool-cases (contains_key spk w.addresses)) [
  | inl known ↦ rw known (insert_new-IsSound spks newly w s)
  | inr unknown ↦ rw unknown (
      insert_new-IsSound spks (insert spk w.next_ref newly) (with_new spk w)
        (with_new-IsSound spk w s))
]

pub sync_all-IsSound :
    {E : Type 0} (api : Api E) (refs : Map ℕ) (w : Wallet)
    → IsSound w
    → IsSound (sync_all api refs w)
unfolding sync_all
sync_all-IsSound api [] w s = s
sync_all-IsSound api ((spk, ref) ∷ refs) w s =
    sync_all-IsSound api refs _ (sync_address_history-IsSound api spk ref w s)

pub lookup-remove_addresses :
    (spks : List ScriptBuf) (m : Map ℕ) (k : ScriptBuf)
    → lookup k (remove_addresses spks m) ≡ (if any (λ spk. spk == k) spks then none else lookup k m)
unfolding remove_addresses
lookup-remove_addresses [] m k = refl
lookup-remove_addresses (spk ∷ spks) m k =
    lookup-remove_addresses spks (remove spk m) k ∙ ground (arith, lookup-remove spk k m)

remove_addresses-IsUnique :
    (spks : List ScriptBuf) (m : Map ℕ) → IsUnique m → IsUnique (remove_addresses spks m)
unfolding remove_addresses
remove_addresses-IsUnique [] m u = u
remove_addresses-IsUnique (spk ∷ spks) m u =
    remove_addresses-IsUnique spks (remove spk m) (remove-IsUnique spk m u)

pub unwatch-IsSound : (spks : List ScriptBuf) (w : Wallet) → IsSound w → IsSound (unwatch spks w)
unfolding unwatch
unwatch-IsSound spks w s = record {
  owned = λ k r a. s.owned k r (ground (arith, lookup-remove_addresses spks w.addresses k));
  unique = remove_addresses-IsUnique spks w.addresses s.unique;
  fresh = s.fresh;
  balanced = s.balanced;
}
