-- ===== src/Wallet/Watched.antt =====
-- Which addresses are watched, through `insert_new` and the syncs of `watch`.
use mwck_rs.Prelude.{
  ℕ, ◌≡◌, refl, sym, subst, ◌∙◌, true, false, inl, inr, some, List, [], ◌∷◌, arith, All, Bool-cases,
  Option-cases,
}
use mwck_rs.HashMap.{Map, lookup, insert, contains_key}
use mwck_rs.HashMap.Laws.{lookup-insert}
use mwck_rs.Esplora.{ScriptBuf}
use mwck_rs.Tracker.{State, get_state}
use mwck_rs.Wallet.{
  Wallet, Api, on_tracker, sync_address_history, insert_new, sync_all, get_address_state,
}
use mwck_rs.Wallet.Store.{IsSound, with_new}

abbrev pub IsWatched : Wallet → ScriptBuf → Type 0
IsWatched w spk = (ref : ℕ) × (lookup spk w.addresses ≡ some ref)

with_new-keeps :
    (spk k : ScriptBuf) (w : Wallet) (ref : ℕ)
    → contains_key spk w.addresses ≡ false
    → lookup k w.addresses ≡ some ref
    → lookup k (with_new spk w).addresses ≡ some ref
with_new-keeps spk k w ref c e = lookup-insert spk k w.next_ref w.addresses ∙ ground arith

insert_new-keeps :
    (spks : List ScriptBuf) (newly : Map ℕ) (k : ScriptBuf) (w : Wallet) (ref : ℕ)
    → lookup k w.addresses ≡ some ref
    → lookup k (insert_new spks newly w).0.addresses ≡ some ref
unfolding insert_new
insert_new-keeps [] newly k w ref e = e
insert_new-keeps (spk ∷ spks) newly k w ref e = elim (Bool-cases (contains_key spk w.addresses)) [
  | inl known ↦ rw known (insert_new-keeps spks newly k w ref e)
  | inr unknown ↦ rw unknown (
      insert_new-keeps spks (insert spk w.next_ref newly) k (with_new spk w) ref
        (with_new-keeps spk k w ref unknown e))
]

contained :
    (k : ScriptBuf) (m : Map ℕ) → contains_key k m ≡ true → (ref : ℕ) × (lookup k m ≡ some ref)
contained k m h = ground arith

pub insert_known :
    (spk : ScriptBuf) (spks : List ScriptBuf) (newly : Map ℕ) (w : Wallet)
    → contains_key spk w.addresses ≡ true
    → insert_new (spk ∷ spks) newly w ≡ insert_new spks newly w
unfolding insert_new
insert_known spk spks newly w h = rw h

pub insert_unknown :
    (spk : ScriptBuf) (spks : List ScriptBuf) (newly : Map ℕ) (w : Wallet)
    → contains_key spk w.addresses ≡ false
    → insert_new (spk ∷ spks) newly w
      ≡ insert_new spks (insert spk w.next_ref newly) (with_new spk w)
unfolding insert_new
insert_unknown spk spks newly w h = rw h

pub insert_new-IsWatched :
    (spks : List ScriptBuf) (newly : Map ℕ) (w : Wallet)
    → All (IsWatched (insert_new spks newly w).0) spks
insert_new-IsWatched [] newly w = tt
insert_new-IsWatched (spk ∷ spks) newly w = elim (Bool-cases (contains_key spk w.addresses)) [
  | inl known ↦
      let (ref, e) = contained spk w.addresses known in
      subst (λ (r : Wallet × Map ℕ). All (IsWatched r.0) (spk ∷ spks))
        (sym (insert_known spk spks newly w known))
        ((ref, insert_new-keeps spks newly spk w ref e), insert_new-IsWatched spks newly w)
  | inr unknown ↦
      let newly' = insert spk w.next_ref newly in
      let added : lookup spk (with_new spk w).addresses ≡ some w.next_ref =
        lookup-insert spk spk w.next_ref w.addresses ∙ ground arith in
      subst (λ (r : Wallet × Map ℕ). All (IsWatched r.0) (spk ∷ spks))
        (sym (insert_unknown spk spks newly w unknown))
        (
          (w.next_ref, insert_new-keeps spks newly' spk (with_new spk w) w.next_ref added),
          insert_new-IsWatched spks newly' (with_new spk w),
        )
]

pub sync-addresses :
    {E : Type 0} (api : Api E) (spk : ScriptBuf) (ref : ℕ) (w : Wallet)
    → (sync_address_history api spk ref w).addresses ≡ w.addresses
unfolding sync_address_history on_tracker
sync-addresses api spk ref w = elim (Option-cases (lookup ref w.trackers)) [
  | inl e ↦ rw (e, on_tracker)
  | inr (t, e) ↦ rw (e, on_tracker)
]

pub sync_all-addresses :
    {E : Type 0} (api : Api E) (refs : Map ℕ) (w : Wallet)
    → (sync_all api refs w).addresses ≡ w.addresses
unfolding sync_all
sync_all-addresses api [] w = refl
sync_all-addresses api ((spk, ref) ∷ refs) w =
    sync_all-addresses api refs _ ∙ sync-addresses api spk ref w

-- A watched address of a sound wallet shows a state of its own.
pub get_address_state-some :
    (spk : ScriptBuf) (w : Wallet)
    → IsSound w
    → IsWatched w spk
    → (s : State) × (get_address_state spk w ≡ some s) × (s.scriptpubkey ≡ spk)
unfolding get_address_state get_state
get_address_state-some spk w s (ref, e) =
    let (t, f, g) = s.owned spk ref e in
    (get_state t, rw (e, get_address_state, f, get_address_state), g)
