-- ===== src/Wallet/Answers.antt =====
-- What `get_and_watch` answers, call after call, while nothing else runs.
use mwck_rs.Prelude.{
  ◌≤◌, ◌≡◌, ◌≢◌, refl, sym, subst, ◌∙◌, ap, inl, inr, some, none, Option, [], ◌∷◌, arith, ◌==◌,
  Bool-cases, Option-cases,
}
use mwck_rs.HashMap.{lookup, contains_key}
use mwck_rs.HashMap.Laws.{lookup-insert}
use mwck_rs.Esplora.{ScriptBuf}
use mwck_rs.Api.{ok}
use mwck_rs.Tracker.{State, new, get_state}
use mwck_rs.Wallet.Sync.{sync_tracker}
use mwck_rs.Wallet.{
  Wallet, Api, track_scriptpubkeys, sync_address_history, insert_new, sync_all, get_address_state,
  collect, watch_start, watch, first_state, get_and_watch,
}
use mwck_rs.Wallet.Store.{IsSound, with_new, with_new-IsSound, sync_address_history-IsSound}
use mwck_rs.Wallet.Watch.{track-IsSound, unwatched_state}
use mwck_rs.Wallet.Watched.{sync-addresses}
use mwck_rs.Wallet.Routing.{get_address_state-at}
use mwck_rs.Wallet.Resync.{on_tracker-at, on_tracker-other}

module _ {E : Type 0} (api : Api E) where
  -- The state of an address that is synced for the first time.
  abbrev pub first_sync : ScriptBuf → State
  first_sync spk = get_state (sync_tracker (api spk) spk (new spk)).0.0

  -- The state that is held, or else the state after a first sync.
  abbrev pub answer_of : Option State → ScriptBuf → State
  answer_of none spk = first_sync spk
  answer_of (some s) spk = s

  abbrev pub answer : Wallet → ScriptBuf → State
  answer w spk = answer_of (get_address_state spk w) spk

  -- The wallet once an address is added and synced.
  abbrev with_synced : ScriptBuf → Wallet → Wallet
  with_synced spk w =
      sync_address_history api spk w.next_ref (with_new spk (track_scriptpubkeys (spk ∷ []) w))

  watch_start-with_synced :
      (spk : ScriptBuf) (w : Wallet)
      → lookup spk w.addresses ≡ none
      → watch_start api (spk ∷ []) w ≡ with_synced spk w
  unfolding watch_start insert_new sync_all
  watch_start-with_synced spk w e = rw (e, contains_key) refl

  with_synced-IsSound : (spk : ScriptBuf) (w : Wallet) → IsSound w → IsSound (with_synced spk w)
  with_synced-IsSound spk w s =
      sync_address_history-IsSound api spk w.next_ref _
        (with_new-IsSound spk _ (track-IsSound (spk ∷ []) w s))

  with_synced-own :
      (spk : ScriptBuf) (w : Wallet)
      → get_address_state spk (with_synced spk w) ≡ some (first_sync spk)
  unfolding sync_address_history
  with_synced-own spk w =
      let w1 = with_new spk (track_scriptpubkeys (spk ∷ []) w) in
      get_address_state-at spk (with_synced spk w) w.next_ref _
        (ap (lookup spk) (sync-addresses api spk w.next_ref w1)
          ∙ lookup-insert spk spk w.next_ref w.addresses
          ∙ ground arith)
        (on_tracker-at w.next_ref (λ t. (sync_tracker (api spk) spk t).0) w1 (new spk)
          (lookup-insert w.next_ref w.next_ref (new spk) w.trackers ∙ ground arith))

  with_synced-other :
      (spk k : ScriptBuf) (w : Wallet)
      → IsSound w
      → spk ≢ k
      → get_address_state k (with_synced spk w) ≡ get_address_state k w
  unfolding sync_address_history get_address_state
  with_synced-other spk k w s ne =
      let w1 = with_new spk (track_scriptpubkeys (spk ∷ []) w) in
      let known : lookup k (with_synced spk w).addresses ≡ lookup k w.addresses =
        ap (lookup k) (sync-addresses api spk w.next_ref w1)
        ∙ lookup-insert spk k w.next_ref w.addresses
        ∙ ground (arith, ne) in
      elim (Option-cases (lookup k w.addresses)) [
        | inl e ↦ rw (known, e, get_address_state) refl
        | inr (r, e) ↦
            let (t, held, _) = s.owned k r e in
            let apart : w.next_ref ≢ r =
              λ same. cc (sym held ∙ s.fresh r (subst (λ n. n ≤ r) (sym same) (omega arith))) in
            let same : lookup r (with_synced spk w).trackers ≡ lookup r w.trackers =
              on_tracker-other w.next_ref r _ w1 apart
              ∙ lookup-insert w.next_ref r (new spk) w.trackers
              ∙ ground (arith, apart) in
            rw (known, e, get_address_state, same) refl
      ]

  watch-with_synced :
      (spk : ScriptBuf) (w : Wallet)
      → lookup spk w.addresses ≡ none
      → watch api (spk ∷ []) w ≡ (with_synced spk w, some (ok (first_sync spk ∷ [])))
  unfolding watch collect
  watch-with_synced spk w e =
      rw (watch_start-with_synced spk w e, watch, with_synced-own spk w, collect) refl

  with_synced-answer :
      (spk k : ScriptBuf) (w : Wallet)
      → IsSound w
      → lookup spk w.addresses ≡ none
      → answer (with_synced spk w) k ≡ answer w k
  with_synced-answer spk k w s e = elim (Bool-cases (spk == k)) [
    | inl same ↦
        let named : spk ≡ k = ground (arith, same) in
        subst (λ j. answer (with_synced spk w) j ≡ answer w j) named
          (rw (with_synced-own spk w, unwatched_state spk w e) refl)
    | inr apart ↦
        ap (λ o. answer_of o k)
          (with_synced-other spk k w s (λ named. ground (arith, named, apart)))
  ]

  -- A call for a new address answers with a first sync, and the wallet then holds that.
  pub get_and_watch-new :
      (spk : ScriptBuf) (w : Wallet)
      → IsSound w
      → lookup spk w.addresses ≡ none
      → (w' : Wallet) × (get_and_watch api spk w ≡ (w', some (ok (first_sync spk))))
        × IsSound w'
        × (get_address_state spk w' ≡ some (first_sync spk))
  unfolding get_and_watch first_state
  get_and_watch-new spk w s absent = (
    with_synced spk w,
    rw (unwatched_state spk w absent, get_and_watch, watch-with_synced spk w absent) refl,
    with_synced-IsSound spk w s,
    with_synced-own spk w,
  )

  -- A call answers with what the wallet holds, or with what a first sync gives, and it changes the
  -- answer for no address.
  pub get_and_watch-answer :
      (spk : ScriptBuf) (w : Wallet)
      → IsSound w
      → (w' : Wallet) × (get_and_watch api spk w ≡ (w', some (ok (answer w spk))))
        × IsSound w'
        × ((k : ScriptBuf) → answer w' k ≡ answer w k)
  unfolding get_and_watch first_state
  get_and_watch-answer spk w s = elim (Option-cases (get_address_state spk w)) [
    | inr (x, e) ↦ (w, rw (e, get_and_watch) refl, s, λ k. refl)
    | inl e ↦ elim (Option-cases (lookup spk w.addresses)) [
      | inl absent ↦ (
        with_synced spk w,
        rw (e, get_and_watch, watch-with_synced spk w absent) refl,
        with_synced-IsSound spk w s,
        λ k. with_synced-answer spk k w s absent,
      )
      | inr (r, known) ↦
          let (t, held, _) = s.owned spk r known in
          cc (sym e ∙ get_address_state-at spk w r t known held)
    ]
  ]
