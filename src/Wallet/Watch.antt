-- ===== src/Wallet/Watch.antt =====
-- `watch`: what it returns alone, and what another task can do to it.
use mwck_rs.Prelude.{
  ◌≡◌, refl, ◌∙◌, ap, true, inl, inr, none, some, List, [], ◌∷◌, arith, ◌==◌, if◌then◌else◌, All,
  All-map, any, map, Option-cases,
}
use mwck_rs.HashMap.{lookup, contains_key}
use mwck_rs.Esplora.{ScriptBuf}
use mwck_rs.Api.{ok}
use mwck_rs.Tracker.{State}
use mwck_rs.Wallet.{
  Wallet, Api, insert_new, get_address_state, collect, watch_start, watch, track_scriptpubkeys,
  unwatch, first_state, get_and_watch,
}
use mwck_rs.Wallet.Store.{IsSound, insert_new-IsSound, sync_all-IsSound, lookup-remove_addresses}
use mwck_rs.Wallet.Watched.{
  IsWatched, insert_new-IsWatched, sync_all-addresses, get_address_state-some,
}

abbrev pub spks_of : List State → List ScriptBuf
spks_of states = map (λ s. s.scriptpubkey) states

collect-some :
    (spks : List ScriptBuf) (w : Wallet)
    → IsSound w
    → All (IsWatched w) spks
    → (states : List State) × (collect spks w ≡ some states) × (spks_of states ≡ spks)
unfolding collect
collect-some [] w s h = ([], refl, refl)
collect-some (spk ∷ spks) w s h =
    let (x, e, f) = get_address_state-some spk w s h.0 in
    let (xs, es, fs) = collect-some spks w s h.1 in (x ∷ xs, rw (e, collect, es, collect), cc)

collect-none :
    (spks : List ScriptBuf) (w : Wallet) (k : ScriptBuf)
    → any (λ spk. spk == k) spks ≡ true
    → get_address_state k w ≡ none
    → collect spks w ≡ none
unfolding collect
collect-none [] w k h e = cc
collect-none (spk ∷ spks) w k h e = ground (arith, collect-none spks w k)

pub watch_start-addresses :
    {E : Type 0} (api : Api E) (spks : List ScriptBuf) (w : Wallet)
    → (watch_start api spks w).addresses
      ≡ (insert_new spks [] (track_scriptpubkeys spks w)).0.addresses
unfolding watch_start
watch_start-addresses api spks w = sync_all-addresses api _ _

pub track-IsSound :
    (spks : List ScriptBuf) (w : Wallet) → IsSound w → IsSound (track_scriptpubkeys spks w)
track-IsSound spks w s = record {
  owned = s.owned;
  unique = s.unique;
  fresh = s.fresh;
  balanced = s.balanced;
}

watch_start-IsSound :
    {E : Type 0} (api : Api E) (spks : List ScriptBuf) (w : Wallet)
    → IsSound w
    → IsSound (watch_start api spks w)
unfolding watch_start
watch_start-IsSound api spks w s =
    sync_all-IsSound api _ _ (insert_new-IsSound spks [] _ (track-IsSound spks w s))

watch_start-IsWatched :
    {E : Type 0} (api : Api E) (spks : List ScriptBuf) (w : Wallet)
    → All (IsWatched (watch_start api spks w)) spks
watch_start-IsWatched api spks w =
    All-map (λ spk (ref, e). (ref, ap (lookup spk) (watch_start-addresses api spks w) ∙ e)) spks
      (insert_new-IsWatched spks [] (track_scriptpubkeys spks w))

-- Alone, `watch` neither panics nor fails, whatever the server answers: it returns one state for
-- each address asked for, in the order asked, and leaves the wallet sound.
pub watch-ok :
    {E : Type 0} (api : Api E) (spks : List ScriptBuf) (w : Wallet)
    → IsSound w
    → (states : List State) × ((watch api spks w).1 ≡ some (ok states))
      × (spks_of states ≡ spks)
      × IsSound (watch api spks w).0
unfolding watch
watch-ok api spks w s =
    let s' = watch_start-IsSound api spks w s in
    let (states, e, f) = collect-some spks _ s' (watch_start-IsWatched api spks w) in
    (states, rw (e, watch), f, s')

-- If another task unwatches one of the addresses before `watch` locks the map again, it panics.
pub watch_race :
    {E : Type 0} (api : Api E) (spks gone : List ScriptBuf) (k : ScriptBuf) (w : Wallet)
    → any (λ spk. spk == k) spks ≡ true
    → any (λ spk. spk == k) gone ≡ true
    → collect spks (unwatch gone (watch_start api spks w)) ≡ none
unfolding unwatch get_address_state
watch_race api spks gone k w h g =
    collect-none spks _ k h
      (rw (lookup-remove_addresses gone (watch_start api spks w).addresses k, get_address_state, g))

one_state :
    {E : Type 0} (spk : ScriptBuf) (states : List State)
    → spks_of states ≡ spk ∷ []
    → (s : State) × (first_state {E = E} (some (ok states)) ≡ some (ok s)) × (s.scriptpubkey ≡ spk)
unfolding first_state
one_state spk [] e = cc
one_state spk (s ∷ states) e = (s, refl, cc)

pub unwatched_state :
    (spk : ScriptBuf) (w : Wallet) → lookup spk w.addresses ≡ none → get_address_state spk w ≡ none
unfolding get_address_state
unwatched_state spk w e = rw (e, get_address_state)

-- On a sound wallet `get_and_watch` returns the state of the address asked for, and neither panics
-- nor fails. The wallet stays as it was if the address is watched, and else is as `watch` leaves it.
pub get_and_watch-ok :
    {E : Type 0} (api : Api E) (spk : ScriptBuf) (w : Wallet)
    → IsSound w
    → (s : State) × ((get_and_watch api spk w).1 ≡ some (ok s))
      × (s.scriptpubkey ≡ spk)
      × ((get_and_watch api spk w).0
          ≡ (if contains_key spk w.addresses then w else (watch api (spk ∷ []) w).0))
unfolding get_and_watch
get_and_watch-ok {E} api spk w s = elim (Option-cases (lookup spk w.addresses)) [
  | inl e ↦
      let (states, f, g, _) = watch-ok api (spk ∷ []) w s in
      let (x, h, k) = one_state {E = E} spk states g in
      rw (unwatched_state spk w e, get_and_watch)
        (x, rw (f, get_and_watch) h, k, rw (e, contains_key) refl)
  | inr (ref, e) ↦
      let (x, f, g) = get_address_state-some spk w s (ref, e) in
      rw (f, get_and_watch) (x, refl, g, rw (e, contains_key) refl)
]
