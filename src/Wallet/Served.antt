-- ===== src/Wallet/Served.antt =====
-- What a wallet shows of an address, against the history that the server has of it: when a new one
-- is watched, and when the websocket connects again.
mod Tests
use mwck_rs.Prelude.{
  ℕ, ◌+◌, ◌*◌, ◌≤◌, ◌≡◌, refl, sym, ◌∙◌, ap, subst, Option, some, none, List, [], length, All,
}
use mwck_rs.HashMap.{lookup, values}
use mwck_rs.Esplora.{ScriptBuf, Txid, Tx, IsWellDated}
use mwck_rs.Api.{Http, Hashes, ok}
use mwck_rs.Api.Server.{Serves}
use mwck_rs.Tracker.{State, Tracker, new, get_state}
use mwck_rs.Tracker.Held.{last_told}
use mwck_rs.Event.{AddressEvent, WebsocketEvent}
use mwck_rs.Tracker.Ledger.{new-IsBalanced}
use mwck_rs.Tracker.Sorting.{HaveOwnTxids}
use mwck_rs.Tracker.History.{Shows, get_state-Shows}
use mwck_rs.Wallet.{Wallet, Api, get_and_watch, get_address_state, on_message}
use mwck_rs.Wallet.Resync.{on_message-connected}
use mwck_rs.Wallet.Routing.{get_address_state-at}
use mwck_rs.Wallet.Sync.Again.{IsKnownPart, asked_again}
use mwck_rs.Wallet.Sync.Fresh.{IsFetchFrom, lookup-sync_new}
use mwck_rs.Wallet.Store.{IsSound, sync-Keeps}
use mwck_rs.Wallet.Watch.{unwatched_state}
use mwck_rs.Wallet.Answers.{first_sync, answer_of, answer, get_and_watch-answer}

nothing_queued :
    (j : Txid) (q : List AddressEvent) (old : Option Tx) → q ≡ [] → last_told j q old ≡ old
unfolding last_told
nothing_queued j q old e = rw e refl

module _ {E : Type 0} (api : Api E) (http : Http E) (hashes : Hashes) (spk : ScriptBuf)
    (history : List Tx) (fuel : ℕ) where
  first_sync-Shows :
      Serves http hashes spk history
      → length history + 100 ≤ 50 * fuel
      → IsFetchFrom http hashes spk fuel (api spk)
      → HaveOwnTxids history
      → All IsWellDated history
      → Shows spk history (first_sync api spk)
  unfolding new
  first_sync-Shows s h run own dated =
      let (b, same) = sync-Keeps (api spk) spk (new spk) (new-IsBalanced spk) in
      subst (λ k. Shows k history (first_sync api spk)) same
        (get_state-Shows _ history b
          (λ j. lookup-sync_new http hashes spk history fuel (api spk) j s h run) own dated)

  -- Take a sound wallet that does not watch an address, and a server that holds a history of it, each
  -- transaction once and well dated, from which the wallet fetches with fuel for all its pages. Then
  -- `get_and_watch` does not fail: it returns the state of the address with the whole history, oldest
  -- first, and with the history's sums as its balances, up to the wrap-around of `u64`. The wallet
  -- stays sound and answers the next call alike.
  pub get_and_watch-Shows :
      (w : Wallet)
      → IsSound w
      → lookup spk w.addresses ≡ none
      → Serves http hashes spk history
      → length history + 100 ≤ 50 * fuel
      → IsFetchFrom http hashes spk fuel (api spk)
      → HaveOwnTxids history
      → All IsWellDated history
      → (w' : Wallet) × (state : State) × (get_and_watch api spk w ≡ (w', some (ok state)))
        × Shows spk history state
        × IsSound w'
        × ((get_and_watch api spk w').1 ≡ some (ok state))
  get_and_watch-Shows w s absent served enough run own dated =
      let (w', e, s', same) = get_and_watch-answer api spk w s in
      let first : answer api w spk ≡ first_sync api spk =
        ap (λ o. answer_of api o spk) (unwatched_state spk w absent) in
      let (w2, e2, _, _) = get_and_watch-answer api spk w' s' in
      (
        w',
        first_sync api spk,
        e ∙ ap (λ x. (w', some (ok x))) first,
        first_sync-Shows served enough run own dated,
        s',
        ap (λ p. p.1) e2 ∙ ap (λ x. some (ok x)) (same spk ∙ first),
      )

  -- Take a sound wallet that watches the address with a tracker of well dated transactions and an
  -- empty queue, and a server that holds a history of it, newest first, each transaction once and well
  -- dated, from which the wallet fetches with fuel for all its pages. Let the tracker have a part of
  -- it: its confirmed transactions are still there, and it has all below its newest one. When the
  -- websocket connects again, the wallet goes on, stays sound, and then shows the whole history,
  -- oldest first, with the history's sums as its balances, up to the wrap-around of `u64`.
  pub on_message-Shows :
      (w : Wallet) (ref : ℕ) (t : Tracker)
      → IsSound w
      → lookup spk w.addresses ≡ some ref
      → lookup ref w.trackers ≡ some t
      → All IsWellDated (values t.transactions)
      → t.queue ≡ []
      → IsKnownPart t history
      → Serves http hashes spk history
      → length history + 100 ≤ 50 * fuel
      → IsFetchFrom http hashes spk fuel (api spk)
      → HaveOwnTxids history
      → (w' : Wallet) × (state : State) × (on_message api (some WebsocketEvent.connected) w
          ≡ some w')
        × IsSound w'
        × (get_address_state spk w' ≡ some state)
        × Shows spk history state
  on_message-Shows w ref t s known held dated idle part served enough run own =
      let (fetched, got, settled) =
        asked_again http hashes spk t history fuel (api spk) dated part served enough run in
      let (w', t', heard, s', _, known', held', _, _, holds) =
        on_message-connected api w spk ref t fetched s known held dated got in
      let (u, held_u, named) = s'.owned spk ref known' in
      let same : u ≡ t' = cc (sym held_u ∙ held') in
      let shown : Shows t'.scriptpubkey history (get_state t') =
        get_state-Shows t' history (s'.balanced ref t' held')
          (λ j. holds j ∙ nothing_queued j t.queue _ idle ∙ settled j) own part.dated in
      (
        w',
        get_state t',
        heard,
        s',
        get_address_state-at spk w' ref t' known' held',
        subst (λ k. Shows k history (get_state t')) (ap (λ v. v.scriptpubkey) (sym same) ∙ named)
            shown,
      )
