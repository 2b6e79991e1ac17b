-- ===== src/Wallet/Failed.antt =====
-- `get_and_watch` of a new address whose history cannot be fetched.
use mwck_rs.Prelude.{◌≡◌, refl, ◌∙◌, ap, some, none, []}
use mwck_rs.HashMap.{lookup}
use mwck_rs.Esplora.{ScriptBuf}
use mwck_rs.Api.{ok, err}
use mwck_rs.Tracker.{State, new, get_state}
use mwck_rs.Tracker.Balance.{new_balances}
use mwck_rs.Tracker.Order.{sort_by_time}
use mwck_rs.Wallet.{Wallet, Api, get_and_watch}
use mwck_rs.Wallet.Sync.{last_confirmed}
use mwck_rs.Wallet.Sync.Events.{sync_tracker-synced}
use mwck_rs.Wallet.Store.{IsSound}
use mwck_rs.Wallet.Answers.{first_sync, answer_of, get_and_watch-new, get_and_watch-answer}

-- The state of an address without a history.
abbrev pub empty_state : ScriptBuf → State
empty_state spk = record { scriptpubkey = spk; transactions = []; balance = new_balances }

module _ {E : Type 0} (api : Api E) (spk : ScriptBuf) (e : E) where
  first_sync-failed : api spk none none ≡ err e → first_sync api spk ≡ empty_state spk
  unfolding new get_state sort_by_time last_confirmed
  first_sync-failed failed = rw (sync_tracker-synced (api spk) spk (new spk), failed) refl

  -- Where the history of a new address cannot be fetched, `get_and_watch` on a sound wallet returns no
  -- error, but the state of an address without a history. So does every later call for it until
  -- something else changes the wallet, even one that would reach the server.
  pub get_and_watch-failed :
      (w : Wallet) (later : Api E)
      → IsSound w
      → lookup spk w.addresses ≡ none
      → api spk none none ≡ err e
      → (w' : Wallet) × (get_and_watch api spk w ≡ (w', some (ok (empty_state spk))))
        × IsSound w'
        × ((get_and_watch later spk w').1 ≡ some (ok (empty_state spk)))
  get_and_watch-failed w later s absent failed =
      let (w', q, s', held) = get_and_watch-new api spk w s absent in
      let empty = first_sync-failed failed in
      let (w2, q2, _, _) = get_and_watch-answer later spk w' s' in
      (
        w',
        q ∙ ap (λ x. (w', some (ok x))) empty,
        s',
        ap (λ p. p.1) q2
            ∙ ap (λ o. some (ok (answer_of later o spk))) held
            ∙ ap (λ x. some (ok x)) empty,
      )
