-- ===== src/Wallet/Served/Tests.antt =====
-- Alice's address on a server that has the deposit.
use mwck_rs.Prelude.{ℕ, ◌≡◌, refl, sym, All, some, none, [], ◌∷◌, arith, true, false}
use mwck_rs.HashMap.{lookup, values}
use mwck_rs.Esplora.{Txid, Tx, IsWellDated}
use mwck_rs.Event.{AddressEvent, WebsocketEvent}
use mwck_rs.Samples.{alice, deposit, no_hashes, one_page, paged}
use mwck_rs.Api.{ok}
use mwck_rs.Api.Tests.{one_page-Serves}
use mwck_rs.Api.Paging.{is_below}
use mwck_rs.Tracker.{
  State, Tracker, new, process_event, apply_event, add_transaction, insert_transaction, get_state,
}
use mwck_rs.Tracker.History.{in_history, Shows}
use mwck_rs.Tracker.Order.{sort_by_time, insert_by_time}
use mwck_rs.Wallet.{
  Wallet, Api, new_wallet, insert_new, handle_address_event, on_tracker, get_and_watch, on_message,
  get_address_state,
}
use mwck_rs.Wallet.Store.{
  IsSound, new_wallet-IsSound, insert_new-IsSound, handle_address_event-IsSound,
}
use mwck_rs.Wallet.Sync.{last_confirmed}
use mwck_rs.Wallet.Sync.Held.{if_confirmed}
use mwck_rs.Wallet.Sync.Again.{IsKnownPart, newest_height}
use mwck_rs.Wallet.Served.{get_and_watch-Shows, on_message-Shows}

abbrev online : Api ℕ
online spk = paged

new_wallet-absent : lookup alice new_wallet.addresses ≡ none
unfolding new_wallet
new_wallet-absent = refl

get_and_watch-Shows_example :
    (w : Wallet) × (state : State) × (get_and_watch online alice new_wallet ≡ (w, some (ok state)))
    × Shows alice (deposit ∷ []) state
    × IsSound w
    × ((get_and_watch online alice w).1 ≡ some (ok state))
get_and_watch-Shows_example =
    get_and_watch-Shows online one_page no_hashes alice (deposit ∷ []) 3 new_wallet
      new_wallet-IsSound new_wallet-absent one_page-Serves (omega arith) (λ a h r e. rw (e, paged))
      (tt, tt) (omega arith, tt)

-- The deposit came over the websocket before.
abbrev told : Wallet
told =
    handle_address_event (AddressEvent.confirmed alice deposit) false
      (insert_new (alice ∷ []) [] new_wallet).0

abbrev holding : Tracker
holding = add_transaction deposit (new alice)

told-IsSound : IsSound told
told-IsSound =
    handle_address_event-IsSound (AddressEvent.confirmed alice deposit) false _
      (insert_new-IsSound (alice ∷ []) [] new_wallet new_wallet-IsSound)

told-held : (lookup alice told.addresses ≡ some 0) × (lookup 0 told.trackers ≡ some holding)
unfolding new_wallet insert_new handle_address_event on_tracker process_event apply_event
told-held = (refl, refl)

holding-newest : newest_height holding ≡ some 100
unfolding new add_transaction insert_transaction get_state sort_by_time insert_by_time
    last_confirmed
holding-newest = refl

holding-kept :
    (j : Txid) (x : Tx)
    → if_confirmed (lookup j holding.transactions) ≡ some x
    → in_history j (deposit ∷ []) ≡ some x
unfolding new add_transaction insert_transaction
holding-kept j x e = ground (arith, e)

nothing_older :
    (j : Txid) (x : Tx) → in_history j (deposit ∷ []) ≡ some x → is_below (some 100) x ≡ true → ⊥
nothing_older j x e b = ground (arith, e, b)

holding-IsKnownPart : IsKnownPart holding (deposit ∷ [])
holding-IsKnownPart = record {
  dated = (omega arith, tt);
  newest_first = (tt, tt);
  kept = holding-kept;
  older_held = λ j x e b. absurd (nothing_older j x e (rw (sym holding-newest) b));
}

idle : holding.queue ≡ []
unfolding new add_transaction insert_transaction
idle = refl

dated : All IsWellDated (values holding.transactions)
unfolding new add_transaction insert_transaction
dated = (omega arith, tt)

on_message-Shows_example :
    (w : Wallet) × (state : State) × (on_message online (some WebsocketEvent.connected) told
      ≡ some w)
    × IsSound w
    × (get_address_state alice w ≡ some state)
    × Shows alice (deposit ∷ []) state
on_message-Shows_example =
    on_message-Shows online one_page no_hashes alice (deposit ∷ []) 3 told 0 holding told-IsSound
      told-held.0 told-held.1 dated idle holding-IsKnownPart one_page-Serves (omega arith)
      (λ a h r e. rw (e, paged)) (tt, tt)
