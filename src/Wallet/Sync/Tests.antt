-- ===== src/Wallet/Sync/Tests.antt =====
-- A sync of a tracker that holds the deposit, and a payment that the server has dropped.
use mwck_rs.Prelude.{◌≡◌, All, sym, refl, some, [], ◌∷◌, arith, true}
use mwck_rs.HashMap.{lookup, values}
use mwck_rs.Esplora.{Tx, Txid, IsWellDated}
use mwck_rs.Samples.{alice, deposit, payment, no_hashes, one_page, paged}
use mwck_rs.Api.Tests.{one_page-Serves}
use mwck_rs.Api.Paging.{is_below}
use mwck_rs.Tracker.{Tracker, new, add_transaction, insert_transaction, get_state}
use mwck_rs.Tracker.Ledger.{IsBalanced, new-IsBalanced, add_transaction-IsBalanced}
use mwck_rs.Tracker.History.{in_history}
use mwck_rs.Tracker.Held.{last_told}
use mwck_rs.Tracker.Order.{sort_by_time, insert_by_time, in_time, cmp_tx_time, partial_cmp_tx_time}
use mwck_rs.Wallet.Sync.{sync_tracker, last_confirmed}
use mwck_rs.Wallet.Sync.Held.{if_confirmed}
use mwck_rs.Wallet.Sync.Again.{IsKnownPart, lookup-sync_again, newest_height}

abbrev holding : Tracker
holding = add_transaction deposit (add_transaction payment (new alice))

holding-IsBalanced : IsBalanced holding
holding-IsBalanced =
    add_transaction-IsBalanced deposit _
      (add_transaction-IsBalanced payment (new alice) (new-IsBalanced alice))

holding-newest : newest_height holding ≡ some 100
unfolding new add_transaction insert_transaction get_state sort_by_time insert_by_time in_time
    cmp_tx_time partial_cmp_tx_time last_confirmed
holding-newest = refl

holding-kept :
    (j : Txid) (x : Tx)
    → if_confirmed (lookup j holding.transactions) ≡ some x
    → in_history j (deposit ∷ []) ≡ some x
unfolding new add_transaction insert_transaction
holding-kept j x e = ground (arith, e)

nothing_older :
    (j : Txid) (x : Tx) → in_history j (deposit ∷ []) ≡ some x → is_below (some 100) x ≡ true → ⊥
nothing_older j x e b = ground (arith, e, b)

holding-IsKnownPart : IsKnownPart holding (deposit ∷ [])
holding-IsKnownPart = record {
  dated = (omega arith, tt);
  newest_first = (tt, tt);
  kept = holding-kept;
  older_held = λ j x e b. absurd (nothing_older j x e (rw (sym holding-newest) b));
}

dated : All IsWellDated (values holding.transactions)
unfolding new add_transaction insert_transaction
dated = (tt, (omega arith, tt))

lookup-sync_again_example :
    lookup 2 (sync_tracker paged alice holding).0.0.transactions
    ≡ last_told 2 holding.queue (lookup 2 (sync_tracker paged alice (new alice)).0.0.transactions)
lookup-sync_again_example =
    lookup-sync_again one_page no_hashes alice holding (deposit ∷ []) 3 paged 2 holding-IsBalanced
      dated holding-IsKnownPart one_page-Serves (omega arith) (λ a h r e. rw (e, paged))
