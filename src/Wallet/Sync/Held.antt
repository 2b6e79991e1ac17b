-- ===== src/Wallet/Sync/Held.antt =====
-- What a tracker holds after a sync.
use mathlib.Core.List.{reverse-cons}
use mwck_rs.Prelude.{
  ◌≡◌, refl, ◌∙◌, ap, Bool, false, not, ◌&&◌, ◌||◌, Option, none, some, List, [], ◌∷◌, ◌++◌, map,
  reverse, ◌==◌, arith, if◌then◌else◌, All, any, select,
}
use mwck_rs.HashMap.{Map, lookup, IsUnique, values}
use mwck_rs.Esplora.{ScriptBuf, Txid, Tx, IsWellDated}
use mwck_rs.Event.{AddressEvent}
use mwck_rs.Api.{Result, ok}
use mwck_rs.Tracker.{Tracker, get_state}
use mwck_rs.Tracker.Order.{insert_by_time, sort_by_time}
use mwck_rs.Tracker.Ledger.{IsBalanced}
use mwck_rs.Tracker.Queue.{apply_all}
use mwck_rs.Tracker.Held.{told, last_told, lookup-apply_all}
use mwck_rs.Tracker.Sorting.{sort_by_time-All, sort_by_time-IsSorted}
use mwck_rs.Tracker.Shown.{IsKeyed}
use mwck_rs.Wallet.Sync.{Fetch, is_fetched, last_confirmed, last_txid, last_height, sync_tracker}
use mwck_rs.Wallet.Sync.Events.{removal, arrival, stale, sync_events, sync_tracker-synced}
use mwck_rs.Wallet.Sync.Stale.{is_unconfirmed, unsettled-eq-unconfirmed}

-- The last copy of a transaction in a list, or the one that was there before.
unfoldable pub last_copy : Txid → List Tx → Option Tx → Option Tx
last_copy j [] old = old
last_copy j (tx ∷ txs) old = last_copy j txs (if tx.txid == j then some tx else old)

abbrev has_txid : Txid → Tx → Bool
has_txid j tx = tx.txid == j

last_told-append :
    (j : Txid) (es fs : List AddressEvent) (old : Option Tx)
    → last_told j (es ++ fs) old ≡ last_told j fs (last_told j es old)
unfolding last_told
last_told-append j [] fs old = refl
last_told-append j (e ∷ es) fs old = last_told-append j es fs (told j e old)

last_told-removals :
    (j : Txid) (spk : ScriptBuf) (l : List Tx) (old : Option Tx)
    → last_told j (map (removal spk) l) old ≡ (if any (has_txid j) l then none else old)
unfolding last_told
last_told-removals j spk [] old = refl
last_told-removals j spk (x ∷ l) old =
    ground (arith, last_told-removals j spk l (if x.txid == j then none else old))

told-arrival :
    (j : Txid) (spk : ScriptBuf) (tx : Tx) (old : Option Tx)
    → told j (arrival spk tx) old ≡ (if tx.txid == j then some tx else old)
told-arrival j spk tx old = ground arith

last_told-arrivals :
    (j : Txid) (spk : ScriptBuf) (l : List Tx) (old : Option Tx)
    → last_told j (map (arrival spk) l) old ≡ last_copy j l old
unfolding last_told last_copy
last_told-arrivals j spk [] old = refl
last_told-arrivals j spk (x ∷ l) old =
    ap (last_told j (map (arrival spk) l)) (told-arrival j spk x old)
    ∙ last_told-arrivals j spk l (if x.txid == j then some x else old)

any-select : (p q : Tx → Bool) (l : List Tx) → any p (select q l) ≡ any (λ x. q x && p x) l
any-select p q [] = refl
any-select p q (x ∷ l) = ground (arith, any-select p q l)

any-snoc : (p : Tx → Bool) (l : List Tx) (x : Tx) → any p (l ++ x ∷ []) ≡ (p x || any p l)
any-snoc p [] x = refl
any-snoc p (y ∷ l) x = ground (arith, any-snoc p l x)

pub any-reverse : (p : Tx → Bool) (l : List Tx) → any p (reverse l) ≡ any p l
any-reverse p [] = refl
any-reverse p (x ∷ l) = rw (reverse-cons x l, any-snoc p (reverse l) x, any-reverse p l)

any-insert : (p : Tx → Bool) (x : Tx) (l : List Tx) → any p (insert_by_time x l) ≡ (p x || any p l)
unfolding insert_by_time
any-insert p x [] = refl
any-insert p x (y ∷ l) = ground (arith, any-insert p x l)

any-sort : (p : Tx → Bool) (l : List Tx) → any p (sort_by_time l) ≡ any p l
unfolding sort_by_time
any-sort p [] = refl
any-sort p (x ∷ l) = rw (any-insert p x (sort_by_time l), any-sort p l)

-- A test that fixes the txid sees the one copy held.
abbrev held_is : (Tx → Bool) → Option Tx → Bool
held_is q none = false
held_is q (some x) = q x

any-values :
    (j : Txid) (q r : Tx → Bool) (m : Map Tx)
    → IsKeyed m
    → IsUnique m
    → any (λ x. q x && (r x && has_txid j x)) (values m) ≡ held_is (λ x. q x && r x) (lookup j m)
any-values j q r [] k u = refl
any-values j q r ((i, x) ∷ m) k u = ground (arith, any-values j q r m k.1 u.1)

-- What stays of a held transaction when the server does not know it any more.
abbrev pub if_confirmed : Option Tx → Option Tx
if_confirmed none = none
if_confirmed (some tx) = if tx.status.confirmed then some tx else none

pub last_copy-any :
    (j : Txid) (l : List Tx) (old : Option Tx)
    → last_copy j l old ≡ (if is_fetched l j then last_copy j l none else old)
unfolding last_copy
last_copy-any j [] old = refl
last_copy-any j (x ∷ l) old = ground (
  arith,
  last_copy-any j l (if x.txid == j then some x else old),
  last_copy-any j l (if x.txid == j then some x else none),
)

-- The removals of a sync hit the unconfirmed transactions that were not fetched.
any-stale :
    (t : Tracker) (fetched : List Tx) (j : Txid)
    → IsBalanced t
    → All IsWellDated (values t.transactions)
    → any (has_txid j) (stale (get_state t) fetched)
      ≡ held_is (λ x. is_unconfirmed x && not (is_fetched fetched x.txid)) (lookup j t.transactions)
unfolding get_state
any-stale t fetched j b d =
    let sorted = sort_by_time (values t.transactions) in
    let unknown : Tx → Bool = λ x. not (is_fetched fetched x.txid) in
    rw
      (
        unsettled-eq-unconfirmed (get_state t)
            (sort_by_time-All IsWellDated (values t.transactions) d)
            (sort_by_time-IsSorted (values t.transactions) d),
        any-select (has_txid j) unknown (select is_unconfirmed (reverse sorted)),
        any-select (λ x. unknown x && has_txid j x) is_unconfirmed (reverse sorted),
        any-reverse (λ x. is_unconfirmed x && (unknown x && has_txid j x)) sorted,
        any-sort (λ x. is_unconfirmed x && (unknown x && has_txid j x)) (values t.transactions),
      )
      (any-values j is_unconfirmed unknown t.transactions b.keyed b.unique)

keyed-txid : (j : Txid) (m : Map Tx) (x : Tx) → IsKeyed m → lookup j m ≡ some x → x.txid ≡ j
keyed-txid j [] x k e = cc
keyed-txid j ((i, y) ∷ m) x k e = ground (arith, keyed-txid j m x k.1)

-- What a sync leaves under a txid, case by case.
abbrev pub expected : List Tx → Txid → Option Tx → Option Tx
expected fetched j held =
    if is_fetched fetched j then last_copy j fetched none else if_confirmed held

choose :
    (known confirmed : Bool) (copy held : Option Tx)
    → (if known then copy else if not confirmed && not known then none else held)
      ≡ (if known then copy else if confirmed then held else none)
choose known confirmed copy held = ground arith

settle :
    (fetched : List Tx) (j : Txid) (held : Option Tx)
    → ((x : Tx) → held ≡ some x → x.txid ≡ j)
    → last_copy j fetched (
        if held_is (λ x. is_unconfirmed x && not (is_fetched fetched x.txid)) held
        then none
        else held)
      ≡ expected fetched j held
settle fetched j none h = last_copy-any j fetched none
settle fetched j (some x) h =
    rw (h x refl) (last_copy-any j fetched _ ∙ choose (is_fetched fetched j) x.status.confirmed _ _)

lookup-synced :
    (spk : ScriptBuf) (t : Tracker) (fetched : List Tx) (j : Txid)
    → IsBalanced t
    → All IsWellDated (values t.transactions)
    → lookup j (apply_all (sync_events spk (get_state t) fetched ++ t.queue) t).0.transactions
      ≡ last_told j t.queue (expected fetched j (lookup j t.transactions))
lookup-synced spk t fetched j b d =
    lookup-apply_all (sync_events spk (get_state t) fetched ++ t.queue) t j
    ∙ last_told-append j (sync_events spk (get_state t) fetched) t.queue (lookup j t.transactions)
    ∙ ap (last_told j t.queue) (
        last_told-append j (map (removal spk) (stale (get_state t) fetched))
          (map (arrival spk) fetched) (lookup j t.transactions)
        ∙ last_told-arrivals j spk fetched _
        ∙ ap (last_copy j fetched) (
            last_told-removals j spk (stale (get_state t) fetched) (lookup j t.transactions)
            ∙ rw (any-stale t fetched j b d))
        ∙ settle fetched j (lookup j t.transactions)
            (λ x e. keyed-txid j t.transactions x b.keyed e))

abbrev pub last_asked : {E : Type 0} → Fetch E → Tracker → Result E (List Tx)
last_asked fetch t =
    let last = last_confirmed (get_state t) in fetch (last_txid last) (last_height last)

-- After a sync whose fetch succeeded, a fetched transaction is held as its last fetched copy. Of
-- those that were not fetched, the confirmed ones stay and the unconfirmed ones are dropped. The
-- events queued before then apply on top.
pub lookup-sync_tracker :
    {E : Type 0} (fetch : Fetch E) (spk : ScriptBuf) (t : Tracker) (fetched : List Tx) (j : Txid)
    → IsBalanced t
    → All IsWellDated (values t.transactions)
    → last_asked fetch t ≡ ok fetched
    → lookup j (sync_tracker fetch spk t).0.0.transactions
      ≡ last_told j t.queue (
          if is_fetched fetched j
          then last_copy j fetched none
          else if_confirmed (lookup j t.transactions))
lookup-sync_tracker fetch spk t fetched j b d e =
    rw (sync_tracker-synced fetch spk t, e) (lookup-synced spk t fetched j b d)
