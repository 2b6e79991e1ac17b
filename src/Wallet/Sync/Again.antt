-- ===== src/Wallet/Sync/Again.antt =====
-- A later sync of an address, which asks for the newest part of the history only, and the first one.
use mwck_rs.Prelude.{
  ℕ, ◌+◌, ◌*◌, ◌≤◌, ◌≡◌, refl, sym, ◌∙◌, ap, subst, inl, inr, true, false, not, ◌||◌, Option, none,
  some, List, [], ◌∷◌, ◌++◌, reverse, ◌==◌, arith, is_none, if◌then◌else◌, length, find, any, All,
  Bool-cases, Option-cases,
}
use mwck_rs.HashMap.{lookup, values}
use mwck_rs.Esplora.{ScriptBuf, Txid, Tx, IsWellDated}
use mwck_rs.Api.{Http, Hashes, ok}
use mwck_rs.Api.Server.{Serves}
use mwck_rs.Api.Paging.{is_below}
use mwck_rs.Api.Fetch.{Fetched, fetch_address_history-Fetched}
use mwck_rs.Tracker.{Tracker, new, get_state}
use mwck_rs.Tracker.Ledger.{IsBalanced}
use mwck_rs.Tracker.Held.{last_told}
use mwck_rs.Tracker.History.{in_history}
use mwck_rs.Tracker.Sorting.{rank, sort_by_time-All}
use mwck_rs.Wallet.Sync.{
  Fetch, is_confirmed, is_fetched, last_confirmed, last_txid, last_height, sync_tracker,
}
use mwck_rs.Wallet.Sync.Stale.{reverse-All}
use mwck_rs.Wallet.Sync.Held.{any-reverse, last_asked, last_copy, if_confirmed, lookup-sync_tracker}
use mwck_rs.Wallet.Sync.Fresh.{IsFetchFrom, lookup-find, lookup-sync_new}

-- No transaction stands after an older one; the mempool is newer than every block.
abbrev pub IsNewestFirst : List Tx → Type 0
IsNewestFirst [] = Unit
IsNewestFirst (x ∷ xs) = All (λ y. rank y ≤ rank x) xs × IsNewestFirst xs

abbrev pub newest_height : Tracker → Option ℕ
newest_height t = last_height (last_confirmed (get_state t))

-- What a tracker holds of a history that has only grown since: its confirmed transactions are still
-- there, and all below its newest confirmed one are held.
pub record IsKnownPart (t : Tracker) (history : List Tx) : Type 0 where
  pub dated : All IsWellDated history
  pub newest_first : IsNewestFirst history
  pub kept :
      (j : Txid) (x : Tx)
      → if_confirmed (lookup j t.transactions) ≡ some x
      → in_history j history ≡ some x
  pub older_held :
      (j : Txid) (x : Tx)
      → in_history j history ≡ some x
      → is_below (newest_height t) x ≡ true
      → lookup j t.transactions ≡ some x

abbrev AreBelow : Option ℕ → List Tx → Type 0
AreBelow height l = All (λ x. is_below height x ≡ true) l

below_older :
    (height : Option ℕ) (x : Tx) (l : List Tx)
    → is_below height x ≡ true
    → IsWellDated x
    → All IsWellDated l
    → All (λ y. rank y ≤ rank x) l
    → AreBelow height l
below_older height x [] b dx d o = tt
below_older height x (y ∷ l) b dx d o = (ground arith, below_older height x l b dx d.1 o.1)

after_first {κ} : (P : Tx → Type κ) (xs ys : List Tx) → All P (xs ++ ys) → All P ys
after_first P [] ys h = h
after_first P (x ∷ xs) ys h = after_first P xs ys h.1

-- Once one transaction is below a height, so are all that follow.
below_rest :
    (height : Option ℕ) (got rest : List Tx)
    → All IsWellDated (got ++ rest)
    → IsNewestFirst (got ++ rest)
    → any (is_below height) got ≡ true
    → AreBelow height rest
below_rest height [] rest d n h = cc h
below_rest height (x ∷ got) rest d n h = elim (Bool-cases (is_below height x)) [
  | inl b ↦
      after_first (λ y. is_below height y ≡ true) got rest
        (below_older height x (got ++ rest) b d.0 d.1 n.0)
  | inr b ↦ below_rest height got rest d.1 n.1 (ground arith)
]

no_height :
    (l : List Tx)
    → All IsWellDated l
    → last_height (find is_confirmed l) ≡ none
    → last_txid (find is_confirmed l) ≡ none
no_height [] d e = refl
no_height (x ∷ l) d e = ground (arith, no_height l d.1)

no_limit :
    (txid height : Option ℕ)
    → txid ≡ none
    → height ≡ none
    → (not (is_none txid) || not (is_none height)) ≡ true
    → ⊥
no_limit txid height e f h = ground arith

IsConfirmed-below :
    (height : Option ℕ) (x : Tx) → is_below height x ≡ true → if_confirmed (some x) ≡ some x
IsConfirmed-below height x b = ground arith

find-append :
    (j : Txid) (xs ys : List Tx)
    → in_history j (xs ++ ys) ≡ (if is_fetched xs j then in_history j xs else in_history j ys)
find-append j [] ys = refl
find-append j (x ∷ xs) ys = ground (arith, find-append j xs ys)

find-All {κ} :
    (P : Tx → Type κ) (j : Txid) (l : List Tx) (x : Tx) → All P l → in_history j l ≡ some x → P x
find-All P j [] x h e = cc e
find-All P j (y ∷ l) x h e = elim (Bool-cases (y.txid == j)) [
  | inl here ↦ let same : y ≡ x = ground arith in subst P same h.0
  | inr there ↦ find-All P j l x h.1 (ground arith)
]

module _ (t : Tracker) (history : List Tx) (dated : All IsWellDated (values t.transactions))
    (known : IsKnownPart t history) where
  asked_txid-height : newest_height t ≡ none → last_txid (last_confirmed (get_state t)) ≡ none
  unfolding last_confirmed get_state
  asked_txid-height = no_height _ (reverse-All IsWellDated _ (sort_by_time-All IsWellDated _ dated))

  -- What the fetch left out is below the newest confirmed transaction held.
  left_out :
      (all : List Tx)
      (f : Fetched
        (last_txid (last_confirmed (get_state t)))
        (newest_height t)
        (not (is_none (last_txid (last_confirmed (get_state t))))
          || not (is_none (newest_height t)))
        history
        all)
      → AreBelow (newest_height t) f.rest
  left_out all f = elim f.complete [
    | inl e ↦ subst (AreBelow (newest_height t)) (sym e) tt
    | inr (limited, txid, height) ↦ elim height [
      | inl absent ↦ absurd (no_limit _ _ (asked_txid-height absent) absent limited)
      | inr seen ↦
          below_rest (newest_height t) f.got f.rest (subst (All IsWellDated) f.split known.dated)
            (subst IsNewestFirst f.split known.newest_first) seen
    ]
  ]

  -- A transaction that was not fetched is held if it is in the history.
  not_fetched :
      (j : Txid) (got rest : List Tx)
      → history ≡ got ++ rest
      → AreBelow (newest_height t) rest
      → is_fetched got j ≡ false
      → if_confirmed (lookup j t.transactions) ≡ in_history j history
  not_fetched j got rest e below out =
      let found : in_history j history ≡ in_history j rest =
        ap (in_history j) e ∙ find-append j got rest ∙ rw out refl in
      elim (Option-cases (in_history j rest)) [
        | inr (x, at) ↦
            let b = find-All (λ y. is_below (newest_height t) y ≡ true) j rest x below at in
            let held = known.older_held j x (found ∙ at) b in
            rw (held, found ∙ at) (IsConfirmed-below (newest_height t) x b)
        | inl at ↦ elim (Option-cases (if_confirmed (lookup j t.transactions))) [
          | inl gone ↦ gone ∙ sym (found ∙ at)
          | inr (x, stays) ↦ cc (sym (known.kept j x stays) ∙ found ∙ at)
        ]
      ]

  settled_copy :
      (j : Txid) (got rest : List Tx)
      → history ≡ got ++ rest
      → AreBelow (newest_height t) rest
      → (if is_fetched (reverse got) j
          then last_copy j (reverse got) none
          else if_confirmed (lookup j t.transactions))
        ≡ in_history j history
  settled_copy j got rest e below = elim (Bool-cases (is_fetched (reverse got) j)) [
    | inl got_it ↦
        let whole : in_history j history ≡ in_history j got =
          ap (in_history j) e
          ∙ find-append j got rest
          ∙ rw (sym (any-reverse (λ x. x.txid == j) got) ∙ got_it) refl in
        rw got_it (
          subst (λ b. (if b then last_copy j (reverse got) none else none) ≡ in_history j got)
            got_it (lookup-find j got)
          ∙ sym whole)
    | inr out ↦
        rw out (not_fetched j got rest e below (sym (any-reverse (λ x. x.txid == j) got) ∙ out))
  ]

-- What a sync that asks for the newest part fetches, and what it leaves under each txid.
pub asked_again :
    {E : Type 0} (http : Http E) (hashes : Hashes) (spk : ScriptBuf) (t : Tracker)
    (history : List Tx) (fuel : ℕ) (fetch : Fetch E)
    → All IsWellDated (values t.transactions)
    → IsKnownPart t history
    → Serves http hashes spk history
    → length history + 100 ≤ 50 * fuel
    → IsFetchFrom http hashes spk fuel fetch
    → (fetched : List Tx) × (last_asked fetch t ≡ ok fetched)
      × ((j : Txid)
          → (if is_fetched fetched j
              then last_copy j fetched none
              else if_confirmed (lookup j t.transactions))
            ≡ in_history j history)
asked_again http hashes spk t history fuel fetch d known s h run =
    let txid = last_txid (last_confirmed (get_state t)) in
    let (all, e, f) =
      fetch_address_history-Fetched http hashes spk history txid (newest_height t) fuel s h in
    (
      reverse f.got,
      run txid (newest_height t) _ (e ∙ ap (λ l. some (ok l)) f.reversed),
      λ j. settled_copy t history d known j f.got f.rest f.split (left_out t history d known all f),
    )

-- Take a balanced tracker of well dated transactions, and a server that holds a history of its
-- address, newest first and well dated, in which the tracker's confirmed transactions still are, and
-- where it holds all below its newest confirmed one. A sync, though it asks for the newest part of
-- the history only, leaves under each txid what a first sync of the whole history would, with the
-- events queued before applied on top, where there is fuel for all pages.
pub lookup-sync_again :
    {E : Type 0} (http : Http E) (hashes : Hashes) (spk : ScriptBuf) (t : Tracker)
    (history : List Tx) (fuel : ℕ) (fetch : Fetch E) (j : Txid)
    → IsBalanced t
    → All IsWellDated (values t.transactions)
    → IsKnownPart t history
    → Serves http hashes spk history
    → length history + 100 ≤ 50 * fuel
    → IsFetchFrom http hashes spk fuel fetch
    → lookup j (sync_tracker fetch spk t).0.0.transactions
      ≡ last_told j t.queue (lookup j (sync_tracker fetch spk (new spk)).0.0.transactions)
lookup-sync_again http hashes spk t history fuel fetch j b d known s h run =
    let (fetched, got, settled) =
      asked_again http hashes spk t history fuel fetch d known s h run in
    lookup-sync_tracker fetch spk t fetched j b d got
    ∙ ap (last_told j t.queue)
        (settled j ∙ sym (lookup-sync_new http hashes spk history fuel fetch j s h run))
