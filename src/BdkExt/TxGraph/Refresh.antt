-- ===== src/BdkExt/TxGraph/Refresh.antt =====
-- The loop over the txids, chunk by chunk, against one request after the other.
use mwck_rs.Prelude.{
  ℕ, zero, suc, ◌≤◌, ◌<◌, ◌≡◌, refl, sym, ap, ◌∙◌, inl, inr, false, Option, none, some, List, [],
  ◌∷◌, ◌++◌, arith, take, drop, length, take-append-drop, All,
}
use mwck_rs.Esplora.{Txid, TxStatus}
use mwck_rs.Api.{Result, ok, err, Result-cases}
use mwck_rs.BdkExt.{anchor_from_status, ConfirmationTimeAnchor, insert_some_anchor}
use mwck_rs.BdkExt.TxGraph.{
  TxGraph, TxClient, and_ok, scanned, fetch_statuses, insert_anchors, missing_of, refresh,
}

and_ok_assoc :
    {E A B D : Type 0} (r : Result E A) (f : A → Result E B) (g : B → Result E D)
    → and_ok (and_ok r f) g ≡ and_ok r (λ a. and_ok (f a) g)
and_ok_assoc (ok a) f g = refl
and_ok_assoc (err e) f g = refl

pub take-nil : (n : ℕ) → take {A = Txid} n [] ≡ []
take-nil zero = refl
take-nil (suc n) = refl

drop-nil : (n : ℕ) → drop {A = Txid} n [] ≡ []
drop-nil zero = refl
drop-nil (suc n) = refl

pub drop-length : (n : ℕ) (txids : List Txid) → length (drop n txids) ≤ length txids
drop-length zero txids = omega arith
drop-length (suc n) [] = omega arith
drop-length (suc n) (x ∷ xs) = omega (arith, drop-length n xs)

module _ {T G E : Type 0} (ops : TxGraph T G) (client : TxClient T E) where
  -- One request after the other, each anchor inserted at once.
  unfoldable pub refresh_each : List Txid → G → Result E G
  refresh_each [] graph = ok graph
  refresh_each (txid ∷ txids) graph = and_ok (client.get_tx_status txid) (λ status.
      refresh_each txids
        (insert_some_anchor (scanned ops client) txid (anchor_from_status status) graph))

  abbrev pub Lacks : G → Txid → Type 0
  Lacks graph txid = ops.has_tx txid graph ≡ false

  refresh_each-append :
      (xs ys : List Txid) (graph : G)
      → refresh_each (xs ++ ys) graph ≡ and_ok (refresh_each xs graph) (refresh_each ys)
  unfolding refresh_each
  refresh_each-append [] ys graph = refl
  refresh_each-append (x ∷ xs) ys graph = elim (Result-cases (client.get_tx_status x)) [
    | inl (status, e) ↦ rw (e, refresh_each) (refresh_each-append xs ys _)
    | inr (f, e) ↦ rw (e, refresh_each) refl
  ]

  -- A chunk: first all statuses, then the anchors.
  refresh_each-chunk :
      (xs : List Txid) (graph : G)
      → refresh_each xs graph
        ≡ and_ok
            (fetch_statuses ops client xs)
            (λ statuses. ok (insert_anchors ops client statuses graph))
  unfolding refresh_each fetch_statuses insert_anchors
  refresh_each-chunk [] graph = refl
  refresh_each-chunk (x ∷ xs) graph = elim (Result-cases (client.get_tx_status x)) [
    | inr (f, e) ↦ rw (e, and_ok) refl
    | inl (status, e) ↦
        let graph' = insert_some_anchor (scanned ops client) x (anchor_from_status status) graph in
        rw (e, and_ok)
          (refresh_each-chunk xs graph'
            ∙ sym (
                and_ok_assoc (fetch_statuses ops client xs)
                  (λ statuses. ok ((x, status) ∷ statuses))
                  (λ statuses. ok (insert_anchors ops client statuses graph))))
  ]

  refresh_each-split :
      (n : ℕ) (txids : List Txid) (graph : G)
      → refresh_each txids graph
        ≡ and_ok
            (fetch_statuses ops client (take n txids))
            (λ statuses. refresh_each (drop n txids) (insert_anchors ops client statuses graph))
  refresh_each-split n txids graph =
      ap (λ l. refresh_each l graph) (sym (take-append-drop n txids))
      ∙ refresh_each-append (take n txids) (drop n txids) graph
      ∙ ap (λ r. and_ok r (refresh_each (drop n txids))) (refresh_each-chunk (take n txids) graph)
      ∙ and_ok_assoc (fetch_statuses ops client (take n txids))
          (λ statuses. ok (insert_anchors ops client statuses graph)) (refresh_each (drop n txids))

  take-Lacks :
      (graph : G) (n : ℕ) (txids : List Txid)
      → All (Lacks graph) txids
      → All (Lacks graph) (take n txids)
  take-Lacks graph zero txids a = tt
  take-Lacks graph (suc n) [] a = tt
  take-Lacks graph (suc n) (x ∷ xs) a = (a.0, take-Lacks graph n xs a.1)

  missing_of-Lacks :
      (graph : G) (txids : List Txid)
      → All (Lacks graph) txids
      → missing_of ops client txids graph ≡ txids
  missing_of-Lacks graph [] a = refl
  missing_of-Lacks graph (x ∷ xs) a = ground (arith, missing_of-Lacks graph xs a.1)

  module _
      (anchor_keeps : (j txid : Txid) (anchor : ConfirmationTimeAnchor) (graph : G)
        → ops.has_tx j (ops.insert_anchor txid anchor graph) ≡ ops.has_tx j graph) where
    has_tx-insert_some :
        (j txid : Txid) (a : Option ConfirmationTimeAnchor) (graph : G)
        → ops.has_tx j (insert_some_anchor (scanned ops client) txid a graph) ≡ ops.has_tx j graph
    has_tx-insert_some j txid none graph = refl
    has_tx-insert_some j txid (some a) graph = anchor_keeps j txid a graph

    has_tx-insert_anchors :
        (j : Txid) (statuses : List (Txid × TxStatus)) (graph : G)
        → ops.has_tx j (insert_anchors ops client statuses graph) ≡ ops.has_tx j graph
    unfolding insert_anchors
    has_tx-insert_anchors j [] graph = refl
    has_tx-insert_anchors j ((txid, status) ∷ statuses) graph =
        has_tx-insert_anchors j statuses _
        ∙ has_tx-insert_some j txid (anchor_from_status status) graph

    drop-Lacks :
        (statuses : List (Txid × TxStatus)) (graph : G) (n : ℕ) (txids : List Txid)
        → All (Lacks graph) txids
        → All (Lacks (insert_anchors ops client statuses graph)) (drop n txids)
    drop-Lacks statuses graph n [] a = rw (drop-nil n) tt
    drop-Lacks statuses graph zero (x ∷ xs) a =
        (has_tx-insert_anchors x statuses graph ∙ a.0, drop-Lacks statuses graph zero xs a.1)
    drop-Lacks statuses graph (suc n) (x ∷ xs) a = drop-Lacks statuses graph n xs a.1

    -- With fuel for every txid, chunks of at least one, and where inserting an anchor adds no
    -- transaction: if the graph has none of the txids, the loop over chunks ends, and gives what
    -- one request after the other gives, an error included.
    pub refresh-each :
        (fuel parallel : ℕ) (txids : List Txid) (graph : G)
        → 1 ≤ parallel
        → length txids < fuel
        → All (Lacks graph) txids
        → refresh ops client fuel parallel txids graph ≡ some (refresh_each txids graph)
    unfolding refresh refresh_each
    refresh-each zero n txids graph p h a = absurd (omega (arith, h))
    refresh-each (suc fuel) n [] graph p h a = rw (take-nil n, refresh) refl
    refresh-each (suc fuel) zero (x ∷ xs) graph p h a = absurd (omega (arith, p))
    refresh-each (suc fuel) (suc n) (x ∷ xs) graph p h a =
        let chunk = x ∷ take n xs in
        let asked = missing_of-Lacks graph chunk (a.0, take-Lacks graph n xs a.1) in
        let split = refresh_each-split (suc n) (x ∷ xs) graph in
        elim (Result-cases (fetch_statuses ops client chunk)) [
          | inr (e, failed) ↦
              rw (asked, refresh, failed) (ap some (sym (split ∙ rw (failed, and_ok) refl)))
          | inl (statuses, there) ↦
              rw (asked, refresh, there)
                (refresh-each fuel (suc n) (drop n xs) (insert_anchors ops client statuses graph) p
                    (omega (arith, h, drop-length n xs)) (drop-Lacks statuses graph n xs a.1)
                  ∙ ap some (sym (split ∙ rw (there, and_ok) refl)))
        ]
