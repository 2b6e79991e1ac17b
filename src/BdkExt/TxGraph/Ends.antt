-- ===== src/BdkExt/TxGraph/Ends.antt =====
-- The loop over the txids ends.
use mwck_rs.Prelude.{
  ℕ, zero, suc, ◌≤◌, ◌<◌, ◌≡◌, refl, ◌∙◌, some, List, [], ◌∷◌, arith, take, drop, length, inl, inr,
}
use mwck_rs.Esplora.{Txid, TxStatus}
use mwck_rs.Api.{Result, ok, err, Result-cases}
use mwck_rs.BdkExt.{anchor_from_status}
use mwck_rs.BdkExt.TxGraph.{TxGraph, TxClient, fetch_statuses, insert_anchors, missing_of, refresh}
use mwck_rs.BdkExt.TxGraph.Refresh.{drop-length}
use mwck_rs.BdkExt.TxGraph.Failure.{IsFailure, fetch_statuses-FailsBy}
use mwck_rs.BdkExt.TxGraph.Outpoints.{IsTxGraph, Extends, insert_some_anchor-has}

module _ {T G E : Type 0} (ops : TxGraph T G) (client : TxClient T E) (txid_of : T → Txid)
    (laws : IsTxGraph ops txid_of) where
  insert_anchors-Extends :
      (statuses : List (Txid × TxStatus)) (graph : G)
      → Extends ops client txid_of laws graph (insert_anchors ops client statuses graph)
  unfolding insert_anchors
  insert_anchors-Extends [] graph j h = h
  insert_anchors-Extends ((txid, status) ∷ statuses) graph j h =
      insert_anchors-Extends statuses _ j (
        insert_some_anchor-has ops client txid_of laws j txid (anchor_from_status status) graph ∙ h)

  -- The loop over the txids ends, and what it leaves has all that was there.
  abbrev pub IsRefreshed : G → Result E G → Type 0
  IsRefreshed graph (err e) = IsFailure ops client e
  IsRefreshed graph (ok graph') = Extends ops client txid_of laws graph graph'

  IsRefreshed-Extends :
      (graph graph' : G) (r : Result E G)
      → Extends ops client txid_of laws graph graph'
      → IsRefreshed graph' r
      → IsRefreshed graph r
  IsRefreshed-Extends graph graph' (err e) x h = h
  IsRefreshed-Extends graph graph' (ok g) x h = λ j held. h j (x j held)

  -- A chunk of the loop, where the rest ends.
  chunk-ends :
      (fuel parallel : ℕ) (txids : List Txid) (graph : G) (missing : List Txid)
      → ((g : G)
          → (r : Result E G) × (refresh ops client fuel parallel (drop parallel txids) g ≡ some r)
            × IsRefreshed g r)
      → (r : Result E G) × (elim missing [
        | [] ↦ some (ok graph)
        | txid ∷ rest ↦ elim (fetch_statuses ops client (txid ∷ rest)) [
          | err e ↦ some (err e)
          | ok statuses ↦
              refresh ops client fuel parallel
                (drop parallel txids)
                (insert_anchors ops client statuses graph)
        ]
      ]
          ≡ some r)
        × IsRefreshed graph r
  chunk-ends fuel parallel txids graph [] later = (ok graph, refl, λ j held. held)
  chunk-ends fuel parallel txids graph (txid ∷ rest) later =
      elim (Result-cases (fetch_statuses ops client (txid ∷ rest))) [
        | inl (statuses, got) ↦
            let (r, e, k) = later (insert_anchors ops client statuses graph) in
            (r, rw got e, IsRefreshed-Extends graph _ r (insert_anchors-Extends statuses graph) k)
        | inr (x, failed) ↦
            (err x, rw failed refl, fetch_statuses-FailsBy ops client (txid ∷ rest) x failed)
      ]

  pub refresh-ends :
      (fuel parallel : ℕ) (txids : List Txid) (graph : G)
      → 1 ≤ parallel
      → length txids < fuel
      → (r : Result E G) × (refresh ops client fuel parallel txids graph ≡ some r)
        × IsRefreshed graph r
  unfolding refresh
  refresh-ends zero parallel txids graph p h = absurd (omega (arith, h))
  refresh-ends (suc fuel) zero txids graph p h = absurd (omega (arith, p))
  refresh-ends (suc fuel) (suc n) [] graph p h = (ok graph, refl, λ j held. held)
  refresh-ends (suc fuel) (suc n) (x ∷ xs) graph p h =
      chunk-ends fuel (suc n) (x ∷ xs) graph (missing_of ops client (take (suc n) (x ∷ xs)) graph)
        (λ g. refresh-ends fuel (suc n) (drop n xs) g p (omega (arith, drop-length n xs, h)))
