-- ===== src/BdkExt/TxGraph/Failure.antt =====
-- An error of the update of the graph is one that a call of the client has returned.
use mwck_rs.Prelude.{
  ℕ, ◌≡◌, refl, sym, ap, subst, ◌∙◌, Bool, true, false, Option, none, some, List, [], ◌∷◌, opt_ltb,
  if◌then◌else◌, inl, inr,
}
use mwck_rs.HashMap.{Map}
use mwck_rs.Esplora.{ScriptBuf, Txid}
use mwck_rs.Api.{Result, ok, err, Result-cases}
use mwck_rs.BdkExt.{insert_history, is_active, gap_end, scan}
use mwck_rs.BdkExt.Scan.{scan-step}
use mwck_rs.BdkExt.TxGraph.{
  TxGraph, TxClient, OutPoint, and_ok, scanned, insert_last, scan_keychains, fetch_statuses,
  fetch_missing, fetch_spender, fetch_outpoint, fetch_outpoints,
}

module _ {T G E : Type 0} (ops : TxGraph T G) (client : TxClient T E) where
  -- A call that has returned an error.
  pub data IsFailure (e : E) : Type 0 where
    script_failed : (spk : ScriptBuf) → client.confirmed_txs spk ≡ err e → IsFailure e
    tx_failed : (txid : Txid) → client.get_tx txid ≡ err e → IsFailure e
    status_failed : (txid : Txid) → client.get_tx_status txid ≡ err e → IsFailure e
    output_failed :
        (txid : Txid) (vout : ℕ) → client.get_output_status txid vout ≡ err e → IsFailure e

  -- A result whose error is that of a call.
  abbrev pub FailsBy : {A : Type 0} → Result E A → Type 0
  FailsBy r = (e : E) → r ≡ err e → IsFailure e

  err_inj : {A : Type 0} (x y : E) → ◌≡◌ {A = Result E A} (err x) (err y) → x ≡ y
  err_inj x y q = ap (λ r. elim r [ ok a ↦ x | err z ↦ z ]) q

  ok-FailsBy : {A : Type 0} (a : A) → FailsBy {A = A} (ok a)
  ok-FailsBy a e q = cc q

  and_ok-FailsBy :
      {A B : Type 0} (r : Result E A) (f : A → Result E B)
      → FailsBy r
      → ((a : A) → FailsBy (f a))
      → FailsBy (and_ok r f)
  and_ok-FailsBy (ok a) f h k e q = k a e q
  and_ok-FailsBy (err x) f h k e q = h e (ap (λ y. err y) (err_inj x e q))

  if-FailsBy :
      {A : Type 0} (b : Bool) (r s : Result E A)
      → FailsBy r
      → FailsBy s
      → FailsBy (if b then r else s)
  if-FailsBy true r s h k = h
  if-FailsBy false r s h k = k

  pub fetch_statuses-FailsBy : (txids : List Txid) → FailsBy (fetch_statuses ops client txids)
  unfolding fetch_statuses
  fetch_statuses-FailsBy [] = ok-FailsBy []
  fetch_statuses-FailsBy (txid ∷ txids) =
      and_ok-FailsBy (client.get_tx_status txid) _ (λ e q. status_failed txid q)
        (λ status.
          and_ok-FailsBy (fetch_statuses ops client txids) _ (fetch_statuses-FailsBy txids)
            (λ statuses. ok-FailsBy _))

  fetch_missing-FailsBy : (txid : Txid) (graph : G) → FailsBy (fetch_missing ops client txid graph)
  unfolding fetch_missing
  fetch_missing-FailsBy txid graph = if-FailsBy (ops.has_tx txid graph) _ _ (ok-FailsBy graph) (
      and_ok-FailsBy (client.get_tx txid) _ (λ e q. tx_failed txid q)
        (λ tx.
          and_ok-FailsBy (client.get_tx_status txid) _ (λ e q. status_failed txid q)
            (λ status. ok-FailsBy _)))

  fetch_spender-FailsBy :
      (status : Option (Option Txid)) (graph : G) → FailsBy (fetch_spender ops client status graph)
  unfolding fetch_spender
  fetch_spender-FailsBy none graph = ok-FailsBy graph
  fetch_spender-FailsBy (some none) graph = ok-FailsBy graph
  fetch_spender-FailsBy (some (some txid)) graph = fetch_missing-FailsBy txid graph

  pub fetch_outpoints-FailsBy :
      (outpoints : List OutPoint) (graph : G) → FailsBy (fetch_outpoints ops client outpoints graph)
  unfolding fetch_outpoints fetch_outpoint
  fetch_outpoints-FailsBy [] graph = ok-FailsBy graph
  fetch_outpoints-FailsBy (op ∷ outpoints) graph =
      and_ok-FailsBy (fetch_outpoint ops client op graph) _
        (and_ok-FailsBy (fetch_missing ops client op.txid graph) _
          (fetch_missing-FailsBy op.txid graph)
          (λ graph'.
            and_ok-FailsBy (client.get_output_status op.txid op.vout) _
              (λ e q. output_failed op.txid op.vout q)
              (λ status. fetch_spender-FailsBy status graph')))
        (λ graph'. fetch_outpoints-FailsBy outpoints graph')

  pub scan-failed :
      (stop_gap index : ℕ) (spk : ScriptBuf) (spks : List (ℕ × ScriptBuf)) (graph : G)
      (last : Option ℕ) (x : E)
      → client.confirmed_txs spk ≡ err x
      → scan (scanned ops client) client.confirmed_txs stop_gap ((index, spk) ∷ spks) graph last
        ≡ err x
  unfolding scan
  scan-failed stop_gap index spk spks graph last x failed = rw (failed, scan) refl

  scan-FailsBy :
      (stop_gap : ℕ) (spks : List (ℕ × ScriptBuf)) (graph : G) (last : Option ℕ)
      → FailsBy (scan (scanned ops client) client.confirmed_txs stop_gap spks graph last)
  unfolding scan
  scan-FailsBy stop_gap [] graph last = ok-FailsBy (graph, last)
  scan-FailsBy stop_gap ((index, spk) ∷ spks) graph last =
      elim (Result-cases (client.confirmed_txs spk)) [
        | inl (txs, got) ↦
            let last' = if is_active txs then some index else last in
            let graph' = insert_history (scanned ops client) txs graph in
            subst FailsBy
              (sym (
                scan-step (scanned ops client) client.confirmed_txs (λ _. txs) stop_gap index spk
                  spks graph last last' got refl))
              (if-FailsBy (opt_ltb (gap_end stop_gap last') (some index)) _ _
                (ok-FailsBy (graph', last')) (scan-FailsBy stop_gap spks graph' last'))
        | inr (x, failed) ↦ λ e q. script_failed spk (
            failed
            ∙ ap (λ y. err y)
                (err_inj x e (sym (scan-failed stop_gap index spk spks graph last x failed) ∙ q)))
      ]

  pub scan_keychains-FailsBy :
      (stop_gap : ℕ) (keychains : List (ℕ × List (ℕ × ScriptBuf))) (graph : G) (last : Map ℕ)
      → FailsBy (scan_keychains ops client stop_gap keychains graph last)
  unfolding scan_keychains
  scan_keychains-FailsBy stop_gap [] graph last = ok-FailsBy (graph, last)
  scan_keychains-FailsBy stop_gap ((keychain, spks) ∷ keychains) graph last =
      and_ok-FailsBy (scan (scanned ops client) client.confirmed_txs stop_gap spks graph none) _
        (scan-FailsBy stop_gap spks graph none)
        (λ r.
          scan_keychains-FailsBy stop_gap keychains r.0 (insert_last ops client keychain r.1 last))
