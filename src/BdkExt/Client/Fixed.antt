-- ===== src/BdkExt/Client/Fixed.antt =====
-- The wallet under the client answers each script as it would have at the start.
use mwck_rs.Prelude.{
  ℕ, ◌≡◌, refl, sym, subst, ◌∙◌, ap, inl, inr, some, none, Option, List, [], ◌∷◌, opt_ltb,
  if◌then◌else◌, select, Bool-cases,
}
use mwck_rs.HashMap.{Map}
use mwck_rs.Esplora.{ScriptBuf, Txid, Tx}
use mwck_rs.Api.{Result, ok, err}
use mwck_rs.Tracker.{State}
use mwck_rs.Wallet.Sync.{Error}
use mwck_rs.Wallet.{Wallet, Api}
use mwck_rs.Wallet.Store.{IsSound}
use mwck_rs.Wallet.Answers.{answer, get_and_watch-answer}
use mwck_rs.AsyncClient.{mwck_confirmed_scripthash_txs, map_state}
use mwck_rs.BdkExt.{insert_history, gap_end, is_active, scan}
use mwck_rs.BdkExt.TxGraph.{
  TxGraph, TxClient, OutPoint, and_ok, scanned, insert_last, scan_keychains, after_scan,
  update_tx_graph, after_refresh, refresh, fetch_statuses, insert_anchors, fetch_outpoints,
  fetch_outpoint, fetch_missing, fetch_spender,
}
use mwck_rs.BdkExt.Client.{
  after_call, scan_with, scan_keychains_with, after_scan_with, update_tx_graph_with,
}

-- The confirmed part of a state.
abbrev pub confirmed_txs_of : State → List Tx
confirmed_txs_of s = select (λ (tx : Tx). tx.status.confirmed) s.transactions

module _ {E T G : Type 0} (api : Api E) (ops : TxGraph T G) (client : TxClient T (Error E)) where
  -- The client, where the histories are those of a wallet.
  abbrev pub on_wallet : (ScriptBuf → State) → TxClient T (Error E)
  on_wallet state = record client { confirmed_txs = λ spk. ok (confirmed_txs_of (state spk)) }

  -- A call on a wallet with these answers.
  confirmed-answer :
      (state : ScriptBuf → State) (spk : ScriptBuf) (w : Wallet)
      → IsSound w
      → ((k : ScriptBuf) → answer api w k ≡ state k)
      → (w' : Wallet) × (mwck_confirmed_scripthash_txs api spk w
          ≡ (w', some (ok (confirmed_txs_of (state spk)))))
        × IsSound w'
        × ((k : ScriptBuf) → answer api w' k ≡ state k)
  unfolding mwck_confirmed_scripthash_txs map_state
  confirmed-answer state spk w s a =
      let (w', e, s', same) = get_and_watch-answer api spk w s in
      (
        w',
        ap (λ p. (p.0, map_state confirmed_txs_of p.1)) (e ∙ ap (λ x. (w', some (ok x))) (a spk)),
        s',
        λ k. same k ∙ a k,
      )

  module _ (state : ScriptBuf → State) (stop_gap : ℕ) where
    -- What a loop on a wallet with these answers gives: a result of the loop on fixed answers.
    abbrev pub IsRun :
        {A : Type 0} → Result (Error E) A → Wallet × Option (Result (Error E) A) → Type 0
    IsRun r (w, o) = (o ≡ some r) × IsSound w × ((k : ScriptBuf) → answer api w k ≡ state k)

    after_call-IsRun :
        {A B : Type 0} (r : Result (Error E) A) (f : A → Result (Error E) B)
        (p : Wallet × Option (Result (Error E) A))
        (g : A → Wallet → Wallet × Option (Result (Error E) B))
        → IsRun r p
        → ((x : A) (w : Wallet)
            → IsSound w
            → ((k : ScriptBuf) → answer api w k ≡ state k)
            → IsRun (f x) (g x w))
        → IsRun (and_ok r f) (after_call p g)
    after_call-IsRun (ok x) f (w, o) g (e, s, a) h =
        subst (λ o. IsRun (f x) (after_call (w, o) g)) (sym e) (h x w s a)
    after_call-IsRun (err x) f (w, o) g (e, s, a) h =
        subst (λ o. IsRun (err x) (after_call (w, o) g)) (sym e) (refl, s, a)

    scan_with-IsRun :
        (spks : List (ℕ × ScriptBuf)) (graph : G) (last : Option ℕ) (w : Wallet)
        → IsSound w
        → ((k : ScriptBuf) → answer api w k ≡ state k)
        → IsRun
            (scan
              (scanned ops (on_wallet state))
              (on_wallet state).confirmed_txs
              stop_gap
              spks
              graph
              last)
            (scan_with api ops client stop_gap spks graph last w)
    unfolding scan scan_with
    scan_with-IsRun [] graph last w s a = (refl, s, a)
    scan_with-IsRun ((index, spk) ∷ spks) graph last w s a =
        let (w', e, s', a') = confirmed-answer state spk w s a in
        let txs = confirmed_txs_of (state spk) in
        let last' = if is_active txs then some index else last in
        elim (Bool-cases (opt_ltb (gap_end stop_gap last') (some index))) [
          | inl stop ↦ rw (e, stop) (refl, s', a')
          | inr go ↦
              rw (e, go)
                (scan_with-IsRun spks (insert_history (scanned ops client) txs graph) last' w' s'
                  a')
        ]

    scan_keychains_with-IsRun :
        (keychains : List (ℕ × List (ℕ × ScriptBuf))) (graph : G) (last : Map ℕ) (w : Wallet)
        → IsSound w
        → ((k : ScriptBuf) → answer api w k ≡ state k)
        → IsRun
            (scan_keychains ops (on_wallet state) stop_gap keychains graph last)
            (scan_keychains_with api ops client stop_gap keychains graph last w)
    unfolding scan_keychains scan_keychains_with insert_last
    scan_keychains_with-IsRun [] graph last w s a = (refl, s, a)
    scan_keychains_with-IsRun ((keychain, spks) ∷ keychains) graph last w s a =
        after_call-IsRun
          (scan (scanned ops (on_wallet state)) (on_wallet state).confirmed_txs stop_gap spks graph
            none)
          _ (scan_with api ops client stop_gap spks graph none w) _
          (scan_with-IsRun spks graph none w s a)
          (λ r w' s' a'.
            scan_keychains_with-IsRun keychains r.0 (insert_last ops client keychain r.1 last) w' s'
              a')

  -- What follows the scan asks for no history.
  after_scan-on_wallet :
      (state : ScriptBuf → State) (fuel : ℕ) (txids : List Txid) (outpoints : List OutPoint)
      (parallel : ℕ) (r : Result (Error E) (G × Map ℕ))
      → after_scan ops client fuel txids outpoints parallel r
        ≡ after_scan ops (on_wallet state) fuel txids outpoints parallel r
  unfolding after_scan after_refresh refresh fetch_statuses insert_anchors fetch_outpoints
      fetch_outpoint fetch_missing fetch_spender
  after_scan-on_wallet state fuel txids outpoints parallel (ok p) = refl
  after_scan-on_wallet state fuel txids outpoints parallel (err x) = refl

  -- On a sound wallet the update of the graph gives, errors and all, what it gives where each history
  -- is fixed: the confirmed part of what the wallet holds for the script at the start, or else of
  -- what a first sync gives. No call of the wallet fails or panics, and the wallet stays sound.
  pub update_tx_graph_with-update_tx_graph :
      (fuel : ℕ) (keychain_spks : List (ℕ × List (ℕ × ScriptBuf))) (txids : List Txid)
      (outpoints : List OutPoint) (stop_gap parallel_requests : ℕ) (w : Wallet)
      → IsSound w
      → let p =
          update_tx_graph_with api ops client fuel keychain_spks txids outpoints stop_gap
            parallel_requests w in
        (p.1
          ≡ update_tx_graph ops
              (on_wallet (answer api w))
              fuel
              keychain_spks
              txids
              outpoints
              stop_gap
              parallel_requests)
        × IsSound p.0
  unfolding update_tx_graph update_tx_graph_with after_scan_with
  update_tx_graph_with-update_tx_graph fuel keychain_spks txids outpoints stop_gap parallel w s =
      let (e, s', _) =
        scan_keychains_with-IsRun (answer api w) stop_gap keychain_spks ops.empty [] w s
          (λ k. refl) in
      (rw e (after_scan-on_wallet (answer api w) fuel txids outpoints _ _), rw e s')
