-- ===== src/WalletProgram/Outcome.antt =====
-- What the program leaves behind, however it ends.
use mwck_rs.Prelude.{
  ℕ, ◌≡◌, ◌≢◌, refl, sym, ap, ◌<◌, ◌≤◌, ◌⊎◌, inl, inr, Bool, true, false, Option, none, some, List,
  [], ◌∷◌, ◌++◌, arith, ltb, Bool-cases,
}
use mwck_rs.HashMap.{Map}
use mwck_rs.Esplora.{ScriptBuf}
use mwck_rs.Api.{Result, ok, err}
use mwck_rs.Wallet.Sync.{Error}
use mwck_rs.Wallet.{Wallet}
use mwck_rs.Wallet.Store.{IsSound}
use mwck_rs.Wallet.Answers.{answer}
use mwck_rs.BdkExt.TxGraph.{TxGraph, TxClient, update_tx_graph, after_scan, after_refresh, refresh}
use mwck_rs.BdkExt.Chain.{update_local_chain}
use mwck_rs.BdkExt.Client.Fixed.{on_wallet, update_tx_graph_with-update_tx_graph}
use mwck_rs.WalletProgram.{
  LocalUpdate, Calls, Env, Ending, client_error, server_error, wallet_error, panicked, exited,
  finished, send_amount, stop_gap, parallel_requests, after_broadcast, after_sign, after_build,
  after_faucet, after_commit, after_apply, after_chain, after_graph, main,
}

-- Without single txids a unit of fuel is enough for the update of the graph.
after_scan-ends :
    {T G E : Type 0} (ops : TxGraph T G) (client : TxClient T E) (r : Result E (G × Map ℕ))
    → after_scan ops client 1 [] [] parallel_requests r ≢ none
unfolding after_scan after_refresh refresh
after_scan-ends ops client (err x) e = cc e
after_scan-ends ops client (ok p) e = cc e

update_tx_graph-ends :
    {T G E : Type 0} (ops : TxGraph T G) (client : TxClient T E)
    (keychain_spks : List (ℕ × List (ℕ × ScriptBuf)))
    → update_tx_graph ops client 1 keychain_spks [] [] stop_gap parallel_requests ≢ none
unfolding update_tx_graph
update_tx_graph-ends ops client keychain_spks = after_scan-ends ops client _

module _ {W C G T B F E : Type 0} (calls : Calls W C G T B F E) (wallet : W) (client : Wallet) where
  -- The wallet with its new address.
  abbrev at_start : W
  at_start = calls.bdk.get_address wallet

  -- The scan of all keychains, where each history is that of the client at the start.
  abbrev pub scanned_graph : Option (Result (Error E) (G × Map ℕ))
  scanned_graph =
      update_tx_graph calls.graphs
        (on_wallet calls.api calls.graphs calls.txs (answer calls.api client)) 1
        (calls.bdk.spks_of_all_keychains at_start) [] [] stop_gap parallel_requests

  abbrev pub chain_update : Option (Result (Error E) C)
  chain_update =
      update_local_chain calls.points calls.blocks (calls.bdk.latest_checkpoint at_start)
        (calls.bdk.missing_heights at_start)

  -- The wallet with both updates, as it was committed.
  abbrev pub IsSynced : W → Type 0
  IsSynced w =
      (u : LocalUpdate C G) × (w' : W) × (scanned_graph
        ≡ some (ok (u.graph, u.last_active_indices)))
      × (chain_update ≡ some (ok u.tip))
      × (calls.bdk.apply_update u at_start ≡ ok w')
      × (calls.bdk.commit w' ≡ ok w)

  -- The wallet signs a payment to the faucet, and the flag is whether it could finalise it.
  abbrev pub Signs : W → Bool → B → Type 0
  Signs w finalized psbt =
      (spk : ScriptBuf) × (built : B × W) × (calls.faucet_address ≡ ok spk)
      × (calls.bdk.build_tx spk send_amount w ≡ ok built)
      × (calls.bdk.sign built.0 built.1 ≡ ok (psbt, finalized))

  abbrev pub IsPayment : W → T → Type 0
  IsPayment w tx = (psbt : B) × Signs w true psbt × (tx ≡ calls.bdk.extract_tx psbt)

  -- What a run leaves, by the way in which it ends.
  abbrev pub IsOutcome : Env W T × Ending T F E → Type 0
  IsOutcome (env, client_error e) = (env.committed ≡ []) × (env.broadcasts ≡ [])
  IsOutcome (env, wallet_error f) =
      (env.broadcasts ≡ [])
      × ((env.committed ≡ []) ⊎ ((w : W) × (env.committed ≡ w ∷ []) × IsSynced w))
  IsOutcome (env, panicked) =
      (env.broadcasts ≡ [])
      × (((env.committed ≡ []) × (chain_update ≡ none))
          ⊎ ((w : W) × (psbt : B) × (env.committed ≡ w ∷ []) × IsSynced w × Signs w false psbt))
  IsOutcome (env, exited) =
      (w : W) × (env.committed ≡ w ∷ [])
      × (env.broadcasts ≡ [])
      × IsSynced w
      × (calls.bdk.total w < send_amount)
  IsOutcome (env, server_error e) =
      (w : W) × (tx : T) × (env.committed ≡ w ∷ [])
      × (env.broadcasts ≡ tx ∷ [])
      × IsSynced w
      × (send_amount ≤ calls.bdk.total w)
      × IsPayment w tx
      × (calls.broadcast tx ≡ err e)
  IsOutcome (env, finished tx) =
      (w : W) × (env.committed ≡ w ∷ [])
      × (env.broadcasts ≡ tx ∷ [])
      × IsSynced w
      × (send_amount ≤ calls.bdk.total w)
      × IsPayment w tx
      × (calls.broadcast tx ≡ ok tt)

  module _ (w : W) (synced : IsSynced w) (rich : send_amount ≤ calls.bdk.total w) where
    after_broadcast-IsOutcome :
        (tx : T) (env : Env W T) (r : Result E (Unit {0}))
        → env.committed ≡ w ∷ []
        → env.broadcasts ≡ tx ∷ []
        → IsPayment w tx
        → calls.broadcast tx ≡ r
        → IsOutcome (after_broadcast calls tx env r)
    unfolding after_broadcast
    after_broadcast-IsOutcome tx env (err e) c b p q = (w, tx, c, b, synced, rich, p, q)
    after_broadcast-IsOutcome tx env (ok u) c b p q = (w, c, b, synced, rich, p, q)

    after_sign-IsOutcome :
        (env : Env W T) (spk : ScriptBuf) (built : B × W) (r : Result F (B × Bool))
        → env.committed ≡ w ∷ []
        → env.broadcasts ≡ []
        → calls.faucet_address ≡ ok spk
        → calls.bdk.build_tx spk send_amount w ≡ ok built
        → calls.bdk.sign built.0 built.1 ≡ r
        → IsOutcome (after_sign calls env r)
    unfolding after_sign
    after_sign-IsOutcome env spk built (err f) c b p q s = (b, inr (w, c, synced))
    after_sign-IsOutcome env spk built (ok (psbt, false)) c b p q s =
        (b, inr (w, psbt, c, synced, (spk, built, p, q, s)))
    after_sign-IsOutcome env spk built (ok (psbt, true)) c b p q s =
        after_broadcast-IsOutcome (calls.bdk.extract_tx psbt) _ _ c (rw b refl)
          (psbt, (spk, built, p, q, s), refl) refl

    after_build-IsOutcome :
        (env : Env W T) (spk : ScriptBuf) (r : Result F (B × W))
        → env.committed ≡ w ∷ []
        → env.broadcasts ≡ []
        → calls.faucet_address ≡ ok spk
        → calls.bdk.build_tx spk send_amount w ≡ r
        → IsOutcome (after_build calls env r)
    unfolding after_build
    after_build-IsOutcome env spk (err f) c b p q = (b, inr (w, c, synced))
    after_build-IsOutcome env spk (ok built) c b p q =
        after_sign-IsOutcome (record env { wallet = built.1 }) spk built _ c b p q refl

    after_faucet-IsOutcome :
        (env : Env W T) (r : Result F ScriptBuf)
        → env.wallet ≡ w
        → env.committed ≡ w ∷ []
        → env.broadcasts ≡ []
        → calls.faucet_address ≡ r
        → IsOutcome (after_faucet calls env r)
    unfolding after_faucet
    after_faucet-IsOutcome env (err f) a c b p = (b, inr (w, c, synced))
    after_faucet-IsOutcome env (ok spk) a c b p =
        after_build-IsOutcome env spk _ c b p (ap (calls.bdk.build_tx spk send_amount) (sym a))

  module _ (u : LocalUpdate C G)
      (graph_update : scanned_graph ≡ some (ok (u.graph, u.last_active_indices)))
      (tip_update : chain_update ≡ some (ok u.tip)) where
    after_commit-IsOutcome :
        (w' : W) (env : Env W T) (r : Result F W)
        → env.committed ≡ []
        → env.broadcasts ≡ []
        → calls.bdk.apply_update u at_start ≡ ok w'
        → calls.bdk.commit w' ≡ r
        → IsOutcome (after_commit calls env r)
    unfolding after_commit
    after_commit-IsOutcome w' env (err f) c b p q = (b, inl c)
    after_commit-IsOutcome w' env (ok w) c b p q =
        let synced : IsSynced w = (u, w', graph_update, tip_update, p, q) in
        let once : env.committed ++ w ∷ [] ≡ w ∷ [] = rw c refl in
        elim (Bool-cases (ltb (calls.bdk.total w) send_amount)) [
          | inl poor ↦ rw poor (w, once, b, synced, ground arith)
          | inr rich ↦ rw rich (
              after_faucet-IsOutcome w synced (ground arith) _ calls.faucet_address refl once b
                refl)
        ]

    after_apply-IsOutcome :
        (env : Env W T) (r : Result F W)
        → env.committed ≡ []
        → env.broadcasts ≡ []
        → calls.bdk.apply_update u at_start ≡ r
        → IsOutcome (after_apply calls env r)
    unfolding after_apply
    after_apply-IsOutcome env (err f) c b p = (b, inl c)
    after_apply-IsOutcome env (ok w') c b p =
        after_commit-IsOutcome w' (record env { wallet = w' }) _ c b p refl

  after_chain-IsOutcome :
      (graph : G) (last : Map ℕ) (env : Env W T) (r : Option (Result (Error E) C))
      → env.wallet ≡ at_start
      → env.committed ≡ []
      → env.broadcasts ≡ []
      → scanned_graph ≡ some (ok (graph, last))
      → chain_update ≡ r
      → IsOutcome (after_chain calls graph last env r)
  unfolding after_chain
  after_chain-IsOutcome graph last env none a c b p q = (b, inl (c, q))
  after_chain-IsOutcome graph last env (some (err e)) a c b p q = (c, b)
  after_chain-IsOutcome graph last env (some (ok tip)) a c b p q =
      let u : LocalUpdate C G = record { last_active_indices = last; graph = graph; tip = tip } in
      after_apply-IsOutcome u p q env _ c b (ap (calls.bdk.apply_update u) (sym a))

  after_graph-IsOutcome :
      (env : Env W T) (r : Option (Result (Error E) (G × Map ℕ)))
      → env.wallet ≡ at_start
      → env.committed ≡ []
      → env.broadcasts ≡ []
      → scanned_graph ≡ r
      → IsOutcome (after_graph calls (calls.bdk.latest_checkpoint at_start) env r)
  unfolding after_graph
  after_graph-IsOutcome env none a c b p = absurd (update_tx_graph-ends _ _ _ p)
  after_graph-IsOutcome env (some (err e)) a c b p = (c, b)
  after_graph-IsOutcome env (some (ok (graph, last))) a c b p =
      after_chain-IsOutcome graph last env _ a c b p (
        ap
          (λ w.
            update_local_chain calls.points calls.blocks (calls.bdk.latest_checkpoint at_start)
              (calls.bdk.missing_heights w))
          (sym a))

  -- Take a client whose wallet is sound. However the program ends, it has committed at most one wallet,
  -- and that one took in at once the scan of all its keychains with a gap of 50, each history being
  -- that of the client at the start, and the update of its chain at the heights that its graph missed
  -- before the scan. An error of the client comes before a commit. A panic comes of the update of the
  -- chain, before a commit, or of a payment that the committed wallet signs and does not finalise. A
  -- transaction is handed to the server at most once: only where the committed wallet has 5000, and
  -- it is a finalised payment of 5000 to the faucet by that wallet. The program exits only where the
  -- committed wallet has less.
  pub main-IsOutcome : IsSound client → IsOutcome (main calls wallet client)
  unfolding main
  main-IsOutcome s =
      let (e, _) =
        update_tx_graph_with-update_tx_graph calls.api calls.graphs calls.txs 1
          (calls.bdk.spks_of_all_keychains at_start) [] [] stop_gap parallel_requests client s in
      after_graph-IsOutcome _ _ refl refl refl (sym e)
