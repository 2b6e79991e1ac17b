-- ===== src/BdkExt/Scan.antt =====
-- How far the scan of a keychain looks.
use mwck_rs.Prelude.{
  ℕ, ◌+◌, ◌-◌, ◌^◌, ◌≤◌, ◌<◌, ◌≡◌, refl, ◌∙◌, ap, true, false, Option, none, some, List, [], ◌∷◌,
  arith, opt_ltb, length, if◌then◌else◌, Bool-cases, inl, inr,
}
use mwck_rs.Esplora.{ScriptBuf, Tx}
use mwck_rs.Api.{Result, ok}
use mwck_rs.BdkExt.{Graph, insert_history, gap_end, is_active, scan}

-- `usize::MAX`, the gap of `update_tx_graph_without_keychain`, and its indices of the scripts.
abbrev pub unlimited : ℕ
unlimited = 2 ^ 64 - 1

unfoldable pub enumerate : ℕ → List ScriptBuf → List (ℕ × ScriptBuf)
enumerate i [] = []
enumerate i (spk ∷ spks) = (i, spk) ∷ enumerate (i + 1) spks

module _ {G E : Type 0} (ops : Graph G) (confirmed_txs : ScriptBuf → Result E (List Tx))
    (history : ScriptBuf → List Tx) where
  -- The index of the first script with transactions, or this one.
  unfoldable pub first_active : ℕ → ℕ → List ScriptBuf → ℕ
  first_active other i [] = other
  first_active other i (spk ∷ spks) =
      if is_active (history spk) then i else first_active other (i + 1) spks

  -- What the scan of all scripts finds: the first active script after an active first one.
  unfoldable pub found : List ScriptBuf → Option ℕ
  found [] = none
  found (spk ∷ spks) = if is_active (history spk) then some (first_active 0 1 spks) else none

  abbrev pub IsScanned : Result E (G × Option ℕ) → Option ℕ → Type 0
  IsScanned r last = (graph : G) × (r ≡ ok (graph, last))

  pub scan-step :
      (stop_gap i : ℕ) (spk : ScriptBuf) (spks : List (ℕ × ScriptBuf)) (graph : G)
      (last last' : Option ℕ)
      → confirmed_txs spk ≡ ok (history spk)
      → (if is_active (history spk) then some i else last) ≡ last'
      → scan ops confirmed_txs stop_gap ((i, spk) ∷ spks) graph last ≡ (
          if opt_ltb (gap_end stop_gap last') (some i)
          then ok (insert_history ops (history spk) graph, last')
          else scan ops confirmed_txs stop_gap spks (insert_history ops (history spk) graph) last')
  unfolding scan
  scan-step stop_gap i spk spks graph last last' e l =
      rw (e, scan)
        (ap
          (λ x.
            if opt_ltb (gap_end stop_gap x) (some i)
            then ok (insert_history ops (history spk) graph, x)
            else scan ops confirmed_txs stop_gap spks (insert_history ops (history spk) graph) x)
          l)

  pub scan-nil :
      (stop_gap : ℕ) (graph : G) (last : Option ℕ)
      → scan ops confirmed_txs stop_gap [] graph last ≡ ok (graph, last)
  unfolding scan
  scan-nil stop_gap graph last = refl

  stop-active : (i : ℕ) → 1 ≤ i → i < 2 ^ 32 → opt_ltb (gap_end unlimited (some i)) (some i) ≡ true
  unfolding gap_end
  stop-active i h k = ground arith

  go_on-zero : (i : ℕ) → i < 2 ^ 32 → opt_ltb (gap_end unlimited (some 0)) (some i) ≡ false
  unfolding gap_end
  go_on-zero i k = ground arith

  scan-rest :
      ((spk : ScriptBuf) → confirmed_txs spk ≡ ok (history spk))
      → (i : ℕ) (spks : List ScriptBuf) (graph : G) → 1 ≤ i
      → i + length spks ≤ 2 ^ 32
      → IsScanned
          (scan ops confirmed_txs unlimited (enumerate i spks) graph (some 0))
          (some (first_active 0 i spks))
  unfolding enumerate first_active
  scan-rest h i [] graph one bound = (graph, scan-nil unlimited graph (some 0))
  scan-rest h i (spk ∷ spks) graph one bound = elim (Bool-cases (is_active (history spk))) [
    | inl active ↦ (
      insert_history ops (history spk) graph,
      scan-step unlimited i spk _ graph (some 0) (some i) (h spk) (rw active refl)
          ∙ rw (stop-active i one (omega arith), active) refl,
    )
    | inr idle ↦
        let (g, e) =
          scan-rest h (i + 1) spks (insert_history ops (history spk) graph) (omega arith)
            (omega arith) in
        (
          g,
          scan-step unlimited i spk _ graph (some 0) (some 0) (h spk) (rw idle refl)
              ∙ rw (go_on-zero i (omega arith), idle) e,
        )
  ]

  -- Where the client answers for every script, the scan of at most 2^32 scripts numbered from 0 with
  -- the largest gap reports as the last active index that of the second script with transactions,
  -- whatever follows it, or 0 if only the first script has some; and none, whatever follows, if the
  -- first script has none.
  pub scan-unlimited :
      ((spk : ScriptBuf) → confirmed_txs spk ≡ ok (history spk))
      → (spks : List ScriptBuf) (graph : G) → length spks ≤ 2 ^ 32
      → IsScanned (scan ops confirmed_txs unlimited (enumerate 0 spks) graph none) (found spks)
  unfolding enumerate found gap_end
  scan-unlimited h [] graph bound = (graph, scan-nil unlimited graph none)
  scan-unlimited h (spk ∷ spks) graph bound = elim (Bool-cases (is_active (history spk))) [
    | inl active ↦
        let (g, e) =
          scan-rest h 1 spks (insert_history ops (history spk) graph) (omega arith) (omega arith) in
        (g, scan-step unlimited 0 spk _ graph none (some 0) (h spk) (rw active refl) ∙ rw active e)
    | inr idle ↦ (
      insert_history ops (history spk) graph,
      scan-step unlimited 0 spk _ graph none none (h spk) (rw idle refl) ∙ rw idle refl,
    )
  ]
