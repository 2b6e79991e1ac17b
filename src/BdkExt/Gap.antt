-- ===== src/BdkExt/Gap.antt =====
-- The scan of a keychain against a count of the idle scripts in a row.
use mwck_rs.Prelude.{
  ℕ, ◌+◌, ◌^◌, ◌≤◌, ◌<◌, ◌≡◌, refl, ◌∙◌, true, false, none, some, List, [], ◌∷◌, arith, ◌==◌,
  opt_ltb, length, if◌then◌else◌, Bool-cases, inl, inr,
}
use mwck_rs.Esplora.{ScriptBuf, Tx}
use mwck_rs.Api.{Result, ok}
use mwck_rs.BdkExt.{Graph, insert_history, gap_end, is_active, scan}
use mwck_rs.BdkExt.Scan.{enumerate, IsScanned, scan-step, scan-nil}

module _ {G E : Type 0} (ops : Graph G) (confirmed_txs : ScriptBuf → Result E (List Tx))
    (history : ScriptBuf → List Tx) where
  -- The last script with transactions that is reached over no more than `gap` idle scripts in a
  -- row: `i` is the next script, `a` the last active one, `run` the number of idle ones since.
  unfoldable pub last_reached : ℕ → ℕ → ℕ → ℕ → List ScriptBuf → ℕ
  last_reached gap i a run [] = a
  last_reached gap i a run (spk ∷ spks) =
      let after_active = last_reached gap (i + 1) i 0 spks in
      let after_idle = last_reached gap (i + 1) a (run + 1) spks in
      if is_active (history spk) then after_active else (if run == gap then a else after_idle)

  -- The index has passed the gap exactly where this is the idle script too many.
  passes-gap :
      (gap i a run : ℕ)
      → a + run + 1 ≡ i
      → run ≤ gap
      → i + gap < 2 ^ 32
      → opt_ltb (gap_end gap (some a)) (some i) ≡ (run == gap)
  unfolding gap_end
  passes-gap gap i a run e h b = ground arith

  stays-active : (gap i : ℕ) → i + gap < 2 ^ 32 → opt_ltb (gap_end gap (some i)) (some i) ≡ false
  unfolding gap_end
  stays-active gap i b = ground arith

  scan-last_reached :
      ((spk : ScriptBuf) → confirmed_txs spk ≡ ok (history spk))
      → (gap i a run : ℕ) (spks : List ScriptBuf) (graph : G) → a + run + 1 ≡ i
      → run ≤ gap
      → i + length spks + gap < 2 ^ 32
      → IsScanned ops confirmed_txs history
          (scan ops confirmed_txs gap (enumerate i spks) graph (some a))
          (some (last_reached gap i a run spks))
  unfolding enumerate last_reached
  scan-last_reached h gap i a run [] graph e r b =
      (graph, scan-nil ops confirmed_txs history gap graph (some a))
  scan-last_reached h gap i a run (spk ∷ spks) graph e r b =
      let graph' = insert_history ops (history spk) graph in
      elim (Bool-cases (is_active (history spk))) [
        | inl active ↦
            let (g, q) =
              scan-last_reached h gap (i + 1) i 0 spks graph' (omega arith) (omega arith)
                (omega arith) in
            (
              g,
              scan-step ops confirmed_txs history gap i spk _ graph (some a) (some i) (h spk)
                    (rw active refl)
                  ∙ rw (stays-active gap i (omega arith), active) q,
            )
        | inr idle ↦
            let s =
              scan-step ops confirmed_txs history gap i spk (enumerate (i + 1) spks) graph (some a)
                (some a) (h spk) (rw idle refl) in
            elim (Bool-cases (run == gap)) [
              | inl full ↦
                  (graph', s ∙ rw (passes-gap gap i a run e r (omega arith), idle, full) refl)
              | inr room ↦
                  let (g, q) =
                    scan-last_reached h gap (i + 1) a (run + 1) spks graph' (omega arith)
                      (ground arith) (omega arith) in
                  (g, s ∙ rw (passes-gap gap i a run e r (omega arith), idle, room) q)
            ]
      ]

  -- Where the client answers for every script, the first script has transactions and no index and
  -- gap overflow, the scan of scripts numbered from 0 reports as the last active index that of the
  -- last script with transactions that is reached over no more than `stop_gap` idle ones in a row.
  -- So what comes after a row of `stop_gap` idle scripts is still reached, and what comes after a row of
  -- one more is not.
  pub scan-gap :
      ((spk : ScriptBuf) → confirmed_txs spk ≡ ok (history spk))
      → (stop_gap : ℕ) (spk : ScriptBuf) (spks : List ScriptBuf) (graph : G)
      → is_active (history spk) ≡ true
      → length spks + 1 + stop_gap < 2 ^ 32
      → IsScanned ops confirmed_txs history
          (scan ops confirmed_txs stop_gap (enumerate 0 (spk ∷ spks)) graph none)
          (some (last_reached stop_gap 1 0 0 spks))
  unfolding enumerate
  scan-gap h gap spk spks graph active b =
      let (g, q) =
        scan-last_reached h gap 1 0 0 spks (insert_history ops (history spk) graph) refl
          (omega arith) (omega arith) in
      (
        g,
        scan-step ops confirmed_txs history gap 0 spk _ graph none (some 0) (h spk) (rw active refl)
            ∙ rw (stays-active gap 0 (omega arith)) q,
      )
