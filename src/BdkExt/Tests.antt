-- ===== src/BdkExt/Tests.antt =====
-- The scan at concrete inputs.
use mwck_rs.Prelude.{ℕ, ◌≡◌, refl, none, some, List, [], ◌∷◌, arith, ◌==◌, if◌then◌else◌}
use mwck_rs.Esplora.{ScriptBuf, Tx}
use mwck_rs.Samples.{deposit}
use mwck_rs.Api.{ok}
use mwck_rs.BdkExt.{Graph, is_active, scan}
use mwck_rs.BdkExt.Gap.{last_reached, scan-gap}
use mwck_rs.BdkExt.Scan.{unlimited, enumerate, first_active, found, scan-unlimited}

-- A graph that is the list of its transactions, and scripts that all have the deposit.
abbrev listed : Graph (List Tx)
listed = record { insert_tx = λ tx graph. tx ∷ graph; insert_anchor = λ txid anchor graph. graph }

abbrev history : ScriptBuf → List Tx
history spk = deposit ∷ []

-- The scan of four scripts with transactions ends at the second.
scan-unlimited_example :
    (graph : List Tx) × (scan {E = ℕ} listed
        (λ spk. ok (history spk))
        unlimited
        (enumerate 0 (4 ∷ 5 ∷ 6 ∷ 7 ∷ []))
        []
        none
      ≡ ok (graph, some 1))
unfolding found first_active is_active
scan-unlimited_example =
    scan-unlimited listed (λ spk. ok (history spk)) history (λ spk. refl) (4 ∷ 5 ∷ 6 ∷ 7 ∷ []) []
      (omega arith)

abbrev sparse : ScriptBuf → List Tx
sparse spk = if spk == 6 then [] else deposit ∷ []

-- A gap of one idle script is passed over.
scan-gap_example :
    (graph : List Tx) × (scan {E = ℕ} listed
        (λ spk. ok (sparse spk))
        1
        (enumerate 0 (4 ∷ 6 ∷ 7 ∷ 6 ∷ 6 ∷ 7 ∷ []))
        []
        none
      ≡ ok (graph, some 2))
unfolding last_reached is_active
scan-gap_example =
    scan-gap listed (λ spk. ok (sparse spk)) sparse (λ spk. refl) 1 4 (6 ∷ 7 ∷ 6 ∷ 6 ∷ 7 ∷ []) []
      refl (omega arith)
