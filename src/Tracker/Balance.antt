-- ===== src/Tracker/Balance.antt =====
-- src/wallet/address/mod.rs: `Balance`, `Balances`, and the two loops over a transaction's inputs
-- and outputs. `u64` arithmetic wraps around, as in a release build.
pub mod Sums
use mwck_rs.Prelude.{
  ℕ, ◌+◌, ◌-◌, ◌%◌, ◌^◌, Bool, true, false, Option, none, some, List, [], ◌∷◌, ◌==◌, leb,
  if◌then◌else◌,
}
use mwck_rs.Prelude.Int.{ℤ, pos, negsuc}
use mwck_rs.Esplora.{ScriptBuf, PrevOut, Vin, Vout}

abbrev pub u64_mod : ℕ
u64_mod = 2 ^ 64

-- `a += b` and `a -= b` on `u64`.
unfoldable pub add64 : ℕ → ℕ → ℕ
add64 a b = (a + b) % u64_mod

unfoldable pub sub64 : ℕ → ℕ → ℕ
sub64 a b = (a + (u64_mod - b % u64_mod)) % u64_mod

pub record Balance : Type 0 where
  pub funded : ℕ
  pub spent : ℕ

abbrev pub new_balance : Balance
new_balance = record { funded = 0; spent = 0 }

-- `x as i64` for a `u64` x: the bit pattern read in two's complement.
unfoldable pub as_i64 : ℕ → ℤ
as_i64 x = if leb (2 ^ 63) x then negsuc (u64_mod - x - 1) else pos x

-- `-x` on `i64`, which wraps at the least value.
unfoldable pub neg_i64 : ℤ → ℤ
neg_i64 (pos x) = if x == 0 then pos 0 else negsuc (x - 1)
neg_i64 (negsuc x) = if x == 2 ^ 63 - 1 then negsuc x else pos (x + 1)

-- `Balance::get`.
unfoldable pub get : Balance → ℤ
get b =
    if leb b.spent b.funded
    then as_i64 (b.funded - b.spent)
    else neg_i64 (as_i64 (b.spent - b.funded))

pub record Balances : Type 0 where
  pub mempool : Balance
  pub confirmed : Balance

abbrev pub new_balances : Balances
new_balances = record { mempool = new_balance; confirmed = new_balance }

-- `Balances::total`.
unfoldable pub total : Balances → Balance
total b = record {
  funded = add64 b.mempool.funded b.confirmed.funded;
  spent = add64 b.mempool.spent b.confirmed.spent;
}

-- `self.balance.confirmed.spent += value`, or of `mempool`; `op` is `add64` or `sub64`.
unfoldable pub apply_spent : (ℕ → ℕ → ℕ) → Bool → ℕ → Balances → Balances
apply_spent op true value b = record b {
  confirmed = record b.confirmed { spent = op b.confirmed.spent value };
}
apply_spent op false value b = record b {
  mempool = record b.mempool { spent = op b.mempool.spent value };
}

unfoldable pub apply_funded : (ℕ → ℕ → ℕ) → Bool → ℕ → Balances → Balances
apply_funded op true value b = record b {
  confirmed = record b.confirmed { funded = op b.confirmed.funded value };
}
apply_funded op false value b = record b {
  mempool = record b.mempool { funded = op b.mempool.funded value };
}

-- One input: `if let Some(prevout)`, and the test of the scriptpubkey.
unfoldable pub apply_prevout : (ℕ → ℕ → ℕ) → ScriptBuf → Bool → Option PrevOut → Balances → Balances
apply_prevout op spk confirmed none b = b
apply_prevout op spk confirmed (some p) b =
    if p.scriptpubkey == spk then apply_spent op confirmed p.value b else b

-- `for vin in &tx.vin`.
unfoldable pub apply_vins : (ℕ → ℕ → ℕ) → ScriptBuf → Bool → List Vin → Balances → Balances
apply_vins op spk confirmed [] b = b
apply_vins op spk confirmed (vin ∷ vins) b =
    apply_vins op spk confirmed vins (apply_prevout op spk confirmed vin.prevout b)

-- `for vout in &tx.vout`.
unfoldable pub apply_vouts : (ℕ → ℕ → ℕ) → ScriptBuf → Bool → List Vout → Balances → Balances
apply_vouts op spk confirmed [] b = b
apply_vouts op spk confirmed (vout ∷ vouts) b =
    apply_vouts op spk confirmed vouts
      (if vout.scriptpubkey == spk then apply_funded op confirmed vout.value b else b)
