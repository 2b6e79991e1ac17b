-- ===== src/Tracker/Balance/Sums.antt =====
-- What the two loops over a transaction do to the four counters.
use mwck_rs.Prelude.{
  ℕ, ◌+◌, ◌%◌, ◌≡◌, refl, Bool, true, false, Option, none, some, List, [], ◌∷◌, arith, ◌==◌,
  if◌then◌else◌,
}
use mwck_rs.Esplora.{ScriptBuf, PrevOut, Vin, Vout, Tx}
use mwck_rs.Tracker.Balance.{
  Balance, Balances, u64_mod, add64, sub64, apply_spent, apply_funded, apply_prevout, apply_vins,
  apply_vouts,
}

-- The counters of confirmed transactions, or of those in the mempool.
abbrev pub bucket : Bool → Balances → Balance
bucket true b = b.confirmed
bucket false b = b.mempool

-- What an input spends from the address.
abbrev pub vin_value : ScriptBuf → Option PrevOut → ℕ
vin_value spk none = 0
vin_value spk (some p) = if p.scriptpubkey == spk then p.value else 0

abbrev pub vins_value : ScriptBuf → List Vin → ℕ
vins_value spk [] = 0
vins_value spk (vin ∷ vins) = vin_value spk vin.prevout + vins_value spk vins

abbrev pub vouts_value : ScriptBuf → List Vout → ℕ
vouts_value spk [] = 0
vouts_value spk (vout ∷ vouts) =
    (if vout.scriptpubkey == spk then vout.value else 0) + vouts_value spk vouts

-- A flag as a condition on a value.
abbrev pub when : Bool → Bool → ℕ → ℕ
when true true n = n
when false false n = n
when true false n = 0
when false true n = 0

-- The counters of `b`, up to multiples of 2^64, given as sums.
pub record Holds (b : Balances) (spent funded : Bool → ℕ) : Type 0 where
  pub spent_confirmed : b.confirmed.spent ≡ spent true % u64_mod
  pub spent_mempool : b.mempool.spent ≡ spent false % u64_mod
  pub funded_confirmed : b.confirmed.funded ≡ funded true % u64_mod
  pub funded_mempool : b.mempool.funded ≡ funded false % u64_mod

vin-add :
    (spk : ScriptBuf) (c : Bool) (p : Option PrevOut) (b : Balances) (s f : Bool → ℕ)
    → Holds b s f
    → Holds (apply_prevout add64 spk c p b) (λ k. s k + when c k (vin_value spk p)) f
unfolding apply_prevout apply_spent add64
vin-add spk true none b s f h = ground arith
vin-add spk false none b s f h = ground arith
vin-add spk true (some p) b s f h = ground arith
vin-add spk false (some p) b s f h = ground arith

vout-add :
    (spk : ScriptBuf) (c : Bool) (v : Vout) (b : Balances) (s f : Bool → ℕ)
    → Holds b s f
    → Holds
        (if v.scriptpubkey == spk then apply_funded add64 c v.value b else b)
        s
        (λ k. f k + when c k (if v.scriptpubkey == spk then v.value else 0))
unfolding apply_funded add64
vout-add spk true v b s f h = ground arith
vout-add spk false v b s f h = ground arith

vin-sub :
    (spk : ScriptBuf) (c : Bool) (p : Option PrevOut) (b : Balances) (s f : Bool → ℕ)
    → Holds b (λ k. s k + when c k (vin_value spk p)) f
    → Holds (apply_prevout sub64 spk c p b) s f
unfolding apply_prevout apply_spent sub64
vin-sub spk true none b s f h = ground arith
vin-sub spk false none b s f h = ground arith
vin-sub spk true (some p) b s f h = ground arith
vin-sub spk false (some p) b s f h = ground arith

vout-sub :
    (spk : ScriptBuf) (c : Bool) (v : Vout) (b : Balances) (s f : Bool → ℕ)
    → Holds b s (λ k. f k + when c k (if v.scriptpubkey == spk then v.value else 0))
    → Holds (if v.scriptpubkey == spk then apply_funded sub64 c v.value b else b) s f
unfolding apply_funded sub64
vout-sub spk true v b s f h = ground arith
vout-sub spk false v b s f h = ground arith

-- Equal sums serve alike.
pub Holds-eq :
    (b : Balances) (s f s' f' : Bool → ℕ)
    → ((k : Bool) → s k ≡ s' k)
    → ((k : Bool) → f k ≡ f' k)
    → Holds b s f
    → Holds b s' f'
Holds-eq b s f s' f' es ef h = ground (arith, es true, es false, ef true, ef false)

when-add : (c k : Bool) (m n : ℕ) → when c k (m + n) ≡ when c k m + when c k n
when-add true true m n = refl
when-add true false m n = refl
when-add false true m n = refl
when-add false false m n = refl

vins-add :
    (spk : ScriptBuf) (c : Bool) (vins : List Vin) (b : Balances) (s f : Bool → ℕ)
    → Holds b s f
    → Holds (apply_vins add64 spk c vins b) (λ k. s k + when c k (vins_value spk vins)) f
unfolding apply_vins
vins-add spk true [] b s f h = ground arith
vins-add spk false [] b s f h = ground arith
vins-add spk c (v ∷ vins) b s f h =
    Holds-eq _ _ _ _ _ (λ k. omega (arith, when-add c k)) (λ k. refl)
      (vins-add spk c vins _ _ f (vin-add spk c v.prevout b s f h))

vouts-add :
    (spk : ScriptBuf) (c : Bool) (vouts : List Vout) (b : Balances) (s f : Bool → ℕ)
    → Holds b s f
    → Holds (apply_vouts add64 spk c vouts b) s (λ k. f k + when c k (vouts_value spk vouts))
unfolding apply_vouts
vouts-add spk true [] b s f h = ground arith
vouts-add spk false [] b s f h = ground arith
vouts-add spk c (v ∷ vouts) b s f h =
    Holds-eq _ _ _ _ _ (λ k. refl) (λ k. omega (arith, when-add c k))
      (vouts-add spk c vouts _ s _ (vout-add spk c v b s f h))

vins-sub :
    (spk : ScriptBuf) (c : Bool) (vins : List Vin) (b : Balances) (s f : Bool → ℕ)
    → Holds b (λ k. s k + when c k (vins_value spk vins)) f
    → Holds (apply_vins sub64 spk c vins b) s f
unfolding apply_vins
vins-sub spk true [] b s f h = ground arith
vins-sub spk false [] b s f h = ground arith
vins-sub spk c (v ∷ vins) b s f h = vins-sub spk c vins _ s f (
    vin-sub spk c v.prevout b (λ k. s k + when c k (vins_value spk vins)) f
      (Holds-eq b _ f _ f (λ k. omega (arith, when-add c k)) (λ k. refl) h))

vouts-sub :
    (spk : ScriptBuf) (c : Bool) (vouts : List Vout) (b : Balances) (s f : Bool → ℕ)
    → Holds b s (λ k. f k + when c k (vouts_value spk vouts))
    → Holds (apply_vouts sub64 spk c vouts b) s f
unfolding apply_vouts
vouts-sub spk true [] b s f h = ground arith
vouts-sub spk false [] b s f h = ground arith
vouts-sub spk c (v ∷ vouts) b s f h = vouts-sub spk c vouts _ s f (
    vout-sub spk c v b s (λ k. f k + when c k (vouts_value spk vouts))
      (Holds-eq b s _ s _ (λ k. refl) (λ k. omega (arith, when-add c k)) h))

-- What a transaction spends from the address and pays to it, counted where its status says.
abbrev pub tx_spent : ScriptBuf → Bool → Tx → ℕ
tx_spent spk k tx = when tx.status.confirmed k (vins_value spk tx.vin)

abbrev pub tx_funded : ScriptBuf → Bool → Tx → ℕ
tx_funded spk k tx = when tx.status.confirmed k (vouts_value spk tx.vout)

-- Both loops over a transaction add its values.
pub tx-add :
    (spk : ScriptBuf) (tx : Tx) (b : Balances) (s f : Bool → ℕ)
    → Holds b s f
    → Holds
        (apply_vouts add64 spk tx.status.confirmed tx.vout
          (apply_vins add64 spk tx.status.confirmed tx.vin b))
        (λ k. s k + tx_spent spk k tx)
        (λ k. f k + tx_funded spk k tx)
tx-add spk tx b s f h = vouts-add spk _ tx.vout _ _ f (vins-add spk _ tx.vin b s f h)

-- The loops that undo it take the same values off, whether or not a counter has wrapped around.
pub tx-sub :
    (spk : ScriptBuf) (tx : Tx) (b : Balances) (s f : Bool → ℕ)
    → Holds b (λ k. s k + tx_spent spk k tx) (λ k. f k + tx_funded spk k tx)
    → Holds
        (apply_vouts sub64 spk tx.status.confirmed tx.vout
          (apply_vins sub64 spk tx.status.confirmed tx.vin b))
        s
        f
tx-sub spk tx b s f h = vouts-sub spk _ tx.vout _ s f (vins-sub spk _ tx.vin b s _ h)
