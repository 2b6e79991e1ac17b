-- ===== src/Api/Fetch.antt =====
-- The loop of `fetch_address_history`, and what it returns.
use mwck_rs.Prelude.{
  ℕ, zero, suc, ◌+◌, ◌*◌, ◌≤◌, ◌≡◌, refl, sym, ◌∙◌, ap, subst, ◌⊎◌, inl, inr, Bool, true, false,
  not, ◌||◌, Option, none, some, List, [], ◌∷◌, ◌++◌, reverse, append_assoc, append-nil, arith,
  is_none, length, any, Bool-cases,
}
use mwck_rs.Esplora.{ScriptBuf, Txid, Tx}
use mwck_rs.Api.{
  ok, Http, Hashes, Progress, scripthash_txs, absorb, continues, fetch_loop, fetch_address_history,
}
use mwck_rs.Api.Server.{page, after_page, Serves, any-append}
use mwck_rs.Api.Paging.{is_txid, is_below, IsAt, Enough, not-Enough-zero, absorb-IsAt, next_Enough}

module _ (until_txid : Option Txid) (until_height : Option ℕ) (limit : Bool) where
  -- What the loop may return: the history down to some point, oldest first. If it stopped above
  -- the end of the history, it was limited, and had found both limits.
  pub record Fetched (history : List Tx) (all : List Tx) : Type 0 where
    pub got : List Tx
    pub rest : List Tx
    pub split : history ≡ got ++ rest
    pub reversed : all ≡ reverse got
    pub complete :
        (rest ≡ [])
        ⊎ ((limit ≡ true)
            × ((until_txid ≡ none) ⊎ (any (is_txid until_txid) got ≡ true))
            × ((until_height ≡ none) ⊎ (any (is_below until_height) got ≡ true)))

  stopped :
      (history rest : List Tx) (p : Progress)
      → IsAt until_txid until_height history rest p
      → continues limit p ≡ false
      → Fetched history (reverse p.all_txs)
  stopped history rest p at c = record {
    got = p.all_txs;
    rest = rest;
    split = at.split;
    reversed = refl;
    complete = ground (arith, at.finished, at.seen_txid, at.seen_height);
  }

  module _ {Error : Type 0} (http : Http Error) (hashes : Hashes) (spk : ScriptBuf)
      (history : List Tx) where
    answer :
        (n : ℕ) (rest : List Tx) (p : Progress)
        → Serves http hashes spk history
        → IsAt until_txid until_height history rest p
        → p.done ≡ false
        → scripthash_txs http hashes n spk p.last_txid none ≡ ok (page rest)
    answer n rest p s at d = elim (at.cursor d) [
      | inl (e, f) ↦
          rw (f, s.from_start n) (ap (λ l. ok (page l)) (at.split ∙ ap (λ g. g ++ rest) e))
      | inr (xs, t, e, f) ↦ rw f (
          s.from_txid n xs t rest
            (at.split ∙ ap (λ g. g ++ rest) e ∙ append_assoc xs (t ∷ []) rest))
    ]

    loop_more :
        (fuel n : ℕ) (p : Progress) (txs : List Tx)
        → continues limit p ≡ true
        → scripthash_txs http hashes n spk p.last_txid none ≡ ok txs
        → fetch_loop http hashes spk until_txid until_height limit (suc fuel) n p
          ≡ fetch_loop http hashes spk until_txid until_height limit fuel
              (n + 1)
              (absorb until_txid until_height limit p txs)
    unfolding fetch_loop
    loop_more fuel n p txs more e = ground arith

    loop_over :
        (fuel n : ℕ) (p : Progress)
        → continues limit p ≡ false
        → fetch_loop http hashes spk until_txid until_height limit (suc fuel) n p
          ≡ some (ok (reverse p.all_txs))
    unfolding fetch_loop
    loop_over fuel n p over = ground arith

    fetch_loop-Fetched :
        (fuel n : ℕ) (rest : List Tx) (p : Progress)
        → Serves http hashes spk history
        → IsAt until_txid until_height history rest p
        → Enough p.done fuel rest
        → (all : List Tx) × (fetch_loop http hashes spk until_txid until_height limit fuel n p
            ≡ some (ok all))
          × Fetched history all
    fetch_loop-Fetched zero n rest p s at h = absurd (not-Enough-zero p.done rest h)
    fetch_loop-Fetched (suc fuel) n rest p s at h = elim (Bool-cases (continues limit p)) [
      | inl more ↦
          let d : p.done ≡ false = ground arith in
          rw (loop_more fuel n p (page rest) more (answer n rest p s at d)) (
            fetch_loop-Fetched fuel (n + 1) (after_page rest)
              (absorb until_txid until_height limit p (page rest)) s
              (absorb-IsAt until_txid until_height limit history rest p at d)
              (next_Enough until_txid until_height limit fuel rest p d
                (subst (λ b. Enough b (suc fuel) rest) d h)))
      | inr over ↦ (reverse p.all_txs, loop_over fuel n p over, stopped history rest p at over)
    ]

is_none-eq : (o : Option ℕ) → is_none o ≡ true → o ≡ none
is_none-eq none e = refl
is_none-eq (some a) e = cc

-- With fuel for every page, the fetch ends with the history down to some point, oldest first. It
-- is the whole history unless a limit was given, and then it reaches to the transaction with the
-- given txid and to one confirmed below the given height, if these were given.
pub fetch_address_history-Fetched :
    {Error : Type 0} (http : Http Error) (hashes : Hashes) (spk : ScriptBuf) (history : List Tx)
    (until_txid : Option Txid) (until_height : Option ℕ) (fuel : ℕ)
    → Serves http hashes spk history
    → length history + 100 ≤ 50 * fuel
    → (all : List Tx) × (fetch_address_history http hashes spk fuel until_txid until_height
        ≡ some (ok all))
      × Fetched until_txid until_height
          (not (is_none until_txid) || not (is_none until_height))
          history
          all
unfolding fetch_address_history
fetch_address_history-Fetched http hashes spk history until_txid until_height fuel s h =
    fetch_loop-Fetched until_txid until_height _ http hashes spk history fuel 0 history _ s
      (record {
        split = refl;
        cursor = λ _. inl (refl, refl);
        finished = λ e. cc;
        seen_txid = λ e. inl (is_none-eq until_txid e);
        seen_height = λ e. inl (is_none-eq until_height e);
      })
      h

all_got :
    {history : List Tx} (got rest : List Tx) → history ≡ got ++ rest → rest ≡ [] → history ≡ got
all_got got rest e n = e ∙ ap (λ l. got ++ l) n ∙ append-nil got

-- With no limit given, the whole history is fetched, oldest first.
pub fetch-whole :
    {E : Type 0} (http : Http E) (hashes : Hashes) (spk : ScriptBuf) (history : List Tx) (fuel : ℕ)
    → Serves http hashes spk history
    → length history + 100 ≤ 50 * fuel
    → fetch_address_history http hashes spk fuel none none ≡ some (ok (reverse history))
fetch-whole http hashes spk history fuel s h =
    let (all, e, f) = fetch_address_history-Fetched http hashes spk history none none fuel s h in
    let none_left : f.rest ≡ [] = elim f.complete [ inl e ↦ e | inr limits ↦ cc (limits.0) ] in
    e
    ∙ ap (λ l. some (ok l)) (f.reversed ∙ ap reverse (sym (all_got f.got f.rest f.split none_left)))

-- The search for a height ends below it, not at it: where no confirmed transaction of the history
-- is below the given height, the whole history is fetched, however much of it is at that height.
pub fetch-at_height :
    {E : Type 0} (http : Http E) (hashes : Hashes) (spk : ScriptBuf) (history : List Tx)
    (fuel height : ℕ)
    → Serves http hashes spk history
    → length history + 100 ≤ 50 * fuel
    → any (is_below (some height)) history ≡ false
    → fetch_address_history http hashes spk fuel none (some height) ≡ some (ok (reverse history))
fetch-at_height http hashes spk history fuel height s h below =
    let (all, e, f) =
      fetch_address_history-Fetched http hashes spk history none (some height) fuel s h in
    let none_left : f.rest ≡ [] = elim f.complete [
      | inl e ↦ e
      | inr limits ↦ elim limits.2 [
        | inl absent ↦ cc absent
        | inr seen ↦ cc (
          below,
          ap (any (is_below (some height))) f.split,
          any-append (is_below (some height)) f.got f.rest,
          seen,
        )
      ]
    ] in
    e
    ∙ ap (λ l. some (ok l)) (f.reversed ∙ ap reverse (sym (all_got f.got f.rest f.split none_left)))
