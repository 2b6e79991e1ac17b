-- ===== src/Api/Server.antt =====
-- The server's pages, and lists of transactions.
use mwck_rs.Prelude.{
  ℕ, zero, suc, ◌≡◌, refl, sym, ap, ◌⊎◌, inl, inr, Bool, true, false, ◌||◌, none, some, List, [],
  ◌∷◌, ◌++◌, arith, ◌==◌, length, last?, any, take, drop, take-append-drop,
}
use mwck_rs.Esplora.{ScriptBuf, Tx}
use mwck_rs.Api.{ok, Http, Hashes, scripthash_txs}

-- The page that the server gives of the transactions that are left.
unfoldable pub page : List Tx → List Tx
page rest = take 50 rest

pub after_page : List Tx → List Tx
after_page rest = drop 50 rest

pub page-split : (rest : List Tx) → rest ≡ page rest ++ after_page rest
unfolding page after_page
page-split rest = sym (take-append-drop 50 rest)

take-full-or-all :
    (n : ℕ) (l : List Tx)
    → (length (take n l) ≡ n) ⊎ ((drop n l ≡ []) × ((length (take n l) == n) ≡ false))
take-full-or-all zero l = inl refl
take-full-or-all (suc n) [] = inr (refl, ground arith)
take-full-or-all (suc n) (x ∷ l) = ground (arith, take-full-or-all n l)

pub page_cases :
    (rest : List Tx)
    → (length (page rest) ≡ 50) ⊎ ((after_page rest ≡ []) × ((length (page rest) == 50) ≡ false))
unfolding page after_page
page_cases rest = take-full-or-all 50 rest

-- The server holds one history of the address, newest first, while the call lasts. It answers with
-- its first 50 transactions, or with the 50 that follow the one that the request names.
pub record Serves {Error : Type 0} (http : Http Error) (hashes : Hashes) (spk : ScriptBuf)
    (history : List Tx) : Type 0 where
  pub from_start : (n : ℕ) → scripthash_txs http hashes n spk none none ≡ ok (page history)
  pub from_txid :
      (n : ℕ) (xs : List Tx) (t : Tx) (ys : List Tx)
      → history ≡ xs ++ t ∷ ys
      → scripthash_txs http hashes n spk (some t.txid) none ≡ ok (page ys)

pub any-append : (p : Tx → Bool) (xs ys : List Tx) → any p (xs ++ ys) ≡ (any p xs || any p ys)
any-append p [] ys = refl
any-append p (x ∷ xs) ys = ground (arith, any-append p xs ys)

pub any-last :
    (p : Tx → Bool) (xs : List Tx) (t : Tx) → last? xs ≡ some t → p t ≡ true → any p xs ≡ true
any-last p [] t e h = cc
any-last p (x ∷ []) t e h = ground arith
any-last p (x ∷ y ∷ xs) t e h = ground (arith, any-last p (y ∷ xs) t e h)

-- The last transaction of a list that has one.
pub split_last :
    (x : Tx) (l : List Tx)
    → (xs : List Tx) × (t : Tx) × (x ∷ l ≡ xs ++ t ∷ []) × (last? (x ∷ l) ≡ some t)
split_last x [] = ([], x, refl, refl)
split_last x (y ∷ l) = let (xs, t, e, f) = split_last y l in (x ∷ xs, t, ap (◌∷◌ x) e, f)
