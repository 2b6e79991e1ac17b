-- ===== src/Api.antt =====
-- src/api/mod.rs: paging through the REST API. The `esplora_client` and `reqwest` crates and the
-- hash are the parameters `Http` and `Hashes`.
pub mod Server
pub mod Paging
pub mod Fetch
pub mod Tests
use mwck_rs.Prelude.{
  ◌≡◌, ◌⊎◌, refl, inl, inr, ℕ, zero, suc, ◌+◌, Bool, true, false, not, ◌&&◌, ◌||◌, Option, none,
  some, List, [], ◌∷◌, ◌++◌, reverse, ◌==◌, opt_eq, opt_ltb, is_none, if◌then◌else◌, length, last?,
  any,
}
use mwck_rs.Text.{Str, codes, decimal}
use mwck_rs.Esplora.{ScriptBuf, Txid, Tx}

pub data Result {ℓ} (E : Type ℓ) (A : Type ℓ) : Type ℓ where
  ok : A → Result E A
  err : E → Result E A

pub Result-cases {ℓ} :
    {E A : Type ℓ} (r : Result E A) → ((a : A) × (r ≡ ok a)) ⊎ ((e : E) × (r ≡ err e))
Result-cases (ok a) = inl (a, refl)
Result-cases (err e) = inr (e, refl)

-- `client.url()`, and `client.get(url).send()` with its status check and its decoding, as the
-- server answers the n-th request of a call. `Error` is `esplora_client::Error`.
pub record Http (Error : Type 0) : Type 0 where
  pub url : Str
  pub get : ℕ → Str → Result Error (List Tx)

-- The hexadecimal SHA-256 of a script, and the text of a `Txid`.
pub record Hashes : Type 0 where
  pub script_hash : ScriptBuf → Str
  pub txid_text : Txid → Str

-- `page_size.unwrap_or(50)`.
abbrev pub page_size_or_default : Option ℕ → ℕ
page_size_or_default none = 50
page_size_or_default (some n) = n

-- The two `format!` calls of `scripthash_txs`.
unfoldable pub page_url : Hashes → Str → ScriptBuf → Option Txid → ℕ → Str
page_url hashes base spk none max_txs =
    base
    ++ (codes "/scripthash/"
        ++ (hashes.script_hash spk ++ (codes "/txs?max_txs=" ++ decimal max_txs)))
page_url hashes base spk (some after) max_txs =
    base
    ++ (codes "/scripthash/"
        ++ (hashes.script_hash spk
            ++ (codes "/txs?max_txs="
                ++ (decimal max_txs ++ (codes "&after_txid=" ++ hashes.txid_text after)))))

-- The local variables of `fetch_address_history` that its loop changes.
pub record Progress : Type 0 where
  pub all_txs : List Tx
  pub done : Bool
  pub found_txid : Bool
  pub found_height : Bool
  pub last_txid : Option Txid

-- `|txs| txs.last().map(|tx| tx.txid)`, which the code unwraps on a full page.
abbrev pub last_txid_of : List Tx → Option Txid
last_txid_of txs = elim (last? txs) [ none ↦ none | some tx ↦ some tx.txid ]

-- `found_height |= ...`, under its `if let`.
abbrev pub sees_height : Option ℕ → Bool → Option Tx → Bool
sees_height until_height found none = found
sees_height until_height found (some tx) =
    found || (not found && (tx.status.confirmed && opt_ltb tx.status.block_height until_height))

module _ {Error : Type 0} (http : Http Error) (hashes : Hashes) where
  unfoldable pub scripthash_txs : ℕ → ScriptBuf → Option Txid → Option ℕ → Result Error (List Tx)
  scripthash_txs request script last_seen page_size =
      http.get request (page_url hashes http.url script last_seen (page_size_or_default page_size))

-- One round of the loop, once its page is there.
unfoldable pub absorb : Option Txid → Option ℕ → Bool → Progress → List Tx → Progress
absorb until_txid until_height limit_requests p txs = record {
  all_txs = p.all_txs ++ txs;
  done = if length txs == 50 then p.done else true;
  found_txid = p.found_txid || (limit_requests && any (λ tx. opt_eq (some tx.txid) until_txid) txs);
  found_height = sees_height until_height p.found_height (last? txs);
  last_txid = if length txs == 50 then last_txid_of txs else p.last_txid;
}

abbrev pub continues : Bool → Progress → Bool
continues limit_requests p =
    not p.done && (not limit_requests || (not p.found_txid || not p.found_height))

module _ {Error : Type 0} (http : Http Error) (hashes : Hashes) (scriptpubkey : ScriptBuf) where
  module _ (until_txid : Option Txid) (until_height : Option ℕ) (limit_requests : Bool) where
    -- The `while` loop; `none` means that the fuel ran out.
    unfoldable pub fetch_loop : ℕ → ℕ → Progress → Option (Result Error (List Tx))
    fetch_loop zero request p = none
    fetch_loop (suc fuel) request p = elim (continues limit_requests p) [
      | false ↦ some (ok (reverse p.all_txs))
      | true ↦ elim (scripthash_txs http hashes request scriptpubkey p.last_txid none) [
        | err e ↦ some (err e)
        | ok txs ↦
            fetch_loop fuel (request + 1) (absorb until_txid until_height limit_requests p txs)
      ]
    ]

  unfoldable pub fetch_address_history :
      ℕ → Option Txid → Option ℕ → Option (Result Error (List Tx))
  fetch_address_history fuel until_txid until_height =
      fetch_loop until_txid until_height (not (is_none until_txid) || not (is_none until_height))
        fuel 0
        (record {
          all_txs = [];
          done = false;
          found_txid = is_none until_txid;
          found_height = is_none until_height;
          last_txid = none;
        })
