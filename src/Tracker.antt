-- ===== src/Tracker.antt =====
-- src/wallet/address/mod.rs: the tracker of one address. A method returns the new tracker, and
-- those that broadcast return the wallet events that they sent, in order, beside it.
pub mod Balance
pub mod Order
pub mod Ledger
pub mod Queue
pub mod Runs
pub mod Held
pub mod Sorting
pub mod Shown
pub mod Restore
pub mod Sent
pub mod Unordered
pub mod History
pub mod Confirmed
mod Tests
use mwck_rs.Prelude.{
  ℕ, zero, suc, ◌≡◌, Bool, true, false, not, ◌&&◌, Option, none, some, List, [], ◌∷◌, ◌++◌, ◌==◌,
  if◌then◌else◌, length,
}
use mwck_rs.HashMap.{Map, contains_key, lookup, insert, remove, values}
use mwck_rs.Esplora.{ScriptBuf, Txid, Tx}
use mwck_rs.Event.{AddressEvent, WalletEvent, address_event}
use Balance.{Balances, new_balances, add64, sub64, apply_vins, apply_vouts}
use Order.{sort_by_time}

-- What a tracker shows of itself.
pub record State : Type 0 where
  pub scriptpubkey : ScriptBuf
  pub transactions : List Tx
  pub balance : Balances

pub record Tracker : Type 0 where
  pub scriptpubkey : ScriptBuf
  pub transactions : Map Tx
  pub balance : Balances
  pub queue : List AddressEvent
  pub loading : Bool

-- A tracker and the wallet events sent on the way to it.
abbrev pub Sends : Type 0
Sends = Tracker × List WalletEvent

unfoldable pub new : ScriptBuf → Tracker
new spk = record {
  scriptpubkey = spk;
  transactions = [];
  balance = new_balances;
  queue = [];
  loading = true;
}

unfoldable pub get_state : Tracker → State
get_state t = record {
  scriptpubkey = t.scriptpubkey;
  transactions = sort_by_time (values t.transactions);
  balance = t.balance;
}

-- The part of `remove_transaction` under `if let`.
unfoldable pub remove_found : Tracker → Txid → Option Tx → Tracker
remove_found t txid none = t
remove_found t txid (some tx) = record t {
  transactions = remove txid t.transactions;
  balance =
      apply_vouts sub64 t.scriptpubkey tx.status.confirmed tx.vout
        (apply_vins sub64 t.scriptpubkey tx.status.confirmed tx.vin t.balance);
}

unfoldable pub remove_transaction : Txid → Tracker → Tracker
remove_transaction txid t = remove_found t txid (lookup txid t.transactions)

-- `add_transaction` once no older copy is left.
unfoldable pub insert_transaction : Tx → Tracker → Tracker
insert_transaction tx t = record t {
  transactions = insert tx.txid tx t.transactions;
  balance =
      apply_vouts add64 t.scriptpubkey tx.status.confirmed tx.vout
        (apply_vins add64 t.scriptpubkey tx.status.confirmed tx.vin t.balance);
}

unfoldable pub add_transaction : Tx → Tracker → Tracker
add_transaction tx t =
    insert_transaction tx
      (if contains_key tx.txid t.transactions then remove_transaction tx.txid t else t)

-- The `match` of `process_event`. The arm of `Removed` sends `Event::Confirmed`, as the code does.
unfoldable pub apply_event : AddressEvent → Tracker → Sends
apply_event (AddressEvent.mempool _ tx) t =
    (add_transaction tx t, address_event (AddressEvent.mempool t.scriptpubkey tx) ∷ [])
apply_event (AddressEvent.confirmed _ tx) t =
    (add_transaction tx t, address_event (AddressEvent.confirmed t.scriptpubkey tx) ∷ [])
apply_event (AddressEvent.removed _ tx) t =
    (remove_transaction tx.txid t, address_event (AddressEvent.confirmed t.scriptpubkey tx) ∷ [])

unfoldable pub process_event : AddressEvent → Bool → Tracker → Sends
process_event event realtime t =
    if realtime && t.loading
    then (record t { queue = t.queue ++ event ∷ [] }, [])
    else apply_event event t

-- A second call after the first, with what both sent.
abbrev pub and_then : Sends → (Tracker → Sends) → Sends
and_then (t, sent) f = let (t', more) = f t in (t', sent ++ more)

-- The `while let` loop of `drain_queue`, with fuel; it pops the queue of the tracker itself.
unfoldable pub drain_loop : ℕ → Tracker → Sends
drain_loop zero t = (t, [])
drain_loop (suc fuel) t = elim t.queue [
  | [] ↦ (t, [])
  | event ∷ rest ↦
      and_then (process_event event false (record t { queue = rest })) (drain_loop fuel)
]

unfoldable pub drain_queue : Tracker → Sends
unfolding drain_loop
drain_queue t = drain_loop (length t.queue) t

unfoldable pub set_loading : Bool → Tracker → Sends
set_loading loading t =
    let (t', sent) = (if t.loading && not loading then drain_queue t else (t, [])) in
    (record t' { loading = loading }, sent)

-- The `for` loop of `from`.
unfoldable pub add_all : List Tx → Tracker → Tracker
add_all [] t = t
add_all (tx ∷ txs) t = add_all txs (add_transaction tx t)

unfoldable pub from : State → Tracker
from s = add_all s.transactions (new s.scriptpubkey)
