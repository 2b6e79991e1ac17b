-- ===== src/Tracker/Runs.antt =====
-- Whole histories of calls on a tracker.
use mwck_rs.Prelude.{
  ◌+◌, ◌<◌, ◌^◌, ◌≡◌, refl, ◌∙◌, Bool, true, false, not, ◌&&◌, Option, none, some, List, [], ◌∷◌,
  ◌++◌, arith, inl, inr, Bool-cases,
}
use mwck_rs.Prelude.Int.{sub_ℕ}
use mwck_rs.HashMap.{lookup, contains_key}
use mwck_rs.Esplora.{ScriptBuf, Txid, Tx}
use mwck_rs.Event.{AddressEvent}
use mwck_rs.Tracker.Balance.{add64, total, get, as_i64, neg_i64}
use mwck_rs.Tracker.Ledger.{
  IsBalanced, held_spent, held_funded, new-IsBalanced, remove_transaction-IsBalanced,
  add_transaction-IsBalanced,
}
use mwck_rs.Tracker.Queue.{with_queue, with_loading, apply_all, set_loading_lem}
use mwck_rs.Tracker.{
  State, Tracker, new, apply_event, process_event, set_loading, remove_found, remove_transaction,
  insert_transaction, add_transaction, add_all, from,
}

-- A public call that changes a tracker.
pub data Call : Type 0 where
  process : AddressEvent → Bool → Call
  set : Bool → Call

unfoldable pub step : Call → Tracker → Tracker
step (process e realtime) t = (process_event e realtime t).0
step (set loading) t = (set_loading loading t).0

unfoldable pub run : List Call → Tracker → Tracker
run [] t = t
run (c ∷ cs) t = run cs (step c t)

pub with-IsBalanced :
    (q : List AddressEvent) (l : Bool) (t : Tracker)
    → IsBalanced t
    → IsBalanced (with_loading l (with_queue q t))
with-IsBalanced q l t b = record { keyed = b.keyed; unique = b.unique; holds = b.holds }

pub apply_event-IsBalanced :
    (e : AddressEvent) (t : Tracker) → IsBalanced t → IsBalanced (apply_event e t).0
unfolding apply_event
apply_event-IsBalanced (AddressEvent.removed s tx) t b = remove_transaction-IsBalanced tx.txid t b
apply_event-IsBalanced (AddressEvent.mempool s tx) t b = add_transaction-IsBalanced tx t b
apply_event-IsBalanced (AddressEvent.confirmed s tx) t b = add_transaction-IsBalanced tx t b

pub apply_all-IsBalanced :
    (es : List AddressEvent) (t : Tracker) → IsBalanced t → IsBalanced (apply_all es t).0
unfolding apply_all
apply_all-IsBalanced [] t b = b
apply_all-IsBalanced (e ∷ es) t b =
    apply_all-IsBalanced es (apply_event e t).0 (apply_event-IsBalanced e t b)

pub process_event-IsBalanced :
    (e : AddressEvent) (realtime : Bool) (t : Tracker)
    → IsBalanced t
    → IsBalanced (process_event e realtime t).0
unfolding process_event
process_event-IsBalanced e realtime t b = elim (Bool-cases (realtime && t.loading)) [
  | inl deferred ↦ rw deferred (with-IsBalanced (t.queue ++ e ∷ []) t.loading t b)
  | inr now ↦ rw now (apply_event-IsBalanced e t b)
]

pub set_loading-IsBalanced :
    (loading : Bool) (t : Tracker) → IsBalanced t → IsBalanced (set_loading loading t).0
set_loading-IsBalanced loading t b =
    rw set_loading_lem (elim (Bool-cases (t.loading && not loading)) [
      | inl ends ↦
          rw ends
            (with-IsBalanced [] loading (apply_all t.queue t).0 (apply_all-IsBalanced t.queue t b))
      | inr stays ↦ rw stays (with-IsBalanced t.queue loading t b)
    ])

remove-scriptpubkey :
    (txid : Txid) (t : Tracker) (o : Option Tx)
    → (remove_found t txid o).scriptpubkey ≡ t.scriptpubkey
unfolding remove_found
remove-scriptpubkey txid t none = refl
remove-scriptpubkey txid t (some tx) = refl

pub add-scriptpubkey :
    (tx : Tx) (t : Tracker) → (add_transaction tx t).scriptpubkey ≡ t.scriptpubkey
unfolding add_transaction insert_transaction remove_transaction
add-scriptpubkey tx t = elim (Bool-cases (contains_key tx.txid t.transactions)) [
  | inl held ↦ rw held (remove-scriptpubkey tx.txid t (lookup tx.txid t.transactions))
  | inr new_one ↦ rw new_one
]

apply_event-scriptpubkey :
    (e : AddressEvent) (t : Tracker) → (apply_event e t).0.scriptpubkey ≡ t.scriptpubkey
unfolding apply_event remove_transaction
apply_event-scriptpubkey (AddressEvent.removed s tx) t =
    remove-scriptpubkey tx.txid t (lookup tx.txid t.transactions)
apply_event-scriptpubkey (AddressEvent.mempool s tx) t = add-scriptpubkey tx t
apply_event-scriptpubkey (AddressEvent.confirmed s tx) t = add-scriptpubkey tx t

pub apply_all-scriptpubkey :
    (es : List AddressEvent) (t : Tracker) → (apply_all es t).0.scriptpubkey ≡ t.scriptpubkey
unfolding apply_all
apply_all-scriptpubkey [] t = refl
apply_all-scriptpubkey (e ∷ es) t =
    apply_all-scriptpubkey es (apply_event e t).0 ∙ apply_event-scriptpubkey e t

pub process_event-scriptpubkey :
    (e : AddressEvent) (realtime : Bool) (t : Tracker)
    → (process_event e realtime t).0.scriptpubkey ≡ t.scriptpubkey
unfolding process_event
process_event-scriptpubkey e realtime t = elim (Bool-cases (realtime && t.loading)) [
  | inl deferred ↦ rw deferred
  | inr now ↦ rw now (apply_event-scriptpubkey e t)
]

step-IsBalanced : (c : Call) (t : Tracker) → IsBalanced t → IsBalanced (step c t)
unfolding step
step-IsBalanced (process e realtime) t b = process_event-IsBalanced e realtime t b
step-IsBalanced (set loading) t b = set_loading-IsBalanced loading t b

run-IsBalanced : (cs : List Call) (t : Tracker) → IsBalanced t → IsBalanced (run cs t)
unfolding run
run-IsBalanced [] t b = b
run-IsBalanced (c ∷ cs) t b = run-IsBalanced cs (step c t) (step-IsBalanced c t b)

-- A new tracker is balanced after every history of calls.
pub run-new-IsBalanced : (spk : ScriptBuf) (cs : List Call) → IsBalanced (run cs (new spk))
run-new-IsBalanced spk cs = run-IsBalanced cs (new spk) (new-IsBalanced spk)

add_all-IsBalanced : (txs : List Tx) (t : Tracker) → IsBalanced t → IsBalanced (add_all txs t)
unfolding add_all
add_all-IsBalanced [] t b = b
add_all-IsBalanced (tx ∷ txs) t b =
    add_all-IsBalanced txs (add_transaction tx t) (add_transaction-IsBalanced tx t b)

-- So is a tracker restored from a state, whatever balance that state claims.
pub from-IsBalanced : (s : State) → IsBalanced (from s)
unfolding from
from-IsBalanced s =
    add_all-IsBalanced s.transactions (new s.scriptpubkey) (new-IsBalanced s.scriptpubkey)

-- Where what the held transactions pay and what they spend are below 2^63, the net of the total
-- balance is the first less the second, as a signed number.
pub get-total :
    (t : Tracker)
    → IsBalanced t
    → let spk = t.scriptpubkey in
      let funded = held_funded spk t.transactions false + held_funded spk t.transactions true in
      let spent = held_spent spk t.transactions false + held_spent spk t.transactions true in
      funded < 2 ^ 63 → spent < 2 ^ 63 → get (total t.balance) ≡ sub_ℕ funded spent
unfolding total get add64 as_i64 neg_i64
get-total t b f s = ground (arith, b.holds)
