-- ===== src/Tracker/Held.antt =====
-- Which transactions a tracker holds after a list of events.
use mwck_rs.Prelude.{◌≡◌, refl, ◌∙◌, Option, none, some, List, [], ◌∷◌, ◌==◌, if◌then◌else◌}
use mwck_rs.HashMap.{lookup}
use mwck_rs.Esplora.{Txid, Tx}
use mwck_rs.Event.{AddressEvent}
use mwck_rs.Tracker.Ledger.{lookup-add_transaction, lookup-remove_transaction}
use mwck_rs.Tracker.Queue.{apply_all}
use mwck_rs.Tracker.{Tracker, apply_event}

-- The copy that stands under a txid after one event, given the copy before it.
abbrev pub told : Txid → AddressEvent → Option Tx → Option Tx
told j (AddressEvent.removed s tx) old = if tx.txid == j then none else old
told j (AddressEvent.mempool s tx) old = if tx.txid == j then some tx else old
told j (AddressEvent.confirmed s tx) old = if tx.txid == j then some tx else old

-- The last event about a txid settles what is held under it.
unfoldable pub last_told : Txid → List AddressEvent → Option Tx → Option Tx
last_told j [] old = old
last_told j (e ∷ es) old = last_told j es (told j e old)

pub lookup-apply_event :
    (e : AddressEvent) (t : Tracker) (j : Txid)
    → lookup j (apply_event e t).0.transactions ≡ told j e (lookup j t.transactions)
unfolding apply_event
lookup-apply_event (AddressEvent.removed s tx) t j = lookup-remove_transaction tx.txid t j
lookup-apply_event (AddressEvent.mempool s tx) t j = lookup-add_transaction tx t j
lookup-apply_event (AddressEvent.confirmed s tx) t j = lookup-add_transaction tx t j

-- What is held under each txid is what the last event about it said, or what was held before.
pub lookup-apply_all :
    (es : List AddressEvent) (t : Tracker) (j : Txid)
    → lookup j (apply_all es t).0.transactions ≡ last_told j es (lookup j t.transactions)
unfolding apply_all last_told
lookup-apply_all [] t j = refl
lookup-apply_all (e ∷ es) t j =
    lookup-apply_all es (apply_event e t).0 j ∙ rw (lookup-apply_event e t j)
