-- ===== src/Socket/Message/Applied.antt =====
-- What a message of the server makes an address's tracker hold.
use mwck_rs.Prelude.{
  ◌≡◌, refl, ◌∙◌, ap, subst, Bool, true, Option, none, some, List, [], ◌∷◌, ◌++◌, map, append-nil,
  any, arith, ◌==◌, if◌then◌else◌, Bool-cases, inl, inr,
}
use mwck_rs.HashMap.{Map, lookup, IsUnique}
use mwck_rs.Text.{Str}
use mwck_rs.Esplora.{Txid, ScriptBuf, Tx}
use mwck_rs.Event.{
  AddressEvent, event_spk, WebsocketEvent, ws_address_event, offline, ws_disconnected, connected,
  error,
}
use mwck_rs.Tracker.{Tracker}
use mwck_rs.Tracker.Queue.{apply_all}
use mwck_rs.Tracker.Held.{told, last_told, lookup-apply_all}
use mwck_rs.Socket.Message.{
  WebsocketAddressTransactions, notify_transations_for_spk, notify_spk_transactions, Parser,
  on_payload, on_response, handle_event,
}

-- The events for one address, which its tracker processes.
unfoldable pub events_for : ScriptBuf → List WebsocketEvent → List AddressEvent
events_for spk [] = []
events_for spk (ws_address_event e ∷ es) =
    if event_spk e == spk then e ∷ events_for spk es else events_for spk es
events_for spk (offline ∷ es) = events_for spk es
events_for spk (ws_disconnected ∷ es) = events_for spk es
events_for spk (connected ∷ es) = events_for spk es
events_for spk (error ∷ es) = events_for spk es

-- The last copy of a transaction in a list, or else what was there before.
unfoldable pub newest : Txid → List Tx → Option Tx → Option Tx
newest j [] old = old
newest j (tx ∷ txs) old = newest j txs (if tx.txid == j then some tx else old)

abbrev pub lists : Txid → List Tx → Bool
lists j txs = any (λ tx. tx.txid == j) txs

-- What a message says about one txid: a confirmed copy goes before one in the mempool, and both
-- before a removal.
unfoldable pub said : Txid → Option WebsocketAddressTransactions → Option Tx → Option Tx
said j none old = old
said j (some txs) old =
    newest j txs.confirmed (newest j txs.mempool (if lists j txs.removed then none else old))

pub events_for-append :
    (spk : ScriptBuf) (es fs : List WebsocketEvent)
    → events_for spk (es ++ fs) ≡ events_for spk es ++ events_for spk fs
unfolding events_for
events_for-append spk [] fs = refl
events_for-append spk (ws_address_event e ∷ es) fs = ground (arith, events_for-append spk es fs)
events_for-append spk (offline ∷ es) fs = events_for-append spk es fs
events_for-append spk (ws_disconnected ∷ es) fs = events_for-append spk es fs
events_for-append spk (connected ∷ es) fs = events_for-append spk es fs
events_for-append spk (error ∷ es) fs = events_for-append spk es fs

events_for-notify :
    (event : ScriptBuf → Tx → AddressEvent)
    → ((s : ScriptBuf) (tx : Tx) → event_spk (event s tx) ≡ s)
    → (spk s : ScriptBuf) (txs : List Tx)
    → events_for spk (notify_transations_for_spk event s txs)
      ≡ (if s == spk then map (event s) txs else [])
unfolding events_for notify_transations_for_spk
events_for-notify event h spk s [] = ground arith
events_for-notify event h spk s (tx ∷ txs) =
    ground (arith, h s tx, events_for-notify event h spk s txs)

-- The events for an address that the message has an entry for.
unfoldable entry_events : ScriptBuf → Option WebsocketAddressTransactions → List AddressEvent
entry_events spk none = []
entry_events spk (some txs) =
    map (AddressEvent.removed spk) txs.removed
    ++ map (AddressEvent.mempool spk) txs.mempool
    ++ map (AddressEvent.confirmed spk) txs.confirmed

abbrev if_for : Bool → (ScriptBuf → Tx → AddressEvent) → ScriptBuf → List Tx → List AddressEvent
if_for b event s txs = if b then map (event s) txs else []

abbrev at_key :
    Bool → ScriptBuf → WebsocketAddressTransactions → List AddressEvent → List AddressEvent
at_key b s txs es =
    if_for b AddressEvent.removed s txs.removed
    ++ if_for b AddressEvent.mempool s txs.mempool
    ++ if_for b AddressEvent.confirmed s txs.confirmed
    ++ es

events_for-entry :
    (spk s : ScriptBuf) (txs : WebsocketAddressTransactions) (es : List WebsocketEvent)
    → events_for spk (
        notify_transations_for_spk AddressEvent.removed s txs.removed
        ++ notify_transations_for_spk AddressEvent.mempool s txs.mempool
        ++ notify_transations_for_spk AddressEvent.confirmed s txs.confirmed
        ++ es)
      ≡ at_key (s == spk) s txs (events_for spk es)
events_for-entry spk s txs es = simp (
  events_for-append,
  events_for-notify AddressEvent.removed (λ s tx. refl),
  events_for-notify AddressEvent.mempool (λ s tx. refl),
  events_for-notify AddressEvent.confirmed (λ s tx. refl),
)

events_for-payload :
    (spk : ScriptBuf) (m : Map WebsocketAddressTransactions)
    → IsUnique m
    → events_for spk (notify_spk_transactions m) ≡ entry_events spk (lookup spk m)
unfolding notify_spk_transactions entry_events events_for
events_for-payload spk [] u = refl
events_for-payload spk ((s, txs) ∷ m) u =
    events_for-entry spk s txs (notify_spk_transactions m)
    ∙ ap (λ es. at_key (s == spk) s txs es) (events_for-payload spk m u.1)
    ∙ elim (Bool-cases (s == spk)) [
      | inl e ↦
          let q : s ≡ spk = ground arith in
          rw e (
            subst (λ k. at_key true s txs (entry_events k (lookup k m)) ≡ entry_events k (some txs))
              q (ap (λ o. at_key true s txs (entry_events s o)) u.0 ∙ append-nil _))
      | inr e ↦ rw e refl
    ]

pub last_told-append :
    (j : Txid) (es fs : List AddressEvent) (old : Option Tx)
    → last_told j (es ++ fs) old ≡ last_told j fs (last_told j es old)
unfolding last_told
last_told-append j [] fs old = refl
last_told-append j (e ∷ es) fs old = last_told-append j es fs (told j e old)

last_told-removed :
    (j : Txid) (spk : ScriptBuf) (txs : List Tx) (old : Option Tx)
    → last_told j (map (AddressEvent.removed spk) txs) old ≡ (if lists j txs then none else old)
unfolding last_told
last_told-removed j spk [] old = refl
last_told-removed j spk (tx ∷ txs) old =
    ground (arith, last_told-removed j spk txs (if tx.txid == j then none else old))

last_told-mempool :
    (j : Txid) (spk : ScriptBuf) (txs : List Tx) (old : Option Tx)
    → last_told j (map (AddressEvent.mempool spk) txs) old ≡ newest j txs old
unfolding last_told newest
last_told-mempool j spk [] old = refl
last_told-mempool j spk (tx ∷ txs) old =
    last_told-mempool j spk txs (if tx.txid == j then some tx else old)

last_told-confirmed :
    (j : Txid) (spk : ScriptBuf) (txs : List Tx) (old : Option Tx)
    → last_told j (map (AddressEvent.confirmed spk) txs) old ≡ newest j txs old
unfolding last_told newest
last_told-confirmed j spk [] old = refl
last_told-confirmed j spk (tx ∷ txs) old =
    last_told-confirmed j spk txs (if tx.txid == j then some tx else old)

last_told-entry :
    (j : Txid) (spk : ScriptBuf) (e : Option WebsocketAddressTransactions) (old : Option Tx)
    → last_told j (entry_events spk e) old ≡ said j e old
unfolding entry_events said last_told
last_told-entry j spk none old = refl
last_told-entry j spk (some txs) old =
    last_told-append j
      (map (AddressEvent.removed spk) txs.removed ++ map (AddressEvent.mempool spk) txs.mempool)
      (map (AddressEvent.confirmed spk) txs.confirmed) old
    ∙ last_told-confirmed j spk txs.confirmed _
    ∙ ap (newest j txs.confirmed) (
        last_told-append j (map (AddressEvent.removed spk) txs.removed)
          (map (AddressEvent.mempool spk) txs.mempool) old
        ∙ last_told-mempool j spk txs.mempool _
        ∙ ap (newest j txs.mempool) (last_told-removed j spk txs.removed old))

pub last_told-message :
    (from_str : Parser) (json_message : Str) (m : Map WebsocketAddressTransactions)
    → from_str json_message ≡ some (record { multi_scriptpubkey_transactions = some m })
    → IsUnique m
    → (spk : ScriptBuf) (j : Txid) (old : Option Tx)
    → last_told j (events_for spk (handle_event from_str json_message)) old
      ≡ said j (lookup spk m) old
unfolding handle_event on_response on_payload
last_told-message from_str json_message m p u spk j old =
    ap (λ r. last_told j (events_for spk (on_response r)) old) p
    ∙ ap (λ es. last_told j es old) (events_for-payload spk m u)
    ∙ last_told-entry j spk (lookup spk m) old

-- When the parser makes a message of a text that has at most one entry for an address, and the
-- tracker of an address applies the events of that text for the address in their order, it holds
-- under each txid the last confirmed copy of the address's entry, else the last one of its mempool
-- list, else nothing if the entry lists the txid as removed, else what it held before.
pub lookup-apply_message :
    (from_str : Parser) (json_message : Str) (m : Map WebsocketAddressTransactions)
    → from_str json_message ≡ some (record { multi_scriptpubkey_transactions = some m })
    → IsUnique m
    → (spk : ScriptBuf) (t : Tracker) (j : Txid)
    → lookup j (apply_all (events_for spk (handle_event from_str json_message)) t).0.transactions
      ≡ said j (lookup spk m) (lookup j t.transactions)
lookup-apply_message from_str json_message m p u spk t j =
    lookup-apply_all _ t j
    ∙ last_told-message from_str json_message m p u spk j (lookup j t.transactions)
