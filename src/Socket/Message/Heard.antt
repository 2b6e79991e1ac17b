-- ===== src/Socket/Message/Heard.antt =====
-- What the message loop broadcasts for a stream, and what that says about an address.
use mwck_rs.Prelude.{
  ◌≡◌, refl, sym, ◌∙◌, ap, true, false, Option, none, some, List, [], ◌∷◌, ◌++◌, append_assoc,
  append-nil, All, All-append, Option-cases, inl, inr,
}
use mwck_rs.HashMap.{Map, lookup, IsUnique}
use mwck_rs.Text.{Str}
use mwck_rs.Esplora.{Txid, ScriptBuf, Tx}
use mwck_rs.Event.{
  AddressEvent, WebsocketEvent, ws_address_event, offline, ws_disconnected, connected, error,
}
use mwck_rs.Tracker.Held.{last_told}
use mwck_rs.Socket.Message.{
  WebsocketAddressTransactions, WebsocketResponse, notify_transations_for_spk,
  notify_spk_transactions, Parser, on_payload, on_response, handle_event, text, other, failure,
  Input, disconnect, received, Reader, on_incoming, step, run,
}
use mwck_rs.Socket.Message.Applied.{
  events_for, events_for-append, last_told-append, said, last_told-message,
}

-- What a message says about a txid of an address.
unfoldable pub said_in_response :
    Txid → ScriptBuf → Option WebsocketResponse → Option Tx → Option Tx
said_in_response j spk none old = old
said_in_response j spk (some r) old = elim r.multi_scriptpubkey_transactions [
  | none ↦ old
  | some m ↦ said j (lookup spk m) old
]

-- What the stream says about it, message after message, down to the disconnect signal.
unfoldable pub said_in_stream : Txid → ScriptBuf → Parser → List Input → Option Tx → Option Tx
said_in_stream j spk from_str [] old = old
said_in_stream j spk from_str (disconnect ∷ is) old = old
said_in_stream j spk from_str (received now (text json) ∷ is) old =
    said_in_stream j spk from_str is (said_in_response j spk (from_str json) old)
said_in_stream j spk from_str (received now other ∷ is) old = said_in_stream j spk from_str is old
said_in_stream j spk from_str (received now failure ∷ is) old = said_in_stream j spk from_str is old

-- What the message loop broadcasts.
unfoldable pub heard : Parser → List Input → List WebsocketEvent
heard from_str [] = []
heard from_str (disconnect ∷ is) = []
heard from_str (received now (text json) ∷ is) = handle_event from_str json ++ heard from_str is
heard from_str (received now other ∷ is) = heard from_str is
heard from_str (received now failure ∷ is) = heard from_str is

run-stopped :
    (from_str : Parser) (is : List Input) (m : Reader)
    → m.is_running ≡ false
    → (run from_str is m).sent ≡ m.sent
unfolding run
run-stopped from_str [] m h = refl
run-stopped from_str (i ∷ is) m h = rw h refl

run-running :
    (from_str : Parser) (i : Input) (is : List Input) (m : Reader)
    → m.is_running ≡ true
    → run from_str (i ∷ is) m ≡ run from_str is (step from_str i m)
unfolding run
run-running from_str i is m h = rw h refl

pub run-heard :
    (from_str : Parser) (is : List Input) (m : Reader)
    → m.is_running ≡ true
    → (run from_str is m).sent ≡ m.sent ++ heard from_str is
unfolding heard step on_incoming run
run-heard from_str [] m h = sym (append-nil m.sent)
run-heard from_str (disconnect ∷ is) m h =
    ap (λ r. r.sent) (run-running from_str disconnect is m h)
    ∙ run-stopped from_str is _ refl
    ∙ sym (append-nil m.sent)
run-heard from_str (received now (text json) ∷ is) m h =
    ap (λ r. r.sent) (run-running from_str (received now (text json)) is m h)
    ∙ run-heard from_str is (step from_str (received now (text json)) m) h
    ∙ append_assoc m.sent (handle_event from_str json) (heard from_str is)
run-heard from_str (received now other ∷ is) m h =
    ap (λ r. r.sent) (run-running from_str (received now other) is m h)
    ∙ run-heard from_str is (step from_str (received now other) m) h
run-heard from_str (received now failure ∷ is) m h =
    ap (λ r. r.sent) (run-running from_str (received now failure) is m h)
    ∙ run-heard from_str is (step from_str (received now failure) m) h

-- The payload of a message is a `HashMap`.
abbrev pub HasMaps : Parser → Type 0
HasMaps from_str =
    (json : Str) (m : Map WebsocketAddressTransactions)
    → from_str json ≡ some (record { multi_scriptpubkey_transactions = some m })
    → IsUnique m

last_told-handle_event :
    (from_str : Parser)
    → HasMaps from_str
    → (json : Str) (spk : ScriptBuf) (j : Txid) (old : Option Tx)
    → last_told j (events_for spk (handle_event from_str json)) old
      ≡ said_in_response j spk (from_str json) old
unfolding said_in_response handle_event on_response on_payload events_for last_told
last_told-handle_event from_str u json spk j old = elim (Option-cases (from_str json)) [
  | inl e ↦ rw e refl
  | inr (r, e) ↦ elim (Option-cases r.multi_scriptpubkey_transactions) [
    | inl f ↦ rw (e, on_response, f) refl
    | inr (m, f) ↦
        let p : from_str json ≡ some (record { multi_scriptpubkey_transactions = some m }) =
          e ∙ ap (λ o. some (record { multi_scriptpubkey_transactions = o })) f in
        last_told-message from_str json m p (u json m p) spk j old
        ∙ sym (ap (λ r. said_in_response j spk r old) p)
  ]
]

pub last_told-heard :
    (from_str : Parser)
    → HasMaps from_str
    → (is : List Input) (spk : ScriptBuf) (j : Txid) (old : Option Tx)
    → last_told j (events_for spk (heard from_str is)) old ≡ said_in_stream j spk from_str is old
unfolding heard said_in_stream events_for last_told
last_told-heard from_str u [] spk j old = refl
last_told-heard from_str u (disconnect ∷ is) spk j old = refl
last_told-heard from_str u (received now (text json) ∷ is) spk j old =
    let first = events_for spk (handle_event from_str json) in
    ap (λ es. last_told j es old)
      (events_for-append spk (handle_event from_str json) (heard from_str is))
    ∙ last_told-append j first (events_for spk (heard from_str is)) old
    ∙ ap (last_told j (events_for spk (heard from_str is)))
        (last_told-handle_event from_str u json spk j old)
    ∙ last_told-heard from_str u is spk j _
last_told-heard from_str u (received now other ∷ is) spk j old =
    last_told-heard from_str u is spk j old
last_told-heard from_str u (received now failure ∷ is) spk j old =
    last_told-heard from_str u is spk j old

-- The message loop broadcasts address events only.
abbrev pub IsAddressEvent : WebsocketEvent → Type 0
IsAddressEvent (ws_address_event e) = Unit
IsAddressEvent offline = ⊥
IsAddressEvent ws_disconnected = ⊥
IsAddressEvent connected = ⊥
IsAddressEvent error = ⊥

notify-All :
    (event : ScriptBuf → Tx → AddressEvent) (spk : ScriptBuf) (txs : List Tx)
    → All IsAddressEvent (notify_transations_for_spk event spk txs)
unfolding notify_transations_for_spk
notify-All event spk [] = tt
notify-All event spk (tx ∷ txs) = (tt, notify-All event spk txs)

payload-All :
    (m : Map WebsocketAddressTransactions) → All IsAddressEvent (notify_spk_transactions m)
unfolding notify_spk_transactions
payload-All [] = tt
payload-All ((spk, txs) ∷ m) =
    All-append IsAddressEvent _ (notify_spk_transactions m)
      (All-append IsAddressEvent _ _
        (All-append IsAddressEvent _ _ (notify-All AddressEvent.removed spk txs.removed)
          (notify-All AddressEvent.mempool spk txs.mempool))
        (notify-All AddressEvent.confirmed spk txs.confirmed))
      (payload-All m)

response-All : (r : Option WebsocketResponse) → All IsAddressEvent (on_response r)
unfolding on_response on_payload
response-All none = tt
response-All (some r) = elim (Option-cases r.multi_scriptpubkey_transactions) [
  | inl e ↦ rw (e, on_payload) tt
  | inr (m, e) ↦ rw (e, on_payload) (payload-All m)
]

pub heard-All : (from_str : Parser) (is : List Input) → All IsAddressEvent (heard from_str is)
unfolding heard handle_event
heard-All from_str [] = tt
heard-All from_str (disconnect ∷ is) = tt
heard-All from_str (received now (text json) ∷ is) =
    All-append IsAddressEvent _ _ (response-All (from_str json)) (heard-All from_str is)
heard-All from_str (received now other ∷ is) = heard-All from_str is
heard-All from_str (received now failure ∷ is) = heard-All from_str is
