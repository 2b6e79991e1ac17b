-- ===== src/Socket/Message.antt =====
-- src/socket/message.rs: the loop that reads the websocket and broadcasts what it says about
-- addresses. The parser of messages, `serde_json::from_str`, is a parameter.
pub mod Applied
pub mod Heard
use mwck_rs.Prelude.{
  ℕ, ◌+◌, Bool, true, false, Option, none, some, List, [], ◌∷◌, ◌++◌, map, if◌then◌else◌,
}
use mwck_rs.HashMap.{Map}
use mwck_rs.Text.{Str}
use mwck_rs.Esplora.{ScriptBuf, Tx}
use mwck_rs.Event.{AddressEvent, WebsocketEvent, ws_address_event}

pub record WebsocketAddressTransactions : Type 0 where
  pub mempool : List Tx
  pub confirmed : List Tx
  pub removed : List Tx

pub record WebsocketResponse : Type 0 where
  pub multi_scriptpubkey_transactions : Option (Map WebsocketAddressTransactions)

-- What the loop has broadcast, and sent on the disconnect channel.
pub record Reader : Type 0 where
  pub last_response : ℕ
  pub sent : List WebsocketEvent
  pub disconnects : ℕ
  pub is_running : Bool

unfoldable pub notify_transations_for_spk :
    (ScriptBuf → Tx → AddressEvent) → ScriptBuf → List Tx → List WebsocketEvent
notify_transations_for_spk event spk txs = map (λ tx. ws_address_event (event spk tx)) txs

unfoldable pub notify_spk_transactions : Map WebsocketAddressTransactions → List WebsocketEvent
notify_spk_transactions [] = []
notify_spk_transactions ((spk, txs) ∷ m) =
    notify_transations_for_spk AddressEvent.removed spk txs.removed
    ++ notify_transations_for_spk AddressEvent.mempool spk txs.mempool
    ++ notify_transations_for_spk AddressEvent.confirmed spk txs.confirmed
    ++ notify_spk_transactions m

-- What the parser makes of a message; none is a syntax error.
abbrev pub Parser : Type 0
Parser = Str → Option WebsocketResponse

unfoldable pub on_payload : Option (Map WebsocketAddressTransactions) → List WebsocketEvent
on_payload none = []
on_payload (some payload) = notify_spk_transactions payload

unfoldable pub on_response : Option WebsocketResponse → List WebsocketEvent
on_response none = []
on_response (some message) = on_payload message.multi_scriptpubkey_transactions

unfoldable pub handle_event : Parser → Str → List WebsocketEvent
handle_event from_str json_message = on_response (from_str json_message)

-- What the stream yields: a text, another kind of message, or an error.
pub data Incoming : Type 0 where
  text : Str → Incoming
  other failure : Incoming

-- What the `select!` of a round takes: the disconnect signal, or a message, with the time.
pub data Input : Type 0 where
  disconnect : Input
  received : ℕ → Incoming → Input

unfoldable pub on_incoming : Parser → Incoming → Reader → Reader
on_incoming from_str (text json) m = record m { sent = m.sent ++ handle_event from_str json }
on_incoming from_str failure m = record m { disconnects = m.disconnects + 1 }
on_incoming from_str other m = m

unfoldable pub step : Parser → Input → Reader → Reader
step from_str disconnect m = record m { is_running = false }
step from_str (received now msg) m = on_incoming from_str msg (record m { last_response = now })

unfoldable pub run : Parser → List Input → Reader → Reader
run from_str [] m = m
run from_str (i ∷ is) m =
    let rest = run from_str is (step from_str i m) in if m.is_running then rest else m
