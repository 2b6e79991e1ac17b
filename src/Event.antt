-- ===== src/Event.antt =====
-- The events of src/wallet/address/mod.rs, src/wallet/mod.rs, src/socket/message.rs and
-- src/socket/control.rs.
use mwck_rs.Prelude.{List}
use mwck_rs.Esplora.{ScriptBuf, Tx}

-- `wallet::address::Event`.
pub data AddressEvent : Type 0 where
  removed mempool confirmed : ScriptBuf → Tx → AddressEvent

-- `wallet::Event`.
pub data WalletEvent : Type 0 where
  initializing disconnected : WalletEvent
  address_ready : ScriptBuf → WalletEvent
  address_event : AddressEvent → WalletEvent

-- The scriptpubkey that an address event names.
abbrev pub event_spk : AddressEvent → ScriptBuf
event_spk (AddressEvent.removed spk tx) = spk
event_spk (AddressEvent.mempool spk tx) = spk
event_spk (AddressEvent.confirmed spk tx) = spk

-- `socket::WebsocketEvent`, what the connection tells the wallet.
pub data WebsocketEvent : Type 0 where
  ws_address_event : AddressEvent → WebsocketEvent
  offline ws_disconnected connected error : WebsocketEvent

-- `socket::control::Event`, what a client asks of the connection.
pub data ControlEvent : Type 0 where
  close ping : ControlEvent
  subscribe unsubscribe : List ScriptBuf → ControlEvent
