-- ===== src/AsyncClient.antt =====
-- src/async_client.rs: the client that takes its server from a URL, and the URLs that
-- src/wallet/mod.rs makes of the options.
mod Tests
pub mod Url
pub mod History
pub mod Delegated
use mwck_rs.Prelude.{
  ℕ, Bool, true, false, not, ◌&&◌, ◌||◌, Option, none, some, List, [], ◌∷◌, ◌++◌, ◌==◌, take_while,
  if◌then◌else◌, select,
}
use mwck_rs.Text.{Str, codes, str_eq}
use mwck_rs.Esplora.{ScriptBuf, Tx}
use mwck_rs.Api.{Result, ok, err}
use mwck_rs.Tracker.{State}
use mwck_rs.Wallet.Sync.{Error}
use mwck_rs.Event.{WebsocketEvent}
use mwck_rs.Socket.Connection.{Status}
use mwck_rs.Wallet.{Wallet, Api, get_and_watch, connect as wallet_connect}

-- `wallet::Options`.
pub record Options : Type 0 where
  pub hostname : Str
  pub secure : Bool

-- `input.splitn(3, "://")` up to its second item: the text before the first separator and, if
-- there is one, the text after it.
unfoldable pub split_once : Str → Str × Option Str
split_once [] = ([], none)
split_once (c ∷ []) = (c ∷ [], none)
split_once (c ∷ d ∷ []) = (c ∷ d ∷ [], none)
split_once (c ∷ d ∷ e ∷ s) =
    let (first, rest) = split_once (d ∷ e ∷ s) in
    if c == b':' && (d == b'/' && e == b'/') then ([], some s) else (c ∷ first, rest)

-- The second item, itself up to the next separator.
unfoldable pub second_item : Option Str → Option Str
second_item none = none
second_item (some s) = some (split_once s).0

-- `&host_part[0..end]`, to the first slash or the end.
unfoldable pub host_of : Str → Str
host_of host_part = take_while (λ c. not (c == b'/')) host_part

unfoldable pub options_of : Str → Option Str → Result Str Options
options_of scheme none = err (codes "Invalid URL")
options_of scheme (some host_part) =
    ok (record { hostname = host_of host_part; secure = str_eq scheme (codes "https") })

unfoldable pub url_to_options : Str → Result Str Options
url_to_options input =
    let (scheme, rest) = split_once input in
    if not (str_eq scheme (codes "http")) && not (str_eq scheme (codes "https"))
    then err (codes "Invalid URL")
    else options_of scheme (second_item rest)

-- The two URLs of `Wallet::new`.
unfoldable pub api_url : Options → Str
api_url o =
    codes "http"
    ++ (if o.secure then codes "s" else [])
    ++ codes "://"
    ++ o.hostname
    ++ codes "/api"

unfoldable pub ws_url : Options → Str
ws_url o =
    codes "ws"
    ++ (if o.secure then codes "s" else [])
    ++ codes "://"
    ++ o.hostname
    ++ codes "/api/v1/ws"

-- `from_url`, as the URLs of the client; none where it panics.
unfoldable pub urls : Result Str Options → Option (Str × Str)
urls (ok o) = some (api_url o, ws_url o)
urls (err e) = none

unfoldable pub from_url : Str → Option (Str × Str)
from_url url = urls (url_to_options url)

-- `Result::map` on what `get_and_watch` returns.
unfoldable pub map_state :
    {E : Type 0} {A : Type 0}
    → (State → A)
    → Option (Result (Error E) State)
    → Option (Result (Error E) A)
map_state f none = none
map_state f (some (err e)) = some (err e)
map_state f (some (ok s)) = some (ok (f s))

unfoldable pub mwck_scripthash_txs :
    {E : Type 0} → Api E → ScriptBuf → Wallet → Wallet × Option (Result (Error E) (List Tx))
mwck_scripthash_txs api script w =
    let (w', r) = get_and_watch api script w in (w', map_state (λ s. s.transactions) r)

unfoldable pub mwck_confirmed_scripthash_txs :
    {E : Type 0} → Api E → ScriptBuf → Wallet → Wallet × Option (Result (Error E) (List Tx))
mwck_confirmed_scripthash_txs api script w =
    let (w', r) = get_and_watch api script w in
    (w', map_state (λ s. select (λ tx. tx.status.confirmed) s.transactions) r)

-- `MempoolAsync::connect`
unfoldable pub connect :
    {E : Type 0}
    → Api E
    → Bool
    → List (Option Status)
    → List (Option WebsocketEvent)
    → Wallet
    → (Wallet × Bool) × Bool
connect api wait_for_connection statuses events w =
    wallet_connect api wait_for_connection statuses events w
