-- ===== src/AsyncClient/Url.antt =====
-- Which server a URL leads to.
use mwck_rs.Prelude.{
  ℕ, ◌≡◌, ◌≢◌, refl, ◌∙◌, ap, Bool, true, false, ◌&&◌, some, [], ◌∷◌, ◌++◌, ◌==◌, arith,
  if◌then◌else◌, All,
}
use mwck_rs.Text.{Str, codes, str_eq}
use mwck_rs.Api.{ok}
use mwck_rs.AsyncClient.{
  split_once, second_item, host_of, options_of, url_to_options, api_url, ws_url, urls, from_url,
}

-- What follows a host: nothing, or a path that does not begin with two slashes.
abbrev pub IsPath : Str → Type 0
IsPath [] = Unit
IsPath (c ∷ []) = c ≡ b'/'
IsPath (c ∷ d ∷ s) = (c ≡ b'/') × (d ≢ b'/')

abbrev pub IsHost : Str → Type 0
IsHost host = All (λ c. c ≢ b'/') host

host_of-path : (path : Str) → IsPath path → host_of (split_once path).0 ≡ []
unfolding host_of split_once
host_of-path [] p = refl
host_of-path (c ∷ []) p = rw p refl
host_of-path (c ∷ d ∷ []) p = rw p.0 refl
host_of-path (c ∷ d ∷ e ∷ s) p = rw p.0 refl

two_slashes : Str → Bool
two_slashes [] = false
two_slashes (c ∷ []) = false
two_slashes (c ∷ d ∷ s) = c == b'/' && d == b'/'

split_once-keep :
    (c : ℕ) (s : Str) → two_slashes s ≡ false → (split_once (c ∷ s)).0 ≡ c ∷ (split_once s).0
unfolding split_once two_slashes
split_once-keep c [] h = refl
split_once-keep c (d ∷ []) h = refl
split_once-keep c (d ∷ e ∷ s) h = ground arith

two_slashes-path : (path : Str) → IsPath path → two_slashes path ≡ false
unfolding two_slashes
two_slashes-path [] p = refl
two_slashes-path (c ∷ []) p = refl
two_slashes-path (c ∷ d ∷ s) p = ground (arith, p.1)

two_slashes-host :
    (host path : Str) → IsHost host → IsPath path → two_slashes (host ++ path) ≡ false
unfolding two_slashes
two_slashes-host [] path h p = two_slashes-path path p
two_slashes-host (c ∷ []) [] h p = refl
two_slashes-host (c ∷ []) (d ∷ path) h p = ground (arith, h.0)
two_slashes-host (c ∷ d ∷ host) path h p = ground (arith, h.0)

host_of-split :
    (host path : Str) → IsHost host → IsPath path → host_of (split_once (host ++ path)).0 ≡ host
unfolding host_of
host_of-split [] path h p = host_of-path path p
host_of-split (c ∷ host) path h p =
    ap host_of (split_once-keep c (host ++ path) (two_slashes-host host path h.1 p))
    ∙ ground (arith, h.0, host_of-split host path h.1 p)

abbrev pub scheme : Bool → Str
scheme secure = if secure then codes "https" else codes "http"

abbrev pub ws_scheme : Bool → Str
ws_scheme secure = if secure then codes "wss" else codes "ws"

-- An `http` or `https` URL of a host without a slash, followed by nothing or by a path that does
-- not begin with two slashes, leads to that host's `/api` and `/api/v1/ws`, whatever the path, over
-- TLS exactly for `https`.
pub from_url_lem :
    (secure : Bool) (host path : Str)
    → IsHost host
    → IsPath path
    → from_url (scheme secure ++ codes "://" ++ host ++ path)
      ≡ some (
        scheme secure ++ codes "://" ++ host ++ codes "/api",
        ws_scheme secure ++ codes "://" ++ host ++ codes "/api/v1/ws",
      )
unfolding from_url url_to_options split_once second_item options_of urls api_url ws_url str_eq
from_url_lem true host path h p = rw (host_of-split host path h p) refl
from_url_lem false host path h p = rw (host_of-split host path h p) refl

-- For a host without a slash, the options that a client's API URL is made of are those that the
-- URL leads back to.
pub url_to_options-api_url :
    (hostname : Str) (secure : Bool)
    → IsHost hostname
    → url_to_options (api_url (record { hostname = hostname; secure = secure }))
      ≡ ok (record { hostname = hostname; secure = secure })
unfolding url_to_options split_once second_item options_of api_url str_eq
url_to_options-api_url hostname true h =
    rw (host_of-split hostname (codes "/api") h (refl, ground arith)) refl
url_to_options-api_url hostname false h =
    rw (host_of-split hostname (codes "/api") h (refl, ground arith)) refl
