-- ===== src/CardDav/New.antt =====
-- src/carddav_client.rs: the construction of the client. The building of the HTTP client belongs to
-- `reqwest`; where it is to dial an address of its own, host, address and port are given.
use carddav_mcp.Base.{
  ℕ, Bool, false, not, ◌&&◌, ◌||◌, [], ◌∷◌, ◌++◌, Option, none, some, Result, ok, err, ◌>>=◌, ◌>>◌,
  refuse_if, if◌then◌else◌, ◌==◌,
}
use carddav_mcp.Base.Str.{Text, codes, same}
use carddav_mcp.OauthRedirect.{UrlParser, is_some}
use carddav_mcp.CardDav.{DavUrls, CardDavClient}

pub data NewError : Type 0 where
  zero_cap bad_base_url not_http bad_discovery_url no_host bad_ip : NewError

-- A client, and the host that it dials at an address and a port of its own.
pub record NewClient (Url Ip : Type 0) : Type 0 where
  pub client : CardDavClient Url
  pub resolve : Option (Text × Ip × ℕ)

-- `str::ends_with` of a character.
unfoldable ends_with_char : ℕ → Text → Bool
ends_with_char c [] = false
ends_with_char c (d ∷ []) = d == c
ends_with_char c (d ∷ e ∷ s) = ends_with_char c (e ∷ s)

abbrev or_port : Option ℕ → ℕ
or_port none = 443
or_port (some port) = port

abbrev required {ℓ} : {A : Type ℓ} → NewError → Option A → Result NewError A
required e none = err e
required e (some a) = ok a

module _ (u : UrlParser) (d : DavUrls u) {Ip : Type 0} (parse_ip : Text → Option Ip) where
  open u use {Url}

  unfoldable pub check_base_url : Url → Result NewError (Unit {0})
  check_base_url url =
      refuse_if
        (not (
          (same (u.scheme url) (codes "http") || same (u.scheme url) (codes "https"))
          && is_some (u.host_str url)))
        not_http

  -- Without query and fragment, and with a path that ends in a slash.
  unfoldable pub directory_url : Url → Url
  unfolding ends_with_char
  directory_url url =
      let bare = d.without_fragment (d.without_query url) in
      if not (ends_with_char b'/' (u.path bare))
      then d.set_path bare (u.path bare ++ codes "/")
      else bare

  unfoldable pub resolved_at : Url → Option Text → Result NewError (Option (Text × Ip × ℕ))
  resolved_at base_url none = ok none
  resolved_at base_url (some ip) = do
    host ← required no_host (u.host_str base_url)
    addr ← required bad_ip (parse_ip ip)
    ok (some (host, addr, or_port (d.port_or_known_default base_url)))

  unfoldable pub new_client : Text → Option Text → ℕ → Result NewError (NewClient Url Ip)
  new_client stalwart_base connect_ip max_response_bytes = do
    refuse_if (max_response_bytes == 0) zero_cap
    url ← required bad_base_url (u.parse stalwart_base)
    check_base_url url
    let base_url = directory_url url
    discovery_url ← required bad_discovery_url (d.join base_url (codes ".well-known/carddav"))
    resolve ← resolved_at base_url connect_ip
    ok (record {
      client = record {
        base_url = base_url;
        discovery_url = discovery_url;
        max_response_bytes = max_response_bytes;
      };
      resolve = resolve;
    })
