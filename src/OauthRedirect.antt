-- ===== src/OauthRedirect.antt =====
-- src/oauth_redirect.rs: the allowlist of redirect URIs. The parser of URLs of the crate `url` is a
-- parameter; the messages of the errors are named by what they say.
pub mod Valid
pub mod Allowed
pub mod Allowlist
pub mod Examples
use carddav_mcp.Base.{
  Bool, true, false, not, ◌&&◌, ◌||◌, List, [], ◌∷◌, ◌++◌, Option, none, some, Result, ok, err,
  ◌>>=◌, ◌>>◌, refuse_if, map, if◌then◌else◌, ◌==◌,
}
use carddav_mcp.Base.Str.{Text, codes, is_empty, same, split, trim}

-- What the program calls of the crate `url`.
pub record UrlParser : Type 1 where
  pub Url : Type 0
  pub parse : Text → Option Url
  pub scheme : Url → Text
  pub host_str : Url → Option Text
  pub path : Url → Text
  pub query : Url → Option Text
  pub fragment : Url → Option Text
  pub username : Url → Text
  pub password : Url → Option Text

pub data RedirectError : Type 0 where
  blank_or_padded invalid_url without_host not_loopback without_scheme with_fragment with_user_info
        no_uris :
      RedirectError

unfoldable pub is_loopback_host : Text → Bool
is_loopback_host host =
    same host (codes "localhost")
    || same host (codes "127.0.0.1")
    || same host (codes "[::1]")
    || same host (codes "::1")

abbrev pub is_some {ℓ} : {A : Type ℓ} → Option A → Bool
is_some none = false
is_some (some x) = true

abbrev pub or_default : Option Text → Text
or_default none = []
or_default (some s) = s

-- `==` on optional texts.
unfoldable pub same_option : Option Text → Option Text → Bool
same_option none none = true
same_option none (some t) = false
same_option (some s) none = false
same_option (some s) (some t) = same s t

-- `iter().any(|entry| entry == uri)`
unfoldable pub contains : List Text → Text → Bool
contains [] uri = false
contains (entry ∷ entries) uri = same entry uri || contains entries uri

-- `if !uris.iter().any(|allowed| allowed == uri) { uris.push(uri.to_owned()); }`
unfoldable pub push_new : List Text → Text → List Text
push_new uris uri = if contains uris uri then uris else uris ++ uri ∷ []

abbrev drop_empty : List Text → List Text
drop_empty [] = []
drop_empty (uri ∷ rest) = if is_empty uri then drop_empty rest else uri ∷ drop_empty rest

-- `raw.split(',').map(str::trim).filter(|uri| !uri.is_empty())`
unfoldable pub entries_of : Text → List Text
entries_of raw = drop_empty (map trim (split (λ c. c == b',') raw))

module _ (u : UrlParser) where
  open u use {Url}

  -- The `match` on the scheme.
  unfoldable pub check_scheme : Url → Result RedirectError (Unit {0})
  check_scheme url =
      if same (u.scheme url) (codes "https")
      then refuse_if (not (is_some (u.host_str url))) without_host
      else if same (u.scheme url) (codes "http")
      then refuse_if (not (is_loopback_host (or_default (u.host_str url)))) not_loopback
      else refuse_if (is_empty (u.scheme url)) without_scheme

  unfoldable pub parse_url : Text → Result RedirectError Url
  parse_url uri = elim (u.parse uri) [ none ↦ err invalid_url | some url ↦ ok url ]

  unfoldable pub validate_redirect_uri : Text → Result RedirectError (Unit {0})
  validate_redirect_uri uri = do
    refuse_if (not (same (trim uri) uri) || is_empty uri) blank_or_padded
    url ← parse_url uri
    check_scheme url
    refuse_if (is_some (u.fragment url)) with_fragment
    refuse_if (not (is_empty (u.username url)) || is_some (u.password url)) with_user_info

  unfoldable pub is_valid : Text → Bool
  is_valid uri = elim (validate_redirect_uri uri) [ ok t ↦ true | err e ↦ false ]

  -- The test of one entry against the URL that is asked for, and its host.
  unfoldable pub entry_matches : Url → Text → Text → Bool
  entry_matches candidate host entry = elim (u.parse entry) [
    | none ↦ false
    | some e ↦
        same (u.scheme e) (codes "http")
        && same_option (u.host_str e) (some host)
        && same (u.path e) (u.path candidate)
        && same_option (u.query e) (u.query candidate)
  ]

  unfoldable pub any_matches : Url → Text → List Text → Bool
  any_matches candidate host [] = false
  any_matches candidate host (entry ∷ entries) =
      entry_matches candidate host entry || any_matches candidate host entries

  -- The part behind the scheme, and the part behind the parsing of the URI.
  unfoldable pub host_matches : List Text → Url → Option Text → Bool
  host_matches allowed candidate none = false
  host_matches allowed candidate (some host) =
      if not (is_loopback_host host) then false else any_matches candidate host allowed

  unfoldable pub candidate_matches : List Text → Url → Bool
  candidate_matches allowed candidate =
      if not (same (u.scheme candidate) (codes "http"))
      then false
      else host_matches allowed candidate (u.host_str candidate)

  unfoldable pub matches_loopback_entry : List Text → Text → Bool
  matches_loopback_entry allowed uri = elim (u.parse uri) [
    | none ↦ false
    | some candidate ↦ candidate_matches allowed candidate
  ]

  unfoldable pub is_allowed_redirect_uri : List Text → Text → Bool
  is_allowed_redirect_uri allowed uri =
      if not (is_valid uri)
      then false
      else if contains allowed uri
      then true
      else matches_loopback_entry allowed uri

  -- The loop of `parse_allowlist` over the entries.
  unfoldable pub add_entries : List Text → List Text → Result RedirectError (List Text)
  add_entries uris [] = ok uris
  add_entries uris (uri ∷ rest) = elim (validate_redirect_uri uri) [
    | err e ↦ err e
    | ok t ↦ add_entries (push_new uris uri) rest
  ]

  unfoldable pub parse_allowlist : Text → Result RedirectError (List Text)
  parse_allowlist raw = do
    uris ← add_entries [] (entries_of raw)
    refuse_if (is_empty uris) no_uris
    ok uris
