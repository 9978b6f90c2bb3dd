-- ===== src/OauthRedirect/Allowed.antt =====
-- Which redirect URIs `is_allowed_redirect_uri` of src/oauth_redirect.rs lets through.
use carddav_mcp.Base.{
  true, List, [], ◌∷◌, Option, none, some, ◌≡◌, ◌↔◌, ◌⊎◌, inl, inr, refl, ap, arith, Bool-cases,
  Option-cases,
}
use carddav_mcp.Base.Str.{Text, codes}
use carddav_mcp.Base.Str.Pieces.{same_iff}
use carddav_mcp.OauthRedirect.{
  UrlParser, same_option, contains, entry_matches, any_matches, host_matches, candidate_matches,
  matches_loopback_entry, is_allowed_redirect_uri,
}
use carddav_mcp.OauthRedirect.Valid.{
  IsLoopback, is_loopback_host-IsLoopback, IsRedirectUri, is_valid-IsRedirectUri,
}

-- The URI stands in the list, byte for byte.
abbrev pub IsListed : List Text → Text → Type 0
IsListed [] uri = ⊥
IsListed (entry ∷ entries) uri = (entry ≡ uri) ⊎ IsListed entries uri

pub contains-IsListed :
    (entries : List Text) (uri : Text) → (contains entries uri ≡ true) ↔ IsListed entries uri
unfolding contains
contains-IsListed [] uri = ground arith
contains-IsListed (entry ∷ entries) uri =
    ground (arith, contains-IsListed entries uri, same_iff entry uri)

same_option_iff : (o p : Option Text) → (same_option o p ≡ true) ↔ (o ≡ p)
unfolding same_option
same_option_iff none none = ground arith
same_option_iff none (some t) = ground arith
same_option_iff (some s) none = ground arith
same_option_iff (some s) (some t) = ground (arith, same_iff s t)

module _ (u : UrlParser) where
  open u use {Url}

  -- The entry that lets a URI through which is not itself listed.
  pub record IsLoopbackMatch (allowed : List Text) (uri : Text) : Type 0 where
    pub url : Url
    pub entry : Text
    pub entry_url : Url
    pub host : Text
    pub is_listed : IsListed allowed entry
    pub parsed : u.parse uri ≡ some url
    pub entry_parsed : u.parse entry ≡ some entry_url
    pub is_http : u.scheme url ≡ codes "http"
    pub entry_is_http : u.scheme entry_url ≡ codes "http"
    pub is_loopback : IsLoopback host
    pub host_is : u.host_str url ≡ some host
    pub entry_host_is : u.host_str entry_url ≡ some host
    pub same_path : u.path entry_url ≡ u.path url
    pub same_query : u.query entry_url ≡ u.query url

  entry_matches-url :
      (candidate : Url) (host entry : Text)
      → entry_matches u candidate host entry ≡ true
      → (e : Url) × (u.parse entry ≡ some e)
        × (u.scheme e ≡ codes "http")
        × (u.host_str e ≡ some host)
        × (u.path e ≡ u.path candidate)
        × (u.query e ≡ u.query candidate)
  unfolding entry_matches
  entry_matches-url candidate host entry h = elim (Option-cases (u.parse entry)) [
    | inl bad ↦ absurd (ground arith)
    | inr (e, p) ↦ (
      e,
      p,
      ground (arith, same_iff (u.scheme e) (codes "http")),
      ground (arith, same_option_iff (u.host_str e) (some host)),
      ground (arith, same_iff (u.path e) (u.path candidate)),
      ground (arith, same_option_iff (u.query e) (u.query candidate)),
    )
  ]

  any_matches-IsListed :
      (candidate : Url) (host : Text) (entries : List Text)
      → any_matches u candidate host entries ≡ true
      → (entry : Text) × IsListed entries entry × (entry_matches u candidate host entry ≡ true)
  unfolding any_matches
  any_matches-IsListed candidate host [] h = cc
  any_matches-IsListed candidate host (entry ∷ entries) h =
      elim (Bool-cases (entry_matches u candidate host entry)) [
        | inl here ↦ (entry, inl refl, here)
        | inr not_here ↦
            let (e, listed, matches) = any_matches-IsListed candidate host entries (ground arith) in
            (e, inr listed, matches)
      ]

  IsListed-any_matches :
      (candidate : Url) (host : Text) (entries : List Text) (entry : Text)
      → IsListed entries entry
      → entry_matches u candidate host entry ≡ true
      → any_matches u candidate host entries ≡ true
  unfolding any_matches
  IsListed-any_matches candidate host [] entry listed m = absurd listed
  IsListed-any_matches candidate host (e ∷ entries) entry (inl here) m =
      ground (arith, ap (λ t. entry_matches u candidate host t) here)
  IsListed-any_matches candidate host (e ∷ entries) entry (inr later) m =
      ground (arith, IsListed-any_matches candidate host entries entry later m)

  entry_matches-true :
      (candidate e : Url) (host entry : Text)
      → u.parse entry ≡ some e
      → u.scheme e ≡ codes "http"
      → u.host_str e ≡ some host
      → u.path e ≡ u.path candidate
      → u.query e ≡ u.query candidate
      → entry_matches u candidate host entry ≡ true
  unfolding entry_matches
  entry_matches-true candidate e host entry p s h path query = ground (
    arith,
    same_iff (u.scheme e) (codes "http"),
    same_option_iff (u.host_str e) (some host),
    same_iff (u.path e) (u.path candidate),
    same_option_iff (u.query e) (u.query candidate),
  )

  matches_loopback_entry-IsLoopbackMatch :
      (allowed : List Text) (uri : Text)
      → matches_loopback_entry u allowed uri ≡ true
      → IsLoopbackMatch allowed uri
  unfolding matches_loopback_entry candidate_matches host_matches
  matches_loopback_entry-IsLoopbackMatch allowed uri h = elim (Option-cases (u.parse uri)) [
    | inl bad ↦ absurd (ground arith)
    | inr (url, p) ↦ elim (Option-cases (u.host_str url)) [
      | inl no_host ↦ absurd (ground arith)
      | inr (host, e) ↦
          let (entry, listed, m) = any_matches-IsListed url host allowed (ground arith) in
          let (entry_url, q, s, g, path, query) = entry_matches-url url host entry m in
          record {
            url = url;
            entry = entry;
            entry_url = entry_url;
            host = host;
            is_listed = listed;
            parsed = p;
            entry_parsed = q;
            is_http = ground (arith, same_iff (u.scheme url) (codes "http"));
            entry_is_http = s;
            is_loopback = (is_loopback_host-IsLoopback host).0 (ground arith);
            host_is = e;
            entry_host_is = g;
            same_path = path;
            same_query = query;
          }
    ]
  ]

  IsLoopbackMatch-matches :
      (allowed : List Text) (uri : Text)
      → IsLoopbackMatch allowed uri
      → matches_loopback_entry u allowed uri ≡ true
  unfolding matches_loopback_entry candidate_matches host_matches
  IsLoopbackMatch-matches allowed uri m = ground (
    arith,
    m.parsed,
    m.host_is,
    same_iff (u.scheme m.url) (codes "http"),
    m.is_http,
    (is_loopback_host-IsLoopback m.host).1 m.is_loopback,
    IsListed-any_matches m.url m.host allowed m.entry m.is_listed (
        entry_matches-true m.url m.entry_url m.host m.entry m.entry_parsed m.entry_is_http
          m.entry_host_is m.same_path m.same_query),
  )

  -- `is_allowed_redirect_uri` lets a URI through exactly when it is an absolute URL without
  -- padding, fragment and user info, whose scheme is `https` with a host, `http` with a
  -- loopback host, or a private one, and which is listed byte for byte, or is cleartext on a
  -- loopback host and agrees with a listed `http` entry in host, path and query.
  pub is_allowed_redirect_uri-IsRedirectUri :
      (allowed : List Text) (uri : Text)
      → (is_allowed_redirect_uri u allowed uri ≡ true)
        ↔ (IsRedirectUri u uri × (IsListed allowed uri ⊎ IsLoopbackMatch allowed uri))
  unfolding is_allowed_redirect_uri
  is_allowed_redirect_uri-IsRedirectUri allowed uri = ground (
    arith,
    is_valid-IsRedirectUri u uri,
    contains-IsListed allowed uri,
    matches_loopback_entry-IsLoopbackMatch allowed uri,
    IsLoopbackMatch-matches allowed uri,
  )
