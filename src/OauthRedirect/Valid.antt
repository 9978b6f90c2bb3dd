-- ===== src/OauthRedirect/Valid.antt =====
-- Which texts `validate_redirect_uri` of src/oauth_redirect.rs accepts.
use carddav_mcp.Base.{
  true, false, [], Option, none, some, ◌≡◌, ◌≢◌, ◌↔◌, ◌⊎◌, inl, inr, refl, arith, ok, Bool-cases,
  Option-cases,
}
use carddav_mcp.Base.Str.{Text, codes, is_empty, same, trim}
use carddav_mcp.Base.Str.Pieces.{same_iff}
use carddav_mcp.OauthRedirect.{
  UrlParser, is_loopback_host, or_default, check_scheme, parse_url, validate_redirect_uri, is_valid,
}

abbrev pub IsLoopback : Text → Type 0
IsLoopback h =
    (h ≡ codes "localhost") ⊎ ((h ≡ codes "127.0.0.1") ⊎ ((h ≡ codes "[::1]") ⊎ (h ≡ codes "::1")))

pub is_loopback_host-IsLoopback : (h : Text) → (is_loopback_host h ≡ true) ↔ IsLoopback h
unfolding is_loopback_host
is_loopback_host-IsLoopback h = ground (
  arith,
  same_iff h (codes "localhost"),
  same_iff h (codes "127.0.0.1"),
  same_iff h (codes "[::1]"),
  same_iff h (codes "::1"),
)

is_loopback_host-or_default :
    (o : Option Text)
    → is_loopback_host (or_default o) ≡ true
    → (host : Text) × (o ≡ some host) × IsLoopback host
unfolding same is_loopback_host
is_loopback_host-or_default none h = cc
is_loopback_host-or_default (some host) h = (host, refl, (is_loopback_host-IsLoopback host).0 h)

module _ (u : UrlParser) where
  open u use {Url}

  -- What the scheme asks of a URL.
  pub data IsSchemeAllowed (url : Url) : Type 0 where
    https :
        (host : Text)
        → u.scheme url ≡ codes "https"
        → u.host_str url ≡ some host
        → IsSchemeAllowed url
    http :
        (host : Text)
        → u.scheme url ≡ codes "http"
        → u.host_str url ≡ some host
        → IsLoopback host
        → IsSchemeAllowed url
    private_use :
        u.scheme url ≢ codes "https"
        → u.scheme url ≢ codes "http"
        → u.scheme url ≢ []
        → IsSchemeAllowed url

  check_scheme-IsSchemeAllowed : (url : Url) → check_scheme u url ≡ ok tt → IsSchemeAllowed url
  unfolding check_scheme
  check_scheme-IsSchemeAllowed url h = elim (Bool-cases (same (u.scheme url) (codes "https"))) [
    | inl s ↦ elim (Option-cases (u.host_str url)) [
      | inl no_host ↦ absurd (ground arith)
      | inr (host, e) ↦ https host ((same_iff _ _).0 s) e
    ]
    | inr n ↦ elim (Bool-cases (same (u.scheme url) (codes "http"))) [
      | inl s ↦ elim (Bool-cases (is_loopback_host (or_default (u.host_str url)))) [
        | inl local ↦
            let (host, e, l) = is_loopback_host-or_default (u.host_str url) local in
            http host ((same_iff _ _).0 s) e l
        | inr remote ↦ absurd (ground arith)
      ]
      | inr m ↦
          private_use (ground (arith, same_iff (u.scheme url) (codes "https")))
            (ground (arith, same_iff (u.scheme url) (codes "http"))) (ground arith)
    ]
  ]

  IsSchemeAllowed-check_scheme : (url : Url) → IsSchemeAllowed url → check_scheme u url ≡ ok tt
  unfolding check_scheme
  IsSchemeAllowed-check_scheme url (https host s e) =
      ground (arith, same_iff (u.scheme url) (codes "https"))
  IsSchemeAllowed-check_scheme url (http host s e l) = ground (
    arith,
    same_iff (u.scheme url) (codes "https"),
    same_iff (u.scheme url) (codes "http"),
    (is_loopback_host-IsLoopback host).1 l,
  )
  IsSchemeAllowed-check_scheme url (private_use n m e) =
      ground
        (arith, same_iff (u.scheme url) (codes "https"), same_iff (u.scheme url) (codes "http"))

  -- A redirect URI as RFC 8252 wants it: an absolute URL without padding, fragment and user info.
  pub record IsRedirectUri (uri : Text) : Type 0 where
    pub url : Url
    pub parsed : u.parse uri ≡ some url
    pub not_empty : is_empty uri ≡ false
    pub unpadded : trim uri ≡ uri
    pub scheme_allowed : IsSchemeAllowed url
    pub no_fragment : u.fragment url ≡ none
    pub no_username : u.username url ≡ []
    pub no_password : u.password url ≡ none

  pub validate_redirect_uri-IsRedirectUri :
      (uri : Text) → validate_redirect_uri u uri ≡ ok tt → IsRedirectUri uri
  unfolding validate_redirect_uri parse_url
  validate_redirect_uri-IsRedirectUri uri h = elim (Option-cases (u.parse uri)) [
    | inl bad ↦ absurd (ground arith)
    | inr (url, e) ↦ record {
      url = url;
      parsed = e;
      not_empty = ground (arith, same_iff (trim uri) uri);
      unpadded = ground (arith, same_iff (trim uri) uri);
      scheme_allowed = check_scheme-IsSchemeAllowed url (ground arith);
      no_fragment = ground arith;
      no_username = ground arith;
      no_password = ground arith;
    }
  ]

  pub IsRedirectUri-validate_redirect_uri :
      (uri : Text) → IsRedirectUri uri → validate_redirect_uri u uri ≡ ok tt
  unfolding validate_redirect_uri parse_url
  IsRedirectUri-validate_redirect_uri uri r = ground (
    arith,
    same_iff (trim uri) uri,
    r.unpadded,
    r.not_empty,
    r.parsed,
    IsSchemeAllowed-check_scheme r.url r.scheme_allowed,
    r.no_fragment,
    r.no_username,
    r.no_password,
  )

  pub is_valid-IsRedirectUri : (uri : Text) → (is_valid u uri ≡ true) ↔ IsRedirectUri uri
  unfolding is_valid
  is_valid-IsRedirectUri uri = (
    λ h. validate_redirect_uri-IsRedirectUri uri (ground arith),
    λ r. ground (arith, IsRedirectUri-validate_redirect_uri uri r),
  )
