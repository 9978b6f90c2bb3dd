-- ===== src/CardDav/Href.antt =====
-- src/carddav_client.rs: hrefs. `resolve_href` lets only hrefs through that stay on the origin of the
-- configured server.
use carddav_mcp.Base.{
  ℕ, Bool, true, false, not, ◌&&◌, ◌||◌, [], ◌∷◌, Option, none, some, ◌≡◌, ◌≢◌, ◌↔◌, ap, ◌∙◌, subst,
  arith, Result, ok, err, ◌>>=◌, ◌>>◌, refuse_if, ◌==◌, ==_iff, Option-cases, inl, inr,
}
use carddav_mcp.Base.Str.{Text, is_empty, same, trim, trim_end_matches}
use carddav_mcp.Base.Str.Pieces.{same_iff}
use carddav_mcp.OauthRedirect.{UrlParser, is_some, same_option}
use carddav_mcp.Tools.{CardDavError, invalid_href}
use carddav_mcp.CardDav.{DavUrls}

-- `==` of optional ports.
unfoldable pub same_port : Option ℕ → Option ℕ → Bool
same_port none none = true
same_port none (some n) = false
same_port (some m) none = false
same_port (some m) (some n) = m == n

same_port_iff : (o p : Option ℕ) → (same_port o p ≡ true) ↔ (o ≡ p)
unfolding same_port
same_port_iff none none = ground arith
same_port_iff none (some n) = (λ h. cc, λ h. cc)
same_port_iff (some m) none = (λ h. cc, λ h. cc)
same_port_iff (some m) (some n) = ground (arith, ==_iff m n)

same_option_iff : (o p : Option Text) → (same_option o p ≡ true) ↔ (o ≡ p)
unfolding same_option
same_option_iff none none = ground arith
same_option_iff none (some t) = (λ h. cc, λ h. cc)
same_option_iff (some s) none = (λ h. cc, λ h. cc)
same_option_iff (some s) (some t) = ground (arith, same_iff s t)

is_empty_iff : (s : Text) → (is_empty s ≡ true) ↔ (s ≡ [])
is_empty_iff [] = ground arith
is_empty_iff (c ∷ s) = (λ h. cc, λ h. cc)

is_some_iff : (o : Option Text) → (is_some o ≡ false) ↔ (o ≡ none)
is_some_iff none = ground arith
is_some_iff (some s) = (λ h. cc, λ h. cc)

module _ (u : UrlParser) (d : DavUrls u) where
  open u use {Url}

  unfoldable pub same_origin : Url → Url → Bool
  same_origin resolved base =
      same (u.scheme resolved) (u.scheme base)
      && same_option (u.host_str resolved) (u.host_str base)
      && same_port (d.port_or_known_default resolved) (d.port_or_known_default base)

  abbrev join_href : Text → Option Url → Result CardDavError Url
  join_href href none = err (invalid_href (d.shown href))
  join_href href (some url) = ok url

  unfoldable pub resolve_href : Url → Text → Result CardDavError Url
  resolve_href base href = do
    refuse_if (not (same (trim href) href) || is_empty href) (invalid_href (d.shown href))
    resolved ← join_href href (d.join base href)
    refuse_if
        (not (same_origin resolved base)
          || not (is_empty (u.username resolved))
          || is_some (u.password resolved)
          || is_some (u.fragment resolved))
        (invalid_href (d.shown href))
    ok resolved

  -- The URL stays on the origin of the base, and carries no user, password or fragment.
  pub record IsOwn (base url : Url) : Type 0 where
    pub own_scheme : u.scheme url ≡ u.scheme base
    pub own_host : u.host_str url ≡ u.host_str base
    pub own_port : d.port_or_known_default url ≡ d.port_or_known_default base
    pub no_user : u.username url ≡ []
    pub no_password : u.password url ≡ none
    pub no_fragment : u.fragment url ≡ none

  same_origin-IsOwn :
      (base url : Url)
      → ((same_origin url base ≡ true)
          × (is_empty (u.username url) ≡ true)
          × (is_some (u.password url) ≡ false)
          × (is_some (u.fragment url) ≡ false))
        ↔ IsOwn base url
  unfolding same_origin
  same_origin-IsOwn base url = (
    λ (o, n, p, f). record {
      own_scheme = ground (arith, same_iff (u.scheme url) (u.scheme base));
      own_host = ground (arith, same_option_iff (u.host_str url) (u.host_str base));
      own_port =
          ground
            (arith, same_port_iff (d.port_or_known_default url) (d.port_or_known_default base));
      no_user = (is_empty_iff _).0 n;
      no_password = (is_some_iff _).0 p;
      no_fragment = (is_some_iff _).0 f;
    },
    λ own. (
      ground (
        arith,
        (same_iff (u.scheme url) (u.scheme base)).1 own.own_scheme,
        (same_option_iff (u.host_str url) (u.host_str base)).1 own.own_host,
        (same_port_iff (d.port_or_known_default url) (d.port_or_known_default base)).1 own.own_port,
      ),
      (is_empty_iff _).1 own.no_user,
      (is_some_iff _).1 own.no_password,
      (is_some_iff _).1 own.no_fragment,
    ),
  )

  -- `resolve_href` answers a URL exactly when the href is not empty and has no white space
  -- around it, and this is the URL that it leads to from the base, with the base's scheme, host
  -- and port, and no user, password or fragment.
  pub resolve_href-IsOwn :
      (base : Url) (href : Text) (url : Url)
      → (resolve_href base href ≡ ok url)
        ↔ ((trim href ≡ href) × (href ≢ []) × (d.join base href ≡ some url) × IsOwn base url)
  unfolding resolve_href
  resolve_href-IsOwn base href url = (
    λ h. elim (Option-cases (d.join base href)) [
      | inl bad ↦ absurd (ground arith)
      | inr (resolved, e) ↦
          let same_url : resolved ≡ url = ground arith in
          (
            ground (arith, same_iff (trim href) href),
            ground (arith, is_empty_iff href),
            e ∙ ap some same_url,
            subst (IsOwn base) same_url (
                (same_origin-IsOwn base resolved).0
                  (ground arith, ground arith, ground arith, ground arith)),
          )
    ],
    λ (p, q, e, own). ground (
      arith,
      (same_iff (trim href) href).1 p,
      is_empty_iff href,
      (same_origin-IsOwn base url).1 own,
    ),
  )

-- `normalize_href`
unfoldable pub normalize_href : Text → Text
normalize_href href = trim_end_matches (λ c. c == b'/') href
