-- ===== src/Config/Usable.antt =====
-- What src/config.rs lets through when it loads the configuration.
use carddav_mcp.Config.Env.{
  parse_rate_limit, parse_u64_env, parse_redirect_uris_env, audience, from_env, configured,
  require_env, parse_trusted_proxy_hops, u32_max, u64_max,
}
use carddav_mcp.Base.{
  ok-injective, Result-cases, ℕ, ◌≤◌, ◌<◌, ◌≡◌, ◌≢◌, subst, arith, true, false, List, [], Option,
  none, some, ok, ◌⊎◌, inl, inr, Yields, Yields-bind, Option-cases, ==_iff,
}
use carddav_mcp.Base.Str.{Text, codes, trim, any, is_whitespace}
use carddav_mcp.Base.Str.Pieces.{same_iff}
use carddav_mcp.OauthRedirect.{UrlParser, parse_allowlist}
use carddav_mcp.OauthRedirect.Allowed.{IsListed}
use carddav_mcp.OauthRedirect.Allowlist.{parse_allowlist-IsAllowlist}
use carddav_mcp.OauthRedirect.Valid.{IsRedirectUri}
use carddav_mcp.Config.{
  EnvVar, value, Net, Config, strip_trailing_slash, is_http_url, is_absolute_http_uri,
  is_loopback_host, validate_url, new_config, socket_addr, or_default_value, var_ok, trimmed,
  resolve_metrics_bind_addr, default_rate_limit_reads, default_rate_limit_writes,
  default_dav_max_response_bytes,
}
use carddav_mcp.Config.Numbers.{parse_unsigned, parse_unsigned-le}
use carddav_mcp.Config.Loaded.{All-IsListed, IsBare, strip_trailing_slash-IsBare}

module _ (u : UrlParser) (n : Net) where
  open n use {SocketAddr}

  -- The URL of a service: an absolute URL without white space, user info and fragment, with a host,
  -- and in cleartext only on the local host.
  pub record IsServiceUrl (uri : Text) : Type 0 where
    pub url : u.Url
    pub parsed : u.parse uri ≡ some url
    pub bare : IsBare uri
    pub unpadded : any is_whitespace uri ≡ false
    pub host : Text
    pub with_host : u.host_str url ≡ some host
    pub scheme :
        (u.scheme url ≡ codes "https")
        ⊎ ((u.scheme url ≡ codes "http") × (is_loopback_host n host ≡ true))
    pub no_username : u.username url ≡ []
    pub no_password : u.password url ≡ none
    pub no_fragment : u.fragment url ≡ none

  validate_url-IsServiceUrl :
      (uri : Text) → IsBare uri → validate_url u n uri ≡ ok tt → IsServiceUrl uri
  unfolding validate_url is_absolute_http_uri is_http_url
  validate_url-IsServiceUrl uri bare h = elim (Option-cases (u.parse uri)) [
    | inl bad ↦ absurd (ground arith)
    | inr (url, e) ↦ elim (Option-cases (u.host_str url)) [
      | inl no_host ↦ absurd (ground arith)
      | inr (host, eh) ↦ record {
        url = url;
        parsed = e;
        bare = bare;
        unpadded = ground arith;
        host = host;
        with_host = eh;
        scheme = ground (
          arith,
          same_iff (u.scheme url) (codes "https"),
          same_iff (u.scheme url) (codes "http"),
        );
        no_username = ground arith;
        no_password = ground arith;
        no_fragment = ground arith;
      }
    ]
  ]

  parse_rate_limit-bounds :
      (var : EnvVar) (default : ℕ)
      → 0 < default
      → default ≤ u32_max
      → Yields (λ v. (0 < v) × (v ≤ u32_max)) (parse_rate_limit var default)
  unfolding parse_rate_limit
  parse_rate_limit-bounds EnvVar.not_present default h1 h2 v e = ground arith
  parse_rate_limit-bounds EnvVar.not_unicode default h1 h2 v e = ground arith
  parse_rate_limit-bounds (value raw) default h1 h2 v e =
      elim (Option-cases (parse_unsigned u32_max (trim raw))) [
        | inl bad ↦ absurd (ground arith)
        | inr (n, en) ↦
            let le = parse_unsigned-le u32_max (trim raw) n en in
            (ground (arith, ==_iff n 0), ground (arith, le))
      ]

  parse_u64_env-le :
      (var : EnvVar) (default : ℕ)
      → default ≤ u64_max
      → Yields (λ v. v ≤ u64_max) (parse_u64_env var default)
  unfolding parse_u64_env
  parse_u64_env-le EnvVar.not_present default h v e = ground arith
  parse_u64_env-le EnvVar.not_unicode default h v e = ground arith
  parse_u64_env-le (value raw) default h v e =
      elim (Option-cases (parse_unsigned u64_max (trim raw))) [
        | inl bad ↦ absurd (ground arith)
        | inr (n, en) ↦ ground (arith, parse_unsigned-le u64_max (trim raw) n en)
      ]

  abbrev AreRedirectUris : List Text → Type 0
  AreRedirectUris uris = (uri : Text) → IsListed uris uri → IsRedirectUri u uri

  parse_redirect_uris_env-valid :
      (var : EnvVar) → Yields AreRedirectUris (parse_redirect_uris_env u var)
  unfolding parse_redirect_uris_env
  parse_redirect_uris_env-valid EnvVar.not_present uris e =
      subst AreRedirectUris (ok-injective e) (λ uri l. absurd l)
  parse_redirect_uris_env-valid EnvVar.not_unicode uris e = absurd (ground arith)
  parse_redirect_uris_env-valid (value raw) uris e = elim (Result-cases (parse_allowlist u raw)) [
    | inr (x, bad) ↦ absurd (ground arith)
    | inl (list, el) ↦
        let same_list : list ≡ uris = ground arith in
        subst AreRedirectUris same_list (λ uri l.
          let a = parse_allowlist-IsAllowlist u raw list el in
          All-IsListed (IsRedirectUri u) _ uri a.all_valid ((a.listed uri).0 l))
  ]

  -- The audience is the resource, or a URI of its own; the bare name is refused.
  abbrev pub IsAudience : Text → Text → Type 0
  IsAudience resource_url aud =
      (aud ≡ resource_url)
      ⊎ ((raw : Text) × (is_absolute_http_uri u raw ≡ true)
          × (raw ≢ codes "stalwart")
          × (aud ≡ strip_trailing_slash raw))

  audience-IsAudience :
      (var : Option Text) (resource_url : Text)
      → Yields (IsAudience resource_url) (audience u var resource_url)
  unfolding audience
  audience-IsAudience none resource_url aud e = inl (ground arith)
  audience-IsAudience (some raw) resource_url aud e = inr (
    raw,
    ground (arith, same_iff raw (codes "stalwart")),
    ground (arith, same_iff raw (codes "stalwart")),
    ground arith,
  )

  pub record IsUsable (cfg : Config SocketAddr) : Type 0 where
    pub resource : IsServiceUrl cfg.resource_url
    pub authorization : IsServiceUrl cfg.authorization_server
    pub dav : IsServiceUrl cfg.stalwart_dav_base_url
    pub reads : (0 < cfg.rate_limit_reads_per_min) × (cfg.rate_limit_reads_per_min ≤ u32_max)
    pub writes : (0 < cfg.rate_limit_writes_per_min) × (cfg.rate_limit_writes_per_min ≤ u32_max)
    pub response_bytes : cfg.dav_max_response_bytes ≤ u64_max
    pub hops : cfg.trusted_proxy_hops ≤ u64_max
    pub redirects : (uri : Text) → IsListed cfg.oauth_redirect_uris uri → IsRedirectUri u uri
    pub audience : IsAudience cfg.resource_url cfg.stalwart_audience

  -- The three URLs of a new configuration.
  record IsNew (cfg : Config SocketAddr) : Type 0 where
    resource : IsServiceUrl cfg.resource_url
    authorization : IsServiceUrl cfg.authorization_server
    dav : IsServiceUrl cfg.stalwart_dav_base_url

  new_config-IsNew :
      (resource auth dav : Text) (addr : SocketAddr)
      → Yields IsNew (new_config u n resource auth dav addr)
  unfolding new_config
  new_config-IsNew resource auth dav addr = Yields-bind IsNew _ _ (λ a e1.
      Yields-bind IsNew _ _ (λ b e2. Yields-bind IsNew _ _ (λ c e3 cfg e.
        subst IsNew (ok-injective e) (record {
          resource = validate_url-IsServiceUrl _ (strip_trailing_slash-IsBare resource) e1;
          authorization = validate_url-IsServiceUrl _ (strip_trailing_slash-IsBare auth) e2;
          dav = validate_url-IsServiceUrl _ (strip_trailing_slash-IsBare dav) e3;
        }))))

  -- What is read behind the three URLs that are required.
  configured-IsUsable :
      (env : Text → EnvVar) (resource auth dav : Text)
      → Yields IsUsable (configured u n env resource auth dav)
  unfolding configured parse_trusted_proxy_hops
  configured-IsUsable env resource auth dav =
      Yields-bind IsUsable
        (socket_addr n (
          n.parse_addr (
            or_default_value (var_ok (env (codes "CARDDAV_MCP_BIND_ADDR")))
              (codes "0.0.0.0:3000"))))
        _
        (λ bind_addr e4.
          Yields-bind IsUsable
            (resolve_metrics_bind_addr n (var_ok (env (codes "CARDDAV_MCP_METRICS_BIND_ADDR")))
              (var_ok (env (codes "POD_IP"))))
            _
            (λ metrics e5.
              Yields-bind IsUsable (new_config u n resource auth dav bind_addr) _ (λ cfg e6.
                Yields-bind IsUsable
                  (parse_rate_limit (env (codes "CARDDAV_MCP_RATE_LIMIT_READS_PER_MIN"))
                    default_rate_limit_reads)
                  _
                  (λ reads e7.
                    Yields-bind IsUsable
                      (parse_rate_limit (env (codes "CARDDAV_MCP_RATE_LIMIT_WRITES_PER_MIN"))
                        default_rate_limit_writes)
                      _
                      (λ writes e8.
                        Yields-bind IsUsable
                          (parse_u64_env (env (codes "CARDDAV_MCP_DAV_MAX_RESPONSE_BYTES"))
                            default_dav_max_response_bytes)
                          _
                          (λ max_bytes e9.
                            Yields-bind IsUsable
                              (parse_trusted_proxy_hops
                                (env (codes "CARDDAV_MCP_TRUSTED_PROXY_HOPS")))
                              _
                              (λ hops e10.
                                Yields-bind IsUsable
                                  (parse_redirect_uris_env u
                                    (env (codes "CARDDAV_MCP_OAUTH_REDIRECT_URIS")))
                                  _
                                  (λ uris e11.
                                    Yields-bind IsUsable
                                      (audience u
                                        (trimmed
                                          (var_ok (env (codes "CARDDAV_MCP_STALWART_AUDIENCE"))))
                                        cfg.resource_url)
                                      _
                                      (λ aud e12 out e.
                                        let new =
                                          new_config-IsNew resource auth dav bind_addr cfg e6 in
                                        subst IsUsable (ok-injective e) (record {
                                          resource = new.resource;
                                          authorization = new.authorization;
                                          dav = new.dav;
                                          reads =
                                              parse_rate_limit-bounds _ 60 (omega arith)
                                                (omega arith) reads e7;
                                          writes =
                                              parse_rate_limit-bounds _ 30 (omega arith)
                                                (omega arith) writes e8;
                                          response_bytes =
                                              parse_u64_env-le _ default_dav_max_response_bytes
                                                (omega arith) max_bytes e9;
                                          hops = parse_u64_env-le _ 2 (omega arith) hops e10;
                                          redirects = parse_redirect_uris_env-valid _ uris e11;
                                          audience = audience-IsAudience _ cfg.resource_url aud e12;
                                        }))))))))))

  -- A configuration that `from_env` loads has three service URLs that are absolute, have a
  -- host, no white space, user info, fragment or slash at the end, and are cleartext only on
  -- the local host; quotas between 1 and 2^32 - 1; only valid redirect URIs; and as audience
  -- the resource URL or an absolute URI that is not the bare name.
  pub from_env-IsUsable :
      (env : Text → EnvVar) (cfg : Config SocketAddr) → from_env u n env ≡ ok cfg → IsUsable cfg
  unfolding from_env
  from_env-IsUsable env =
      Yields-bind IsUsable (require_env (env (codes "CARDDAV_MCP_RESOURCE_URL"))) _ (λ resource e1.
        Yields-bind IsUsable (require_env (env (codes "CARDDAV_MCP_AUTHORIZATION_SERVER"))) _
          (λ auth e2.
            Yields-bind IsUsable (require_env (env (codes "CARDDAV_MCP_STALWART_DAV_BASE_URL"))) _
              (λ dav e3. configured-IsUsable env resource auth dav)))
