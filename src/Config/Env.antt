-- ===== src/Config/Env.antt =====
-- src/config.rs: the reading of the configuration from the environment.
use carddav_mcp.Base.{
  ℕ, ◌^◌, ◌-◌, not, ◌||◌, List, [], Option, none, some, Result, ok, err, ◌>>=◌, if◌then◌else◌, ◌==◌,
}
use carddav_mcp.Base.Str.{Text, codes, same, trim}
use carddav_mcp.OauthRedirect.{UrlParser, RedirectError, parse_allowlist}
use carddav_mcp.Config.Numbers.{parse_unsigned}
use carddav_mcp.Config.{
  not_present, not_unicode, bad_audience, bad_variable, bad_redirect_uris, value, zero_rate,
  not_a_number, not_set, Config, ConfigError, EnvVar, Net, default_dav_max_response_bytes,
  default_rate_limit_reads, default_rate_limit_writes, default_trusted_proxy_hops,
  is_absolute_http_uri, new_config, nonblank, or_default_value, resolve_metrics_bind_addr,
  socket_addr, strip_trailing_slash, trimmed, var_ok,
}

unfoldable pub require_env : EnvVar → Result ConfigError Text
require_env not_present = err not_set
require_env not_unicode = err not_set
require_env (value s) = ok s

abbrev pub u32_max : ℕ
u32_max = 2 ^ 32 - 1

abbrev pub u64_max : ℕ
u64_max = 2 ^ 64 - 1

abbrev number : Option ℕ → Result ConfigError ℕ
number none = err not_a_number
number (some v) = ok v

abbrev positive : ℕ → Result ConfigError ℕ
positive v = if v == 0 then err zero_rate else ok v

unfoldable pub parse_rate_limit : EnvVar → ℕ → Result ConfigError ℕ
parse_rate_limit not_present default = ok default
parse_rate_limit not_unicode default = ok default
parse_rate_limit (value raw) default = number (parse_unsigned u32_max (trim raw)) >>= positive

unfoldable pub parse_u64_env : EnvVar → ℕ → Result ConfigError ℕ
parse_u64_env not_present default = ok default
parse_u64_env not_unicode default = ok default
parse_u64_env (value raw) default = number (parse_unsigned u64_max (trim raw))

-- A `usize` is a 64-bit number.
unfoldable pub parse_trusted_proxy_hops : EnvVar → Result ConfigError ℕ
parse_trusted_proxy_hops var = parse_u64_env var default_trusted_proxy_hops

module _ (u : UrlParser) where
  abbrev redirect_uris : Result RedirectError (List Text) → Result ConfigError (List Text)
  redirect_uris (ok uris) = ok uris
  redirect_uris (err e) = err (bad_redirect_uris e)

  unfoldable pub parse_redirect_uris_env : EnvVar → Result ConfigError (List Text)
  parse_redirect_uris_env not_present = ok []
  parse_redirect_uris_env not_unicode = err bad_variable
  parse_redirect_uris_env (value raw) = redirect_uris (parse_allowlist u raw)

  -- The `match` on the audience.
  unfoldable pub audience : Option Text → Text → Result ConfigError Text
  audience none resource_url = ok resource_url
  audience (some raw) resource_url =
      if same raw (codes "stalwart") || not (is_absolute_http_uri u raw)
      then err bad_audience
      else ok (strip_trailing_slash raw)

module _ (u : UrlParser) (n : Net) where
  open n use {SocketAddr}

  -- `from_env` behind the three variables that are required.
  unfoldable pub configured :
      (Text → EnvVar) → Text → Text → Text → Result ConfigError (Config SocketAddr)
  configured env resource_url authorization_server stalwart_dav_base_url = do
    let bind_addr_str =
        or_default_value (var_ok (env (codes "CARDDAV_MCP_BIND_ADDR"))) (codes "0.0.0.0:3000")
    bind_addr ← socket_addr n (n.parse_addr bind_addr_str)
    let explicit_addr = var_ok (env (codes "CARDDAV_MCP_METRICS_BIND_ADDR"))
    metrics_bind_addr ← resolve_metrics_bind_addr n explicit_addr (var_ok (env (codes "POD_IP")))
    cfg ← new_config u n resource_url authorization_server stalwart_dav_base_url bind_addr
    reads ←
        parse_rate_limit (env (codes "CARDDAV_MCP_RATE_LIMIT_READS_PER_MIN"))
          default_rate_limit_reads
    writes ←
        parse_rate_limit (env (codes "CARDDAV_MCP_RATE_LIMIT_WRITES_PER_MIN"))
          default_rate_limit_writes
    max_bytes ←
        parse_u64_env (env (codes "CARDDAV_MCP_DAV_MAX_RESPONSE_BYTES"))
          default_dav_max_response_bytes
    hops ← parse_trusted_proxy_hops (env (codes "CARDDAV_MCP_TRUSTED_PROXY_HOPS"))
    uris ← parse_redirect_uris_env u (env (codes "CARDDAV_MCP_OAUTH_REDIRECT_URIS"))
    stalwart_audience ←
        audience u (trimmed (var_ok (env (codes "CARDDAV_MCP_STALWART_AUDIENCE")))) cfg.resource_url
    ok (record cfg {
      metrics_bind_addr = metrics_bind_addr;
      rate_limit_reads_per_min = reads;
      rate_limit_writes_per_min = writes;
      dav_max_response_bytes = max_bytes;
      trusted_proxy_hops = hops;
      stalwart_connect_ip = nonblank (var_ok (env (codes "CARDDAV_MCP_STALWART_CONNECT_IP")));
      dcr_client_id = nonblank (var_ok (env (codes "CARDDAV_MCP_DCR_CLIENT_ID")));
      oauth_redirect_uris = uris;
      stalwart_audience = stalwart_audience;
    })

  unfoldable pub from_env : (Text → EnvVar) → Result ConfigError (Config SocketAddr)
  from_env env = do
    resource_url ← require_env (env (codes "CARDDAV_MCP_RESOURCE_URL"))
    authorization_server ← require_env (env (codes "CARDDAV_MCP_AUTHORIZATION_SERVER"))
    stalwart_dav_base_url ← require_env (env (codes "CARDDAV_MCP_STALWART_DAV_BASE_URL"))
    configured env resource_url authorization_server stalwart_dav_base_url
