-- ===== src/Config.antt =====
-- src/config.rs: the configuration, its constructor, and its reading from the environment, which is
-- a function from names to variables. Addresses and the parser of URLs are parameters; the texts of
-- the errors are named by what they say.
pub mod Numbers
pub mod Env
pub mod Loaded
pub mod Usable
pub mod Examples
use carddav_mcp.Base.{
  ℕ, ◌*◌, ◌^◌, ◌-◌, Bool, true, false, not, ◌&&◌, ◌||◌, List, [], ◌∷◌, ◌++◌, Option, none, some,
  Result, ok, err, ◌>>=◌, ◌>>◌, refuse_if, if◌then◌else◌, ◌==◌,
}
use carddav_mcp.Base.Str.{
  Text, codes, is_empty, same, trim, any, is_whitespace, trim_start_matches, trim_end_matches,
  to_ascii_uppercase,
}
use carddav_mcp.OauthRedirect.{UrlParser, RedirectError, is_some, or_default, parse_allowlist}
use carddav_mcp.Config.Numbers.{parse_unsigned}

-- `std::env::var`, and the parsers of `std::net`: of a socket address, and of an address of the
-- local host.
pub data EnvVar : Type 0 where
  not_present not_unicode : EnvVar
  value : Text → EnvVar

pub record Net : Type 1 where
  pub SocketAddr : Type 0
  pub parse_addr : Text → Option SocketAddr
  pub localhost_9090 : SocketAddr
  pub is_loopback_ip : Text → Bool

pub data ConfigError : Type 0 where
  not_set bad_addr not_absolute invalid_url cleartext not_a_number zero_rate bad_variable
        bad_audience :
      ConfigError
  bad_redirect_uris : RedirectError → ConfigError

pub record Config (SocketAddr : Type 0) : Type 0 where
  pub resource_url : Text
  pub authorization_server : Text
  pub stalwart_dav_base_url : Text
  pub bind_addr : SocketAddr
  pub metrics_bind_addr : SocketAddr
  pub rate_limit_reads_per_min : ℕ
  pub rate_limit_writes_per_min : ℕ
  pub dav_max_response_bytes : ℕ
  pub trusted_proxy_hops : ℕ
  pub stalwart_connect_ip : Option Text
  pub dcr_client_id : Option Text
  pub oauth_redirect_uris : List Text
  pub stalwart_audience : Text

abbrev pub default_rate_limit_reads : ℕ
default_rate_limit_reads = 60

abbrev pub default_rate_limit_writes : ℕ
default_rate_limit_writes = 30

abbrev pub default_dav_max_response_bytes : ℕ
default_dav_max_response_bytes = 8 * 1024 * 1024

abbrev pub default_trusted_proxy_hops : ℕ
default_trusted_proxy_hops = 2

unfoldable pub strip_trailing_slash : Text → Text
strip_trailing_slash s = trim_end_matches (λ c. c == b'/') s

module _ (u : UrlParser) where
  open u use {Url}

  -- What is asked of the parsed URL.
  unfoldable pub is_http_url : Url → Bool
  is_http_url parsed =
      (same (u.scheme parsed) (codes "https") || same (u.scheme parsed) (codes "http"))
      && is_some (u.host_str parsed)
      && is_empty (u.username parsed)
      && not (is_some (u.password parsed))
      && not (is_some (u.fragment parsed))

  unfoldable pub is_absolute_http_uri : Text → Bool
  is_absolute_http_uri url =
      if not (same (trim url) url) || any is_whitespace url
      then false
      else elim (u.parse url) [ none ↦ false | some parsed ↦ is_http_url parsed ]

abbrev pub or_default_value : Option Text → Text → Text
or_default_value none s = s
or_default_value (some t) s = t

-- `std::env::var(key).ok()`, and `filter(|s| !s.trim().is_empty())`.
abbrev pub var_ok : EnvVar → Option Text
var_ok not_present = none
var_ok not_unicode = none
var_ok (value s) = some s

abbrev pub nonblank : Option Text → Option Text
nonblank none = none
nonblank (some s) = if is_empty (trim s) then none else some s

-- `map(|s| s.trim().to_owned()).filter(|s| !s.is_empty())`
abbrev pub trimmed : Option Text → Option Text
trimmed none = none
trimmed (some s) = if is_empty (trim s) then none else some (trim s)

module _ (n : Net) where
  open n use {SocketAddr}

  unfoldable pub is_loopback_host : Text → Bool
  is_loopback_host host =
      same (to_ascii_uppercase host) (to_ascii_uppercase (codes "localhost"))
      || n.is_loopback_ip
          (trim_end_matches (λ c. c == b']') (trim_start_matches (λ c. c == b'[') host))

  unfoldable pub socket_addr : Option SocketAddr → Result ConfigError SocketAddr
  socket_addr none = err bad_addr
  socket_addr (some addr) = ok addr

  -- `format!("{ip}:9090")`
  abbrev metrics_on : Option Text → Text
  metrics_on none = codes "127.0.0.1:9090"
  metrics_on (some ip) = ip ++ codes ":9090"

  unfoldable pub resolve_metrics_bind_addr :
      Option Text → Option Text → Result ConfigError SocketAddr
  resolve_metrics_bind_addr explicit_addr pod_ip =
      socket_addr (n.parse_addr (or_default_value explicit_addr (metrics_on pod_ip)))

module _ (u : UrlParser) (n : Net) where
  open u use {Url}
  open n use {SocketAddr}

  abbrev check_cleartext : Option Url → Result ConfigError (Unit {0})
  check_cleartext none = err invalid_url
  check_cleartext (some parsed) =
      refuse_if
        (same (u.scheme parsed) (codes "http")
          && not (is_loopback_host n (or_default (u.host_str parsed))))
        cleartext

  unfoldable pub validate_url : Text → Result ConfigError (Unit {0})
  validate_url url = do
    refuse_if (not (is_absolute_http_uri u url)) not_absolute
    check_cleartext (u.parse url)

  -- `Config::new`
  unfoldable pub new_config :
      Text → Text → Text → SocketAddr → Result ConfigError (Config SocketAddr)
  new_config resource_url authorization_server stalwart_dav_base_url bind_addr = do
    validate_url (strip_trailing_slash resource_url)
    validate_url (strip_trailing_slash authorization_server)
    validate_url (strip_trailing_slash stalwart_dav_base_url)
    ok (record {
      resource_url = strip_trailing_slash resource_url;
      authorization_server = strip_trailing_slash authorization_server;
      stalwart_dav_base_url = strip_trailing_slash stalwart_dav_base_url;
      bind_addr = bind_addr;
      metrics_bind_addr = n.localhost_9090;
      rate_limit_reads_per_min = default_rate_limit_reads;
      rate_limit_writes_per_min = default_rate_limit_writes;
      dav_max_response_bytes = default_dav_max_response_bytes;
      trusted_proxy_hops = default_trusted_proxy_hops;
      stalwart_connect_ip = none;
      dcr_client_id = none;
      oauth_redirect_uris = [];
      stalwart_audience = strip_trailing_slash resource_url;
    })
