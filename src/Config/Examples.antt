-- ===== src/Config/Examples.antt =====
-- The theorem on src/config.rs, with three services named and everything else left to the defaults.
use carddav_mcp.Config.Usable.{IsUsable, from_env-IsUsable}
use carddav_mcp.Config.Env.{
  from_env, configured, require_env, parse_rate_limit, parse_u64_env, parse_trusted_proxy_hops,
  parse_redirect_uris_env, audience,
}
use carddav_mcp.Base.{◌≡◌, refl, [], none, some, ok, false, if◌then◌else◌}
use carddav_mcp.Base.Str.{
  Text, codes, same, trim, trim_start_matches, trim_end_matches, is_whitespace, any,
}
use carddav_mcp.OauthRedirect.{UrlParser}
use carddav_mcp.Config.{
  EnvVar, not_present, value, Net, Config, socket_addr, resolve_metrics_bind_addr, new_config,
  validate_url, is_absolute_http_uri, is_http_url, strip_trailing_slash,
}

abbrev https_parser : UrlParser
https_parser = record {
  Url = Text;
  parse = λ uri. some uri;
  scheme = λ url. codes "https";
  host_str = λ url. some (codes "a.test");
  path = λ url. codes "/";
  query = λ url. none;
  fragment = λ url. none;
  username = λ url. [];
  password = λ url. none;
}

abbrev text_net : Net
text_net = record {
  SocketAddr = Text;
  parse_addr = λ s. some s;
  localhost_9090 = codes "127.0.0.1:9090";
  is_loopback_ip = λ s. false;
}

abbrev small_env : Text → EnvVar
small_env name =
    if same name (codes "CARDDAV_MCP_RESOURCE_URL")
    then value (codes "https://a.test/")
    else if same name (codes "CARDDAV_MCP_AUTHORIZATION_SERVER")
    then value (codes "https://a.test")
    else if same name (codes "CARDDAV_MCP_STALWART_DAV_BASE_URL")
    then value (codes "https://a.test")
    else not_present

abbrev small_config : Config Text
small_config = record {
  resource_url = codes "https://a.test";
  authorization_server = codes "https://a.test";
  stalwart_dav_base_url = codes "https://a.test";
  bind_addr = codes "0.0.0.0:3000";
  metrics_bind_addr = codes "127.0.0.1:9090";
  rate_limit_reads_per_min = 60;
  rate_limit_writes_per_min = 30;
  dav_max_response_bytes = 8388608;
  trusted_proxy_hops = 2;
  stalwart_connect_ip = none;
  dcr_client_id = none;
  oauth_redirect_uris = [];
  stalwart_audience = codes "https://a.test";
}

small_env_is_loaded : from_env https_parser text_net small_env ≡ ok small_config
unfolding from_env configured require_env socket_addr resolve_metrics_bind_addr new_config
    validate_url is_absolute_http_uri is_http_url strip_trailing_slash parse_rate_limit
    parse_u64_env parse_trusted_proxy_hops parse_redirect_uris_env audience same trim
    trim_start_matches trim_end_matches is_whitespace any
small_env_is_loaded = refl

from_env-IsUsable_example : IsUsable https_parser text_net small_config
from_env-IsUsable_example =
    from_env-IsUsable https_parser text_net small_env small_config small_env_is_loaded
