-- ===== src/OauthRedirect/Examples.antt =====
-- The theorems on src/oauth_redirect.rs, with a parser that knows one address of the local host.
use carddav_mcp.Base.{
  true, false, List, [], ◌∷◌, none, some, ◌≡◌, ◌⊎◌, ◌↔◌, refl, ok, if◌then◌else◌, All,
}
use carddav_mcp.Base.Str.{Text, codes, starts_with, split, trim, same, is_empty}
use carddav_mcp.OauthRedirect.{
  UrlParser, is_allowed_redirect_uri, parse_allowlist, entries_of, add_entries, push_new, contains,
  validate_redirect_uri, check_scheme, parse_url, is_loopback_host,
}
use carddav_mcp.OauthRedirect.Allowed.{
  IsListed, IsLoopbackMatch, is_allowed_redirect_uri-IsRedirectUri,
}
use carddav_mcp.OauthRedirect.Valid.{IsRedirectUri}
use carddav_mcp.OauthRedirect.Allowlist.{
  IsAllowlist, parse_allowlist-IsAllowlist, parse_allowlist-valid,
}

abbrev local_parser : UrlParser
local_parser = record {
  Url = Text;
  parse = λ uri. if starts_with (codes "http://localhost:") uri then some uri else none;
  scheme = λ url. codes "http";
  host_str = λ url. some (codes "localhost");
  path = λ url. codes "/cb";
  query = λ url. none;
  fragment = λ url. none;
  username = λ url. [];
  password = λ url. none;
}

abbrev listed_uri : Text
listed_uri = codes "http://localhost:1/cb"

abbrev other_port : Text
other_port = codes "http://localhost:2/cb"

is_allowed_redirect_uri-IsRedirectUri_example :
    (is_allowed_redirect_uri local_parser (listed_uri ∷ []) other_port ≡ true) ↔ (
      IsRedirectUri local_parser other_port
      × (IsListed (listed_uri ∷ []) other_port
          ⊎ IsLoopbackMatch local_parser (listed_uri ∷ []) other_port))
is_allowed_redirect_uri-IsRedirectUri_example =
    is_allowed_redirect_uri-IsRedirectUri local_parser (listed_uri ∷ []) other_port

-- The list, with a repeated entry.
abbrev raw_list : Text
raw_list = codes " http://localhost:1/cb,,http://localhost:1/cb"

raw_list_is_parsed : parse_allowlist local_parser raw_list ≡ ok (listed_uri ∷ [])
unfolding parse_allowlist add_entries entries_of split trim validate_redirect_uri same parse_url
    starts_with check_scheme is_loopback_host push_new contains
raw_list_is_parsed = refl

parse_allowlist-IsAllowlist_example : IsAllowlist local_parser raw_list (listed_uri ∷ [])
parse_allowlist-IsAllowlist_example =
    parse_allowlist-IsAllowlist local_parser raw_list (listed_uri ∷ []) raw_list_is_parsed

raw_list_is_valid : All (IsRedirectUri local_parser) (entries_of raw_list)
raw_list_is_valid =
    ((parse_allowlist-IsAllowlist local_parser raw_list (listed_uri ∷ [])
      raw_list_is_parsed).all_valid)

raw_list_has_entries : is_empty (entries_of raw_list) ≡ false
unfolding entries_of split trim
raw_list_has_entries = refl

parse_allowlist-valid_example :
    (uris : List Text) × (parse_allowlist local_parser raw_list ≡ ok uris)
parse_allowlist-valid_example =
    parse_allowlist-valid local_parser raw_list raw_list_is_valid raw_list_has_entries
