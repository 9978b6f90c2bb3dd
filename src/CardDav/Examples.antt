-- ===== src/CardDav/Examples.antt =====
-- The theorems on src/carddav_client.rs, with URLs that are paths on one host, and a server that
-- logs its requests and answers each with the same document.
use carddav_mcp.Base.{
  length, List, [], ◌∷◌, ◌++◌, none, some, String, Result, ok, ◌≡◌, ◌≢◌, ◌↔◌, ◌≤◌, refl, arith, All,
}
use carddav_mcp.Base.Str.{
  Text, Text-discrete, codes, same, trim, trim_start_matches, trim_end_matches, is_whitespace,
}
use carddav_mcp.Base.HashMap.{get}
use carddav_mcp.Base.Steps.{after_step}
use carddav_mcp.Base.HashMap.Bounded.{IsBounded}
use carddav_mcp.OauthRedirect.{UrlParser, same_option}
use carddav_mcp.CardDav.{DavUrls, DavDiscovery, CachedDiscovery, Request, CardDavClient, DavWorld}
use carddav_mcp.CardDav.Body.{
  Bytes, read_limited, read_chunks, received, IsComplete, IsWithin, read_limited-received,
}
use carddav_mcp.CardDav.Cached.{IsAskedAgain, discover-discover}
use carddav_mcp.CardDav.Calls.{
  Transport, discover, discover_fresh, propfind, send, on_response, ensure_multistatus, find_map,
  remember,
}
use carddav_mcp.CardDav.Discoveries.{
  discovery_lookup, discovery_cap, discovery_insert, IsCached, discovery_insert-IsCached,
}
use carddav_mcp.CardDav.Escape.{below_surrogates, escape_xml, IsRead, escape_xml-IsRead}
use carddav_mcp.CardDav.Href.{resolve_href, same_origin, same_port, IsOwn, resolve_href-IsOwn}
use carddav_mcp.CardDav.Multistatus.{
  run_events, handle, on_start, on_end, closes_capture, start_capture, parse_multistatus,
}
use carddav_mcp.CardDav.Multistatus.Written.{node_events}
use carddav_mcp.CardDav.Multistatus.Examples.{ampersand, home_events}
use carddav_mcp.CardDav.Own.{IsOwnRequest, IsUrlCrate}

abbrev pub paths : UrlParser
paths = record {
  Url = Text;
  parse = λ uri. some uri;
  scheme = λ url. codes "https";
  host_str = λ url. some (codes "dav.test");
  path = λ url. url;
  query = λ url. none;
  fragment = λ url. none;
  username = λ url. [];
  password = λ url. none;
}

abbrev pub path_urls : DavUrls paths
path_urls = record {
  join = λ base href. some href;
  port_or_known_default = λ url. some 443;
  set_path = λ url path. path;
  without_query = λ url. url;
  without_fragment = λ url. url;
  pop_if_empty_push = λ url segment. some (url ++ codes "/" ++ segment);
  shown = λ s. "";
}

resolve_href-IsOwn_example :
    (resolve_href paths path_urls (codes "/") (codes "/dav/") ≡ ok (codes "/dav/")) ↔ (
      (trim (codes "/dav/") ≡ codes "/dav/")
      × (codes "/dav/" ≢ [])
      × (some (codes "/dav/") ≡ some (codes "/dav/"))
      × IsOwn paths path_urls (codes "/") (codes "/dav/"))
resolve_href-IsOwn_example =
    resolve_href-IsOwn paths path_urls (codes "/") (codes "/dav/") (codes "/dav/")

abbrev stream : List (Result String Bytes)
stream = ok (1 ∷ 2 ∷ []) ∷ ok (3 ∷ []) ∷ []

read_limited-received_example :
    (read_limited 4 (some 3) stream ≡ ok (1 ∷ 2 ∷ 3 ∷ []))
    ↔ (IsWithin 4 (some 3) × IsComplete stream × (1 ∷ 2 ∷ 3 ∷ [] ≡ received stream) × (3 ≤ 4))
read_limited-received_example =
    read_limited-received 4 (some 3) stream (1 ∷ 2 ∷ 3 ∷ []) (omega arith)

escape_xml-IsRead_example : IsRead (escape_xml (codes "a<&\"b")) (codes "a<&\"b")
escape_xml-IsRead_example = escape_xml-IsRead (codes "a<&\"b") (
  below_surrogates (omega arith) (omega arith),
  (
    below_surrogates (omega arith) (omega arith),
    (
      below_surrogates (omega arith) (omega arith),
      (
        below_surrogates (omega arith) (omega arith),
        (below_surrogates (omega arith) (omega arith), tt),
      ),
    ),
  ),
)

abbrev jo_discovery : DavDiscovery
jo_discovery = record {
  principal_href = codes "/principals/u/";
  addressbook_home_href = codes "/dav/card/u/";
}

no_discoveries-IsBounded : IsBounded {V = CachedDiscovery} Text-discrete discovery_cap []
no_discoveries-IsBounded = record { distinct = tt; bounded = omega arith }

discovery_insert-IsCached_example :
    IsCached []
      (codes "hash")
      jo_discovery
      5
      6
      (discovery_insert [] (codes "hash") jo_discovery 5 6)
discovery_insert-IsCached_example =
    discovery_insert-IsCached [] (codes "hash") jo_discovery 5 6 no_discoveries-IsBounded

-- The server keeps its requests, the last one first.
abbrev pub logging : Transport Text
logging = record {
  Server = List (Request Text);
  request = λ r log. (
    r ∷ log,
    ok (record {
      status = 207;
      etag = none;
      location = none;
      content_length = none;
      chunks = ok (1 ∷ []) ∷ [];
    }),
  );
  now = λ log. length log;
  read_events = λ body. home_events;
  resolve_xml_entity = ampersand;
  unsupported = λ name. "";
  hash_token = λ token. token;
  shown_status = λ status. "";
}

abbrev pub client : CardDavClient Text
client = record {
  base_url = codes "/";
  discovery_url = codes "/.well-known/carddav";
  max_response_bytes = 9;
}

abbrev pub fresh_world : DavWorld (List (Request Text))
fresh_world = record { discoveries = []; server = [] }

nothing_found :
    discovery_lookup fresh_world.discoveries (codes "t") (logging.now fresh_world.server) ≡ none
unfolding discovery_lookup get
nothing_found = refl

abbrev discovered : DavWorld (List (Request Text))
discovered = (discover paths path_urls logging client (codes "t") fresh_world).0

discovers :
    discover paths path_urls logging client (codes "t") fresh_world ≡ (discovered, ok jo_discovery)
unfolding node_events discover discover_fresh discovery_lookup get after_step propfind send
    on_response read_limited read_chunks ensure_multistatus parse_multistatus run_events handle
    on_start same on_end find_map resolve_href same_origin same_port same_option closes_capture
    start_capture trim trim_start_matches trim_end_matches is_whitespace remember
discovers = refl

-- The server has had more requests meanwhile, by which its clock goes.
abbrev later_world : DavWorld (List (Request Text))
later_world = record discovered { server = discovered.server ++ discovered.server }

discover-discover_example :
    IsAskedAgain paths path_urls logging client (codes "t") discovered later_world jo_discovery
discover-discover_example =
    discover-discover paths path_urls logging client (codes "t") fresh_world discovered later_world
      jo_discovery nothing_found discovers refl

pub path_urls-IsUrlCrate : IsUrlCrate paths path_urls
path_urls-IsUrlCrate = record {
  push_site = λ url url' segment e. record {
    same_scheme = refl;
    same_host = refl;
    same_known_port = refl;
    same_user = refl;
    same_password = refl;
  };
  query_site = λ url. record {
    same_scheme = refl;
    same_host = refl;
    same_known_port = refl;
    same_user = refl;
    same_password = refl;
  };
  fragment_site = λ url. record {
    same_scheme = refl;
    same_host = refl;
    same_known_port = refl;
    same_user = refl;
    same_password = refl;
  };
  fragment_gone = λ url. refl;
}

pub discovery_url-IsOwn : IsOwn paths path_urls (codes "/") (codes "/.well-known/carddav")
discovery_url-IsOwn = record {
  own_scheme = refl;
  own_host = refl;
  own_port = refl;
  no_user = refl;
  no_password = refl;
  no_fragment = refl;
}

-- Each request of the log went to the host, with the token.
abbrev pub IsOwnLog : List (Request Text) → Type 0
IsOwnLog = All (IsOwnRequest paths path_urls logging client (codes "t"))
