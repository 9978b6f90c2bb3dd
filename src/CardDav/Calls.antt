-- ===== src/CardDav/Calls.antt =====
-- src/carddav_client.rs: the requests of the client, and the discovery of a caller's address books.
-- Log lines are left out, and with them the part of an error's body that one shows.
use carddav_mcp.Base.{
  ℕ, ◌||◌, List, [], ◌∷◌, Option, none, some, String, Result, ok, err, if◌then◌else◌, ◌==◌,
}
use carddav_mcp.Base.Str.{Text, codes}
use carddav_mcp.Base.Steps.{◌>>=◌, ◌>>◌, lift}
use carddav_mcp.OauthRedirect.{UrlParser}
use carddav_mcp.Tools.{CardDavError, unauthorized, not_found, upstream, http, invalid_data}
use carddav_mcp.CardDav.{
  DavUrls, DavDiscovery, propfind_method, Request, HttpResponse, DavHttpResponse, CardDavClient,
  DavWorld, DavStep,
}
use carddav_mcp.CardDav.Body.{read_limited}
use carddav_mcp.CardDav.Discoveries.{discovery_lookup, discovery_insert, evict_discovery}
use carddav_mcp.CardDav.Href.{resolve_href}
use carddav_mcp.CardDav.Multistatus.{ParsedDavResponse, Event, parse_multistatus}

-- What the client calls besides URLs: `reqwest`, whose `request` is one `send`, from the request that
-- is handed to it to the response or the text of an error that it answers in the end, with the
-- redirects that it follows in between (the client leaves its default policy on), the clock, the XML reader and its entities, the hash of a token, and the
-- texts of numbers and errors.
pub record Transport (Url : Type 0) : Type 1 where
  pub Server : Type 0
  pub request : Request Url → Server → Server × Result String HttpResponse
  pub now : Server → ℕ
  pub read_events : List ℕ → List Event
  pub resolve_xml_entity : Text → Option Text
  pub unsupported : Text → String
  pub hash_token : Text → Text
  pub shown_status : ℕ → String

abbrev current_user_principal_body : Text
current_user_principal_body =
    codes
      "<?xml version=\"1.0\" encoding=\"UTF-8\"?>\n<d:propfind xmlns:d=\"DAV:\">\n  <d:prop><d:current-user-principal/></d:prop>\n</d:propfind>"

abbrev addressbook_home_body : Text
addressbook_home_body =
    codes
      "<?xml version=\"1.0\" encoding=\"UTF-8\"?>\n<d:propfind xmlns:d=\"DAV:\" xmlns:card=\"urn:ietf:params:xml:ns:carddav\">\n  <d:prop><card:addressbook-home-set/></d:prop>\n</d:propfind>"

-- `responses.iter().find_map(field)`
unfoldable pub find_map : (ParsedDavResponse → Option Text) → List ParsedDavResponse → Option Text
find_map field [] = none
find_map field (r ∷ responses) = elim (field r) [
  | some found ↦ some found
  | none ↦ find_map field responses
]

-- `ok_or_else(|| CardDavError::InvalidData(…))`
abbrev pub found_or : String → Option Text → Result CardDavError Text
found_or message none = err (invalid_data message)
found_or message (some href) = ok href

module _ (u : UrlParser) (d : DavUrls u) (t : Transport u.Url) (client : CardDavClient u.Url) where
  open u use {Url}
  open t use {Server}

  unfoldable pub ensure_multistatus : ℕ → Result CardDavError (Unit {0})
  ensure_multistatus status =
      if status == 207 || status == 200
      then ok tt
      else if status == 404
      then err not_found
      else err (upstream (t.shown_status status))

  -- `evict`
  unfoldable pub evict : Text → DavWorld Server → DavWorld Server
  evict token w = record w { discoveries = evict_discovery w.discoveries (t.hash_token token) }

  -- What `send` makes of the answer.
  unfoldable pub on_response : Text → Result String HttpResponse → DavStep Server DavHttpResponse
  on_response token (err e) w = (w, err (http e))
  on_response token (ok response) w =
      if response.status == 401 || response.status == 403
      then (evict token w, err unauthorized)
      else (lift (read_limited client.max_response_bytes response.content_length response.chunks)
            >>= λ body. lift (
                ok (record {
                  status = response.status;
                  body = body;
                  etag = response.etag;
                  location = response.location;
                })))
          w

  unfoldable pub send : Text → Request Url → DavStep Server DavHttpResponse
  send token request w =
      let (server', answer) = t.request (record request { bearer = some token }) w.server in
      on_response token answer (record w { server = server' })

  unfoldable pub propfind : Text → Url → Text → Text → DavStep Server DavHttpResponse
  propfind token url depth body = do
    response ← send token (record {
      method = propfind_method;
      url = url;
      bearer = none;
      headers =
          ("Depth", depth)
          ∷ ("Content-Type", codes "application/xml; charset=utf-8")
          ∷ ("Accept", codes "application/xml")
          ∷ [];
      body = some body;
    })
    lift (ensure_multistatus response.status)
    lift (ok response)

  -- `parse_multistatus` of the bytes of a body.
  abbrev pub parse_body : DavHttpResponse → Result CardDavError (List ParsedDavResponse)
  parse_body response =
      parse_multistatus t.resolve_xml_entity t.unsupported (t.read_events response.body)

  -- `discovery_insert`, with the clock.
  unfoldable pub remember : Text → DavDiscovery → DavStep Server (Unit {0})
  remember token discovery w = (
    record w {
      discoveries =
          discovery_insert w.discoveries (t.hash_token token) discovery (t.now w.server)
            (t.now w.server);
    },
    ok tt,
  )

  -- `discover` without an entry in the cache.
  unfoldable pub discover_fresh : Text → DavStep Server DavDiscovery
  discover_fresh token = do
    principal_response ← propfind token client.discovery_url (codes "0") current_user_principal_body
    responses ← lift (parse_body principal_response)
    principal_href ← lift (
        found_or "discovery response omitted current-user-principal"
          (find_map (λ r. r.current_user_principal) responses))
    principal_url ← lift (resolve_href u d client.base_url principal_href)
    home_response ← propfind token principal_url (codes "0") addressbook_home_body
    homes ← lift (parse_body home_response)
    addressbook_home_href ← lift (
        found_or "principal response omitted addressbook-home-set"
          (find_map (λ r. r.addressbook_home) homes))
    home_url ← lift (resolve_href u d client.base_url addressbook_home_href)
    remember token
        (record { principal_href = principal_href; addressbook_home_href = addressbook_home_href })
    lift (
        ok (record {
          principal_href = principal_href;
          addressbook_home_href = addressbook_home_href;
        }))

  unfoldable pub discover : Text → DavStep Server DavDiscovery
  discover token w = elim (discovery_lookup w.discoveries (t.hash_token token) (t.now w.server)) [
    | some discovery ↦ (w, ok discovery)
    | none ↦ discover_fresh token w
  ]
