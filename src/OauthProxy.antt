-- ===== src/OauthProxy.antt =====
-- src/oauth_proxy.rs: the OAuth proxy, its store of pending authorizations, and its three handlers
-- as steps on it. The parsing and writing of forms, the changing of a URL's query and the HTTP
-- client are interfaces; the random state and the times are arguments of each call.
pub mod Rewritten
pub mod Resource
pub mod Forwarded
pub mod Answered
pub mod Stored
pub mod Asked
pub mod Flow
pub mod Spared
pub mod Returned
pub mod Token
pub mod Examples
use carddav_mcp.Base.{
  ℕ, ◌-◌, ◌+◌, Bool, true, false, not, ◌&&◌, ◌||◌, List, [], ◌∷◌, ◌++◌, Option, none, some, String,
  Result, ok, err, length, leb, ltb, ◌==◌, if◌then◌else◌, fold,
}
use carddav_mcp.Base.Str.{Text, Text-discrete, codes, len, same, trim_end_matches}
use carddav_mcp.Base.HashMap.{HashMap, get, insert, remove, retain}
use carddav_mcp.OauthRedirect.{UrlParser, is_some, is_allowed_redirect_uri}
use carddav_mcp.Config.{is_absolute_http_uri}

-- Seconds, entries and bytes.
abbrev pub pending_ttl : ℕ
pending_ttl = 600

abbrev pub pending_cap : ℕ
pending_cap = 2048

abbrev pub max_client_state_bytes : ℕ
max_client_state_bytes = 4096

abbrev pub Pairs : Type 0
Pairs = List (Text × Text)

-- What the program calls of `url::form_urlencoded` and of the crate `url`: `appended` is the text of
-- a URL after `query_pairs_mut().append_pair` of each pair.
pub record Forms (u : UrlParser) : Type 0 where
  pub parse_pairs : Text → Pairs
  pub serialize : Pairs → Text
  pub appended : u.Url → Pairs → Text

pub record Pending : Type 0 where
  pub client_redirect_uri : Text
  pub client_state : Option Text
  pub created : ℕ

abbrev pub Store : Type 0
Store = HashMap Text Pending

-- What does not change of `Inner`.
pub record Proxy : Type 0 where
  pub logto_base : Text
  pub callback_url : Text
  pub allowed_redirect_uris : List Text
  pub dav_audience : Text

-- `OAuthProxyState::new`
unfoldable pub new_proxy : Text → Text → List Text → Text → Proxy
new_proxy logto_base resource_url allowed_redirect_uris dav_audience = record {
  logto_base = trim_end_matches (λ c. c == b'/') logto_base;
  callback_url = trim_end_matches (λ c. c == b'/') resource_url ++ codes "/oauth/callback";
  allowed_redirect_uris = allowed_redirect_uris;
  dav_audience = dav_audience;
}

-- The answers: a status with a text, or a redirect.
pub data Answer : Type 0 where
  refused : ℕ → String → Answer
  redirect : Text → Answer

abbrev pub is_live : ℕ → Pending → Bool
is_live now p = ltb (now - p.created) pending_ttl

-- The `retain` of `insert`.
unfoldable pub drop_expired : Store → ℕ → Store
drop_expired g now = if leb pending_cap (length g) then retain (is_live now) g else g

-- `insert`: nothing, where there is no room.
unfoldable pub insert_pending : Store → Text → Pending → ℕ → Store × Bool
insert_pending g state pending now =
    let g' = drop_expired g now in
    if leb pending_cap (length g')
    then (g', false)
    else (insert Text-discrete state pending g', true)

-- `take`
abbrev pub live_or_none : ℕ → Option Pending → Option Pending
live_or_none now none = none
live_or_none now (some p) = if leb pending_ttl (now - p.created) then none else some p

unfoldable pub take_pending : Store → Text → ℕ → Store × Option Pending
take_pending g state now =
    (remove Text-discrete state g, live_or_none now (get Text-discrete state g))

-- `pairs.iter().find(|(k, _)| k == key).map(|(_, v)| v.clone())`
unfoldable pub find_pair : Text → Pairs → Option Text
find_pair key [] = none
find_pair key ((k, v) ∷ pairs) =
    let rest = find_pair key pairs in if same k key then some v else rest

-- `pairs.get(key)` of the pairs collected into a map, in which a later pair replaces an earlier one.
unfoldable pub last_pair : Text → Pairs → Option Text
last_pair key [] = none
last_pair key ((k, v) ∷ pairs) = elim (last_pair key pairs) [
  | some later ↦ some later
  | none ↦ if same k key then some v else none
]

-- The values of a key all replaced, and a pair with the value added where the key is missing.
unfoldable pub set_values : Text → Text → Pairs → Pairs
set_values key v [] = []
set_values key v ((k, w) ∷ pairs) = (k, if same k key then v else w) ∷ set_values key v pairs

unfoldable pub or_push : Text → Text → Pairs → Pairs
or_push key v pairs = if is_some (find_pair key pairs) then pairs else pairs ++ (key, v) ∷ []

module _ (u : UrlParser) where
  unfoldable pub apply_dav_resource : Pairs → Text → Pairs
  apply_dav_resource pairs dav_audience =
      if not (is_absolute_http_uri u dav_audience)
      then pairs
      else or_push (codes "resource") dav_audience
          (set_values (codes "resource") dav_audience pairs)

  -- The rewriting of `authorize`: the loop over the pairs, and what follows it.
  unfoldable pub rewrite_pair : Proxy → Text → Text × Text → Text × Text
  rewrite_pair st proxy_state (k, v) =
      if same k (codes "redirect_uri")
      then (k, st.callback_url)
      else if same k (codes "state")
      then (k, proxy_state)
      else (k, v)

  unfoldable pub rewrite_pairs : Proxy → Text → Pairs → Pairs
  rewrite_pairs st proxy_state [] = []
  rewrite_pairs st proxy_state (p ∷ pairs) =
      rewrite_pair st proxy_state p ∷ rewrite_pairs st proxy_state pairs

  unfoldable pub forwarded_pairs : Proxy → Text → Pairs → Pairs
  forwarded_pairs st proxy_state pairs =
      apply_dav_resource (or_push (codes "state") proxy_state (rewrite_pairs st proxy_state pairs))
        st.dav_audience

abbrev pub too_long : Option Text → Bool
too_long none = false
too_long (some state) = ltb max_client_state_bytes (len state)

abbrev pub or_empty : Option Text → Text
or_empty none = []
or_empty (some q) = q

module _ (u : UrlParser) (f : Forms u) (st : Proxy) where
  -- `authorize` behind its refusals, once the proxy's state is there.
  abbrev pub forwarded : Pairs → Text → Store × Bool → Store × Answer
  forwarded pairs proxy_state (g, false) =
      (g, refused 503 "too many pending authorizations; try again later\n")
  forwarded pairs proxy_state (g, true) = (
    g,
    redirect
        (st.logto_base ++ codes "/auth?" ++ f.serialize (forwarded_pairs u st proxy_state pairs)),
  )

  unfoldable pub remember_client :
      Pairs → Text → Option Text → Text → ℕ → ℕ → Store → Store × Answer
  remember_client pairs uri client_state proxy_state created now g =
      if too_long client_state
      then (g, refused 400 "state is too large\n")
      else forwarded pairs proxy_state (
          insert_pending g proxy_state
            (record { client_redirect_uri = uri; client_state = client_state; created = created })
            now)

  abbrev pub for_client : Pairs → Text → ℕ → ℕ → Store → Option Text → Store × Answer
  for_client pairs proxy_state created now g none = (g, refused 400 "missing redirect_uri\n")
  for_client pairs proxy_state created now g (some uri) =
      if not (is_allowed_redirect_uri u st.allowed_redirect_uris uri)
      then (g, refused 400 "unregistered redirect_uri\n")
      else remember_client pairs uri (find_pair (codes "state") pairs) proxy_state created now g

  -- `authorize`, with the random state, the time of the entry and the time of the sweep.
  unfoldable pub authorize : Option Text → Text → ℕ → ℕ → Store → Store × Answer
  authorize q proxy_state created now g =
      let pairs = f.parse_pairs (or_empty q) in
      for_client pairs proxy_state created now g (find_pair (codes "redirect_uri") pairs)

  -- The pairs that `callback` appends.
  abbrev pub pair_of : Text → Option Text → Pairs
  pair_of key none = []
  pair_of key (some v) = (key, v) ∷ []

  unfoldable pub returned_pairs : Pairs → Option Text → Pairs
  returned_pairs pairs client_state =
      pair_of (codes "code") (last_pair (codes "code") pairs)
      ++ pair_of (codes "error") (last_pair (codes "error") pairs)
      ++ pair_of (codes "error_description") (last_pair (codes "error_description") pairs)
      ++ pair_of (codes "state") client_state

  abbrev pub to_client : Pairs → Option Text → Option u.Url → Answer
  to_client pairs client_state none = refused 400 "bad client redirect_uri\n"
  to_client pairs client_state (some url) =
      redirect (f.appended url (returned_pairs pairs client_state))

  abbrev pub bounced : Pairs → Store × Option Pending → Store × Answer
  bounced pairs (g, none) = (g, refused 400 "unknown or expired state\n")
  bounced pairs (g, some p) = (g, to_client pairs p.client_state (u.parse p.client_redirect_uri))

  abbrev pub for_state : Pairs → ℕ → Store → Option Text → Store × Answer
  for_state pairs now g none = (g, refused 400 "missing state\n")
  for_state pairs now g (some state) = bounced pairs (take_pending g state now)

  unfoldable pub callback : Option Text → ℕ → Store → Store × Answer
  callback q now g =
      let pairs = f.parse_pairs (or_empty q) in
      for_state pairs now g (last_pair (codes "state") pairs)
