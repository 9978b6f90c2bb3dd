-- ===== src/Validation.antt =====
-- src/logto_oidc.rs: the validation of bearer tokens, with its cache of positive answers and the keys
-- of the authorization server. Signatures and JSON belong to crates and are an interface, as are the
-- clocks and the HTTP client. A call is one step here; in the code, other calls may run at its awaits,
-- between its reads of the caches and of the keys.
pub mod Cache
pub mod Validated
pub mod Examples
use carddav_mcp.Base.{
  ℕ, ◌+◌, ◌-◌, min, Bool, true, false, not, ◌&&◌, ◌||◌, List, [], ◌∷◌, ◌++◌, Option, none, some,
  String, Result, ok, err, length, leb, ltb, ◌==◌, if◌then◌else◌,
}
use carddav_mcp.Base.Int.{ℤ, pos, negsuc}
use carddav_mcp.Base.Str.{Text, Text-discrete, codes, is_empty, same, trim_end_matches}
use carddav_mcp.Base.HashMap.{HashMap, get, insert, remove}
use carddav_mcp.Base.Steps.{StepOf, ◌>>=◌, ◌>>◌, lift}
use carddav_mcp.Validation.Cache.{AuthenticatedIdentity, TokenCache, cache_lookup, cache_insert}

-- Seconds.
abbrev pub jwks_ttl : ℕ
jwks_ttl = 3600

abbrev pub jwks_min_refresh_interval : ℕ
jwks_min_refresh_interval = 5

pub data AudField : Type 0 where
  single : Text → AudField
  multi : List Text → AudField

pub record LogtoAccessTokenClaims : Type 0 where
  pub sub : Text
  pub aud : AudField
  pub exp : ℤ
  pub email : Option Text
  pub name : Option Text
  pub username : Option Text
  pub scope : Option Text

-- `iter().any(|s| s == expected)`
unfoldable pub is_member : List Text → Text → Bool
is_member [] expected = false
is_member (s ∷ xs) expected = same s expected || is_member xs expected

-- `AudField::matches`
unfoldable pub aud_matches : AudField → Text → Bool
aud_matches (single s) expected = same s expected
aud_matches (multi xs) expected = is_member xs expected

unfoldable pub any_matches : List Text → AudField → Bool
any_matches [] aud = false
any_matches (expected ∷ rest) aud = aud_matches aud expected || any_matches rest aud

-- The algorithms of `jsonwebtoken`.
pub data Algorithm : Type 0 where
  hs256 hs384 hs512 es256 es384 rs256 rs384 rs512 ps256 ps384 ps512 ed_dsa : Algorithm

unfoldable pub is_accepted : Algorithm → Bool
is_accepted es384 = true
is_accepted es256 = true
is_accepted rs256 = true
is_accepted rs384 = true
is_accepted rs512 = true
is_accepted ed_dsa = true
is_accepted hs256 = false
is_accepted hs384 = false
is_accepted hs512 = false
is_accepted ps256 = false
is_accepted ps384 = false
is_accepted ps512 = false

pub record Header : Type 0 where
  pub kid : Option Text
  pub alg : Algorithm

-- `Validation`, as the client fills it.
pub record Checks : Type 0 where
  pub algorithm : Algorithm
  pub audience : List Text
  pub issuer : List Text
  pub required_spec_claims : List String

-- A key of a fetched set: its id and, where it is one, the key.
pub record Jwt : Type 1 where
  pub DecodingKey : Type 0
  pub decode_header : Text → Option Header
  pub decode : Text → DecodingKey → Checks → Option LogtoAccessTokenClaims

pub data ValidationError : Type 0 where
  http : String → ValidationError
  jwks_upstream : ℕ → ValidationError

module _ (j : Jwt) where
  open j use {DecodingKey}

  -- The answer to a request for the keys: a status, and the ids and keys of a body that is a set.
  pub record JwksResponse : Type 0 where
    pub status : ℕ
    pub keys : Result String (List (Option Text × Option DecodingKey))

  pub record JwksCache : Type 0 where
    pub keys : HashMap Text DecodingKey
    pub fetched_at : Option ℕ
    pub last_refresh_attempt : Option ℕ

  -- What the client calls: HTTP, the two clocks, and the hash.
  pub record Outside : Type 1 where
    pub Server : Type 0
    pub fetch : Text → Server → Server × Result String JwksResponse
    pub now : Server → ℕ
    pub now_unix : Server → ℕ
    pub hash_token : Text → Text

  pub record LogtoValidationClient : Type 0 where
    pub jwks_url : Text
    pub expected_audiences : List Text
    pub expected_issuer : Text

  -- `LogtoValidationClient::new`, which refuses an empty list of audiences.
  unfoldable pub new_validation_client : Text → List Text → Option LogtoValidationClient
  new_validation_client authorization_server expected_audiences =
      let issuer = trim_end_matches (λ c. c == b'/') authorization_server in
      if is_empty expected_audiences
      then none
      else some (record {
        jwks_url = issuer ++ codes "/jwks";
        expected_audiences = expected_audiences;
        expected_issuer = issuer;
      })

  abbrev pub is_within : ℕ → ℕ → Option ℕ → Bool
  is_within now limit none = false
  is_within now limit (some t) = ltb (now - t) limit

  -- The loop of `refresh_jwks` over the keys of the set.
  unfoldable pub collect_keys :
      List (Option Text × Option DecodingKey) → HashMap Text DecodingKey → HashMap Text DecodingKey
  collect_keys [] keys = keys
  collect_keys ((some kid, some k) ∷ set) keys = collect_keys set (insert Text-discrete kid k keys)
  collect_keys ((some kid, none) ∷ set) keys = collect_keys set keys
  collect_keys ((none, k) ∷ set) keys = collect_keys set keys

  abbrev pub identity_of : LogtoAccessTokenClaims → AuthenticatedIdentity
  identity_of claims = record {
    user_id = claims.sub;
    email = elim claims.email [ some e ↦ some e | none ↦ claims.username ];
    name = claims.name;
    exp = some claims.exp;
  }

module _ (j : Jwt) (o : Outside j) (client : LogtoValidationClient j) where
  open j use {DecodingKey}
  open o use {Server}

  pub record ValidationWorld : Type 0 where
    pub jwks : JwksCache j
    pub cache : TokenCache
    pub server : Server

  abbrev pub ValidationStep : Type 0 → Type 0
  ValidationStep A = StepOf ValidationError ValidationWorld A

  -- `refresh_jwks`, on the answer.
  unfoldable pub on_keys : Result String (JwksResponse j) → ValidationStep (Unit {0})
  on_keys (err e) w = (w, err (http e))
  on_keys (ok response) w =
      if not (leb 200 response.status && ltb response.status 300)
      then (w, err (jwks_upstream response.status))
      else elim response.keys [
        | err e ↦ (w, err (http e))
        | ok set ↦ (
          record w {
            jwks = record w.jwks {
              keys = collect_keys j set [];
              fetched_at = some (o.now w.server);
            };
          },
          ok tt,
        )
      ]

  unfoldable pub refresh_jwks : ValidationStep (Unit {0})
  refresh_jwks w =
      let (server', answer) = o.fetch client.jwks_url w.server in
      on_keys answer (record w { server = server' })

  -- A fresh key of the cache.
  abbrev pub fresh_key : Text → ValidationWorld → Option DecodingKey
  fresh_key kid w =
      if is_within j (o.now w.server) jwks_ttl w.jwks.fetched_at
      then get Text-discrete kid w.jwks.keys
      else none

  abbrev pub known_key : Text → ValidationStep (Option DecodingKey)
  known_key kid w = (w, ok (get Text-discrete kid w.jwks.keys))

  -- The path behind the gate, without a fresh key.
  unfoldable pub refreshed_key : Text → ValidationStep (Option DecodingKey)
  refreshed_key kid w =
      if is_within j (o.now w.server) jwks_min_refresh_interval w.jwks.last_refresh_attempt
      then known_key kid w
      else (refresh_jwks >> known_key kid)
          (record w { jwks = record w.jwks { last_refresh_attempt = some (o.now w.server) } })

  unfoldable pub decoding_key_for : Text → ValidationStep (Option DecodingKey)
  decoding_key_for kid w = elim (fresh_key kid w) [
    | some k ↦ (w, ok (some k))
    | none ↦ refreshed_key kid w
  ]

  abbrev pub checks_for : Algorithm → Checks
  checks_for alg = record {
    algorithm = alg;
    audience = client.expected_audiences;
    issuer = client.expected_issuer ∷ [];
    required_spec_claims = "exp" ∷ "aud" ∷ "iss" ∷ "sub" ∷ [];
  }

  -- `validate_token` from the decoded claims on.
  unfoldable pub accept :
      Text → Option LogtoAccessTokenClaims → ValidationStep (Option AuthenticatedIdentity)
  accept token none w = (w, ok none)
  accept token (some claims) w =
      if not (any_matches client.expected_audiences claims.aud) then (w, ok none) else (
        record w {
          cache =
              cache_insert w.cache (o.hash_token token) (identity_of j claims) (some claims.exp)
                (o.now_unix w.server) (o.now w.server);
        },
        ok (some (identity_of j claims)),
      )

  -- From the key on.
  unfoldable pub verify :
      Text → Algorithm → Option DecodingKey → ValidationStep (Option AuthenticatedIdentity)
  verify token alg none w = (w, ok none)
  verify token alg (some k) w =
      if not (is_accepted alg)
      then (w, ok none)
      else accept token (j.decode token k (checks_for alg)) w

  -- From the id of the key on.
  unfoldable pub with_kid :
      Text → Algorithm → Option Text → ValidationStep (Option AuthenticatedIdentity)
  with_kid token alg none = lift (ok none)
  with_kid token alg (some kid) = decoding_key_for kid >>= verify token alg

  unfoldable pub with_header : Text → Option Header → ValidationStep (Option AuthenticatedIdentity)
  with_header token none = lift (ok none)
  with_header token (some header) = with_kid token header.alg header.kid

  unfoldable pub validate_token : Text → ValidationStep (Option AuthenticatedIdentity)
  validate_token token w = elim (cache_lookup w.cache (o.hash_token token) (o.now w.server)) [
    | some hit ↦ (w, ok (some hit))
    | none ↦ with_header token (j.decode_header token) w
  ]

  unfoldable pub drop_token : Text → ValidationWorld → ValidationWorld
  drop_token token w = record w { cache = remove Text-discrete (o.hash_token token) w.cache }
