-- ===== src/Validation/Examples.antt =====
-- The theorem on src/logto_oidc.rs, with one key and one token.
use carddav_mcp.Base.{ℕ, ◌+◌, ◌≡◌, ◌⊎◌, refl, ap, [], ◌∷◌, none, some, ok}
use carddav_mcp.Base.Int.{pos}
use carddav_mcp.Base.Str.{Text, Text-discrete, codes, same}
use carddav_mcp.Base.HashMap.{get}
use carddav_mcp.Base.HashMap.Laws.{get-insert_self}
use carddav_mcp.Base.Steps.{after_step}
use carddav_mcp.Validation.{
  LogtoAccessTokenClaims, single, es256, Jwt, Outside, LogtoValidationClient, ValidationWorld,
  validate_token, with_header, with_kid, decoding_key_for, refreshed_key, refresh_jwks, on_keys,
  collect_keys, verify, accept, is_accepted, any_matches, aud_matches, identity_of,
}
use carddav_mcp.Validation.Cache.{AuthenticatedIdentity, cache_lookup}
use carddav_mcp.Validation.Validated.{IsVerified, validate_token-IsVerified}

abbrev jo_claims : LogtoAccessTokenClaims
jo_claims = record {
  sub = codes "jo";
  aud = single (codes "a");
  exp = pos 100;
  email = none;
  name = none;
  username = some (codes "jo");
  scope = none;
}

abbrev one_token : Jwt
one_token = record {
  DecodingKey = Text;
  decode_header = λ token. some (record { kid = some (codes "k"); alg = es256 });
  decode = λ token k checks. some jo_claims;
}

abbrev one_key : Outside one_token
one_key = record {
  Server = ℕ;
  fetch = λ url s. (
    s + 1,
    ok (record { status = 200; keys = ok ((some (codes "k"), some (codes "key")) ∷ []) }),
  );
  now = λ s. s;
  now_unix = λ s. s;
  hash_token = λ token. token;
}

abbrev client : LogtoValidationClient one_token
client = record {
  jwks_url = codes "u/jwks";
  expected_audiences = codes "a" ∷ [];
  expected_issuer = codes "u";
}

abbrev start : ValidationWorld one_token one_key client
start = record {
  jwks = record { keys = []; fetched_at = none; last_refresh_attempt = none };
  cache = [];
  server = 10;
}

abbrev jo : AuthenticatedIdentity
jo = identity_of one_token jo_claims

abbrev after : ValidationWorld one_token one_key client
after = (validate_token one_token one_key client (codes "t") start).0

jo_is_accepted : (validate_token one_token one_key client (codes "t") start).1 ≡ ok (some jo)
unfolding validate_token with_header with_kid decoding_key_for refreshed_key refresh_jwks on_keys
    collect_keys verify accept is_accepted any_matches aud_matches same after_step cache_lookup get
jo_is_accepted = rw (get-insert_self Text-discrete (codes "k") (codes "key") []) refl

validate_token-IsVerified_example :
    (cache_lookup [] (codes "t") 10 ≡ some jo)
    ⊎ IsVerified one_token one_key client (codes "t") start after jo
validate_token-IsVerified_example =
    validate_token-IsVerified one_token one_key client (codes "t") start after jo
      (ap (λ r. (after, r)) jo_is_accepted)
