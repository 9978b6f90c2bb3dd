-- ===== src/Validation/Validated.antt =====
-- Which tokens src/logto_oidc.rs accepts, and for how long.
use carddav_mcp.Base.{
  ℕ, ◌+◌, ◌≤◌, ◌≡◌, refl, ap, sym, ◌∙◌, subst, arith, true, false, Option, none, some, Result, ok,
  inl, inr, ◌⊎◌, Bool-cases, Option-cases, ok-injective,
}
use carddav_mcp.Base.Int.{ℤ}
use carddav_mcp.Base.Str.{Text, Text-discrete}
use carddav_mcp.Base.HashMap.{get}
use carddav_mcp.Base.HashMap.Laws.{get-insert_self}
use carddav_mcp.Base.Steps.{Answers, Answers-bind, after_step-Went, ◌>>◌}
use carddav_mcp.Validation.{
  LogtoAccessTokenClaims, Header, Jwt, Outside, LogtoValidationClient, ValidationWorld,
  ValidationError, is_accepted, any_matches, identity_of, checks_for, accept, verify, with_kid,
  with_header, validate_token, decoding_key_for, refreshed_key, refresh_jwks, is_within, jwks_ttl,
  jwks_min_refresh_interval, fresh_key, known_key,
}
use carddav_mcp.Validation.Cache.{
  AuthenticatedIdentity, cache_lookup, cache_insert, cache_ttl, remaining, max_cache_ttl,
}

module _ (j : Jwt) (o : Outside j) (client : LogtoValidationClient j) where
  open j use {DecodingKey}

  abbrev World : Type 0
  World = ValidationWorld j o client

  -- The token was verified, by a key that the server's set has under the token's id, and is
  -- remembered for at most 60 seconds and not past its own end.
  pub record IsVerified (token : Text) (w w' : World) (identity : AuthenticatedIdentity)
      : Type 0 where
    pub header : Header
    pub kid : Text
    pub key : DecodingKey
    pub claims : LogtoAccessTokenClaims
    pub between : World
    pub has_header : j.decode_header token ≡ some header
    pub has_kid : header.kid ≡ some kid
    pub key_found : decoding_key_for j o client kid w ≡ (between, ok (some key))
    pub key_pinned : get Text-discrete kid between.jwks.keys ≡ some key
    pub accepted : is_accepted header.alg ≡ true
    pub decoded : j.decode token key (checks_for j o client header.alg) ≡ some claims
    pub for_us : any_matches client.expected_audiences claims.aud ≡ true
    pub identity_is : identity ≡ identity_of j claims
    pub expiry : ℕ
    pub remembered :
        get Text-discrete (o.hash_token token) w'.cache
        ≡ some (record { identity = identity; expires_at = expiry })
    pub soon : expiry ≤ o.now w'.server + max_cache_ttl
    pub not_after : expiry ≤ o.now w'.server + remaining claims.exp (o.now_unix w'.server)

  cache_ttl-le :
      (exp : ℤ) (unix : ℕ)
      → (cache_ttl (some exp) unix ≤ max_cache_ttl)
        × (cache_ttl (some exp) unix ≤ remaining exp unix)
  cache_ttl-le exp unix = (omega arith, omega arith)

  -- The key that is answered for an id is the one that the set has in the end.
  abbrev IsPinned : Text → World → Option DecodingKey → Type 0
  IsPinned kid w k = get Text-discrete kid w.jwks.keys ≡ k

  known_key-IsPinned : (kid : Text) → Answers (IsPinned kid) (known_key j o client kid)
  known_key-IsPinned kid w w' k h =
      let same_world : w ≡ w' = ap (λ r. r.0) h in
      subst (λ x. IsPinned kid x k) same_world (ok-injective (ap (λ r. r.1) h))

  refreshed_key-soon :
      (kid : Text) (w : World)
      → is_within j (o.now w.server) jwks_min_refresh_interval w.jwks.last_refresh_attempt ≡ true
      → refreshed_key j o client kid w ≡ known_key j o client kid w
  unfolding refreshed_key
  refreshed_key-soon kid w e = rw (e, refreshed_key) refl

  refreshed_key-due :
      (kid : Text) (w : World)
      → is_within j (o.now w.server) jwks_min_refresh_interval w.jwks.last_refresh_attempt ≡ false
      → refreshed_key j o client kid w
        ≡ (refresh_jwks j o client >> known_key j o client kid)
            (record w { jwks = record w.jwks { last_refresh_attempt = some (o.now w.server) } })
  unfolding refreshed_key
  refreshed_key-due kid w e = rw (e, refreshed_key) refl

  refreshed_key-IsPinned : (kid : Text) → Answers (IsPinned kid) (refreshed_key j o client kid)
  refreshed_key-IsPinned kid w w' k h =
      elim (Bool-cases
        (is_within j (o.now w.server) jwks_min_refresh_interval w.jwks.last_refresh_attempt)) [
          | inl soon ↦ known_key-IsPinned kid w w' k (sym (refreshed_key-soon kid w soon) ∙ h)
          | inr due ↦
              Answers-bind (IsPinned kid) (refresh_jwks j o client) (λ x. known_key j o client kid)
                (λ x. known_key-IsPinned kid) _ w' k (sym (refreshed_key-due kid w due) ∙ h)
        ]

  decoding_key_for-none :
      (kid : Text) (w : World)
      → fresh_key j o client kid w ≡ none
      → decoding_key_for j o client kid w ≡ refreshed_key j o client kid w
  unfolding decoding_key_for
  decoding_key_for-none kid w e = rw (e, decoding_key_for) refl

  decoding_key_for-some :
      (kid : Text) (w : World) (k : DecodingKey)
      → fresh_key j o client kid w ≡ some k
      → decoding_key_for j o client kid w ≡ known_key j o client kid w
  unfolding decoding_key_for
  decoding_key_for-some kid w k e =
      elim (Bool-cases (is_within j (o.now w.server) jwks_ttl w.jwks.fetched_at)) [
        | inl fresh ↦
            let known : get Text-discrete kid w.jwks.keys ≡ some k = ground arith in
            rw (e, decoding_key_for, known) refl
        | inr old ↦ absurd (ground arith)
      ]

  decoding_key_for-IsPinned :
      (kid : Text) → Answers (IsPinned kid) (decoding_key_for j o client kid)
  decoding_key_for-IsPinned kid w w' k h = elim (Option-cases (fresh_key j o client kid w)) [
    | inl none_fresh ↦
        refreshed_key-IsPinned kid w w' k (sym (decoding_key_for-none kid w none_fresh) ∙ h)
    | inr (key, e) ↦ known_key-IsPinned kid w w' k (sym (decoding_key_for-some kid w key e) ∙ h)
  ]

  -- What acceptance adds to the decoded claims.
  record IsAccepted (token : Text) (o' : Option LogtoAccessTokenClaims) (w' : World)
      (identity : AuthenticatedIdentity) : Type 0 where
    claims : LogtoAccessTokenClaims
    decoded : o' ≡ some claims
    for_us : any_matches client.expected_audiences claims.aud ≡ true
    identity_is : identity ≡ identity_of j claims
    expiry : ℕ
    remembered :
        get Text-discrete (o.hash_token token) w'.cache
        ≡ some (record { identity = identity; expires_at = expiry })
    soon : expiry ≤ o.now w'.server + max_cache_ttl
    not_after : expiry ≤ o.now w'.server + remaining claims.exp (o.now_unix w'.server)

  cached_world : Text → LogtoAccessTokenClaims → World → World
  cached_world token claims w = record w {
    cache =
        cache_insert w.cache (o.hash_token token) (identity_of j claims) (some claims.exp)
          (o.now_unix w.server) (o.now w.server);
  }

  cached-IsAccepted :
      (token : Text) (claims : LogtoAccessTokenClaims) (w : World)
      → any_matches client.expected_audiences claims.aud ≡ true
      → IsAccepted token (some claims) (cached_world token claims w) (identity_of j claims)
  unfolding cached_world cache_insert
  cached-IsAccepted token claims w ours =
      let ttl = cache_ttl (some claims.exp) (o.now_unix w.server) in
      let (le1, le2) = cache_ttl-le claims.exp (o.now_unix w.server) in
      record {
        claims = claims;
        decoded = refl;
        for_us = ours;
        identity_is = refl;
        expiry = o.now w.server + ttl;
        remembered = get-insert_self Text-discrete (o.hash_token token) _ _;
        soon = omega (arith, le1);
        not_after = omega (arith, le2);
      }

  some-injective : {A : Type 0} {a b : A} → some a ≡ some b → a ≡ b
  some-injective h = ground arith

  accept-IsAccepted :
      (token : Text) (o' : Option LogtoAccessTokenClaims) (w w' : World)
      (identity : AuthenticatedIdentity)
      → accept j o client token o' w ≡ (w', ok (some identity))
      → IsAccepted token o' w' identity
  unfolding accept cached_world
  accept-IsAccepted token none w w' identity h = absurd (ground arith)
  accept-IsAccepted token (some claims) w w' identity h =
      elim (Bool-cases (any_matches client.expected_audiences claims.aud)) [
        | inr foreign ↦ absurd (ground arith)
        | inl ours ↦
            let r : ◌≡◌ {A = World × Result ValidationError (Option AuthenticatedIdentity)}
                (cached_world token claims w, ok (some (identity_of j claims)))
                (w', ok (some identity)) =
              ground arith in
            subst (λ x. IsAccepted token (some claims) x identity) (ap (λ x. x.0) r)
              (subst (IsAccepted token (some claims) (cached_world token claims w))
                (some-injective (ok-injective (ap (λ x. x.1) r)))
                (cached-IsAccepted token claims w ours))
      ]

  verify-IsVerified :
      (token kid : Text) (header : Header) (value : Option DecodingKey) (w between w' : World)
      (identity : AuthenticatedIdentity)
      → j.decode_header token ≡ some header
      → header.kid ≡ some kid
      → decoding_key_for j o client kid w ≡ (between, ok value)
      → verify j o client token header.alg value between ≡ (w', ok (some identity))
      → IsVerified token w w' identity
  unfolding verify
  verify-IsVerified token kid header none w between w' identity eh ek found h =
      absurd (ground arith)
  verify-IsVerified token kid header (some k) w between w' identity eh ek found h =
      elim (Bool-cases (is_accepted header.alg)) [
        | inr other ↦ absurd (ground arith)
        | inl good ↦
            let a =
              accept-IsAccepted token (j.decode token k (checks_for j o client header.alg)) between
                w' identity (ground arith) in
            record {
              header = header;
              kid = kid;
              key = k;
              claims = a.claims;
              between = between;
              has_header = eh;
              has_kid = ek;
              key_found = found;
              key_pinned = decoding_key_for-IsPinned kid w between (some k) found;
              accepted = good;
              decoded = a.decoded;
              for_us = a.for_us;
              identity_is = a.identity_is;
              expiry = a.expiry;
              remembered = a.remembered;
              soon = a.soon;
              not_after = a.not_after;
            }
      ]

  with_kid-IsVerified :
      (token : Text) (header : Header) (ko : Option Text) (w w' : World)
      (identity : AuthenticatedIdentity)
      → j.decode_header token ≡ some header
      → header.kid ≡ ko
      → with_kid j o client token header.alg ko w ≡ (w', ok (some identity))
      → IsVerified token w w' identity
  unfolding with_kid
  with_kid-IsVerified token header none w w' identity eh ek h = absurd (ground arith)
  with_kid-IsVerified token header (some kid) w w' identity eh ek h =
      let went = after_step-Went (decoding_key_for j o client kid w) h in
      verify-IsVerified token kid header went.value w went.between w' identity eh ek went.first_is
        went.rest_is

  with_header-IsVerified :
      (token : Text) (ho : Option Header) (w w' : World) (identity : AuthenticatedIdentity)
      → j.decode_header token ≡ ho
      → with_header j o client token ho w ≡ (w', ok (some identity))
      → IsVerified token w w' identity
  unfolding with_header
  with_header-IsVerified token none w w' identity eh h = absurd (ground arith)
  with_header-IsVerified token (some header) w w' identity eh h =
      with_kid-IsVerified token header header.kid w w' identity eh refl h

  validate_token-missing :
      (token : Text) (w : World)
      → cache_lookup w.cache (o.hash_token token) (o.now w.server) ≡ none
      → validate_token j o client token w ≡ with_header j o client token (j.decode_header token) w
  unfolding validate_token
  validate_token-missing token w e = rw (e, validate_token) refl

  validate_token-found :
      (token : Text) (w : World) (hit : AuthenticatedIdentity)
      → cache_lookup w.cache (o.hash_token token) (o.now w.server) ≡ some hit
      → validate_token j o client token w ≡ (w, ok (some hit))
  unfolding validate_token
  validate_token-found token w hit e = rw (e, validate_token) refl

  -- An identity that `validate_token` answers is remembered for the token and not expired, or
  -- the token was verified just now: its header has an accepted asymmetric algorithm and the id
  -- of a key that the server's set has in the end, by that key and the client's checks it
  -- decodes to claims whose audience is an expected one, the identity is that of the claims,
  -- and it is remembered for at most 60 seconds and not past the end of the token.
  pub validate_token-IsVerified :
      (token : Text) (w w' : World) (identity : AuthenticatedIdentity)
      → validate_token j o client token w ≡ (w', ok (some identity))
      → (cache_lookup w.cache (o.hash_token token) (o.now w.server) ≡ some identity)
        ⊎ IsVerified token w w' identity
  validate_token-IsVerified token w w' identity h =
      elim (Option-cases (cache_lookup w.cache (o.hash_token token) (o.now w.server))) [
        | inl missing ↦ inr (
            with_header-IsVerified token _ w w' identity refl
              (sym (validate_token-missing token w missing) ∙ h))
        | inr (hit, e) ↦
            inl (e ∙ ok-injective (ap (λ r. r.1) (sym (validate_token-found token w hit e) ∙ h)))
      ]
