-- ===== src/OauthProxy/Token.antt =====
-- The token endpoint of src/oauth_proxy.rs: the form that it relays, and the response that it makes
-- of the upstream's.
use carddav_mcp.Base.{
  ℕ, ◌≡◌, ◌≢◌, refl, subst, ap, sym, ◌∙◌, arith, Bool, true, false, not, ◌&&◌, ◌||◌, List, [], ◌∷◌,
  ◌++◌, Option, none, some, String, Result, ok, err, ◌>>=◌, ◌>>◌, refuse_if, Bool-cases, inl, inr,
  Result-cases, if◌then◌else◌, All, Yields, Yields-bind, Yields-refuse_if, ok-injective,
}
use carddav_mcp.Base.Str.{Text, codes, same}
use carddav_mcp.OauthRedirect.{UrlParser, is_some, is_allowed_redirect_uri}
use carddav_mcp.OauthProxy.{Forms, Pairs, Proxy, find_pair, apply_dav_resource, set_values}
use carddav_mcp.OauthProxy.Resource.{apply-others, apply-resources, resource_kept}
use carddav_mcp.OauthProxy.Rewritten.{
  at_least, each, same-differs, values_of, values_of-set_values_ne, values_of-set_values_self,
}
use carddav_mcp.Config.{is_absolute_http_uri}

-- The response of the upstream: its status, its content type where it can be read, and its body,
-- which is empty where it cannot.
pub record Upstream : Type 0 where
  pub status : ℕ
  pub content_type : Option Text
  pub body : List ℕ

pub record TokenResponse : Type 0 where
  pub status : ℕ
  pub headers : List (String × Text)
  pub body : List ℕ

abbrev plain_response : ℕ → Text → TokenResponse
plain_response status message = record { status = status; headers = []; body = message }

abbrev content_type_or_json : Option Text → Text
content_type_or_json none = codes "application/json"
content_type_or_json (some t) = t

-- `pairs.iter().any(|(k, v)| k == "grant_type" && v == "authorization_code")`
unfoldable pub is_authorization_code : Pairs → Bool
is_authorization_code [] = false
is_authorization_code ((k, v) ∷ pairs) =
    (same k (codes "grant_type") && same v (codes "authorization_code"))
    || is_authorization_code pairs

module _ (u : UrlParser) (st : Proxy) where
  -- The loop over the pairs: the client's redirect URIs are checked and replaced.
  unfoldable pub relay_pairs : Pairs → Result Text Pairs
  relay_pairs [] = ok []
  relay_pairs ((k, v) ∷ pairs) =
      if same k (codes "redirect_uri")
      then (if not (is_allowed_redirect_uri u st.allowed_redirect_uris v)
          then err (codes "unregistered redirect_uri\n")
          else (relay_pairs pairs >>= λ rest. ok ((k, st.callback_url) ∷ rest)))
      else (relay_pairs pairs >>= λ rest. ok ((k, v) ∷ rest))

  -- The pairs that `token` sends on, or the message of its refusal.
  unfoldable pub token_pairs : Pairs → Result Text Pairs
  token_pairs pairs = do
    relayed ← relay_pairs pairs
    let with_resource = apply_dav_resource u relayed st.dav_audience
    refuse_if
        (is_authorization_code pairs && not (is_some (find_pair (codes "redirect_uri") pairs)))
        (codes "missing redirect_uri\n")
    ok with_resource

  module _ (f : Forms u) {Server : Type 0}
      (post : Text → Text → Server → Server × Result String Upstream) where
    abbrev respond : Result String Upstream → TokenResponse
    respond (err e) = plain_response 502 (codes "token endpoint upstream error\n")
    respond (ok r) = record {
      status = r.status;
      headers =
          ("Content-Type", content_type_or_json r.content_type)
          ∷ ("Cache-Control", codes "no-store")
          ∷ ("Pragma", codes "no-cache")
          ∷ [];
      body = r.body;
    }

    abbrev relay : Result Text Pairs → Server → Server × TokenResponse
    relay (err message) s = (s, plain_response 400 message)
    relay (ok pairs) s =
        let (s', answer) = post (st.logto_base ++ codes "/token") (f.serialize pairs) s in
        (s', respond answer)

    unfoldable pub token : Text → Server → Server × TokenResponse
    token body s = relay (token_pairs (f.parse_pairs body)) s

  -- What is sent on has the callback in the place of each redirect URI, all of which are allowed,
  -- and an exchange of a code has one.
  pub record IsRelayed (pairs relayed : Pairs) : Type 0 where
    pub all_allowed :
        All
          (λ uri. is_allowed_redirect_uri u st.allowed_redirect_uris uri ≡ true)
          (values_of (codes "redirect_uri") pairs)
    pub redirects :
        values_of (codes "redirect_uri") relayed
        ≡ each st.callback_url (values_of (codes "redirect_uri") pairs)
    pub resources :
        is_absolute_http_uri u st.dav_audience ≡ true
        → values_of (codes "resource") relayed
          ≡ at_least st.dav_audience (each st.dav_audience (values_of (codes "resource") pairs))
    pub resources_left :
        is_absolute_http_uri u st.dav_audience ≡ false
        → values_of (codes "resource") relayed ≡ values_of (codes "resource") pairs
    pub others :
        (key : Text)
        → key ≢ codes "redirect_uri"
        → key ≢ codes "resource"
        → values_of key relayed ≡ values_of key pairs
    pub code_has_redirect :
        is_authorization_code pairs ≡ true → is_some (find_pair (codes "redirect_uri") pairs) ≡ true

  record IsRewritten (pairs out : Pairs) : Type 0 where
    all_allowed :
        All
          (λ uri. is_allowed_redirect_uri u st.allowed_redirect_uris uri ≡ true)
          (values_of (codes "redirect_uri") pairs)
    out_is : out ≡ set_values (codes "redirect_uri") st.callback_url pairs

  relay_pairs-IsRewritten : (pairs : Pairs) → Yields (IsRewritten pairs) (relay_pairs pairs)
  unfolding relay_pairs values_of set_values
  relay_pairs-IsRewritten [] out e = record { all_allowed = tt; out_is = sym (ok-injective e) }
  relay_pairs-IsRewritten ((k, v) ∷ pairs) out e = elim (Result-cases (relay_pairs pairs)) [
    | inr (message, bad) ↦ absurd (ground arith)
    | inl (rest, er) ↦
        let earlier = relay_pairs-IsRewritten pairs rest er in
        elim (Bool-cases (same k (codes "redirect_uri"))) [
          | inr other ↦
              let got : (k, v) ∷ rest ≡ out = ground arith in
              record {
                all_allowed = rw other (earlier.all_allowed);
                out_is = rw other (sym got ∙ ap (◌∷◌ (k, v)) earlier.out_is);
              }
          | inl here ↦ elim (Bool-cases (is_allowed_redirect_uri u st.allowed_redirect_uris v)) [
            | inr refused ↦ absurd (ground arith)
            | inl good ↦
                let got : (k, st.callback_url) ∷ rest ≡ out = ground arith in
                record {
                  all_allowed = rw here (good, earlier.all_allowed);
                  out_is = rw here (sym got ∙ ap (◌∷◌ (k, st.callback_url)) earlier.out_is);
                }
          ]
        ]
  ]

  abbrev called_back : Pairs → Pairs
  called_back = set_values (codes "redirect_uri") st.callback_url

  resource_there :
      (pairs : Pairs)
      → values_of (codes "resource") (called_back pairs) ≡ values_of (codes "resource") pairs
  unfolding same
  resource_there pairs =
      values_of-set_values_ne _ _ st.callback_url pairs
        (same-differs (codes "resource") (codes "redirect_uri") refl)

  called_back-IsRelayed :
      (pairs : Pairs)
      → All
          (λ uri. is_allowed_redirect_uri u st.allowed_redirect_uris uri ≡ true)
          (values_of (codes "redirect_uri") pairs)
      → (is_authorization_code pairs ≡ true
          → is_some (find_pair (codes "redirect_uri") pairs) ≡ true)
      → IsRelayed pairs (apply_dav_resource u (called_back pairs) st.dav_audience)
  unfolding same
  called_back-IsRelayed pairs all_allowed code = record {
    all_allowed = all_allowed;
    redirects =
        apply-others u st _ (called_back pairs)
          (same-differs (codes "redirect_uri") (codes "resource") refl)
        ∙ values_of-set_values_self _ st.callback_url pairs;
    resources = λ absolute.
        apply-resources u st (called_back pairs) absolute
        ∙ ap (λ vs. at_least st.dav_audience (each st.dav_audience vs)) (resource_there pairs);
    resources_left = λ other. resource_kept u st (called_back pairs) other ∙ resource_there pairs;
    others = λ key ne1 ne2.
        apply-others u st key (called_back pairs) ne2
        ∙ values_of-set_values_ne key _ st.callback_url pairs ne1;
    code_has_redirect = code;
  }

  -- When `token` relays a form, each redirect URI of the form is allowed; under `redirect_uri`
  -- it sends the callback in the place of each value, under `resource` the audience in the
  -- place of each value, and once if there is none, if the audience is an absolute URI, and
  -- else the form's values, and under every other name the form's values in their order; and a
  -- form that exchanges an authorization code has a redirect URI.
  pub token_pairs-IsRelayed :
      (pairs relayed : Pairs) → token_pairs pairs ≡ ok relayed → IsRelayed pairs relayed
  unfolding token_pairs
  token_pairs-IsRelayed pairs = Yields-bind (IsRelayed pairs) (relay_pairs pairs) _ (λ out e1.
      Yields-refuse_if (IsRelayed pairs) _ _ _ (λ has relayed e2.
        let rewritten = relay_pairs-IsRewritten pairs out e1 in
        subst (IsRelayed pairs)
          (ap (λ ps. apply_dav_resource u ps st.dav_audience) (sym rewritten.out_is)
            ∙ ok-injective e2)
          (called_back-IsRelayed pairs rewritten.all_allowed (λ code. ground arith))))
