-- ===== src/OauthProxy/Forwarded.antt =====
-- What src/oauth_proxy.rs forwards of a client's parameters, name by name.
use carddav_mcp.Base.{◌≡◌, ◌≢◌, refl, ap, sym, ◌∙◌, true, false, [], ◌∷◌, inl, inr, Bool-cases}
use carddav_mcp.Base.Str.{Text, codes, same}
use carddav_mcp.Base.Str.Pieces.{same_iff}
use carddav_mcp.OauthRedirect.{UrlParser}
use carddav_mcp.Config.{is_absolute_http_uri}
use carddav_mcp.OauthProxy.{
  Pairs, Proxy, set_values, or_push, rewrite_pair, rewrite_pairs, forwarded_pairs,
}
use carddav_mcp.OauthProxy.Resource.{apply-others, apply-resources, resource_kept}
use carddav_mcp.OauthProxy.Rewritten.{
  at_least, each, same-differs, same-false, values_of, values_of-or_push_ne, values_of-or_push_self,
  values_of-set_values_ne, values_of-set_values_self,
}

module _ (u : UrlParser) (st : Proxy) (proxy_state : Text) where
  -- The loop of `authorize` sets the two names, one after the other.
  rewrite_pairs-set_values :
      (pairs : Pairs)
      → rewrite_pairs u st proxy_state pairs
        ≡ set_values
            (codes "state")
            proxy_state
            (set_values (codes "redirect_uri") st.callback_url pairs)
  unfolding rewrite_pairs rewrite_pair set_values same
  rewrite_pairs-set_values [] = refl
  rewrite_pairs-set_values ((k, v) ∷ pairs) = elim (Bool-cases (same k (codes "redirect_uri"))) [
    | inr other ↦ elim (Bool-cases (same k (codes "state"))) [
      | inl its ↦ rw (other, rewrite_pairs-set_values pairs, its) refl
      | inr not_its ↦ rw (other, rewrite_pairs-set_values pairs, not_its) refl
    ]
    | inl here ↦
        let not_its : same k (codes "state") ≡ false = same-false k (codes "state") (λ e.
          same-differs (codes "redirect_uri") (codes "state") refl
            (sym ((same_iff k (codes "redirect_uri")).0 here) ∙ e)) in
        rw (here, rewrite_pairs-set_values pairs, not_its) refl
  ]

  -- What is forwarded of each name.
  pub record IsForwarded (pairs out : Pairs) : Type 0 where
    pub redirects :
        values_of (codes "redirect_uri") out
        ≡ each st.callback_url (values_of (codes "redirect_uri") pairs)
    pub states :
        values_of (codes "state") out
        ≡ at_least proxy_state (each proxy_state (values_of (codes "state") pairs))
    pub resources :
        is_absolute_http_uri u st.dav_audience ≡ true
        → values_of (codes "resource") out
          ≡ at_least st.dav_audience (each st.dav_audience (values_of (codes "resource") pairs))
    pub resources_left :
        is_absolute_http_uri u st.dav_audience ≡ false
        → values_of (codes "resource") out ≡ values_of (codes "resource") pairs
    pub others :
        (key : Text)
        → key ≢ codes "redirect_uri"
        → key ≢ codes "state"
        → key ≢ codes "resource"
        → values_of key out ≡ values_of key pairs

  abbrev rewritten : Pairs → Pairs
  rewritten pairs =
      set_values (codes "state") proxy_state
        (set_values (codes "redirect_uri") st.callback_url pairs)

  -- Before the resource is set.
  abbrev with_state : Pairs → Pairs
  with_state pairs = or_push (codes "state") proxy_state (rewritten pairs)

  with_state-redirects :
      (pairs : Pairs)
      → values_of (codes "redirect_uri") (with_state pairs)
        ≡ each st.callback_url (values_of (codes "redirect_uri") pairs)
  unfolding same
  with_state-redirects pairs =
      let ne = same-differs (codes "redirect_uri") (codes "state") refl in
      values_of-or_push_ne _ _ proxy_state (rewritten pairs) ne
      ∙ (values_of-set_values_ne _ _ proxy_state _ ne
          ∙ values_of-set_values_self _ st.callback_url pairs)

  with_state-states :
      (pairs : Pairs)
      → values_of (codes "state") (with_state pairs)
        ≡ at_least proxy_state (each proxy_state (values_of (codes "state") pairs))
  unfolding same
  with_state-states pairs =
      let ne = same-differs (codes "state") (codes "redirect_uri") refl in
      values_of-or_push_self _ proxy_state (rewritten pairs)
      ∙ ap (at_least proxy_state) (
          values_of-set_values_self _ proxy_state _
          ∙ ap (each proxy_state) (values_of-set_values_ne _ _ st.callback_url pairs ne))

  with_state-others :
      (key : Text) (pairs : Pairs)
      → key ≢ codes "redirect_uri"
      → key ≢ codes "state"
      → values_of key (with_state pairs) ≡ values_of key pairs
  with_state-others key pairs ne1 ne2 =
      values_of-or_push_ne key _ proxy_state (rewritten pairs) ne2
      ∙ (values_of-set_values_ne key _ proxy_state _ ne2
          ∙ values_of-set_values_ne key _ st.callback_url pairs ne1)

  resource_left :
      (pairs : Pairs)
      → values_of (codes "resource") (with_state pairs) ≡ values_of (codes "resource") pairs
  unfolding same
  resource_left pairs =
      with_state-others (codes "resource") pairs
        (same-differs (codes "resource") (codes "redirect_uri") refl)
        (same-differs (codes "resource") (codes "state") refl)

  -- Of the client's parameters, `authorize` forwards under `redirect_uri` its own callback in
  -- the place of each value, under `state` its own state in the place of each value and once if
  -- there is none, likewise under `resource` the audience if that is an absolute URI and else
  -- the client's values, and under every other name the client's values in their order.
  pub forwarded_pairs-IsForwarded :
      (pairs : Pairs) → IsForwarded pairs (forwarded_pairs u st proxy_state pairs)
  unfolding forwarded_pairs same
  forwarded_pairs-IsForwarded pairs =
      rw (forwarded_pairs, rewrite_pairs-set_values pairs)
        (record {
          redirects =
              apply-others u st _ (with_state pairs)
                (same-differs (codes "redirect_uri") (codes "resource") refl)
              ∙ with_state-redirects pairs;
          states =
              apply-others u st _ (with_state pairs)
                (same-differs (codes "state") (codes "resource") refl)
              ∙ with_state-states pairs;
          resources = λ absolute.
              apply-resources u st (with_state pairs) absolute
              ∙ ap (λ vs. at_least st.dav_audience (each st.dav_audience vs)) (resource_left pairs);
          resources_left =
              λ other. resource_kept u st (with_state pairs) other ∙ resource_left pairs;
          others = λ key ne1 ne2 ne3.
              apply-others u st key (with_state pairs) ne3 ∙ with_state-others key pairs ne1 ne2;
        })
