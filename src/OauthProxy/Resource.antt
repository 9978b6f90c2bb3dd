-- ===== src/OauthProxy/Resource.antt =====
-- What src/oauth_proxy.rs makes of the `resource` of the parameters that it sends on.
use carddav_mcp.Base.{◌≡◌, ◌≢◌, refl, ap, ◌∙◌, true, false, inl, inr, Bool-cases}
use carddav_mcp.Base.Str.{Text, codes}
use carddav_mcp.OauthRedirect.{UrlParser}
use carddav_mcp.Config.{is_absolute_http_uri}
use carddav_mcp.OauthProxy.{Pairs, Proxy, set_values, apply_dav_resource}
use carddav_mcp.OauthProxy.Rewritten.{
  at_least, each, values_of, values_of-or_push_ne, values_of-or_push_self, values_of-set_values_ne,
  values_of-set_values_self,
}

module _ (u : UrlParser) (st : Proxy) where
  pub apply-others :
      (key : Text) (pairs : Pairs)
      → key ≢ codes "resource"
      → values_of key (apply_dav_resource u pairs st.dav_audience) ≡ values_of key pairs
  unfolding apply_dav_resource
  apply-others key pairs ne = elim (Bool-cases (is_absolute_http_uri u st.dav_audience)) [
    | inr other ↦ rw other refl
    | inl absolute ↦ rw absolute (
        values_of-or_push_ne key _ st.dav_audience _ ne
        ∙ values_of-set_values_ne key _ st.dav_audience pairs ne)
  ]

  pub apply-resources :
      (pairs : Pairs)
      → is_absolute_http_uri u st.dav_audience ≡ true
      → values_of (codes "resource") (apply_dav_resource u pairs st.dav_audience)
        ≡ at_least st.dav_audience (each st.dav_audience (values_of (codes "resource") pairs))
  unfolding apply_dav_resource
  apply-resources pairs absolute = rw absolute (
      values_of-or_push_self _ st.dav_audience (set_values (codes "resource") st.dav_audience pairs)
      ∙ ap (at_least st.dav_audience) (values_of-set_values_self _ st.dav_audience pairs))

  pub resource_kept :
      (pairs : Pairs)
      → is_absolute_http_uri u st.dav_audience ≡ false
      → values_of (codes "resource") (apply_dav_resource u pairs st.dav_audience)
        ≡ values_of (codes "resource") pairs
  unfolding apply_dav_resource
  resource_kept pairs other = rw other refl
