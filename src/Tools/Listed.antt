-- ===== src/Tools/Listed.antt =====
-- What `list_contacts` of src/mcp.rs answers.
use mathlib.Core.Option.{some-injective}
use carddav_mcp.Base.{
  ok-injective, ℕ, zero, suc, ◌≤◌, ◌≡◌, sym, ap, subst, ◌∙◌, arith, List, map, take, min, some,
  Result, ok,
}
use carddav_mcp.Base.Str.{Text}
use carddav_mcp.Rpc.{ErrorData}
use carddav_mcp.RateLimit.{Governor, read}
use carddav_mcp.Base.Steps.{after_step-Went, lift-Went}
use carddav_mcp.Tools.{DavContact, Client, Context, Service, ok_or, missing_token_err}
use carddav_mcp.Tools.Steps.{
  ok_or-some, call-CallWent, react_to_auth_expiry-ok, rate_limit_check-IsAdmitted,
}
use carddav_mcp.Tools.Search.{ContactSummary, contact_summary, validated_limit, max_contact_limit}
use carddav_mcp.Tools.Listing.{ListContactsParams, list_block, list_contacts}

validated_limit-min :
    (limit n : ℕ) → validated_limit limit ≡ ok n → (1 ≤ limit) × (n ≡ min limit max_contact_limit)
unfolding validated_limit
validated_limit-min zero n h = absurd (ground arith)
validated_limit-min (suc k) n h = (omega arith, ground arith)

-- The answer to a request: the first contacts of the book, up to the limit and at most 100.
pub record IsListing (c : Client) (params : ListContactsParams) (token : Text)
    (before after : c.World) (contacts : List ContactSummary) : Type 0 where
  pub all : List DavContact
  pub called_is : c.list_contacts token params.addressbook_href before ≡ (after, ok all)
  pub some_limit : 1 ≤ params.limit
  pub contacts_are : contacts ≡ map contact_summary (take (min params.limit 100) all)

module _ (g : Governor) (c : Client) where
  open c use {World}

  IsListing-steps :
      (params : ListContactsParams) (token token' : Text) (before : World)
      (asked s' : Service g World) (limit : ℕ) (all : List DavContact)
      (contacts : List ContactSummary)
      → token ≡ token'
      → validated_limit params.limit ≡ ok limit
      → c.list_contacts token' params.addressbook_href before ≡ (asked.world, ok all)
      → ◌≡◌ {A = Service g World × Result ErrorData (List ContactSummary)}
          (asked, ok (map contact_summary (take limit all)))
          (s', ok contacts)
      → IsListing c params token before s'.world contacts
  IsListing-steps params token token' before asked s' limit all contacts same_token valid called
        ends =
      let bound = validated_limit-min params.limit limit valid in
      record {
        all = all;
        called_is =
            ap (λ t. c.list_contacts t params.addressbook_href before) same_token
            ∙ called
            ∙ ap (λ x. (x.0.world, ok all)) ends;
        some_limit = bound.0;
        contacts_are =
            sym (ok-injective (ap (λ x. x.1) ends))
            ∙ ap (λ n. map contact_summary (take n all)) bound.1;
      }

  -- When `list_contacts` answers, the limit of the request was at least 1, and the answer has
  -- the summaries of the first contacts that the client listed for the book, up to the limit
  -- and at most 100.
  pub list_contacts-IsListing :
      (ctx : Context) (params : ListContactsParams) (s s' : Service g World)
      (contacts : List ContactSummary) (token : Text)
      → ctx.token ≡ some token
      → list_contacts g c ctx params s ≡ (s', ok contacts)
      → IsListing c params token s.world s'.world contacts
  unfolding list_contacts list_block
  list_contacts-IsListing ctx params s s' contacts token token_is h =
      let a =
        after_step-Went _
          (react_to_auth_expiry-ok g c ctx (list_block g c ctx params s) s' contacts h) in
      let admitted = rate_limit_check-IsAdmitted g c ctx read s a.between a.value a.first_is in
      let (limit, valid, h1) = lift-Went _ (validated_limit params.limit) a.between a.rest_is in
      let (token', e, h2) = lift-Went _ (ok_or ctx.token missing_token_err) a.between h1 in
      let asked = call-CallWent g c (c.list_contacts token' params.addressbook_href) a.between h2 in
      subst (λ w. IsListing c params token w s'.world contacts) admitted.same_world
        (IsListing-steps params token token' a.between.world asked.between s' limit asked.value
          contacts
          (some-injective _ _ (sym token_is ∙ ok_or-some ctx.token missing_token_err token' e))
          valid asked.called_is asked.rest_is)
