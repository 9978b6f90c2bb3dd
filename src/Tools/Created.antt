-- ===== src/Tools/Created.antt =====
-- What `create_contact` of src/mcp.rs has written when it answers.
use mathlib.Core.Option.{some-injective}
use carddav_mcp.Base.{
  ok-injective, Option, none, some, ◌≡◌, refl, sym, ap, ◌∙◌, arith, Result, ok, ◌⊎◌, inl, inr,
  subst,
}
use carddav_mcp.Base.Str.{Text}
use carddav_mcp.Rpc.{ErrorData}
use carddav_mcp.RateLimit.{Governor, write}
use carddav_mcp.Vcard.Contact.{ContactInput, validate_contact_input, validate_uid, build_vcard}
use carddav_mcp.Vcard.Contact.Validation.{
  IsUid, validate_uid-IsUid, IsWithinLimits, validate_contact_input-IsWithinLimits,
}
use carddav_mcp.Base.Steps.{after_step-Went, lift-Went}
use carddav_mcp.Tools.{DavWriteResult, Client, Context, Service, ok_or, missing_token_err}
use carddav_mcp.Tools.Steps.{
  ok_or-some, call-CallWent, react_to_auth_expiry-ok, rate_limit_check-IsAdmitted,
}
use carddav_mcp.Tools.Write.{
  CreateContactParams, ContactWriteResult, uid_or_fresh, create_block, create_contact,
}

module _ (g : Governor) (c : Client) where
  open c use {World}

  -- Where the UID of a new contact comes from, and the world after that.
  abbrev pub IsNewUid : ContactInput → World → World → Text → Type 0
  IsNewUid contact before fresh uid =
      ((contact.uid ≡ some uid) × (fresh ≡ before))
      ⊎ ((contact.uid ≡ none) × (c.generate_uid before ≡ (fresh, uid)))

  pub record IsCreated (params : CreateContactParams) (token : Text) (before after : World)
      (result : ContactWriteResult) : Type 0 where
    pub is_within_limits : IsWithinLimits params.contact
    pub fresh : World
    pub vcard : Text
    pub written : DavWriteResult
    pub uid_is : IsNewUid params.contact before fresh result.uid
    pub is_uid : IsUid result.uid
    pub card_is : build_vcard params.contact result.uid ≡ ok vcard
    pub written_is :
        c.create_contact token params.addressbook_href result.uid vcard fresh ≡ (after, ok written)
    pub href_is : result.href ≡ written.href
    pub etag_is : result.etag ≡ written.etag

  uid_or_fresh-IsNewUid :
      (contact : ContactInput) (o : Option Text) (s s' : Service g World) (uid : Text)
      → contact.uid ≡ o
      → uid_or_fresh g c o s ≡ (s', ok uid)
      → IsNewUid contact s.world s'.world uid
  unfolding uid_or_fresh
  uid_or_fresh-IsNewUid contact none s s' uid o h =
      inr (o, ground (arith, ap (λ x. x.0.world) h, ok-injective (ap (λ x. x.1) h)))
  uid_or_fresh-IsNewUid contact (some u) s s' uid o h =
      inl (o ∙ ap some (ok-injective (ap (λ x. x.1) h)), sym (ap (λ x. x.0.world) h))

  IsCreated-steps :
      (params : CreateContactParams) (token token' uid vcard : Text) (before : World)
      (fresh sent s' : Service g World) (written : DavWriteResult) (result : ContactWriteResult)
      → token ≡ token'
      → validate_contact_input params.contact ≡ ok tt
      → IsNewUid params.contact before fresh.world uid
      → validate_uid uid ≡ ok tt
      → build_vcard params.contact uid ≡ ok vcard
      → c.create_contact token' params.addressbook_href uid vcard fresh.world
        ≡ (sent.world, ok written)
      → ◌≡◌ {A = Service g World × Result ErrorData ContactWriteResult}
          (sent, ok (record { href = written.href; etag = written.etag; uid = uid }))
          (s', ok result)
      → IsCreated params token before s'.world result
  IsCreated-steps params token token' uid vcard before fresh sent s' written result same_token valid
        new is_valid built wrote ends =
      let answer = ok-injective (ap (λ x. x.1) ends) in
      let same_uid = ap (λ x. x.uid) answer in
      record {
        is_within_limits = (validate_contact_input-IsWithinLimits params.contact).0 valid;
        fresh = fresh.world;
        vcard = vcard;
        written = written;
        uid_is = subst (IsNewUid params.contact before fresh.world) same_uid new;
        is_uid = subst IsUid same_uid ((validate_uid-IsUid uid).0 is_valid);
        card_is = ap (build_vcard params.contact) (sym same_uid) ∙ built;
        written_is =
            ap (λ t. c.create_contact t params.addressbook_href result.uid vcard fresh.world)
              same_token
            ∙ ap (λ u. c.create_contact token' params.addressbook_href u vcard fresh.world)
                (sym same_uid)
            ∙ wrote
            ∙ ap (λ x. (x.0.world, ok written)) ends;
        href_is = sym (ap (λ x. x.href) answer);
        etag_is = sym (ap (λ x. x.etag) answer);
      }

  -- When `create_contact` answers, the contact is within its limits; its UID is the one of the
  -- request, or a fresh one if there is none, and is valid; and the client was given the card
  -- that `build_vcard` makes of the contact under that UID; the answer's href and ETag are the
  -- client's.
  pub create_contact-IsCreated :
      (ctx : Context) (params : CreateContactParams) (s s' : Service g World)
      (result : ContactWriteResult) (token : Text)
      → ctx.token ≡ some token
      → create_contact g c ctx params s ≡ (s', ok result)
      → IsCreated params token s.world s'.world result
  unfolding create_contact create_block
  create_contact-IsCreated ctx params s s' result token token_is h =
      let a =
        after_step-Went _
          (react_to_auth_expiry-ok g c ctx (create_block g c ctx params s) s' result h) in
      let admitted = rate_limit_check-IsAdmitted g c ctx write s a.between a.value a.first_is in
      let (t, valid, h1) =
        lift-Went _ (validate_contact_input params.contact) a.between a.rest_is in
      let (token', e, h2) = lift-Went _ (ok_or ctx.token missing_token_err) a.between h1 in
      let named = after_step-Went (uid_or_fresh g c params.contact.uid a.between) h2 in
      let (t', is_valid, h3) = lift-Went _ (validate_uid named.value) named.between named.rest_is in
      let (vcard, card_is, h4) =
        lift-Went _ (build_vcard params.contact named.value) named.between h3 in
      let sent =
        call-CallWent g c (c.create_contact token' params.addressbook_href named.value vcard)
          named.between h4 in
      subst (λ w. IsCreated params token w s'.world result) admitted.same_world
        (IsCreated-steps params token token' named.value vcard a.between.world named.between
          sent.between s' sent.value result
          (some-injective _ _ (sym token_is ∙ ok_or-some ctx.token missing_token_err token' e))
          valid
          (uid_or_fresh-IsNewUid params.contact params.contact.uid a.between named.between
            named.value refl named.first_is)
          is_valid card_is sent.called_is sent.rest_is)
