-- ===== src/Tools/Written.antt =====
-- What `update_contact` of src/mcp.rs has written when it answers.
use mathlib.Core.Option.{some-injective}
use carddav_mcp.Base.{
  ok-injective, false, Option, none, some, ◌≡◌, sym, ap, ◌∙◌, arith, Result, ok, subst, refuse_if,
}
use carddav_mcp.Base.Str.{Text}
use carddav_mcp.Base.Str.Pieces.{same_iff}
use carddav_mcp.Rpc.{ErrorData, invalid_params}
use carddav_mcp.RateLimit.{Governor, write}
use carddav_mcp.Vcard.Contact.{validate_contact_input, build_vcard}
use carddav_mcp.Vcard.Contact.Validation.{IsWithinLimits, validate_contact_input-IsWithinLimits}
use carddav_mcp.Vcard.Parse.{parse_vcard}
use carddav_mcp.Vcard.RoundTrip.{parse_vcard-parts}
use carddav_mcp.Base.Steps.{after_step-Went, lift-Went}
use carddav_mcp.Tools.{
  DavContact, DavWriteResult, Client, Context, Service, ok_or, missing_token_err,
}
use carddav_mcp.Tools.Steps.{
  ok_or-some, call-CallWent, react_to_auth_expiry-ok, rate_limit_check-IsAdmitted,
}
use carddav_mcp.Tools.Write.{
  UpdateContactParams, ContactWriteResult, changes_uid, or_existing, update_block, update_contact,
}

changes_uid-same :
    (o : Option Text) (existing uid : Text)
    → changes_uid o existing ≡ false
    → o ≡ some uid
    → uid ≡ existing
unfolding changes_uid
changes_uid-same none existing uid h e = cc
changes_uid-same (some u) existing uid h e = ground (arith, same_iff u existing)

module _ (g : Governor) (c : Client) where
  open c use {World}

  -- What an update that answers has done: it read the contact, and wrote the card of the new fields
  -- under the UID that was there, with the caller's ETag or the one it read.
  pub record IsUpdated (params : UpdateContactParams) (token : Text) (before after : World)
      (result : ContactWriteResult) : Type 0 where
    pub is_within_limits : IsWithinLimits params.contact
    pub read : World
    pub existing : DavContact
    pub vcard : Text
    pub written : DavWriteResult
    pub existing_is : c.get_contact token params.contact_href before ≡ (read, ok existing)
    pub existing_uid : (parse_vcard existing.vcard).uid ≡ some result.uid
    pub same_uid : (uid : Text) → params.contact.uid ≡ some uid → uid ≡ result.uid
    pub card_is : build_vcard params.contact result.uid ≡ ok vcard
    pub keeps_uid : (parse_vcard vcard).uid ≡ some result.uid
    pub written_is :
        c.update_contact token params.contact_href
          (or_existing params.etag existing.etag)
          vcard
          read
        ≡ (after, ok written)
    pub href_is : result.href ≡ written.href
    pub etag_is : result.etag ≡ written.etag

  IsUpdated-steps :
      (params : UpdateContactParams) (token token' uid vcard : Text) (before read : World)
      (sent s' : Service g World) (existing : DavContact) (written : DavWriteResult)
      (result : ContactWriteResult)
      → token ≡ token'
      → validate_contact_input params.contact ≡ ok tt
      → c.get_contact token' params.contact_href before ≡ (read, ok existing)
      → ok_or
          (parse_vcard existing.vcard).uid
          (invalid_params "existing vCard has no UID; refusing replacement")
        ≡ ok uid
      → refuse_if
          (changes_uid params.contact.uid uid)
          (invalid_params "contact UID cannot be changed during update")
        ≡ ok tt
      → build_vcard params.contact uid ≡ ok vcard
      → c.update_contact token' params.contact_href
          (or_existing params.etag existing.etag)
          vcard
          read
        ≡ (sent.world, ok written)
      → ◌≡◌ {A = Service g World × Result ErrorData ContactWriteResult}
          (sent, ok (record { href = written.href; etag = written.etag; uid = uid }))
          (s', ok result)
      → IsUpdated params token before s'.world result
  IsUpdated-steps params token token' uid vcard before read sent s' existing written result
        same_token valid got has_uid unchanged built wrote ends =
      let answer = ok-injective (ap (λ x. x.1) ends) in
      let same_uid = ap (λ x. x.uid) answer in
      record {
        is_within_limits = (validate_contact_input-IsWithinLimits params.contact).0 valid;
        read = read;
        existing = existing;
        vcard = vcard;
        written = written;
        existing_is = ap (λ t. c.get_contact t params.contact_href before) same_token ∙ got;
        existing_uid = ok_or-some _ _ uid has_uid ∙ ap some same_uid;
        same_uid =
            λ given h. changes_uid-same params.contact.uid uid given (ground arith) h ∙ same_uid;
        card_is = rw (← same_uid) built;
        keeps_uid = ap (λ p. p.uid) (parse_vcard-parts params.contact uid built) ∙ ap some same_uid;
        written_is =
            ap
              (λ t.
                c.update_contact t params.contact_href (or_existing params.etag existing.etag) vcard
                  read)
              same_token
            ∙ wrote
            ∙ ap (λ x. (x.0.world, ok written)) ends;
        href_is = sym (ap (λ x. x.href) answer);
        etag_is = sym (ap (λ x. x.etag) answer);
      }

  -- When `update_contact` answers, the contact is within its limits; the client was asked for
  -- the card at the href, and that card has the UID of the answer; a UID in the request is the
  -- same; and the client was given the card that `build_vcard` makes of the new fields under
  -- that UID, from which that UID is read back, with the ETag of the request or else the one
  -- that was read; the answer's href and ETag are the client's.
  pub update_contact-IsUpdated :
      (ctx : Context) (params : UpdateContactParams) (s s' : Service g World)
      (result : ContactWriteResult) (token : Text)
      → ctx.token ≡ some token
      → update_contact g c ctx params s ≡ (s', ok result)
      → IsUpdated params token s.world s'.world result
  unfolding update_contact update_block
  update_contact-IsUpdated ctx params s s' result token token_is h =
      let a =
        after_step-Went _
          (react_to_auth_expiry-ok g c ctx (update_block g c ctx params s) s' result h) in
      let admitted = rate_limit_check-IsAdmitted g c ctx write s a.between a.value a.first_is in
      let (t, valid, h1) =
        lift-Went _ (validate_contact_input params.contact) a.between a.rest_is in
      let (token', e, h2) = lift-Went _ (ok_or ctx.token missing_token_err) a.between h1 in
      let fetched = call-CallWent g c (c.get_contact token' params.contact_href) a.between h2 in
      let (uid, uid_is, h3) = lift-Went _ _ fetched.between fetched.rest_is in
      let (t', same_is, h4) = lift-Went _ _ fetched.between h3 in
      let (vcard, card_is, h5) = lift-Went _ _ fetched.between h4 in
      let sent =
        call-CallWent g c
          (c.update_contact token' params.contact_href (or_existing params.etag fetched.value.etag)
            vcard)
          fetched.between h5 in
      subst (λ w. IsUpdated params token w s'.world result) admitted.same_world
        (IsUpdated-steps params token token' uid vcard a.between.world fetched.between.world
          sent.between s' fetched.value sent.value result
          (some-injective _ _ (sym token_is ∙ ok_or-some ctx.token missing_token_err token' e))
          valid fetched.called_is uid_is same_is card_is sent.called_is sent.rest_is)
