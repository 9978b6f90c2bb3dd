-- ===== src/Tools/Write.antt =====
-- `create_contact`, `update_contact` and `delete_contact` of src/mcp.rs.
use carddav_mcp.Base.{Bool, true, false, not, Option, none, some, ok, refuse_if}
use carddav_mcp.Base.Str.{Text, same}
use carddav_mcp.Rpc.{invalid_params}
use carddav_mcp.RateLimit.{Governor, write}
use carddav_mcp.Vcard.Contact.{ContactInput, validate_contact_input, validate_uid, build_vcard}
use carddav_mcp.Vcard.Parse.{parse_vcard}
use carddav_mcp.Base.Steps.{lift, ◌>>=◌, ◌>>◌}
use carddav_mcp.Tools.{
  Client, Context, Service, Step, ok_or, missing_token_err, call, rate_limit_check,
  react_to_auth_expiry,
}

pub record CreateContactParams : Type 0 where
  pub addressbook_href : Text
  pub contact : ContactInput

pub record UpdateContactParams : Type 0 where
  pub contact_href : Text
  pub etag : Option Text
  pub contact : ContactInput

pub record DeleteContactParams : Type 0 where
  pub contact_href : Text
  pub etag : Option Text

pub record ContactWriteResult : Type 0 where
  pub href : Text
  pub etag : Option Text
  pub uid : Text

pub record DeleteContactResult : Type 0 where
  pub href : Text
  pub deleted : Bool

-- `params.contact.uid.as_ref().is_some_and(|uid| uid != &existing_uid)`
unfoldable pub changes_uid : Option Text → Text → Bool
changes_uid none existing = false
changes_uid (some uid) existing = not (same uid existing)

-- `params.etag.as_deref().or(existing.etag.as_deref())`
abbrev pub or_existing : Option Text → Option Text → Option Text
or_existing none existing = existing
or_existing (some etag) existing = some etag

module _ (g : Governor) (c : Client) where
  open c use {World}

  -- `params.contact.uid.clone().unwrap_or_else(generate_uid)`
  unfoldable pub uid_or_fresh : Option Text → Step (Service g World) Text
  uid_or_fresh (some uid) s = (s, ok uid)
  uid_or_fresh none s =
      (record s { world = (c.generate_uid s.world).0 }, ok (c.generate_uid s.world).1)

  unfoldable pub create_block :
      Context → CreateContactParams → Step (Service g World) ContactWriteResult
  create_block ctx params = do
    rate_limit_check g c ctx write
    lift (validate_contact_input params.contact)
    token ← lift (ok_or ctx.token missing_token_err)
    uid ← uid_or_fresh params.contact.uid
    lift (validate_uid uid)
    vcard ← lift (build_vcard params.contact uid)
    written ← call g c (c.create_contact token params.addressbook_href uid vcard)
    lift (ok (record { href = written.href; etag = written.etag; uid = uid }))

  unfoldable pub create_contact :
      Context → CreateContactParams → Step (Service g World) ContactWriteResult
  create_contact ctx params s = react_to_auth_expiry g c ctx (create_block ctx params s)

  unfoldable pub update_block :
      Context → UpdateContactParams → Step (Service g World) ContactWriteResult
  update_block ctx params = do
    rate_limit_check g c ctx write
    lift (validate_contact_input params.contact)
    token ← lift (ok_or ctx.token missing_token_err)
    existing ← call g c (c.get_contact token params.contact_href)
    existing_uid ← lift (
        ok_or (parse_vcard existing.vcard).uid
          (invalid_params "existing vCard has no UID; refusing replacement"))
    lift (
        refuse_if (changes_uid params.contact.uid existing_uid)
          (invalid_params "contact UID cannot be changed during update"))
    vcard ← lift (build_vcard params.contact existing_uid)
    written ←
        call g c
          (c.update_contact token params.contact_href (or_existing params.etag existing.etag) vcard)
    lift (ok (record { href = written.href; etag = written.etag; uid = existing_uid }))

  unfoldable pub update_contact :
      Context → UpdateContactParams → Step (Service g World) ContactWriteResult
  update_contact ctx params s = react_to_auth_expiry g c ctx (update_block ctx params s)

  unfoldable pub delete_block :
      Context → DeleteContactParams → Step (Service g World) DeleteContactResult
  delete_block ctx params = do
    rate_limit_check g c ctx write
    token ← lift (ok_or ctx.token missing_token_err)
    call g c (c.delete_contact token params.contact_href params.etag)
    lift (ok (record { href = params.contact_href; deleted = true }))

  unfoldable pub delete_contact :
      Context → DeleteContactParams → Step (Service g World) DeleteContactResult
  delete_contact ctx params s = react_to_auth_expiry g c ctx (delete_block ctx params s)
