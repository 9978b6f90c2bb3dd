-- ===== src/Vcard/Contact/Validation.antt =====
-- What `validate_contact_input` and `validate_uid` of src/mcp.rs accept.
use carddav_mcp.Base.{
  ℕ, ◌≤◌, ◌≡◌, ◌↔◌, arith, false, List, [], ◌∷◌, ◌++◌, Option, none, some, length, All, ok,
}
use carddav_mcp.Base.Str.{Text, is_empty, len, trim, any, is_control}
use carddav_mcp.Vcard.Contact.{
  ContactInput, validate_uid, validate_contact_input, max_contact_field_bytes, max_note_bytes,
  max_multi_values, any_too_long, validate_given_uid, too_long,
}

abbrev pub Within : ℕ → Option Text → Type 0
Within max none = Unit
Within max (some value) = len value ≤ max

-- A UID that can name a resource and stand in one line.
pub record IsUid (uid : Text) : Type 0 where
  pub not_blank : is_empty (trim uid) ≡ false
  pub fits : len uid ≤ 512
  pub no_control : any is_control uid ≡ false

abbrev pub IsGivenUid : Option Text → Type 0
IsGivenUid none = Unit
IsGivenUid (some uid) = IsUid uid

-- The limits on a contact that a client sends.
pub record IsWithinLimits (c : ContactInput) : Type 0 where
  pub named : is_empty (trim c.full_name) ≡ false
  pub full_name_fits : len c.full_name ≤ max_contact_field_bytes
  pub given_name_fits : Within max_contact_field_bytes c.given_name
  pub family_name_fits : Within max_contact_field_bytes c.family_name
  pub organization_fits : Within max_contact_field_bytes c.organization
  pub title_fits : Within max_contact_field_bytes c.title
  pub note_fits : Within max_note_bytes c.note
  pub emails_count : length c.emails ≤ max_multi_values
  pub phones_count : length c.phones ≤ max_multi_values
  pub values_fit : All (λ v. len v ≤ max_contact_field_bytes) (c.emails ++ c.phones)
  pub uid_valid : IsGivenUid c.uid

-- `validate_uid` accepts a text exactly when it is not blank, has at most 512 bytes and no
-- control character.
pub validate_uid-IsUid : (uid : Text) → (validate_uid uid ≡ ok tt) ↔ IsUid uid
unfolding validate_uid
validate_uid-IsUid uid = ground arith

validate_given_uid-IsGivenUid : (o : Option Text) → (validate_given_uid o ≡ ok tt) ↔ IsGivenUid o
unfolding validate_given_uid
validate_given_uid-IsGivenUid none = ground arith
validate_given_uid-IsGivenUid (some uid) = validate_uid-IsUid uid

any_too_long-All :
    (vs : List Text) → (any_too_long vs ≡ false) ↔ All (λ v. len v ≤ max_contact_field_bytes) vs
unfolding any_too_long
any_too_long-All [] = ground arith
any_too_long-All (v ∷ vs) = ground (arith, any_too_long-All vs)

too_long-Within : (max : ℕ) (o : Option Text) → (too_long max o ≡ false) ↔ Within max o
too_long-Within max none = ground arith
too_long-Within max (some v) = ground arith

-- `validate_contact_input` accepts a contact exactly when all its limits are kept.
pub validate_contact_input-IsWithinLimits :
    (c : ContactInput) → (validate_contact_input c ≡ ok tt) ↔ IsWithinLimits c
unfolding validate_contact_input
validate_contact_input-IsWithinLimits c =
    ground (arith, any_too_long-All (c.emails ++ c.phones), validate_given_uid-IsGivenUid c.uid)
