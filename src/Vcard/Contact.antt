-- ===== src/Vcard/Contact.antt =====
-- `ContactInput` of src/mcp.rs, its validation, and `build_vcard`.
pub mod Validation
use Prim.Native.String.{◌++◌ as append}
use carddav_mcp.Base.{
  ℕ, ◌*◌, Bool, false, ◌||◌, List, [], ◌∷◌, ◌++◌, Option, none, some, String, length, map, Result,
  ok, err, ◌>>◌, ltb, if◌then◌else◌, refuse_if,
}
use carddav_mcp.Base.Str.{Text, codes, is_empty, len, trim, any, is_control}
use carddav_mcp.Rpc.{ErrorData, invalid_params}
use carddav_mcp.Vcard.Escape.{escape_vcard_text}
use carddav_mcp.Vcard.Lines.{write_lines}

abbrev pub max_vcard_bytes : ℕ
max_vcard_bytes = 256 * 1024

abbrev pub max_contact_field_bytes : ℕ
max_contact_field_bytes = 4096

abbrev pub max_note_bytes : ℕ
max_note_bytes = 64 * 1024

abbrev pub max_multi_values : ℕ
max_multi_values = 64

pub record ContactInput : Type 0 where
  pub uid : Option Text
  pub full_name : Text
  pub given_name : Option Text
  pub family_name : Option Text
  pub emails : List Text
  pub phones : List Text
  pub organization : Option Text
  pub title : Option Text
  pub note : Option Text

-- A field that is too long, by its name and its limit: the text of `format!`.
abbrev field_message : String → String → String
field_message name max =
    append "`contact." (append name (append "` exceeds " (append max " bytes")))

abbrev uid_message : String
uid_message = "contact UID must be 1-512 bytes and contain no control characters"

unfoldable pub validate_uid : Text → Result ErrorData (Unit {0})
validate_uid uid =
    refuse_if (is_empty (trim uid) || ltb 512 (len uid) || any is_control uid)
      (invalid_params uid_message)

-- `value.is_some_and(|value| value.len() > max)`
abbrev too_long : ℕ → Option Text → Bool
too_long max none = false
too_long max (some value) = ltb max (len value)

record Field : Type 0 where
  name : String
  value : Option Text
  max : ℕ
  shown : String

abbrev field : String → Option Text → Field
field name value = record {
  name = name;
  value = value;
  max = max_contact_field_bytes;
  shown = "4096";
}

-- The table that the loop of `validate_contact_input` walks.
fields : ContactInput → List Field
fields c =
    field "full_name" (some c.full_name)
    ∷ field "given_name" c.given_name
    ∷ field "family_name" c.family_name
    ∷ field "organization" c.organization
    ∷ field "title" c.title
    ∷ record { name = "note"; value = c.note; max = max_note_bytes; shown = "65536" }
    ∷ []

check_fields : List Field → Result ErrorData (Unit {0})
check_fields [] = ok tt
check_fields (f ∷ fs) =
    let rest = check_fields fs in
    if too_long f.max f.value then err (invalid_params (field_message f.name f.shown)) else rest

unfoldable pub any_too_long : List Text → Bool
any_too_long [] = false
any_too_long (v ∷ vs) = ltb max_contact_field_bytes (len v) || any_too_long vs

unfoldable pub validate_given_uid : Option Text → Result ErrorData (Unit {0})
validate_given_uid none = ok tt
validate_given_uid (some uid) = validate_uid uid

unfoldable pub validate_contact_input : ContactInput → Result ErrorData (Unit {0})
unfolding fields check_fields
validate_contact_input c = do
  refuse_if (is_empty (trim c.full_name)) (invalid_params "`contact.full_name` must not be empty")
  check_fields (fields c)
  refuse_if (ltb max_multi_values (length c.emails) || ltb max_multi_values (length c.phones))
      (invalid_params "contacts may contain at most 64 emails and phone numbers")
  refuse_if (any_too_long (c.emails ++ c.phones))
      (invalid_params "an email or phone value exceeds the field-size limit")
  validate_given_uid c.uid

-- `as_deref().unwrap_or_default()`
abbrev pub or_empty : Option Text → Text
or_empty none = []
or_empty (some s) = s

abbrev pub nonempty : Option Text → Option Text
nonempty none = none
nonempty (some s) = if is_empty s then none else some s

-- A line `NAME:value`.
abbrev pub property_line : String → Text → Text
property_line name value = codes name ++ b':' ∷ escape_vcard_text value

abbrev pub optional_line : String → Option Text → List Text
optional_line name none = []
optional_line name (some value) = property_line name value ∷ []

abbrev pub name_line : ContactInput → Text
name_line c =
    codes "N:"
    ++ (escape_vcard_text (or_empty c.family_name)
        ++ b';' ∷ (escape_vcard_text (or_empty c.given_name) ++ codes ";;;"))

-- `lines` of `build_vcard`, when the last one has been pushed.
unfoldable pub card_lines : ContactInput → Text → List Text
card_lines c uid =
    codes "BEGIN:VCARD"
    ∷ codes "VERSION:4.0"
    ∷ property_line "UID" uid
    ∷ property_line "FN" c.full_name
    ∷ name_line c
    ∷ (map (property_line "EMAIL") c.emails
        ++ (map (property_line "TEL") c.phones
            ++ (optional_line "ORG" (nonempty c.organization)
                ++ (optional_line "TITLE" (nonempty c.title)
                    ++ (optional_line "NOTE" (nonempty c.note) ++ codes "END:VCARD" ∷ [])))))

unfoldable pub build_vcard : ContactInput → Text → Result ErrorData Text
build_vcard c uid = do
  validate_uid uid
  let vcard = write_lines (card_lines c uid)
  refuse_if (ltb max_vcard_bytes (len vcard))
      (invalid_params "generated vCard exceeds 262144 bytes")
  ok vcard
