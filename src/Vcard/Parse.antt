-- ===== src/Vcard/Parse.antt =====
-- `ParsedVcard` and `parse_vcard` of src/mcp.rs.
use carddav_mcp.Base.{
  Bool, true, false, List, [], ◌∷◌, ◌++◌, Option, none, some, fold, ◌==◌, if◌then◌else◌,
}
use carddav_mcp.Base.Str.{
  Text, codes, split, split_once, first_piece, last_piece, to_ascii_uppercase, strip_prefix, same,
}
use carddav_mcp.Vcard.Escape.{unescape_vcard_text, semicolon}
use carddav_mcp.Vcard.Contact.{nonempty}
use carddav_mcp.Vcard.Lines.{unfold_vcard_lines}

pub record ParsedVcard : Type 0 where
  pub uid : Option Text
  pub full_name : Option Text
  pub given_name : Option Text
  pub family_name : Option Text
  pub emails : List Text
  pub phones : List Text
  pub organization : Option Text
  pub title : Option Text
  pub note : Option Text
  pub birthday : Option Text
  pub has_photo : Bool

-- `ParsedVcard::default()`
abbrev pub no_properties : ParsedVcard
no_properties = record {
  uid = none;
  full_name = none;
  given_name = none;
  family_name = none;
  emails = [];
  phones = [];
  organization = none;
  title = none;
  note = none;
  birthday = none;
  has_photo = false;
}

-- The name in front of the parameters, without its group, in upper case.
unfoldable pub property_name : Text → Text
unfolding first_piece last_piece to_ascii_uppercase
property_name head =
    to_ascii_uppercase (last_piece (λ c. c == b'.') (first_piece (λ c. c == semicolon) head))

-- `parts.next().filter(|part| !part.is_empty())`, of the pieces that are left.
unfoldable pub next_part : List Text → Option Text
next_part [] = none
next_part (part ∷ parts) = nonempty (some (unescape_vcard_text part))

abbrev pub rest_parts : List Text → List Text
rest_parts [] = []
rest_parts (part ∷ parts) = parts

-- `value.strip_prefix(scheme).unwrap_or(&value)`
unfoldable pub without_scheme : Text → Text → Text
unfolding strip_prefix
without_scheme scheme value = elim (strip_prefix scheme value) [ none ↦ value | some rest ↦ rest ]

-- The `match` on the name of the property.
unfoldable pub set_property : ParsedVcard → Text → Text → ParsedVcard
unfolding same split unescape_vcard_text next_part without_scheme first_piece
set_property parsed property raw_value =
    let value = unescape_vcard_text raw_value in
    let parts = split (λ c. c == semicolon) raw_value in
    if same property (codes "UID")
    then record parsed { uid = some value }
    else if same property (codes "FN")
    then record parsed { full_name = some value }
    else if same property (codes "N")
    then record parsed { family_name = next_part parts; given_name = next_part (rest_parts parts) }
    else if same property (codes "EMAIL")
    then record parsed { emails = parsed.emails ++ without_scheme (codes "mailto:") value ∷ [] }
    else if same property (codes "TEL")
    then record parsed { phones = parsed.phones ++ without_scheme (codes "tel:") value ∷ [] }
    else if same property (codes "ORG")
    then record parsed { organization = some (first_piece (λ c. c == semicolon) value) }
    else if same property (codes "TITLE")
    then record parsed { title = some value }
    else if same property (codes "NOTE")
    then record parsed { note = some value }
    else if same property (codes "BDAY")
    then record parsed { birthday = some value }
    else if same property (codes "PHOTO")
    then record parsed { has_photo = true }
    else parsed

-- One round of the loop over the lines.
unfoldable pub parse_line : ParsedVcard → Text → ParsedVcard
unfolding split_once property_name set_property
parse_line parsed line = elim (split_once b':' line) [
  | none ↦ parsed
  | some (head, raw_value) ↦ set_property parsed (property_name head) raw_value
]

unfoldable pub parse_vcard : Text → ParsedVcard
unfolding fold parse_line unfold_vcard_lines
parse_vcard vcard = fold parse_line no_properties (unfold_vcard_lines vcard)
