-- ===== src/Vcard/Examples.antt =====
-- Runs of the functions on cards of src/mcp.rs, and the theorems on them at a concrete contact.
use carddav_mcp.Base.{◌≡◌, ◌≢◌, ◌↔◌, List, ◌++◌, arith, refl, ok, [], ◌∷◌, none, some, All}
use carddav_mcp.Base.Str.{
  Text, codes, len, trim, any, is_control, slice_from, slice_to, is_char_boundary, filter,
}
use carddav_mcp.Vcard.Escape.{
  unescape_vcard_text, escape_vcard_text, unescape-escape, escape-IsOneLine, IsOneLine, without_cr,
}
use carddav_mcp.Vcard.Fold.{fold_vcard_line, fold_vcard_line-IsFolding, IsFolding}
use carddav_mcp.Vcard.Lines.{
  unfold_vcard_lines, write_lines, unfold_vcard_lines-write_lines, raw_lines,
}
use carddav_mcp.Vcard.Contact.{
  ContactInput, build_vcard, validate_uid, card_lines, validate_contact_input,
}
use carddav_mcp.Vcard.Parse.{parse_vcard}
use carddav_mcp.Vcard.RoundTrip.{parse_vcard-build_vcard}
use carddav_mcp.Vcard.RoundTrip.Expected.{read_back}
use carddav_mcp.Vcard.Semicolons.{family_name-not_read_back, organization-not_read_back}
use carddav_mcp.Vcard.Width.{build_vcard-FitsLine, FitsLine}
use carddav_mcp.Vcard.Contact.Validation.{validate_contact_input-IsWithinLimits, IsWithinLimits}

abbrev ada : ContactInput
ada = record {
  uid = none;
  full_name = codes "Ada, Countess of Lovelace";
  given_name = some (codes "Ada");
  family_name = some (codes "Lovelace");
  emails = codes "ada@example.com" ∷ [];
  phones = [];
  organization = some (codes "Analytical Engine");
  title = none;
  note = some (
      codes
        "Wrote the first program, for a machine that was not built in her life;\nnotes G and A are hers");
}

abbrev ada_card : Text
ada_card = write_lines (card_lines ada (codes "ada-1"))

ada_is_built : build_vcard ada (codes "ada-1") ≡ ok ada_card
unfolding build_vcard write_lines card_lines validate_uid fold_vcard_line len trim any is_control
    escape_vcard_text slice_from is_char_boundary slice_to
ada_is_built = refl

-- The contact is read back from its card.
parse_vcard-build_vcard_example : parse_vcard ada_card ≡ read_back ada (codes "ada-1")
parse_vcard-build_vcard_example =
    parse_vcard-build_vcard ada (codes "ada-1") (ground arith) (ground arith) ada_is_built

abbrev two_lines : List Text
two_lines = codes "NOTE:one" ∷ codes "END:VCARD" ∷ []

unfold_vcard_lines-write_lines_example :
    unfold_vcard_lines (write_lines two_lines) ≡ two_lines ++ [] ∷ []
unfold_vcard_lines-write_lines_example = unfold_vcard_lines-write_lines two_lines (ground arith)

unescape-escape_example :
    unescape_vcard_text (escape_vcard_text (codes "a\\b;c\r\n,d"))
    ≡ without_cr (codes "a\\b;c\r\n,d")
unescape-escape_example = unescape-escape (codes "a\\b;c\r\n,d")

escape-IsOneLine_example : IsOneLine (escape_vcard_text (codes "x\r\nBDAY:1900"))
escape-IsOneLine_example = escape-IsOneLine (codes "x\r\nBDAY:1900")

abbrev long_line : Text
long_line = codes "NOTE:0123456789012345678901234567890123456789012345678901234567890123456789é é é"

fold_vcard_line-IsFolding_example : IsFolding long_line (fold_vcard_line long_line)
fold_vcard_line-IsFolding_example = fold_vcard_line-IsFolding long_line

build_vcard-FitsLine_example : All FitsLine (raw_lines ada_card)
build_vcard-FitsLine_example = build_vcard-FitsLine ada (codes "ada-1") ada_is_built

validate_contact_input-IsWithinLimits_example :
    (validate_contact_input ada ≡ ok tt) ↔ IsWithinLimits ada
validate_contact_input-IsWithinLimits_example = validate_contact_input-IsWithinLimits ada

-- A family name and an organisation with a semicolon.
abbrev split_up : ContactInput
split_up = record {
  uid = none;
  full_name = codes "Jo";
  given_name = none;
  family_name = some (codes "Doe;Roe");
  emails = [];
  phones = [];
  organization = some (codes "R&D;Tools");
  title = none;
  note = none;
}

abbrev split_up_card : Text
split_up_card = write_lines (card_lines split_up (codes "s"))

split_up_is_built : build_vcard split_up (codes "s") ≡ ok split_up_card
unfolding build_vcard write_lines card_lines validate_uid fold_vcard_line len trim any is_control
    escape_vcard_text
split_up_is_built = refl

family_name-not_read_back_example :
    (parse_vcard split_up_card).family_name ≢ some (without_cr (codes "Doe;Roe"))
family_name-not_read_back_example =
    family_name-not_read_back split_up (codes "s") split_up_is_built
      (unfold filter in λ h. h.1.1.1.0 refl)

organization-not_read_back_example :
    (parse_vcard split_up_card).organization ≢ some (without_cr (codes "R&D;Tools"))
organization-not_read_back_example =
    organization-not_read_back split_up (codes "s") split_up_is_built
      (unfold filter in λ h. h.1.1.1.0 refl)

-- The escape of the semicolon is cut in two.
parsed_family : (parse_vcard split_up_card).family_name ≡ some (codes "Doe\\")
unfolding parse_vcard write_lines card_lines fold_vcard_line len escape_vcard_text
parsed_family = refl
