-- ===== src/Vcard/RoundTrip.antt =====
-- What `parse_vcard` of src/mcp.rs reads from a card that `build_vcard` wrote.
pub mod Expected
pub mod Logical
pub mod Properties
use carddav_mcp.Base.{
  ℕ, ◌+◌, ◌≤◌, ◌<◌, ◌≡◌, ◌≢◌, refl, arith, Bool, true, false, not, ◌||◌, List, [], ◌∷◌, ◌++◌,
  append_assoc, append-nil, Option, none, some, fold, fold_then, ◌==◌, if◌then◌else◌, String, map,
  All, All-append, All-mono, ap, sym, ◌∙◌, Result, ok, err, Bool-cases, inl, inr, refuse_if,
  ==_false, ==_refl, ltb, ◌>>=◌, ◌>>◌, ◌≡⟨◌⟩◌, ◌∎,
}
use carddav_mcp.Base.Str.{Text, codes, filter, first_piece, any, is_control, split}
use carddav_mcp.Base.Str.Pieces.{split_at_separator}
use carddav_mcp.Vcard.Escape.{
  unescape_vcard_text, escape_vcard_text, unescape-escape, without_cr, semicolon, IsOneLine,
  escape-IsOneLine, cr, lf, escape-Lacks_semicolon,
}
use carddav_mcp.Vcard.Lines.{
  IsLogical, unfold_vcard_lines, write_lines, unfold_vcard_lines-write_lines, starts_blank,
}
use carddav_mcp.Vcard.Contact.{
  ContactInput, property_line, optional_line, name_line, card_lines, build_vcard, validate_uid,
  or_empty, nonempty,
}
use carddav_mcp.Vcard.Parse.{
  ParsedVcard, no_properties, parse_line, parse_vcard, without_scheme, next_part, rest_parts,
}
use Logical.{card_lines-IsLogical}
use carddav_mcp.Vcard.RoundTrip.Expected.{
  Lacks, read_email, read_phone, read_organization, read, read_back,
}
use Properties.{name_parts, fold-name, fold-header, fold-body}

without_cr-no_control : (s : Text) → any is_control s ≡ false → without_cr s ≡ s
unfolding any filter is_control
without_cr-no_control [] h = refl
without_cr-no_control (c ∷ s) h = ground (arith, without_cr-no_control s)

card_lines-append :
    (c : ContactInput) (uid : Text)
    → card_lines c uid ++ [] ∷ []
      ≡ (codes "BEGIN:VCARD"
          ∷ codes "VERSION:4.0"
          ∷ property_line "UID" uid
          ∷ property_line "FN" c.full_name
          ∷ [])
        ++ ((name_line c ∷ [])
            ++ (map (property_line "EMAIL") c.emails
                ++ (map (property_line "TEL") c.phones
                    ++ (optional_line "ORG" (nonempty c.organization)
                        ++ (optional_line "TITLE" (nonempty c.title)
                            ++ (optional_line "NOTE" (nonempty c.note)
                                ++ codes "END:VCARD" ∷ [] ∷ []))))))
unfolding card_lines
card_lines-append c uid = simp append_assoc

-- A card that was built is the card of its lines, and its UID has no control character.
pub record Built (c : ContactInput) (uid vcard : Text) : Type 0 where
  pub is_written : vcard ≡ write_lines (card_lines c uid)
  pub no_control : any is_control uid ≡ false

pub build_vcard-Built :
    (c : ContactInput) (uid : Text) {vcard : Text}
    → build_vcard c uid ≡ ok vcard
    → Built c uid vcard
unfolding build_vcard validate_uid
build_vcard-Built c uid h = ground arith

-- What is read back, whatever stands in the name: its parts as they are split.
abbrev pub read_parts : ContactInput → Text → ParsedVcard
read_parts c uid = record (read_back c uid) {
  family_name = next_part (name_parts c);
  given_name = next_part (rest_parts (name_parts c));
}

parse_card_lines :
    (c : ContactInput) (uid : Text)
    → fold parse_line no_properties (card_lines c uid ++ [] ∷ []) ≡ read_parts c (without_cr uid)
parse_card_lines c uid =
    ap (fold parse_line no_properties) (card_lines-append c uid)
    ∙ fold_then parse_line no_properties _ _ (fold-header no_properties uid c.full_name) (
        fold_then parse_line _ (name_line c ∷ []) _ (fold-name _ c)
          (fold-body _ c refl refl refl refl refl))

pub parse_vcard-parts :
    (c : ContactInput) (uid : Text) {vcard : Text}
    → build_vcard c uid ≡ ok vcard
    → parse_vcard vcard ≡ read_parts c uid
unfolding parse_vcard
parse_vcard-parts c uid h =
    let built = build_vcard-Built c uid h in
    ap (λ t. fold parse_line no_properties (unfold_vcard_lines t)) built.is_written
    ∙ ap (fold parse_line no_properties)
        (unfold_vcard_lines-write_lines _ (card_lines-IsLogical c uid))
    ∙ parse_card_lines c uid
    ∙ ap (read_parts c) (without_cr-no_control uid built.no_control)

-- The five parts of the name, the last three empty.
split-name :
    (f g : Text)
    → Lacks semicolon f
    → Lacks semicolon g
    → split
        (λ c. c == semicolon)
        (escape_vcard_text f ++ semicolon ∷ (escape_vcard_text g ++ codes ";;;"))
      ≡ escape_vcard_text f ∷ escape_vcard_text g ∷ [] ∷ [] ∷ [] ∷ []
unfolding split
split-name f g hf hg =
    let miss = λ (s : Text) (h : Lacks semicolon s).
      All-mono _ (λ c. (c == semicolon) ≡ false) (λ c k. ==_false c semicolon k) _
        (escape-Lacks_semicolon s h) in
    split_at_separator _ (escape_vcard_text f) semicolon _ (miss f hf) refl
    ∙ ap (◌∷◌ (escape_vcard_text f))
        (split_at_separator _ (escape_vcard_text g) semicolon _ (miss g hg) refl)

read_parts-read_back :
    (c : ContactInput) (uid : Text)
    → Lacks semicolon (or_empty c.family_name)
    → Lacks semicolon (or_empty c.given_name)
    → read_parts c uid ≡ read_back c uid
unfolding next_part
read_parts-read_back c uid hf hg =
    let f = or_empty c.family_name in
    let g = or_empty c.given_name in
    ap
      (λ ps. record (read_back c uid) {
        family_name = next_part ps;
        given_name = next_part (rest_parts ps);
      })
      (split-name f g hf hg)
    ∙ ap
        (λ t. record (read_back c uid) {
          family_name = nonempty (some t);
          given_name = nonempty (some (unescape_vcard_text (escape_vcard_text g)));
        })
        (unescape-escape f)
    ∙ ap (λ t. record (read_back c uid) { given_name = nonempty (some t) }) (unescape-escape g)

-- Parsing a card that `build_vcard` made gives the contact back, for all texts in its fields:
-- the UID as it is, the other texts without carriage returns, of an email or a phone number
-- what stands behind its scheme, of an organisation what stands before its first semicolon, and
-- empty optional fields as absent. The family and the given name must hold no semicolon.
pub parse_vcard-build_vcard :
    (c : ContactInput) (uid : Text) {vcard : Text}
    → Lacks semicolon (or_empty c.family_name)
    → Lacks semicolon (or_empty c.given_name)
    → build_vcard c uid ≡ ok vcard
    → parse_vcard vcard ≡ read_back c uid
parse_vcard-build_vcard c uid hf hg h = parse_vcard-parts c uid h ∙ read_parts-read_back c uid hf hg
