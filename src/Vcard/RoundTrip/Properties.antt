-- ===== src/Vcard/RoundTrip/Properties.antt =====
-- `parse_vcard` of src/mcp.rs on the lines that `build_vcard` writes, one property after another.
use carddav_mcp.Base.{
  ◌≡◌, refl, List, [], ◌∷◌, ◌++◌, append_assoc, append-nil, Option, none, some, fold, fold_then,
  ◌==◌, map, ap, sym, ◌∙◌,
}
use carddav_mcp.Base.Str.{Text, codes, first_piece, split}
use carddav_mcp.Vcard.Escape.{
  unescape_vcard_text, escape_vcard_text, unescape-escape, without_cr, semicolon,
}
use carddav_mcp.Vcard.Contact.{
  ContactInput, property_line, optional_line, name_line, or_empty, nonempty,
}
use carddav_mcp.Vcard.Parse.{ParsedVcard, parse_line, without_scheme, next_part, rest_parts}
use carddav_mcp.Vcard.RoundTrip.Expected.{read_email, read_phone, read_organization, read}

module _ (p : ParsedVcard) where
  parse_line-uid :
      (v : Text) → parse_line p (property_line "UID" v) ≡ record p { uid = some (without_cr v) }
  unfolding parse_line
  parse_line-uid v = ap (λ t. record p { uid = some t }) (unescape-escape v)

  parse_line-fn :
      (v : Text)
      → parse_line p (property_line "FN" v) ≡ record p { full_name = some (without_cr v) }
  unfolding parse_line
  parse_line-fn v = ap (λ t. record p { full_name = some t }) (unescape-escape v)

  parse_line-org :
      (v : Text)
      → parse_line p (property_line "ORG" v)
        ≡ record p { organization = some (read_organization v) }
  unfolding parse_line
  parse_line-org v =
      ap (λ t. record p { organization = some (first_piece (λ c. c == semicolon) t) })
        (unescape-escape v)

  parse_line-email :
      (v : Text)
      → parse_line p (property_line "EMAIL" v) ≡ record p { emails = p.emails ++ read_email v ∷ [] }
  unfolding parse_line
  parse_line-email v =
      ap (λ t. record p { emails = p.emails ++ without_scheme (codes "mailto:") t ∷ [] })
        (unescape-escape v)

  parse_line-tel :
      (v : Text)
      → parse_line p (property_line "TEL" v) ≡ record p { phones = p.phones ++ read_phone v ∷ [] }
  unfolding parse_line
  parse_line-tel v =
      ap (λ t. record p { phones = p.phones ++ without_scheme (codes "tel:") t ∷ [] })
        (unescape-escape v)

  parse_line-title :
      (v : Text) → parse_line p (property_line "TITLE" v) ≡ record p { title = some (without_cr v) }
  unfolding parse_line
  parse_line-title v = ap (λ t. record p { title = some t }) (unescape-escape v)

  parse_line-note :
      (v : Text) → parse_line p (property_line "NOTE" v) ≡ record p { note = some (without_cr v) }
  unfolding parse_line
  parse_line-note v = ap (λ t. record p { note = some t }) (unescape-escape v)

-- The pieces that the name line is split into.
abbrev pub name_parts : ContactInput → List Text
name_parts c =
    split (λ c. c == semicolon)
      (escape_vcard_text (or_empty c.family_name)
        ++ semicolon ∷ (escape_vcard_text (or_empty c.given_name) ++ codes ";;;"))

pub fold-name :
    (p : ParsedVcard) (c : ContactInput)
    → fold parse_line p (name_line c ∷ []) ≡ record p {
      family_name = next_part (name_parts c);
      given_name = next_part (rest_parts (name_parts c));
    }
unfolding fold parse_line
fold-name p c = refl

pub fold-email :
    (p : ParsedVcard) (vs : List Text)
    → fold parse_line p (map (property_line "EMAIL") vs)
      ≡ record p { emails = p.emails ++ map read_email vs }
unfolding fold
fold-email p [] = ap (λ t. record p { emails = t }) (sym (append-nil p.emails))
fold-email p (v ∷ vs) =
    ap (λ q. fold parse_line q (map (property_line "EMAIL") vs)) (parse_line-email p v)
    ∙ fold-email (record p { emails = p.emails ++ read_email v ∷ [] }) vs
    ∙ ap (λ t. record p { emails = t }) (append_assoc p.emails (read_email v ∷ []) _)

pub fold-tel :
    (p : ParsedVcard) (vs : List Text)
    → fold parse_line p (map (property_line "TEL") vs)
      ≡ record p { phones = p.phones ++ map read_phone vs }
unfolding fold
fold-tel p [] = ap (λ t. record p { phones = t }) (sym (append-nil p.phones))
fold-tel p (v ∷ vs) =
    ap (λ q. fold parse_line q (map (property_line "TEL") vs)) (parse_line-tel p v)
    ∙ fold-tel (record p { phones = p.phones ++ read_phone v ∷ [] }) vs
    ∙ ap (λ t. record p { phones = t }) (append_assoc p.phones (read_phone v ∷ []) _)

module _ (p : ParsedVcard) where
  fold-org :
      (o : Option Text)
      → p.organization ≡ none
      → fold parse_line p (optional_line "ORG" o)
        ≡ record p { organization = read read_organization o }
  unfolding fold
  fold-org none h = ap (λ t. record p { organization = t }) h
  fold-org (some v) h = parse_line-org p v

  fold-title :
      (o : Option Text)
      → p.title ≡ none
      → fold parse_line p (optional_line "TITLE" o) ≡ record p { title = read without_cr o }
  unfolding fold
  fold-title none h = ap (λ t. record p { title = t }) h
  fold-title (some v) h = parse_line-title p v

  fold-note :
      (o : Option Text)
      → p.note ≡ none
      → fold parse_line p (optional_line "NOTE" o) ≡ record p { note = read without_cr o }
  unfolding fold
  fold-note none h = ap (λ t. record p { note = t }) h
  fold-note (some v) h = parse_line-note p v

  -- The last line and the empty one behind it say nothing.
  fold-end : fold parse_line p (codes "END:VCARD" ∷ [] ∷ []) ≡ p
  unfolding fold parse_line
  fold-end = refl

  pub fold-header :
      (uid full_name : Text)
      → fold parse_line p (
          codes "BEGIN:VCARD"
          ∷ codes "VERSION:4.0"
          ∷ property_line "UID" uid
          ∷ property_line "FN" full_name
          ∷ [])
        ≡ record p { uid = some (without_cr uid); full_name = some (without_cr full_name) }
  unfolding fold parse_line
  fold-header uid full_name =
      ap
        (λ t. record p {
          uid = some t;
          full_name = some (unescape_vcard_text (escape_vcard_text full_name));
        })
        (unescape-escape uid)
      ∙ ap (λ t. record p { uid = some (without_cr uid); full_name = some t })
          (unescape-escape full_name)

pub fold-body :
    (p : ParsedVcard) (c : ContactInput)
    → p.emails ≡ []
    → p.phones ≡ []
    → p.organization ≡ none
    → p.title ≡ none
    → p.note ≡ none
    → fold parse_line p (
        map (property_line "EMAIL") c.emails
        ++ (map (property_line "TEL") c.phones
            ++ (optional_line "ORG" (nonempty c.organization)
                ++ (optional_line "TITLE" (nonempty c.title)
                    ++ (optional_line "NOTE" (nonempty c.note) ++ codes "END:VCARD" ∷ [] ∷ [])))))
      ≡ record p {
        emails = map read_email c.emails;
        phones = map read_phone c.phones;
        organization = read read_organization (nonempty c.organization);
        title = read without_cr (nonempty c.title);
        note = read without_cr (nonempty c.note);
      }
fold-body p c he hp ho ht hn =
    fold_then _ p _ _ (fold-email p c.emails) (
      fold_then _ _ _ _ (fold-tel _ c.phones) (
        fold_then _ _ _ _ (fold-org _ (nonempty c.organization) ho) (
          fold_then _ _ _ _ (fold-title _ (nonempty c.title) ht)
            (fold_then _ _ _ _ (fold-note _ (nonempty c.note) hn) (fold-end _)))))
    ∙ ap
        (λ es. record p {
          emails = es ++ map read_email c.emails;
          phones = p.phones ++ map read_phone c.phones;
          organization = read read_organization (nonempty c.organization);
          title = read without_cr (nonempty c.title);
          note = read without_cr (nonempty c.note);
        })
        he
    ∙ ap
        (λ ps. record p {
          emails = map read_email c.emails;
          phones = ps ++ map read_phone c.phones;
          organization = read read_organization (nonempty c.organization);
          title = read without_cr (nonempty c.title);
          note = read without_cr (nonempty c.note);
        })
        hp
