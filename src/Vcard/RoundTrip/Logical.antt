-- ===== src/Vcard/RoundTrip/Logical.antt =====
-- Every line that `build_vcard` of src/mcp.rs writes is one line and begins with its name.
use carddav_mcp.Base.{
  ◌≢◌, refl, arith, List, [], ◌∷◌, ◌++◌, Option, none, some, String, map, All, All-append,
}
use carddav_mcp.Base.Str.{Text, codes}
use carddav_mcp.Vcard.Escape.{escape_vcard_text, IsOneLine, escape-IsOneLine}
use carddav_mcp.Vcard.Lines.{IsLogical}
use carddav_mcp.Vcard.Contact.{
  ContactInput, property_line, optional_line, name_line, card_lines, or_empty, nonempty,
}

line-IsLogical :
    (name : Text) (value : Text)
    → IsLogical name
    → name ≢ []
    → IsOneLine value
    → IsLogical (name ++ value)
line-IsLogical [] value h ne v = absurd (ne refl)
line-IsLogical (c ∷ name) value h ne v = (All-append _ (c ∷ name) value h.0 v, h.1)

property-IsLogical :
    (name : String) (v : Text)
    → IsLogical (codes name)
    → codes name ≢ []
    → IsLogical (property_line name v)
property-IsLogical name v h ne =
    line-IsLogical (codes name) _ h ne ((omega arith, omega arith), escape-IsOneLine v)

map-IsLogical :
    (name : String) (vs : List Text)
    → IsLogical (codes name)
    → codes name ≢ []
    → All IsLogical (map (property_line name) vs)
map-IsLogical name [] h ne = tt
map-IsLogical name (v ∷ vs) h ne = (property-IsLogical name v h ne, map-IsLogical name vs h ne)

optional-IsLogical :
    (name : String) (v : Option Text)
    → IsLogical (codes name)
    → codes name ≢ []
    → All IsLogical (optional_line name v)
optional-IsLogical name none h ne = tt
optional-IsLogical name (some v) h ne = (property-IsLogical name v h ne, tt)

name_line-IsLogical : (c : ContactInput) → IsLogical (name_line c)
name_line-IsLogical c =
    let family = escape_vcard_text (or_empty c.family_name) in
    let given = escape_vcard_text (or_empty c.given_name) in
    line-IsLogical (codes "N:") _ (omega arith, refl) (cc)
      (All-append _ family _ (escape-IsOneLine (or_empty c.family_name)) (
        omega arith,
        All-append _ given (codes ";;;") (escape-IsOneLine (or_empty c.given_name)) (omega arith),
      ))

body-IsLogical :
    (c : ContactInput)
    → All IsLogical (
        map (property_line "EMAIL") c.emails
        ++ (map (property_line "TEL") c.phones
            ++ (optional_line "ORG" (nonempty c.organization)
                ++ (optional_line "TITLE" (nonempty c.title)
                    ++ (optional_line "NOTE" (nonempty c.note) ++ codes "END:VCARD" ∷ [])))))
body-IsLogical c =
    All-append IsLogical _ _ (map-IsLogical "EMAIL" c.emails (omega arith, refl) (cc)) (
      All-append IsLogical _ _ (map-IsLogical "TEL" c.phones (omega arith, refl) (cc)) (
        All-append IsLogical _ _
          (optional-IsLogical "ORG" (nonempty c.organization) (omega arith, refl) (cc))
          (All-append IsLogical _ _
            (optional-IsLogical "TITLE" (nonempty c.title) (omega arith, refl) (cc))
            (All-append IsLogical _ _
              (optional-IsLogical "NOTE" (nonempty c.note) (omega arith, refl) (cc))
              ((omega arith, refl), tt)))))

pub card_lines-IsLogical : (c : ContactInput) (uid : Text) → All IsLogical (card_lines c uid)
unfolding card_lines
card_lines-IsLogical c uid = (
  (omega arith, refl),
  (
    (omega arith, refl),
    (
      property-IsLogical "UID" uid (omega arith, refl) (cc),
      (
        property-IsLogical "FN" c.full_name (omega arith, refl) (cc),
        (name_line-IsLogical c, body-IsLogical c),
      ),
    ),
  ),
)
