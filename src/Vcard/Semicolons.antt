-- ===== src/Vcard/Semicolons.antt =====
-- Names and organisations with a semicolon, which `parse_vcard` of src/mcp.rs cuts off: it splits
-- the raw value of `N` at escaped semicolons too, and the unescaped value of `ORG`.
use mathlib.Core.Option.{some-injective}
use carddav_mcp.Base.{◌≡◌, ◌≢◌, arith, [], ◌∷◌, Option, none, some, ◌==◌, ap, sym, ◌∙◌, ok, subst}
use carddav_mcp.Base.Str.{Text, first_piece, split}
use carddav_mcp.Base.Str.Pieces.{split-first_piece}
use carddav_mcp.Vcard.Escape.{unescape_vcard_text, semicolon, without_cr}
use carddav_mcp.Vcard.Contact.{ContactInput, build_vcard, nonempty, or_empty}
use carddav_mcp.Vcard.Parse.{parse_vcard, next_part}
use carddav_mcp.Vcard.RoundTrip.{parse_vcard-parts}
use carddav_mcp.Vcard.RoundTrip.Expected.{Lacks, read, read_organization}

first_piece-Lacks : (s : Text) → Lacks semicolon (first_piece (λ c. c == semicolon) s)
unfolding first_piece
first_piece-Lacks [] = tt
first_piece-Lacks (c ∷ s) = ground (arith, first_piece-Lacks s)

unescape-Lacks : (s : Text) → Lacks semicolon s → Lacks semicolon (unescape_vcard_text s)
unfolding unescape_vcard_text
unescape-Lacks [] h = tt
unescape-Lacks (c ∷ []) h = h
unescape-Lacks (c ∷ d ∷ s) h = ground (arith, unescape-Lacks s h.1.1, unescape-Lacks (d ∷ s) h.1)

nonempty-some : (s t : Text) → nonempty (some s) ≡ some t → s ≡ t
nonempty-some s t h = ground arith

-- The part that is read as the family name holds no semicolon.
next_part-Lacks :
    (s t : Text) → next_part (split (λ c. c == semicolon) s) ≡ some t → Lacks semicolon t
unfolding next_part
next_part-Lacks s t h =
    let (later, e) = split-first_piece (λ c. c == semicolon) s in
    let piece = first_piece (λ c. c == semicolon) s in
    let e' = nonempty-some (unescape_vcard_text piece) t (sym (ap next_part e) ∙ h) in
    rw (← e') (unescape-Lacks piece (first_piece-Lacks s))

-- A family name that holds a semicolon is never read back from the card that is built for it.
pub family_name-not_read_back :
    (c : ContactInput) (uid : Text) {vcard : Text}
    → build_vcard c uid ≡ ok vcard
    → ¬ Lacks semicolon (without_cr (or_empty c.family_name))
    → (parse_vcard vcard).family_name ≢ some (without_cr (or_empty c.family_name))
family_name-not_read_back c uid h has e =
    has (next_part-Lacks _ _ (sym (ap (λ p. p.family_name) (parse_vcard-parts c uid h)) ∙ e))

organization-Lacks :
    (o : Option Text) (t : Text) → read read_organization (nonempty o) ≡ some t → Lacks semicolon t
organization-Lacks none t h = cc
organization-Lacks (some []) t h = cc
organization-Lacks (some (c ∷ s)) t h =
    subst (Lacks semicolon) (some-injective _ _ h) (first_piece-Lacks (without_cr (c ∷ s)))

-- An organisation that holds a semicolon is never read back from the card that is built for it.
pub organization-not_read_back :
    (c : ContactInput) (uid : Text) {vcard : Text}
    → build_vcard c uid ≡ ok vcard
    → ¬ Lacks semicolon (without_cr (or_empty c.organization))
    → (parse_vcard vcard).organization ≢ some (without_cr (or_empty c.organization))
organization-not_read_back c uid h has e = has (
    organization-Lacks c.organization _
      (sym (ap (λ p. p.organization) (parse_vcard-parts c uid h)) ∙ e))
