-- ===== src/CardDav/Escape.antt =====
-- src/carddav_client.rs: the escaping of a search query for XML.
use carddav_mcp.Base.{
  ℕ, ◌≤◌, All, Bool, true, false, ◌||◌, ◌&&◌, [], ◌∷◌, ◌++◌, ◌≡◌, ◌≢◌, sym, subst, arith, leb, ◌==◌,
  Bool-cases, inl, inr, ==_iff,
}
use carddav_mcp.Base.Str.{Text, codes, replace}

unfoldable pub escape_xml : Text → Text
escape_xml value = replace b'\'' (codes "&apos;") (
    replace b'"' (codes "&quot;") (
      replace b'>' (codes "&gt;")
        (replace b'<' (codes "&lt;") (replace b'&' (codes "&amp;") value))))

unfoldable pub is_illegal_xml_char : ℕ → Bool
is_illegal_xml_char value =
    leb value 0x8 || value == 0xb || value == 0xc || (leb 0xe value && leb value 0x1f)

-- The characters that XML 1.0 allows in a document, but for the carriage return, which a reader
-- turns into a line feed.
pub data IsXmlChar : ℕ → Type 0 where
  tab : IsXmlChar 0x9
  line_feed : IsXmlChar 0xa
  below_surrogates : {c : ℕ} → 0x20 ≤ c → c ≤ 0xd7ff → IsXmlChar c
  above_surrogates : {c : ℕ} → 0xe000 ≤ c → c ≤ 0xfffd → IsXmlChar c
  supplementary : {c : ℕ} → 0x1_0000 ≤ c → c ≤ 0x10_ffff → IsXmlChar c

-- The characters that an XML 1.0 reader makes of content without markup: an allowed character stands
-- for itself, if it is none of the five special ones, and these are written as entities.
pub data IsRead : Text → Text → Type 0 where
  done : IsRead [] []
  itself :
      {s t : Text} (c : ℕ)
      → IsXmlChar c
      → c ≢ b'&'
      → c ≢ b'<'
      → c ≢ b'>'
      → c ≢ b'"'
      → c ≢ b'\''
      → IsRead s t
      → IsRead (c ∷ s) (c ∷ t)
  amp : {s t : Text} → IsRead s t → IsRead (codes "&amp;" ++ s) (b'&' ∷ t)
  lt : {s t : Text} → IsRead s t → IsRead (codes "&lt;" ++ s) (b'<' ∷ t)
  gt : {s t : Text} → IsRead s t → IsRead (codes "&gt;" ++ s) (b'>' ∷ t)
  quot : {s t : Text} → IsRead s t → IsRead (codes "&quot;" ++ s) (b'"' ∷ t)
  apos : {s t : Text} → IsRead s t → IsRead (codes "&apos;" ++ s) (b'\'' ∷ t)

IsRead-by_code :
    (c d : ℕ) (s : Text)
    → (c == d) ≡ true
    → IsRead (escape_xml (d ∷ s)) (d ∷ s)
    → IsRead (escape_xml (c ∷ s)) (c ∷ s)
IsRead-by_code c d s e = subst (λ x. IsRead (escape_xml (x ∷ s)) (x ∷ s)) (sym ((==_iff c d).0 e))

differs : (c d : ℕ) → (c == d) ≡ false → c ≢ d
differs c d h e = ground (arith, ==_iff c d)

-- For a text of characters that XML 1.0 allows, but for the carriage return, `escape_xml` makes
-- a content without markup, in which the five special characters stand only as entities and
-- each other character for itself, so that the entities read back give the text.
pub escape_xml-IsRead : (value : Text) → All IsXmlChar value → IsRead (escape_xml value) value
unfolding escape_xml replace
escape_xml-IsRead [] allowed = done
escape_xml-IsRead (c ∷ s) allowed =
    let rest = escape_xml-IsRead s allowed.1 in
    elim (Bool-cases (c == b'&')) [
      | inl e ↦ IsRead-by_code c b'&' s e (amp rest)
      | inr not_amp ↦ elim (Bool-cases (c == b'<')) [
        | inl e ↦ IsRead-by_code c b'<' s e (lt rest)
        | inr not_lt ↦ elim (Bool-cases (c == b'>')) [
          | inl e ↦ IsRead-by_code c b'>' s e (gt rest)
          | inr not_gt ↦ elim (Bool-cases (c == b'"')) [
            | inl e ↦ IsRead-by_code c b'"' s e (quot rest)
            | inr not_quot ↦ elim (Bool-cases (c == b'\'')) [
              | inl e ↦ IsRead-by_code c b'\'' s e (apos rest)
              | inr not_apos ↦
                  rw (not_amp, not_lt, not_gt, not_quot, not_apos)
                    (itself c allowed.0 (differs _ _ not_amp) (differs _ _ not_lt)
                      (differs _ _ not_gt) (differs _ _ not_quot) (differs _ _ not_apos) rest)
            ]
          ]
        ]
      ]
    ]
