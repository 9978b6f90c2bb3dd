-- ===== src/Vcard/Escape.antt =====
-- `escape_vcard_text` and `unescape_vcard_text` of src/mcp.rs.
use carddav_mcp.Base.{
  ℕ, true, false, not, ◌||◌, [], ◌∷◌, ◌++◌, ◌≡◌, ◌≢◌, refl, arith, ◌==◌, if◌then◌else◌, All,
  All-append,
}
use carddav_mcp.Base.Str.{Text, replace, filter}

abbrev pub backslash : ℕ
backslash = b'\\'

abbrev pub cr : ℕ
cr = 13

abbrev pub lf : ℕ
lf = 10

abbrev pub semicolon : ℕ
semicolon = b';'

-- One round of the loop of `unescape_vcard_text` takes one character, or two from a backslash on.
abbrev escaped_char : ℕ → ℕ
escaped_char c = if c == b'n' || c == b'N' then lf else c

unfoldable pub unescape_vcard_text : Text → Text
unescape_vcard_text [] = []
unescape_vcard_text (c ∷ []) = c ∷ []
unescape_vcard_text (c ∷ d ∷ s) = elim (c == backslash) [
  | true ↦ escaped_char d ∷ unescape_vcard_text s
  | false ↦ c ∷ unescape_vcard_text (d ∷ s)
]

unfoldable pub escape_vcard_text : Text → Text
unfolding replace
escape_vcard_text value = replace b',' (backslash ∷ b',' ∷ []) (
    replace semicolon (backslash ∷ semicolon ∷ []) (
      replace lf (backslash ∷ b'n' ∷ [])
        (replace cr [] (replace backslash (backslash ∷ backslash ∷ []) value))))

-- The text of an escaped character.
escape_char : ℕ → Text
escape_char c =
    if c == backslash
    then backslash ∷ backslash ∷ []
    else if c == cr
    then []
    else if c == lf
    then backslash ∷ b'n' ∷ []
    else if c == semicolon
    then backslash ∷ semicolon ∷ []
    else if c == b','
    then backslash ∷ b',' ∷ []
    else c ∷ []

-- What an escaped text keeps of the value: all but its carriage returns.
abbrev pub without_cr : Text → Text
without_cr = filter (λ c. not (c == cr))

-- The five passes over the value come to one.
escape-cons : (c : ℕ) (s : Text) → escape_vcard_text (c ∷ s) ≡ escape_char c ++ escape_vcard_text s
unfolding escape_vcard_text escape_char
escape-cons c s = ground arith

unescape-escape_char :
    (c : ℕ) (rest : Text)
    → unescape_vcard_text (escape_char c ++ rest)
      ≡ (if not (c == cr) then c ∷ unescape_vcard_text rest else unescape_vcard_text rest)
unfolding unescape_vcard_text escape_char
unescape-escape_char c [] = ground arith
unescape-escape_char c (d ∷ rest) = ground arith

-- Unescaping undoes escaping, for every value, but for the carriage returns, which are dropped.
pub unescape-escape : (s : Text) → unescape_vcard_text (escape_vcard_text s) ≡ without_cr s
unfolding filter
unescape-escape [] = unfold escape_vcard_text unescape_vcard_text in refl
unescape-escape (c ∷ s) =
    rw (escape-cons c s, unescape-escape_char c) (ground (arith, unescape-escape s))

-- No line break, so that a value cannot begin a line of its own.
abbrev pub IsOneLine : Text → Type 0
IsOneLine = All (λ c. (c ≢ cr) × (c ≢ lf))

escape_char-IsOneLine : (c : ℕ) → IsOneLine (escape_char c)
unfolding escape_char
escape_char-IsOneLine c = ground arith

-- An escaped value holds no carriage return and no line feed, whatever the value holds.
pub escape-IsOneLine : (s : Text) → IsOneLine (escape_vcard_text s)
escape-IsOneLine [] = unfold escape_vcard_text in tt
escape-IsOneLine (c ∷ s) = rw (escape-cons c s) (
    All-append _ (escape_char c) (escape_vcard_text s) (escape_char-IsOneLine c)
      (escape-IsOneLine s))

escape_char-Lacks_semicolon : (c : ℕ) → c ≢ semicolon → All (λ d. d ≢ semicolon) (escape_char c)
unfolding escape_char
escape_char-Lacks_semicolon c h = ground arith

pub escape-Lacks_semicolon :
    (s : Text) → All (λ c. c ≢ semicolon) s → All (λ c. c ≢ semicolon) (escape_vcard_text s)
escape-Lacks_semicolon [] h = unfold escape_vcard_text in tt
escape-Lacks_semicolon (c ∷ s) h = rw (escape-cons c s) (
    All-append _ (escape_char c) (escape_vcard_text s) (escape_char-Lacks_semicolon c h.0)
      (escape-Lacks_semicolon s h.1))
