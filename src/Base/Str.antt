-- ===== src/Base/Str.antt =====
-- Rust's `str`, as the list of its Unicode scalar values, with the methods of the standard library
-- that the program calls. Lengths and indices count the bytes of the UTF-8 form, as in Rust.
pub mod Bytes
pub mod Pieces
pub mod Utf8
use Prim.Native.Char.{code}
use native.Mathlib.Decide.{ℕ_discrete}
use carddav_mcp.Base.{
  ℕ, zero, suc, ◌+◌, ◌-◌, ◌*◌, Bool, true, false, ◌&&◌, ◌||◌, not, List, [], ◌∷◌, ◌++◌, Option,
  none, some, String, ltb, leb, ◌==◌, if◌then◌else◌,
}

abbrev pub Text : Type 0
Text = List ℕ

-- Texts as the keys of maps.
pub Text-discrete : Discrete Text
Text-discrete = hlevel ℕ_discrete

-- The text of a literal.
abbrev pub codes : String → Text
codes String.[] = []
codes (String.◌∷◌ c s) = code c ∷ codes s

abbrev pub is_empty {ℓ} : {A : Type ℓ} → List A → Bool
is_empty [] = true
is_empty (c ∷ s) = false

-- `char::len_utf8`
unfoldable pub len_utf8 : ℕ → ℕ
len_utf8 c = if ltb c 0x80 then 1 else if ltb c 0x800 then 2 else if ltb c 0x1_0000 then 3 else 4

-- `str::len`
unfoldable pub len : Text → ℕ
unfolding len_utf8
len [] = 0
len (c ∷ s) = len_utf8 c + len s

-- `str::is_char_boundary`
unfoldable pub is_char_boundary : Text → ℕ → Bool
unfolding len_utf8
is_char_boundary [] n = n == 0
is_char_boundary (c ∷ s) n = n == 0 || (leb (len_utf8 c) n && is_char_boundary s (n - len_utf8 c))

-- `&s[..n]` and `&s[n..]`, where `n` is a character boundary.
unfoldable pub slice_to : Text → ℕ → Text
unfolding len_utf8
slice_to [] n = []
slice_to (c ∷ s) n =
    let rest = slice_to s (n - len_utf8 c) in if leb (len_utf8 c) n then c ∷ rest else []

unfoldable pub slice_from : Text → ℕ → Text
unfolding len_utf8
slice_from [] n = []
slice_from (c ∷ s) n =
    let rest = slice_from s (n - len_utf8 c) in if leb (len_utf8 c) n then rest else c ∷ s

-- `char::is_whitespace`: the code points with the property White_Space.
unfoldable pub is_whitespace : ℕ → Bool
is_whitespace c =
    (leb 0x09 c && leb c 0x0d)
    || c == 0x20
    || c == 0x85
    || c == 0xa0
    || c == 0x1680
    || (leb 0x2000 c && leb c 0x200a)
    || c == 0x2028
    || c == 0x2029
    || c == 0x202f
    || c == 0x205f
    || c == 0x3000

-- `char::is_control`: the general category Cc.
unfoldable pub is_control : ℕ → Bool
is_control c = leb c 0x1f || (leb 0x7f c && leb c 0x9f)

unfoldable pub is_ascii_digit : ℕ → Bool
is_ascii_digit c = leb b'0' c && leb c b'9'

abbrev pub is_digit_list : Text → Bool
is_digit_list [] = true
is_digit_list (c ∷ s) = is_ascii_digit c && is_digit_list s

-- `str::trim_start_matches`, `str::trim_end_matches` on a test of characters.
module _ (p : ℕ → Bool) where
  unfoldable pub trim_start_matches : Text → Text
  trim_start_matches [] = []
  trim_start_matches (c ∷ s) = let rest = trim_start_matches s in if p c then rest else c ∷ s

  unfoldable pub trim_end_matches : Text → Text
  trim_end_matches [] = []
  trim_end_matches (c ∷ s) =
      let rest = trim_end_matches s in if p c && is_empty rest then [] else c ∷ rest

  -- `chars().any(p)`, `chars().filter(p)`
  unfoldable pub any : Text → Bool
  any [] = false
  any (c ∷ s) = p c || any s

  unfoldable pub filter : Text → Text
  filter [] = []
  filter (c ∷ s) = let rest = filter s in if p c then c ∷ rest else rest

  -- What stands before the first character that passes the test: `split(p).next()`.
  unfoldable pub first_piece : Text → Text
  first_piece [] = []
  first_piece (c ∷ s) = if p c then [] else c ∷ first_piece s

  -- What stands behind it, if there is one.
  unfoldable pub after_first : Text → Option Text
  after_first [] = none
  after_first (c ∷ s) = if p c then some s else after_first s

unfoldable pub trim : Text → Text
unfolding trim_start_matches trim_end_matches is_whitespace
trim s = trim_end_matches is_whitespace (trim_start_matches is_whitespace s)

-- `str::split(p)` collected: the pieces between the separators.
abbrev pub prepend : ℕ → List Text → List Text
prepend c [] = (c ∷ []) ∷ []
prepend c (s ∷ ss) = (c ∷ s) ∷ ss

unfoldable pub split : (ℕ → Bool) → Text → List Text
split p [] = [] ∷ []
split p (c ∷ s) = let rest = split p s in if p c then [] ∷ rest else prepend c rest

-- `str::split_once(c)`
unfoldable pub split_once : ℕ → Text → Option (Text × Text)
unfolding first_piece after_first
split_once d s = elim (after_first (λ c. c == d) s) [
  | none ↦ none
  | some rest ↦ some (first_piece (λ c. c == d) s, rest)
]

-- `rsplit(p).next()`: what stands behind the last separator, or all of the text.
unfoldable pub behind_last : (ℕ → Bool) → Text → Text → Text
behind_last p best [] = best
behind_last p best (c ∷ s) = behind_last p (if p c then s else best) s

unfoldable pub last_piece : (ℕ → Bool) → Text → Text
unfolding behind_last
last_piece p s = behind_last p s s

-- `==` of texts.
unfoldable pub same : Text → Text → Bool
same [] [] = true
same [] (d ∷ t) = false
same (c ∷ s) [] = false
same (c ∷ s) (d ∷ t) = c == d && same s t

unfoldable pub starts_with : Text → Text → Bool
starts_with [] s = true
starts_with (c ∷ p) [] = false
starts_with (c ∷ p) (d ∷ s) = c == d && starts_with p s

unfoldable pub strip_prefix : Text → Text → Option Text
strip_prefix [] s = some s
strip_prefix (c ∷ p) [] = none
strip_prefix (c ∷ p) (d ∷ s) = let rest = strip_prefix p s in if c == d then rest else none

-- `str::replace` of one character.
unfoldable pub replace : ℕ → Text → Text → Text
replace d r [] = []
replace d r (c ∷ s) = let rest = replace d r s in if c == d then r ++ rest else c ∷ rest

-- `str::replace` of two characters.
unfoldable pub replace_two : ℕ → ℕ → Text → Text → Text
replace_two d e r [] = []
replace_two d e r (c ∷ []) = c ∷ []
replace_two d e r (c ∷ c' ∷ s) = elim (c == d && c' == e) [
  | true ↦ r ++ replace_two d e r s
  | false ↦ c ∷ replace_two d e r (c' ∷ s)
]

-- `str::to_ascii_uppercase`
unfoldable pub to_ascii_uppercase : Text → Text
to_ascii_uppercase [] = []
to_ascii_uppercase (c ∷ s) = (if leb b'a' c && leb c b'z' then c - 32 else c) ∷ to_ascii_uppercase s

-- `u32::from_str` of ASCII digits, with no sign and too few of them to overflow.
unfoldable pub digits_value : ℕ → Text → ℕ
digits_value n [] = n
digits_value n (c ∷ s) = digits_value (n * 10 + (c - b'0')) s
