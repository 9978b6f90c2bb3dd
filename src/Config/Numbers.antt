-- ===== src/Config/Numbers.antt =====
-- `str::parse` of an unsigned integer with a greatest value: ASCII digits, with an optional plus
-- sign, and nothing that overflows.
use carddav_mcp.Base.{
  ℕ, ◌≤◌, ◌≡◌, arith, [], ◌∷◌, Option, none, some, not, ◌||◌, leb, ◌==◌, if◌then◌else◌,
}
use carddav_mcp.Base.Str.{Text, is_empty, is_digit_list, digits_value}

unfoldable parse_digits : ℕ → Text → Option ℕ
parse_digits greatest s =
    if is_empty s || not (is_digit_list s)
    then none
    else if leb (digits_value 0 s) greatest
    then some (digits_value 0 s)
    else none

unfoldable pub parse_unsigned : ℕ → Text → Option ℕ
unfolding parse_digits
parse_unsigned greatest [] = none
parse_unsigned greatest (c ∷ s) =
    if c == b'+' then parse_digits greatest s else parse_digits greatest (c ∷ s)

pub parse_unsigned-le :
    (greatest : ℕ) (s : Text) (v : ℕ) → parse_unsigned greatest s ≡ some v → v ≤ greatest
unfolding parse_unsigned parse_digits
parse_unsigned-le greatest [] v h = absurd (ground arith)
parse_unsigned-le greatest (c ∷ s) v h = ground arith
