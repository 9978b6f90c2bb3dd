-- ===== src/Base/Str/Bytes.antt =====
-- Laws of lengths, character boundaries and slices.
use carddav_mcp.Base.{ℕ, ◌+◌, ◌-◌, ◌≤◌, ◌≡◌, refl, arith, true, [], ◌∷◌, ◌++◌, ap}
use carddav_mcp.Base.Str.{Text, len_utf8, len, is_char_boundary, slice_to, slice_from}

pub len_utf8_bounds : (c : ℕ) → (1 ≤ len_utf8 c) × (len_utf8 c ≤ 4)
unfolding len_utf8
len_utf8_bounds c = ground arith

pub len-append : (s t : Text) → len (s ++ t) ≡ len s + len t
unfolding len
len-append [] t = omega arith
len-append (c ∷ s) t = omega (arith, len-append s t)

pub len_pos : (c : ℕ) (s : Text) → 1 ≤ len (c ∷ s)
unfolding len
len_pos c s = omega (arith, len_utf8_bounds c)

pub is_char_boundary-zero : (s : Text) → is_char_boundary s 0 ≡ true
unfolding is_char_boundary
is_char_boundary-zero [] = refl
is_char_boundary-zero (c ∷ s) = refl

-- The two slices at an index make up the text.
pub slice_to-append-slice_from : (s : Text) (n : ℕ) → slice_to s n ++ slice_from s n ≡ s
unfolding slice_to slice_from
slice_to-append-slice_from [] n = refl
slice_to-append-slice_from (c ∷ s) n = ground (arith, slice_to-append-slice_from s (n - len_utf8 c))

pub len-slice_to-le : (s : Text) (n : ℕ) → len (slice_to s n) ≤ n
unfolding slice_to len
len-slice_to-le [] n = omega arith
len-slice_to-le (c ∷ s) n = ground (arith, len-slice_to-le s (n - len_utf8 c))

-- At a boundary the first slice has just the bytes asked for.
pub len-slice_to : (s : Text) (n : ℕ) → is_char_boundary s n ≡ true → len (slice_to s n) ≡ n
unfolding slice_to len is_char_boundary
len-slice_to [] n h = ground arith
len-slice_to (c ∷ s) n h = ground (arith, len-slice_to s (n - len_utf8 c), len_utf8_bounds c)

pub len-slice_from :
    (s : Text) (n : ℕ) → is_char_boundary s n ≡ true → len (slice_from s n) + n ≡ len s
len-slice_from s n h = omega (
  arith,
  ap len (slice_to-append-slice_from s n),
  len-append (slice_to s n) (slice_from s n),
  len-slice_to s n h,
)

pub is_char_boundary-first : (c : ℕ) (s : Text) → is_char_boundary (c ∷ s) (len_utf8 c) ≡ true
unfolding is_char_boundary
is_char_boundary-first c s = ground (arith, is_char_boundary-zero s)
