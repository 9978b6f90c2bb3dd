-- ===== src/Vcard/Fold.antt =====
-- `fold_vcard_line` of src/mcp.rs: lines of more than 75 bytes go on behind CR LF and a space.
use mathlib.Core.List.{flatten}
use carddav_mcp.Base.{
  ℕ, zero, suc, ◌+◌, ◌≤◌, ◌<◌, ◌≡◌, refl, arith, Bool, true, false, List, [], ◌∷◌, ◌++◌,
  append_assoc, append-nil, leb, if◌then◌else◌, All, min, Bool-cases, inl, inr, sym, ap, ◌∙◌,
  leb→le, leb_false→lt,
}
use carddav_mcp.Base.Str.{Text, len, len_utf8, is_char_boundary, slice_to, slice_from}
use carddav_mcp.Base.Str.Bytes.{
  len_utf8_bounds, len_pos, is_char_boundary-zero, is_char_boundary-first, len-slice_to,
  len-slice_from, slice_to-append-slice_from,
}
use carddav_mcp.Vcard.Escape.{cr, lf}

abbrev pub crlf_space : Text
crlf_space = cr ∷ lf ∷ b' ' ∷ []

-- `while !remaining.is_char_boundary(split) { split -= 1; }`
floor_boundary : Text → ℕ → ℕ
floor_boundary remaining zero = zero
floor_boundary remaining (suc n) =
    let lower = floor_boundary remaining n in
    if is_char_boundary remaining (suc n) then suc n else lower

abbrev limit : Bool → ℕ
limit first = if first then 75 else 74

-- `remaining.len().min(max)`, moved down to a boundary.
split_at : Text → Bool → ℕ
unfolding floor_boundary
split_at remaining first = floor_boundary remaining (min (len remaining) (limit first))

-- The `while` loop on fuel; each round takes one byte or more off `remaining`.
fold_loop : ℕ → Text → Bool → Text → Text
fold_loop zero remaining first output = output
fold_loop (suc fuel) [] first output = output
fold_loop (suc fuel) (c ∷ s) first output =
    let split = split_at (c ∷ s) first in
    fold_loop fuel (slice_from (c ∷ s) split) false
      ((if first then output else output ++ crlf_space) ++ slice_to (c ∷ s) split)

unfoldable pub fold_vcard_line : Text → Text
unfolding fold_loop split_at
fold_vcard_line line = if leb (len line) 75 then line else fold_loop (len line) line true []

floor_boundary-boundary : (s : Text) (n : ℕ) → is_char_boundary s (floor_boundary s n) ≡ true
unfolding floor_boundary
floor_boundary-boundary s zero = is_char_boundary-zero s
floor_boundary-boundary s (suc n) = ground (arith, floor_boundary-boundary s n)

floor_boundary-le : (s : Text) (n : ℕ) → floor_boundary s n ≤ n
unfolding floor_boundary
floor_boundary-le s zero = omega arith
floor_boundary-le s (suc n) = ground (arith, floor_boundary-le s n)

-- The search stops at the end of the first character at the latest.
floor_boundary_pos :
    (c : ℕ) (s : Text) (n : ℕ) → len_utf8 c ≤ n → len_utf8 c ≤ floor_boundary (c ∷ s) n
unfolding floor_boundary
floor_boundary_pos c s zero h = omega arith
floor_boundary_pos c s (suc n) h = elim (Bool-cases (is_char_boundary (c ∷ s) (suc n))) [
  | inl e ↦ rw e h
  | inr e ↦ rw e (floor_boundary_pos c s n (ground (arith, is_char_boundary-first c s)))
]

split_at-boundary : (s : Text) (first : Bool) → is_char_boundary s (split_at s first) ≡ true
unfolding split_at
split_at-boundary s first = floor_boundary-boundary s _

split_at-le : (s : Text) (first : Bool) → split_at s first ≤ limit first
unfolding split_at
split_at-le s first = omega (arith, floor_boundary-le s (min (len s) (limit first)))

limit-ge : (first : Bool) → 4 ≤ limit first
limit-ge true = omega arith
limit-ge false = omega arith

split_at_pos : (c : ℕ) (s : Text) (first : Bool) → 1 ≤ split_at (c ∷ s) first
unfolding split_at len
split_at_pos c s first = omega (
  arith,
  len_utf8_bounds c,
  limit-ge first,
  floor_boundary_pos c s (min (len_utf8 c + len s) (limit first))
      (omega (arith, len_utf8_bounds c, limit-ge first)),
)

-- The pieces behind the first one, each behind a line break and a space.
unfoldable pub continued : List Text → Text
continued [] = []
continued (p ∷ ps) = crlf_space ++ (p ++ continued ps)

abbrev pub Fits : ℕ → Text → Type 0
Fits max piece = (1 ≤ len piece) × (len piece ≤ max)

-- What the loop adds to its output, and that it has used up `remaining`.
record Pieces (remaining output result : Text) : Type 0 where
  pieces : List Text
  result_is : result ≡ output ++ continued pieces
  content : flatten pieces ≡ remaining
  all_fit : All (Fits 74) pieces

slice_to-Fits :
    (c : ℕ) (s : Text) (first : Bool)
    → Fits (limit first) (slice_to (c ∷ s) (split_at (c ∷ s) first))
slice_to-Fits c s first = omega (
  arith,
  len-slice_to (c ∷ s) (split_at (c ∷ s) first) (split_at-boundary (c ∷ s) first),
  split_at_pos c s first,
  split_at-le (c ∷ s) first,
)

-- Each round leaves less to do.
len-slice_from-lt :
    (c : ℕ) (s : Text) (first : Bool)
    → len (slice_from (c ∷ s) (split_at (c ∷ s) first)) < len (c ∷ s)
len-slice_from-lt c s first = omega (
  arith,
  len-slice_from (c ∷ s) (split_at (c ∷ s) first) (split_at-boundary (c ∷ s) first),
  split_at_pos c s first,
)

-- One round: the piece in front of what the rest of the loop writes.
Pieces-round :
    (s output result : Text) (n : ℕ)
    → Fits 74 (slice_to s n)
    → Pieces (slice_from s n) ((output ++ crlf_space) ++ slice_to s n) result
    → Pieces s output result
unfolding continued flatten
Pieces-round s output result n fits rest = record {
  pieces = slice_to s n ∷ rest.pieces;
  result_is =
      rest.result_is
      ∙ (append_assoc (output ++ crlf_space) (slice_to s n) (continued rest.pieces)
          ∙ append_assoc output crlf_space (slice_to s n ++ continued rest.pieces));
  content = ap (◌++◌ (slice_to s n)) rest.content ∙ slice_to-append-slice_from s n;
  all_fit = (fits, rest.all_fit);
}

Pieces-done : (output : Text) → Pieces [] output output
unfolding continued flatten
Pieces-done output = record {
  pieces = [];
  result_is = sym (append-nil output);
  content = refl;
  all_fit = tt;
}

fold_loop-Pieces :
    (fuel : ℕ) (remaining output : Text)
    → len remaining ≤ fuel
    → Pieces remaining output (fold_loop fuel remaining false output)
unfolding fold_loop
fold_loop-Pieces zero [] output h = Pieces-done output
fold_loop-Pieces zero (c ∷ s) output h = absurd (omega (arith, len_pos c s))
fold_loop-Pieces (suc fuel) [] output h = Pieces-done output
fold_loop-Pieces (suc fuel) (c ∷ s) output h =
    Pieces-round (c ∷ s) output _ _ (slice_to-Fits c s false) (
      fold_loop-Pieces fuel (slice_from (c ∷ s) (split_at (c ∷ s) false)) _
        (omega (arith, len-slice_from-lt c s false)))

-- A line as it is written: a first piece of at most 75 bytes, and further pieces of at most 74
-- behind a space, which together are the line.
pub record IsFolding (line written : Text) : Type 0 where
  pub first : Text
  pub later : List Text
  pub written_is : written ≡ first ++ continued later
  pub content : first ++ flatten later ≡ line
  pub first_fits : len first ≤ 75
  pub later_fit : All (Fits 74) later

IsFolding-short : (line : Text) → len line ≤ 75 → IsFolding line line
unfolding continued flatten
IsFolding-short line h = record {
  first = line;
  later = [];
  written_is = sym (append-nil line);
  content = append-nil line;
  first_fits = h;
  later_fit = tt;
}

-- The first round writes no break; the others are those of `fold_loop-Pieces`.
IsFolding-long :
    (fuel : ℕ) (line : Text)
    → len line ≤ fuel
    → 75 < len line
    → IsFolding line (fold_loop fuel line true [])
unfolding fold_loop
IsFolding-long zero line h long = absurd (omega arith)
IsFolding-long (suc fuel) [] h long = absurd (unfold len in omega arith)
IsFolding-long (suc fuel) (c ∷ s) h long =
    let split = split_at (c ∷ s) true in
    let rest =
      fold_loop-Pieces fuel (slice_from (c ∷ s) split) (slice_to (c ∷ s) split)
        (omega (arith, len-slice_from-lt c s true)) in
    record {
      first = slice_to (c ∷ s) split;
      later = rest.pieces;
      written_is = rest.result_is;
      content =
          ap (◌++◌ (slice_to (c ∷ s) split)) rest.content
          ∙ slice_to-append-slice_from (c ∷ s) split;
      first_fits = (slice_to-Fits c s true).1;
      later_fit = rest.all_fit;
    }

-- A folded line is the line cut into pieces with a line break and a space between them: the
-- first piece has at most 75 bytes, a later one from 1 to 74.
pub fold_vcard_line-IsFolding : (line : Text) → IsFolding line (fold_vcard_line line)
unfolding fold_vcard_line
fold_vcard_line-IsFolding line = elim (Bool-cases (leb (len line) 75)) [
  | inl short ↦ rw short (IsFolding-short line (leb→le _ _ short))
  | inr long ↦ rw long (IsFolding-long (len line) line (omega arith) (leb_false→lt _ _ long))
]
