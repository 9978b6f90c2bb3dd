-- ===== src/Base/Str/Pieces.antt =====
-- Laws of splitting, replacing and trimming where a separator is absent.
use carddav_mcp.Base.{
  ℕ, ◌≡◌, ◌≢◌, ◌↔◌, refl, ap, arith, Bool, true, false, List, [], ◌∷◌, ◌++◌, All, Bool-cases, inl,
  inr,
}
use carddav_mcp.Base.Str.{
  same, prepend, Text, len_utf8, slice_from, trim_end_matches, split, replace_two, first_piece,
}
use carddav_mcp.Base.Str.Bytes.{len_utf8_bounds}

pub slice_from-zero : (s : Text) → slice_from s 0 ≡ s
unfolding slice_from
slice_from-zero [] = refl
slice_from-zero (c ∷ s) = ground (arith, len_utf8_bounds c)

-- `&s[1..]` behind an ASCII character.
pub slice_from-one : (c : ℕ) (s : Text) → len_utf8 c ≡ 1 → slice_from (c ∷ s) 1 ≡ s
unfolding slice_from
slice_from-one c s h = ground (arith, slice_from-zero s)

-- A text up to the first separator, and the pieces behind it.
pub split_at_separator :
    (p : ℕ → Bool) (s : Text) (d : ℕ) (rest : Text)
    → All (λ c. p c ≡ false) s
    → p d ≡ true
    → split p (s ++ d ∷ rest) ≡ s ∷ split p rest
unfolding split
split_at_separator p [] d rest h hd = rw hd
split_at_separator p (c ∷ s) d rest h hd = rw (h.0, split_at_separator p s d rest h.1 hd)

pub split_no_separator : (p : ℕ → Bool) (s : Text) → All (λ c. p c ≡ false) s → split p s ≡ s ∷ []
unfolding split
split_no_separator p [] h = refl
split_no_separator p (c ∷ s) h = rw (h.0, split_no_separator p s h.1)

pub replace_two-skip :
    (d e : ℕ) (r s rest : Text)
    → All (λ c. c ≢ d) s
    → replace_two d e r (s ++ rest) ≡ s ++ replace_two d e r rest
unfolding replace_two
replace_two-skip d e r [] rest h = refl
replace_two-skip d e r (c ∷ []) [] h = refl
replace_two-skip d e r (c ∷ []) (b ∷ rest) h = ground arith
replace_two-skip d e r (c ∷ b ∷ s) rest h = ground (arith, replace_two-skip d e r (b ∷ s) rest h.1)

pub replace_two-found :
    (d e : ℕ) (r rest : Text) → replace_two d e r (d ∷ e ∷ rest) ≡ r ++ replace_two d e r rest
unfolding replace_two
replace_two-found d e r rest = ground arith

pub trim_end_matches-id :
    (p : ℕ → Bool) (s : Text) → All (λ c. p c ≡ false) s → trim_end_matches p s ≡ s
unfolding trim_end_matches
trim_end_matches-id p [] h = refl
trim_end_matches-id p (c ∷ s) h = rw (h.0, trim_end_matches-id p s h.1)

pub first_piece-lem_found :
    (p : ℕ → Bool) (s : Text) (d : ℕ) (rest : Text)
    → All (λ c. p c ≡ false) s
    → p d ≡ true
    → first_piece p (s ++ d ∷ rest) ≡ s
unfolding first_piece
first_piece-lem_found p [] d rest h hd = rw hd
first_piece-lem_found p (c ∷ s) d rest h hd = rw (h.0, first_piece-lem_found p s d rest h.1 hd)

-- The first piece of a split is what stands before the first separator.
pub split-first_piece :
    (p : ℕ → Bool) (s : Text) → (later : List Text) × (split p s ≡ first_piece p s ∷ later)
unfolding split first_piece
split-first_piece p [] = ([], refl)
split-first_piece p (c ∷ s) = elim (Bool-cases (p c)) [
  | inl e ↦ (split p s, rw e)
  | inr e ↦ let (later, h) = split-first_piece p s in (later, rw (e, h))
]

prepend-append :
    (c : ℕ) (ss ts : List Text) (s : Text) → prepend c ((s ∷ ss) ++ ts) ≡ prepend c (s ∷ ss) ++ ts
prepend-append c ss ts s = refl

-- A separator splits whatever stands on its two sides.
pub split-append :
    (p : ℕ → Bool) (s : Text) (d : ℕ) (t : Text)
    → p d ≡ true
    → split p (s ++ d ∷ t) ≡ split p s ++ split p t
unfolding split
split-append p [] d t hd = rw hd
split-append p (c ∷ s) d t hd = elim (Bool-cases (p c)) [
  | inl e ↦ rw e (ap (◌∷◌ []) (split-append p s d t hd))
  | inr e ↦ let (later, first) = split-first_piece p s in rw (e, split-append p s d t hd, first)
]

-- `==` of texts decides their equality.
pub same_iff : (s t : Text) → (same s t ≡ true) ↔ (s ≡ t)
unfolding same
same_iff [] [] = ground arith
same_iff [] (d ∷ t) = (λ h. cc, λ h. cc)
same_iff (c ∷ s) [] = (λ h. cc, λ h. cc)
same_iff (c ∷ s) (d ∷ t) = ground (arith, same_iff s t)
