-- ===== src/Vcard/Lines.antt =====
-- The lines of a card as src/mcp.rs writes them (the last loop of `build_vcard`) and reads them
-- back (`unfold_vcard_lines`).
use mathlib.Core.List.{flatten}
use carddav_mcp.Base.{
  ◌≡◌, refl, arith, Bool, false, ◌||◌, List, [], ◌∷◌, ◌++◌, append_assoc, append-nil, ◌==◌,
  if◌then◌else◌, All, All-append_left, All-append_right, All-mono, map, sym, ap, ◌∙◌, fold,
  fold-append, ==_false,
}
use carddav_mcp.Base.Str.{Text, slice_from, len_utf8, trim_end_matches, split, replace_two}
use carddav_mcp.Base.Str.Pieces.{
  slice_from-one, split_at_separator, replace_two-skip, replace_two-found, trim_end_matches-id,
}
use carddav_mcp.Vcard.Escape.{cr, lf, IsOneLine}
use carddav_mcp.Vcard.Fold.{fold_vcard_line, continued, fold_vcard_line-IsFolding}

abbrev pub crlf : Text
crlf = cr ∷ lf ∷ []

-- `for line in lines { vcard.push_str(&fold_vcard_line(&line)); vcard.push_str("\r\n"); }`
unfoldable pub write_lines : List Text → Text
unfolding fold
write_lines = fold (λ vcard line. (vcard ++ fold_vcard_line line) ++ crlf) []

abbrev pub starts_blank : Text → Bool
starts_blank [] = false
starts_blank (c ∷ s) = c == b' ' || c == 9

-- `if let Some(previous) = lines.last_mut() { previous.push_str(text); }`
push_last : List Text → Text → List Text
push_last [] text = []
push_last (l ∷ []) text = (l ++ text) ∷ []
push_last (l ∷ m ∷ ls) text = l ∷ push_last (m ∷ ls) text

unfold_step : List Text → Text → List Text
unfolding push_last
unfold_step lines raw =
    if starts_blank raw
    then push_last lines (slice_from raw 1)
    else lines ++ trim_end_matches (λ c. c == cr) raw ∷ []

-- `vcard.replace("\r\n", "\n").split('\n')`
unfoldable pub raw_lines : Text → List Text
unfolding split replace_two
raw_lines vcard = split (λ c. c == lf) (replace_two cr lf (lf ∷ []) vcard)

unfoldable pub unfold_vcard_lines : Text → List Text
unfolding unfold_step raw_lines fold split replace_two slice_from trim_end_matches
unfold_vcard_lines vcard = fold unfold_step [] (raw_lines vcard)

raw_lines_cons :
    (s rest : Text) → IsOneLine s → raw_lines ((s ++ crlf) ++ rest) ≡ s ∷ raw_lines rest
unfolding raw_lines
raw_lines_cons s rest h =
    rw
      (
        append_assoc s crlf rest,
        replace_two-skip cr lf (lf ∷ []) s (crlf ++ rest) (All-mono _ _ (λ c k. k.0) s h),
        replace_two-found cr lf (lf ∷ []) rest,
      )
      (split_at_separator (λ c. c == lf) s lf _ (All-mono _ _ (λ c k. ==_false c lf k.1) s h) refl)

-- The physical lines of a folded line.
abbrev pub physical : Text → List Text → List Text
physical first later = first ∷ map (λ p. b' ' ∷ p) later

pub raw_lines-continued :
    (first : Text) (later : List Text) (rest : Text)
    → IsOneLine first
    → IsOneLine (flatten later)
    → raw_lines (((first ++ continued later) ++ crlf) ++ rest)
      ≡ physical first later ++ raw_lines rest
unfolding continued flatten
raw_lines-continued first [] rest h hs = rw append-nil (raw_lines_cons first rest h)
raw_lines-continued first (p ∷ ps) rest h hs =
    let here = All-append_left _ p (flatten ps) hs in
    let below = All-append_right _ p (flatten ps) hs in
    ap raw_lines (simp append_assoc)
    ∙ raw_lines_cons first _ h
    ∙ ap (◌∷◌ first) (
        raw_lines-continued (b' ' ∷ p) ps rest
          (((λ e. absurd (omega (arith, e))), (λ e. absurd (omega (arith, e)))), here) below)

push_last-append :
    (lines : List Text) (l text : Text)
    → push_last (lines ++ l ∷ []) text ≡ lines ++ (l ++ text) ∷ []
unfolding push_last
push_last-append [] l text = refl
push_last-append (k ∷ []) l text = refl
push_last-append (k ∷ m ∷ ls) l text = ap (◌∷◌ k) (push_last-append (m ∷ ls) l text)

unfold_step-blank :
    (lines : List Text) (p : Text) → unfold_step lines (b' ' ∷ p) ≡ push_last lines p
unfolding unfold_step
unfold_step-blank lines p = rw (slice_from-one b' ' p (unfold len_utf8 in refl))

fold-continued :
    (lines : List Text) (l : Text) (later : List Text)
    → fold unfold_step (lines ++ l ∷ []) (map (λ p. b' ' ∷ p) later)
      ≡ lines ++ (l ++ flatten later) ∷ []
unfolding fold flatten
fold-continued lines l [] = rw append-nil
fold-continued lines l (p ∷ ps) =
    ap (λ t. fold unfold_step t (map (λ p. b' ' ∷ p) ps))
      (unfold_step-blank (lines ++ l ∷ []) p ∙ push_last-append lines l p)
    ∙ fold-continued lines (l ++ p) ps
    ∙ ap (λ t. lines ++ t ∷ []) (append_assoc l p (flatten ps))

-- A line that can stand in a card: no line break, and it does not begin with a blank.
abbrev pub IsLogical : Text → Type 0
IsLogical l = IsOneLine l × (starts_blank l ≡ false)

starts_blank-left : (s t : Text) → starts_blank (s ++ t) ≡ false → starts_blank s ≡ false
starts_blank-left [] t h = refl
starts_blank-left (c ∷ s) t h = h

unfold_step-plain :
    (lines : List Text) (l : Text) → IsLogical l → unfold_step lines l ≡ lines ++ l ∷ []
unfolding unfold_step
unfold_step-plain lines l h =
    let kept =
      trim_end_matches-id (λ c. c == cr) l (All-mono _ _ (λ c k. ==_false c cr k.0) l h.0) in
    ground (arith, kept, h.1)

-- A folded line is read back as the line.
fold-physical :
    (lines : List Text) (first : Text) (later : List Text)
    → IsLogical (first ++ flatten later)
    → fold unfold_step lines (physical first later) ≡ lines ++ (first ++ flatten later) ∷ []
unfolding fold
fold-physical lines first later h =
    ap (λ t. fold unfold_step t (map (λ p. b' ' ∷ p) later))
      (unfold_step-plain lines first (All-append_left _ first _ h.0, starts_blank-left first _ h.1))
    ∙ fold-continued lines first later

-- What the lines are, one behind the other.
unfoldable pub written : List Text → Text
written [] = []
written (l ∷ ls) = (fold_vcard_line l ++ crlf) ++ written ls

fold-write :
    (vcard : Text) (ls : List Text)
    → fold (λ v line. (v ++ fold_vcard_line line) ++ crlf) vcard ls ≡ vcard ++ written ls
unfolding fold written
fold-write vcard [] = sym (append-nil vcard)
fold-write vcard (l ∷ ls) = fold-write ((vcard ++ fold_vcard_line l) ++ crlf) ls ∙ simp append_assoc

pub write_lines-written : (lines : List Text) → write_lines lines ≡ written lines
unfolding write_lines
write_lines-written lines = fold-write [] lines

fold-written :
    (done lines : List Text)
    → All IsLogical lines
    → fold unfold_step done (raw_lines (written lines)) ≡ done ++ (lines ++ [] ∷ [])
unfolding written
fold-written done [] h =
    unfold fold unfold_step raw_lines split replace_two trim_end_matches in refl
fold-written done (l ∷ ls) h =
    let f = fold_vcard_line-IsFolding l in
    let logical : IsLogical (f.first ++ flatten f.later) = rw f.content h.0 in
    ap (λ t. fold unfold_step done (raw_lines ((t ++ crlf) ++ written ls))) f.written_is
    ∙ ap (fold unfold_step done) (
        raw_lines-continued f.first f.later (written ls) (All-append_left _ f.first _ logical.0)
          (All-append_right _ f.first _ logical.0))
    ∙ fold-append unfold_step done (physical f.first f.later) (raw_lines (written ls))
    ∙ ap (λ t. fold unfold_step t (raw_lines (written ls)))
        (fold-physical done f.first f.later logical ∙ ap (λ t. done ++ t ∷ []) f.content)
    ∙ fold-written (done ++ l ∷ []) ls h.1
    ∙ append_assoc done (l ∷ []) (ls ++ [] ∷ [])

-- Lines without line breaks that do not begin with a blank are read back by
-- `unfold_vcard_lines` as they were, however they were folded; the line break behind the last
-- one gives an empty line at the end.
pub unfold_vcard_lines-write_lines :
    (lines : List Text)
    → All IsLogical lines
    → unfold_vcard_lines (write_lines lines) ≡ lines ++ [] ∷ []
unfolding unfold_vcard_lines
unfold_vcard_lines-write_lines lines h =
    ap (λ t. fold unfold_step [] (raw_lines t)) (write_lines-written lines)
    ∙ fold-written [] lines h
