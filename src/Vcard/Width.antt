-- ===== src/Vcard/Width.antt =====
-- How wide the lines are that `build_vcard` of src/mcp.rs writes.
use mathlib.Core.List.{flatten}
use carddav_mcp.Base.{
  ◌≤◌, ◌≡◌, arith, List, [], ◌∷◌, ◌++◌, map, All, All-append, All-append_left, All-append_right, ok,
  ap, ◌∙◌, sym, subst,
}
use carddav_mcp.Base.Str.{Text, len, len_utf8}
use carddav_mcp.Vcard.Fold.{Fits, fold_vcard_line-IsFolding}
use carddav_mcp.Vcard.Lines.{
  IsLogical, raw_lines, raw_lines-continued, physical, written, write_lines-written, crlf,
}
use carddav_mcp.Vcard.Contact.{ContactInput, card_lines, build_vcard}
use carddav_mcp.Vcard.RoundTrip.{build_vcard-Built}
use carddav_mcp.Vcard.RoundTrip.Logical.{card_lines-IsLogical}

abbrev pub FitsLine : Text → Type 0
FitsLine line = len line ≤ 75

later-FitsLine : (ps : List Text) → All (Fits 74) ps → All FitsLine (map (λ p. b' ' ∷ p) ps)
later-FitsLine [] h = tt
later-FitsLine (p ∷ ps) h = (unfold len len_utf8 in omega (arith, h.0.1), later-FitsLine ps h.1)

written-FitsLine :
    (lines : List Text) → All IsLogical lines → All FitsLine (raw_lines (written lines))
unfolding written
written-FitsLine [] h = unfold raw_lines len in (omega arith, tt)
written-FitsLine (l ∷ ls) h =
    let f = fold_vcard_line-IsFolding l in
    let logical : IsLogical (f.first ++ flatten f.later) = rw f.content h.0 in
    let lines_are =
      ap (λ t. raw_lines ((t ++ crlf) ++ written ls)) f.written_is
      ∙ raw_lines-continued f.first f.later (written ls) (All-append_left _ f.first _ logical.0)
          (All-append_right _ f.first _ logical.0) in
    subst (All FitsLine) (sym lines_are) (
      All-append FitsLine (physical f.first f.later) _
        (f.first_fits, later-FitsLine f.later f.later_fit) (written-FitsLine ls h.1))

-- No physical line of a card that is built has more than 75 bytes, whatever the contact holds.
pub build_vcard-FitsLine :
    (c : ContactInput) (uid : Text) {vcard : Text}
    → build_vcard c uid ≡ ok vcard
    → All FitsLine (raw_lines vcard)
build_vcard-FitsLine c uid h =
    let built = build_vcard-Built c uid h in
    subst (λ t. All FitsLine (raw_lines t))
      (sym (built.is_written ∙ write_lines-written (card_lines c uid)))
      (written-FitsLine (card_lines c uid) (card_lines-IsLogical c uid))
