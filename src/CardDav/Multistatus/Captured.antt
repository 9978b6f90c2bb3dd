-- ===== src/CardDav/Multistatus/Captured.antt =====
-- How the machine of src/carddav_client.rs takes single elements of a response.
use carddav_mcp.Base.{
  true, false, List, [], ◌∷◌, ◌++◌, Option, none, some, String, ◌≡◌, refl, ap, ◌∙◌, map, Result,
  Bool-cases, inl, inr,
}
use carddav_mcp.Base.Str.{Text, codes, same}
use carddav_mcp.CardDav.Multistatus.{
  ParsedDavResponse, Capture, Event, start, end_tag, append_capture, Loop, start_capture,
  closes_capture, on_start, on_end, handle, run_events,
}
use carddav_mcp.CardDav.Multistatus.Written.{
  Piece, plain, in_cdata, character, entity, comment, piece_event, content_of, add_to,
  add_to-append_capture, add_to-none, IsPlain, mark, gaps,
}

module _ (resolve : Text → Option Text) (unsupported : Text → String) where
  abbrev pub loop_in :
      List Text → ParsedDavResponse → Option Capture → List ParsedDavResponse → Loop
  loop_in stack item capture output = record {
    stack = stack;
    current = some item;
    capture = capture;
    output = output;
  }

  run_pieces :
      (ps : List (Piece resolve)) (rest : List Event) (stack : List Text) (item : ParsedDavResponse)
      (k : Capture) (output : List ParsedDavResponse)
      → run_events resolve unsupported
          (map (piece_event resolve) ps ++ rest)
          (loop_in stack item (some k) output)
        ≡ run_events resolve unsupported rest
            (loop_in stack (add_to k (content_of resolve ps) item) (some k) output)
  unfolding run_events handle
  run_pieces [] rest stack item k output = rw (add_to-none k item)
  run_pieces (plain t ∷ ps) rest stack item k output =
      run_pieces ps rest stack (append_capture item k t) k output
      ∙ rw (add_to-append_capture k item t (content_of resolve ps))
  run_pieces (in_cdata t ∷ ps) rest stack item k output =
      run_pieces ps rest stack (append_capture item k t) k output
      ∙ rw (add_to-append_capture k item t (content_of resolve ps))
  run_pieces (character t ∷ ps) rest stack item k output =
      run_pieces ps rest stack (append_capture item k t) k output
      ∙ rw (add_to-append_capture k item t (content_of resolve ps))
  run_pieces (entity name t e ∷ ps) rest stack item k output = rw (
    e,
    run_pieces ps rest stack (append_capture item k t) k output,
    add_to-append_capture k item t (content_of resolve ps),
  )
  run_pieces (comment ∷ ps) rest stack item k output = run_pieces ps rest stack item k output

  start_opens :
      (name : Text) (k : Capture) (stack : List Text) (item : ParsedDavResponse)
      (output : List ParsedDavResponse)
      → start_capture name stack none ≡ some k
      → same name (codes "response") ≡ false
      → same name (codes "addressbook") ≡ false
      → on_start name (loop_in stack item none output) ≡ loop_in (name ∷ stack) item (some k) output
  unfolding on_start
  start_opens name k stack item output opens other_name not_book = rw (other_name, opens, not_book)

  end_closes :
      (name : Text) (k : Capture) (stack : List Text) (item : ParsedDavResponse)
      (output : List ParsedDavResponse)
      → closes_capture name ≡ true
      → same name (codes "response") ≡ false
      → on_end name (loop_in (name ∷ stack) item (some k) output) ≡ loop_in stack item none output
  unfolding on_end
  end_closes name k stack item output closes other_name = rw (closes, other_name)

  -- A captured element, by its name.
  pub run_captured :
      (name : Text) (k : Capture) (ps : List (Piece resolve)) (rest : List Event)
      (stack : List Text) (item : ParsedDavResponse) (output : List ParsedDavResponse)
      → start_capture name stack none ≡ some k
      → closes_capture name ≡ true
      → same name (codes "response") ≡ false
      → same name (codes "addressbook") ≡ false
      → run_events resolve unsupported
          (start name ∷ (map (piece_event resolve) ps ++ end_tag name ∷ rest))
          (loop_in stack item none output)
        ≡ run_events resolve unsupported rest
            (loop_in stack (add_to k (content_of resolve ps) item) none output)
  unfolding run_events handle
  run_captured name k ps rest stack item output opens closes other_name not_book =
      let item' = add_to k (content_of resolve ps) item in
      ap (run_events resolve unsupported (map (piece_event resolve) ps ++ end_tag name ∷ rest))
        (start_opens name k stack item output opens other_name not_book)
      ∙ (run_pieces ps (end_tag name ∷ rest) (name ∷ stack) item k output
          ∙ ap (run_events resolve unsupported rest)
              (end_closes name k stack item' output closes other_name))

  -- Pieces that nothing captures.
  pub run_uncaptured :
      (ps : List (Piece resolve)) (rest : List Event) (stack : List Text) (item : ParsedDavResponse)
      (output : List ParsedDavResponse)
      → run_events resolve unsupported
          (map (piece_event resolve) ps ++ rest)
          (loop_in stack item none output)
        ≡ run_events resolve unsupported rest (loop_in stack item none output)
  unfolding run_events handle
  run_uncaptured [] rest stack item output = refl
  run_uncaptured (plain t ∷ ps) rest stack item output = run_uncaptured ps rest stack item output
  run_uncaptured (in_cdata t ∷ ps) rest stack item output = run_uncaptured ps rest stack item output
  run_uncaptured (character t ∷ ps) rest stack item output =
      run_uncaptured ps rest stack item output
  run_uncaptured (entity name t e ∷ ps) rest stack item output =
      run_uncaptured ps rest stack item output
  run_uncaptured (comment ∷ ps) rest stack item output = run_uncaptured ps rest stack item output

  pub run_gaps :
      (rs : List (Result String Text)) (rest : List Event) (stack : List Text)
      (item : ParsedDavResponse) (output : List ParsedDavResponse)
      → run_events resolve unsupported (gaps rs rest) (loop_in stack item none output)
        ≡ run_events resolve unsupported rest (loop_in stack item none output)
  unfolding run_events handle
  run_gaps [] rest stack item output = refl
  run_gaps (r ∷ rs) rest stack item output = run_gaps rs rest stack item output

  pub start_capture-none :
      (name : Text) (stack : List Text) → IsPlain name → start_capture name stack none ≡ none
  unfolding start_capture
  start_capture-none name stack h =
      rw (h.no_href, h.no_display_name, h.no_ctag, h.no_etag, h.no_address_data) refl

  pub start_plain :
      (name : Text) (stack : List Text) (item : ParsedDavResponse) (output : List ParsedDavResponse)
      → IsPlain name
      → on_start name (loop_in stack item none output)
        ≡ loop_in (name ∷ stack) (mark name item) none output
  unfolding on_start
  start_plain name stack item output h = elim (Bool-cases (same name (codes "addressbook"))) [
    | inl book ↦ rw (h.no_response, start_capture-none name stack h, book) refl
    | inr no_book ↦ rw (h.no_response, start_capture-none name stack h, no_book) refl
  ]

  pub end_plain :
      (name : Text) (stack : List Text) (item : ParsedDavResponse) (output : List ParsedDavResponse)
      → same name (codes "response") ≡ false
      → on_end name (loop_in (name ∷ stack) item none output) ≡ loop_in stack item none output
  unfolding on_end
  end_plain name stack item output h = elim (Bool-cases (closes_capture name)) [
    | inl closes ↦ rw (closes, h) refl
    | inr not_captured ↦ rw (not_captured, h) refl
  ]
