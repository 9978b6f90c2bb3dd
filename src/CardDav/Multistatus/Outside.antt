-- ===== src/CardDav/Multistatus/Outside.antt =====
-- How the machine of src/carddav_client.rs passes over the nodes outside of the responses.
use carddav_mcp.Base.{
  false, List, [], ◌∷◌, ◌++◌, Option, none, String, ◌≡◌, refl, ap, ◌∙◌, map, Result, Bool-cases,
  inl, inr,
}
use carddav_mcp.Base.Str.{Text, codes, same}
use carddav_mcp.CardDav.Multistatus.{
  ParsedDavResponse, Event, empty_element, start, end_tag, Loop, closes_capture, on_start, on_end,
  handle, run_events,
}
use carddav_mcp.CardDav.Multistatus.Written.{
  Piece, plain, in_cdata, character, entity, comment, piece_event, Property, display_name, ctag,
  etag, address_data, property_name, Link, link_name, gaps, Node, value, link, empty, gap, remark,
  element, Nodes, nil, cons, node_events, nodes_events,
}
use carddav_mcp.CardDav.Multistatus.Inside.{link_name-IsPlain}

module _ (resolve : Text → Option Text) (unsupported : Text → String) where
  abbrev pub loop_out : List Text → List ParsedDavResponse → Loop
  loop_out stack output = record { stack = stack; current = none; capture = none; output = output }

  start_outside :
      (name : Text) (stack : List Text) (output : List ParsedDavResponse)
      → same name (codes "response") ≡ false
      → on_start name (loop_out stack output) ≡ loop_out (name ∷ stack) output
  unfolding on_start
  start_outside name stack output h = rw h refl

  end_outside :
      (name : Text) (stack : List Text) (output : List ParsedDavResponse)
      → same name (codes "response") ≡ false
      → on_end name (loop_out (name ∷ stack) output) ≡ loop_out stack output
  unfolding on_end
  end_outside name stack output h = elim (Bool-cases (closes_capture name)) [
    | inl closes ↦ rw (closes, h) refl
    | inr not_captured ↦ rw (not_captured, h) refl
  ]

  run_pieces_outside :
      (ps : List (Piece resolve)) (rest : List Event) (stack : List Text)
      (output : List ParsedDavResponse)
      → run_events resolve unsupported
          (map (piece_event resolve) ps ++ rest)
          (loop_out stack output)
        ≡ run_events resolve unsupported rest (loop_out stack output)
  unfolding run_events handle
  run_pieces_outside [] rest stack output = refl
  run_pieces_outside (plain t ∷ ps) rest stack output = run_pieces_outside ps rest stack output
  run_pieces_outside (in_cdata t ∷ ps) rest stack output = run_pieces_outside ps rest stack output
  run_pieces_outside (character t ∷ ps) rest stack output = run_pieces_outside ps rest stack output
  run_pieces_outside (entity name t e ∷ ps) rest stack output =
      run_pieces_outside ps rest stack output
  run_pieces_outside (comment ∷ ps) rest stack output = run_pieces_outside ps rest stack output

  run_gaps_outside :
      (rs : List (Result String Text)) (rest : List Event) (stack : List Text)
      (output : List ParsedDavResponse)
      → run_events resolve unsupported (gaps rs rest) (loop_out stack output)
        ≡ run_events resolve unsupported rest (loop_out stack output)
  unfolding run_events handle
  run_gaps_outside [] rest stack output = refl
  run_gaps_outside (r ∷ rs) rest stack output = run_gaps_outside rs rest stack output

  -- An element around what is passed over.
  pub run_around_outside :
      (name : Text) (inside : List Event) (rest : List Event) (stack : List Text)
      (output output' : List ParsedDavResponse)
      → same name (codes "response") ≡ false
      → run_events resolve unsupported inside (loop_out (name ∷ stack) output)
        ≡ run_events resolve unsupported (end_tag name ∷ rest) (loop_out (name ∷ stack) output')
      → run_events resolve unsupported (start name ∷ inside) (loop_out stack output)
        ≡ run_events resolve unsupported rest (loop_out stack output')
  unfolding run_events handle
  run_around_outside name inside rest stack output output' no_response e =
      ap (run_events resolve unsupported inside) (start_outside name stack output no_response)
      ∙ (e ∙ ap (run_events resolve unsupported rest) (end_outside name stack output' no_response))

  run_text_outside :
      (name : Text) (ps : List (Piece resolve)) (rest : List Event) (stack : List Text)
      (output : List ParsedDavResponse)
      → same name (codes "response") ≡ false
      → run_events resolve unsupported
          (start name ∷ (map (piece_event resolve) ps ++ end_tag name ∷ rest))
          (loop_out stack output)
        ≡ run_events resolve unsupported rest (loop_out stack output)
  run_text_outside name ps rest stack output no_response =
      run_around_outside name (map (piece_event resolve) ps ++ end_tag name ∷ rest) rest stack
        output output no_response
        (run_pieces_outside ps (end_tag name ∷ rest) (name ∷ stack) output)

  property_name-no_response : (p : Property) → same (property_name p) (codes "response") ≡ false
  unfolding same
  property_name-no_response display_name = refl
  property_name-no_response ctag = refl
  property_name-no_response etag = refl
  property_name-no_response address_data = refl

  run_link_outside :
      (l : Link) (before : List (Result String Text)) (ps : List (Piece resolve))
      (after : List (Result String Text)) (rest : List Event) (stack : List Text)
      (output : List ParsedDavResponse)
      → run_events resolve unsupported
          (node_events resolve (link l before ps after) rest)
          (loop_out stack output)
        ≡ run_events resolve unsupported rest (loop_out stack output)
  unfolding node_events same
  run_link_outside l before ps after rest stack output =
      let closing = gaps after (end_tag (link_name l) ∷ rest) in
      run_around_outside (link_name l)
        (gaps before (
          start (codes "href")
          ∷ (map (piece_event resolve) ps ++ end_tag (codes "href") ∷ closing)))
        rest stack output output ((link_name-IsPlain resolve unsupported l).no_response)
        (run_gaps_outside before _ (link_name l ∷ stack) output
          ∙ (run_text_outside (codes "href") ps closing (link_name l ∷ stack) output refl
              ∙ run_gaps_outside after _ (link_name l ∷ stack) output))

  pass_empty :
      (name : Text) (rest : List Event) (stack : List Text) (output : List ParsedDavResponse)
      → run_events resolve unsupported (empty_element name ∷ rest) (loop_out stack output)
        ≡ run_events resolve unsupported rest (loop_out stack output)
  unfolding run_events handle
  pass_empty name rest stack output = elim (Bool-cases (same name (codes "addressbook"))) [
    | inl book ↦ rw book refl
    | inr no_book ↦ rw no_book refl
  ]

  mutual
    unfolding node_events run_events handle

    pub pass_node :
        (n : Node resolve) (rest : List Event) (stack : List Text) (output : List ParsedDavResponse)
        → run_events resolve unsupported (node_events resolve n rest) (loop_out stack output)
          ≡ run_events resolve unsupported rest (loop_out stack output)
    pass_node (value p ps) rest stack output =
        run_text_outside (property_name p) ps rest stack output (property_name-no_response p)
    pass_node (link l before ps after) rest stack output =
        run_link_outside l before ps after rest stack output
    pass_node (empty name) rest stack output = pass_empty name rest stack output
    pass_node (gap r) rest stack output = refl
    pass_node remark rest stack output = refl
    pass_node (element name plain_name ns) rest stack output =
        run_around_outside name (nodes_events resolve ns (end_tag name ∷ rest)) rest stack output
          output plain_name.no_response (pass_nodes ns (end_tag name ∷ rest) (name ∷ stack) output)

    pub pass_nodes :
        (ns : Nodes resolve) (rest : List Event) (stack : List Text)
        (output : List ParsedDavResponse)
        → run_events resolve unsupported (nodes_events resolve ns rest) (loop_out stack output)
          ≡ run_events resolve unsupported rest (loop_out stack output)
    pass_nodes nil rest stack output = refl
    pass_nodes (cons n ns) rest stack output =
        pass_node n (nodes_events resolve ns rest) stack output ∙ pass_nodes ns rest stack output
