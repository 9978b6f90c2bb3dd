-- ===== src/CardDav/Multistatus/Inside.antt =====
-- How the machine of src/carddav_client.rs takes the nodes of a response.
use carddav_mcp.Base.{
  false, List, ◌∷◌, ◌++◌, Option, none, String, ◌≡◌, refl, ap, ◌∙◌, map, Result, Bool-cases, inl,
  inr,
}
use carddav_mcp.Base.Str.{Text, codes, same}
use carddav_mcp.CardDav.Multistatus.{
  ParsedDavResponse, of_current_principal, of_addressbook_home, of_display_name, of_ctag, of_etag,
  of_address_data, Event, empty_element, start, end_tag, start_capture, closes_capture, on_start,
  on_end, handle, run_events,
}
use carddav_mcp.CardDav.Multistatus.Written.{
  Piece, piece_event, content_of, add_to, IsPlain, Property, display_name, ctag, etag, address_data,
  field_of, Link, principal, home, elsewhere, link_name, add_link, mark, Node, value, link, empty,
  gap, remark, element, Nodes, nil, cons, node_events, nodes_events, read_node, read_nodes,
}
use carddav_mcp.CardDav.Multistatus.Captured.{
  loop_in, run_captured, run_uncaptured, run_gaps, start_plain, end_plain,
}

module _ (resolve : Text → Option Text) (unsupported : Text → String) where
  run_value :
      (p : Property) (ps : List (Piece resolve)) (rest : List Event) (stack : List Text)
      (item : ParsedDavResponse) (output : List ParsedDavResponse)
      → run_events resolve unsupported
          (node_events resolve (value p ps) rest)
          (loop_in resolve unsupported stack item none output)
        ≡ run_events resolve unsupported rest (
            loop_in resolve unsupported stack
              (add_to (field_of p) (content_of resolve ps) item)
              none
              output)
  unfolding node_events start_capture closes_capture same
  run_value display_name ps rest stack item output =
      run_captured resolve unsupported (codes "displayname") of_display_name ps rest stack item
        output refl refl refl refl
  run_value ctag ps rest stack item output =
      run_captured resolve unsupported (codes "getctag") of_ctag ps rest stack item output refl refl
        refl refl
  run_value etag ps rest stack item output =
      run_captured resolve unsupported (codes "getetag") of_etag ps rest stack item output refl refl
        refl refl
  run_value address_data ps rest stack item output =
      run_captured resolve unsupported (codes "address-data") of_address_data ps rest stack item
        output refl refl refl refl

  -- The `href` of an element elsewhere is not captured.
  run_stray_href :
      (parent : Text) (ps : List (Piece resolve)) (rest : List Event) (stack : List Text)
      (item : ParsedDavResponse) (output : List ParsedDavResponse)
      → same parent (codes "response") ≡ false
      → same parent (codes "current-user-principal") ≡ false
      → same parent (codes "addressbook-home-set") ≡ false
      → run_events resolve unsupported
          (start (codes "href") ∷ (map (piece_event resolve) ps ++ end_tag (codes "href") ∷ rest))
          (loop_in resolve unsupported (parent ∷ stack) item none output)
        ≡ run_events resolve unsupported rest
            (loop_in resolve unsupported (parent ∷ stack) item none output)
  unfolding run_events handle on_start start_capture closes_capture on_end same
  run_stray_href parent ps rest stack item output no_response no_principal no_home =
      rw (no_response, no_principal, no_home)
        (run_uncaptured resolve unsupported ps (end_tag (codes "href") ∷ rest)
          (codes "href" ∷ parent ∷ stack) item output)

  run_inside :
      (l : Link) (ps : List (Piece resolve)) (rest : List Event) (stack : List Text)
      (item : ParsedDavResponse) (output : List ParsedDavResponse)
      → run_events resolve unsupported
          (start (codes "href") ∷ (map (piece_event resolve) ps ++ end_tag (codes "href") ∷ rest))
          (loop_in resolve unsupported (link_name l ∷ stack) item none output)
        ≡ run_events resolve unsupported rest (
            loop_in resolve unsupported
              (link_name l ∷ stack)
              (add_link l (content_of resolve ps) item)
              none
              output)
  unfolding start_capture closes_capture same
  run_inside principal ps rest stack item output =
      run_captured resolve unsupported (codes "href") of_current_principal ps rest
        (codes "current-user-principal" ∷ stack) item output refl refl refl refl
  run_inside home ps rest stack item output =
      run_captured resolve unsupported (codes "href") of_addressbook_home ps rest
        (codes "addressbook-home-set" ∷ stack) item output refl refl refl refl
  run_inside (elsewhere name plain_name no_principal no_home) ps rest stack item output =
      run_stray_href name ps rest stack item output plain_name.no_response no_principal no_home

  pub link_name-IsPlain : (l : Link) → IsPlain (link_name l)
  unfolding same
  link_name-IsPlain principal = record {
    no_response = refl;
    no_href = refl;
    no_display_name = refl;
    no_ctag = refl;
    no_etag = refl;
    no_address_data = refl;
  }
  link_name-IsPlain home = record {
    no_response = refl;
    no_href = refl;
    no_display_name = refl;
    no_ctag = refl;
    no_etag = refl;
    no_address_data = refl;
  }
  link_name-IsPlain (elsewhere name plain_name no_principal no_home) = plain_name

  -- An element of which only what stands inside is read.
  run_around :
      (name : Text) (inside : List Event) (rest : List Event) (stack : List Text)
      (item item' : ParsedDavResponse) (output : List ParsedDavResponse)
      → IsPlain name
      → run_events resolve unsupported inside
          (loop_in resolve unsupported (name ∷ stack) (mark name item) none output)
        ≡ run_events resolve unsupported
            (end_tag name ∷ rest)
            (loop_in resolve unsupported (name ∷ stack) item' none output)
      → run_events resolve unsupported
          (start name ∷ inside)
          (loop_in resolve unsupported stack item none output)
        ≡ run_events resolve unsupported rest (loop_in resolve unsupported stack item' none output)
  unfolding run_events handle
  run_around name inside rest stack item item' output plain_name e =
      ap (run_events resolve unsupported inside)
        (start_plain resolve unsupported name stack item output plain_name)
      ∙ (e
          ∙ ap (run_events resolve unsupported rest)
              (end_plain resolve unsupported name stack item' output plain_name.no_response))

  run_link :
      (l : Link) (before : List (Result String Text)) (ps : List (Piece resolve))
      (after : List (Result String Text)) (rest : List Event) (stack : List Text)
      (item : ParsedDavResponse) (output : List ParsedDavResponse)
      → run_events resolve unsupported
          (node_events resolve (link l before ps after) rest)
          (loop_in resolve unsupported stack item none output)
        ≡ run_events resolve unsupported rest (
            loop_in resolve unsupported stack
              (add_link l (content_of resolve ps) (mark (link_name l) item))
              none
              output)
  unfolding node_events
  run_link l before ps after rest stack item output =
      let item' = mark (link_name l) item in
      let read = add_link l (content_of resolve ps) item' in
      run_around (link_name l) _ rest stack item read output (link_name-IsPlain l) (
        run_gaps resolve unsupported before _ (link_name l ∷ stack) item' output
        ∙ (run_inside l ps _ stack item' output
            ∙ run_gaps resolve unsupported after _ (link_name l ∷ stack) read output))

  run_empty :
      (name : Text) (rest : List Event) (stack : List Text) (item : ParsedDavResponse)
      (output : List ParsedDavResponse)
      → run_events resolve unsupported
          (empty_element name ∷ rest)
          (loop_in resolve unsupported stack item none output)
        ≡ run_events resolve unsupported rest
            (loop_in resolve unsupported stack (mark name item) none output)
  unfolding run_events handle
  run_empty name rest stack item output = elim (Bool-cases (same name (codes "addressbook"))) [
    | inl book ↦ rw book refl
    | inr no_book ↦ rw no_book refl
  ]

  mutual
    unfolding node_events read_node run_events handle

    pub run_node :
        (n : Node resolve) (rest : List Event) (stack : List Text) (item : ParsedDavResponse)
        (output : List ParsedDavResponse)
        → run_events resolve unsupported
            (node_events resolve n rest)
            (loop_in resolve unsupported stack item none output)
          ≡ run_events resolve unsupported rest
              (loop_in resolve unsupported stack (read_node resolve n item) none output)
    run_node (value p ps) rest stack item output = run_value p ps rest stack item output
    run_node (link l before ps after) rest stack item output =
        run_link l before ps after rest stack item output
    run_node (empty name) rest stack item output = run_empty name rest stack item output
    run_node (gap r) rest stack item output = refl
    run_node remark rest stack item output = refl
    run_node (element name plain_name ns) rest stack item output =
        run_around name (nodes_events resolve ns (end_tag name ∷ rest)) rest stack item _ output
          plain_name (run_nodes ns (end_tag name ∷ rest) (name ∷ stack) (mark name item) output)

    run_nodes :
        (ns : Nodes resolve) (rest : List Event) (stack : List Text) (item : ParsedDavResponse)
        (output : List ParsedDavResponse)
        → run_events resolve unsupported
            (nodes_events resolve ns rest)
            (loop_in resolve unsupported stack item none output)
          ≡ run_events resolve unsupported rest
              (loop_in resolve unsupported stack (read_nodes resolve ns item) none output)
    run_nodes nil rest stack item output = refl
    run_nodes (cons n ns) rest stack item output =
        run_node n (nodes_events resolve ns rest) stack item output
        ∙ run_nodes ns rest stack (read_node resolve n item) output
