-- ===== src/CardDav/Multistatus/ReadBack.antt =====
-- How the machine of src/carddav_client.rs reads a multistatus document back.
use carddav_mcp.Base.{
  List, [], ◌∷◌, ◌++◌, Option, none, String, ok, ◌≡◌, refl, ap, ◌∙◌, append_assoc, append-nil,
  ◌>>=◌,
}
use carddav_mcp.Base.Str.{Text, codes, same}
use carddav_mcp.CardDav.Multistatus.{
  ParsedDavResponse, empty_response, of_href, Event, start, end_tag, trim_parsed_response, Loop,
  start_capture, closes_capture, on_start, on_end, handle, run_events, parse_multistatus,
}
use carddav_mcp.CardDav.Multistatus.Written.{
  nodes_events, Part, own_href, node, parts_events, read_parts, Entry, response, aside, Document,
  entries_events, document_events, responses_of,
}
use carddav_mcp.CardDav.Multistatus.Captured.{loop_in, run_captured}
use carddav_mcp.CardDav.Multistatus.Inside.{run_node}
use carddav_mcp.CardDav.Multistatus.Outside.{loop_out, pass_node, pass_nodes, run_around_outside}

module _ (resolve : Text → Option Text) (unsupported : Text → String) where
  abbrev response_stack : List Text
  response_stack = codes "response" ∷ codes "multistatus" ∷ []

  run_parts :
      (parts : List (Part resolve)) (rest : List Event) (item : ParsedDavResponse)
      (output : List ParsedDavResponse)
      → run_events resolve unsupported
          (parts_events resolve parts rest)
          (loop_in resolve unsupported response_stack item none output)
        ≡ run_events resolve unsupported rest
            (loop_in resolve unsupported response_stack (read_parts resolve parts item) none output)
  unfolding start_capture closes_capture same
  run_parts [] rest item output = refl
  run_parts (own_href ps ∷ parts) rest item output =
      run_captured resolve unsupported (codes "href") of_href ps (parts_events resolve parts rest)
        response_stack item output refl refl refl refl
      ∙ run_parts parts rest _ output
  run_parts (node n ∷ parts) rest item output =
      run_node resolve unsupported n (parts_events resolve parts rest) response_stack item output
      ∙ run_parts parts rest _ output

  run_response :
      (parts : List (Part resolve)) (rest : List Event) (output : List ParsedDavResponse)
      → run_events resolve unsupported
          (start (codes "response")
            ∷ parts_events resolve parts (end_tag (codes "response") ∷ rest))
          (loop_out resolve unsupported (codes "multistatus" ∷ []) output)
        ≡ run_events resolve unsupported rest (
            loop_out resolve unsupported
              (codes "multistatus" ∷ [])
              (output ++ trim_parsed_response (read_parts resolve parts empty_response) ∷ []))
  unfolding run_events handle on_start on_end start_capture closes_capture same
  run_response parts rest output =
      run_parts parts (end_tag (codes "response") ∷ rest) empty_response output

  run_entries :
      (entries : List (Entry resolve)) (rest : List Event) (output : List ParsedDavResponse)
      → run_events resolve unsupported
          (entries_events resolve entries rest)
          (loop_out resolve unsupported (codes "multistatus" ∷ []) output)
        ≡ run_events resolve unsupported rest (
            loop_out resolve unsupported
              (codes "multistatus" ∷ [])
              (output ++ responses_of resolve entries))
  run_entries [] rest output = rw (append-nil output) refl
  run_entries (response parts ∷ entries) rest output =
      let parsed = trim_parsed_response (read_parts resolve parts empty_response) in
      run_response parts (entries_events resolve entries rest) output
      ∙ (run_entries entries rest (output ++ parsed ∷ [])
          ∙ ap
              (λ o.
                run_events resolve unsupported rest
                  (loop_out resolve unsupported (codes "multistatus" ∷ []) o))
              (append_assoc output (parsed ∷ []) (responses_of resolve entries)))
  run_entries (aside n ∷ entries) rest output =
      pass_node resolve unsupported n (entries_events resolve entries rest)
        (codes "multistatus" ∷ []) output
      ∙ run_entries entries rest output

  run_nothing : (l : Loop) → run_events resolve unsupported [] l ≡ ok l
  unfolding run_events
  run_nothing l = refl

  -- `parse_multistatus` reads the responses of a document back in order, each field trimmed but
  -- the card. A response has its own hrefs, read properties, links with an href, empty
  -- elements, text (readable or not), comments and elements around these, to any depth, in any
  -- order and number; a field is the texts of its elements one after another, from plain text,
  -- CDATA, character references and entities, and is missing if none has text; an href
  -- elsewhere gets into no field; an element named addressbook marks the response. Nodes
  -- outside the responses are passed over. No read element has elements inside it.
  pub parse_multistatus-document :
      (doc : Document resolve)
      → parse_multistatus resolve unsupported (document_events resolve doc)
        ≡ ok (responses_of resolve doc.entries)
  unfolding parse_multistatus same
  parse_multistatus-document doc =
      let after = nodes_events resolve doc.after [] in
      let inside = entries_events resolve doc.entries (end_tag (codes "multistatus") ∷ after) in
      ap (λ x. x >>= λ l. ok l.output)
        (pass_nodes resolve unsupported doc.before (start (codes "multistatus") ∷ inside) [] []
          ∙ (run_around_outside resolve unsupported (codes "multistatus") inside after [] []
                (responses_of resolve doc.entries) refl
                (run_entries doc.entries (end_tag (codes "multistatus") ∷ after) [])
              ∙ (pass_nodes resolve unsupported doc.after [] [] (responses_of resolve doc.entries)
                  ∙ run_nothing
                      (loop_out resolve unsupported [] (responses_of resolve doc.entries)))))
