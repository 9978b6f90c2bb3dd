-- ===== src/CardDav/Multistatus/Examples.antt =====
-- The theorem on multistatus documents, for a document of the tests of src/carddav_client.rs.
use carddav_mcp.Base.{List, [], ◌∷◌, Option, none, some, ok, ◌≡◌, refl, true}
use carddav_mcp.Base.Str.{
  Text, codes, same, trim, trim_start_matches, trim_end_matches, is_whitespace,
}
use carddav_mcp.CardDav.Multistatus.{empty_response, Event, parse_multistatus}
use carddav_mcp.CardDav.Multistatus.Written.{
  Piece, plain, entity, IsPlain, Node, Nodes, nil, cons, gap, element, empty, value, link,
  principal, home, display_name, ctag, read_node, own_href, node, response, aside, Document,
  document_events, responses_of,
}
use carddav_mcp.CardDav.Multistatus.ReadBack.{parse_multistatus-document}

-- A resolver for the one entity of the document.
abbrev pub ampersand : Text → Option Text
ampersand [] = none
ampersand (c ∷ name) = some (codes "&")

pub propstat-IsPlain : IsPlain (codes "propstat")
unfolding same
propstat-IsPlain = record {
  no_response = refl;
  no_href = refl;
  no_display_name = refl;
  no_ctag = refl;
  no_etag = refl;
  no_address_data = refl;
}

pub prop-IsPlain : IsPlain (codes "prop")
unfolding same
prop-IsPlain = record {
  no_response = refl;
  no_href = refl;
  no_display_name = refl;
  no_ctag = refl;
  no_etag = refl;
  no_address_data = refl;
}

pub resourcetype-IsPlain : IsPlain (codes "resourcetype")
unfolding same
resourcetype-IsPlain = record {
  no_response = refl;
  no_href = refl;
  no_display_name = refl;
  no_ctag = refl;
  no_etag = refl;
  no_address_data = refl;
}

abbrev newline : Node ampersand
newline = gap (ok (codes "\n"))

abbrev propstat_of : Nodes ampersand → Node ampersand
propstat_of props =
    element (codes "propstat") propstat-IsPlain
      (cons (element (codes "prop") prop-IsPlain (cons newline props)) nil)

abbrev words : Text → List (Piece ampersand)
words t = plain t ∷ []

-- The document of the test `parses_discovery_and_addressbook_properties`.
abbrev home_document : Document ampersand
home_document = record {
  before = nil;
  entries =
      aside newline
      ∷ response (
          own_href (words (codes "/dav/card/u/"))
          ∷ node (
              propstat_of (
                cons (link principal [] (words (codes "/principals/u/")) []) (
                  cons newline
                    (cons (link home [] (words (codes "/dav/card/u/")) []) (cons newline nil)))))
          ∷ [])
      ∷ aside newline
      ∷ response (
          own_href (words (codes "/dav/card/u/default/"))
          ∷ node (
              propstat_of (
                cons
                  (value display_name (
                    plain (codes "Personal ")
                    ∷ entity (codes "amp") (codes "&") refl
                    ∷ plain (codes " Shared")
                    ∷ []))
                  (cons newline (
                    cons
                      (element (codes "resourcetype") resourcetype-IsPlain (
                        cons (empty (codes "collection")) (cons (empty (codes "addressbook")) nil)))
                      (cons newline (cons (value ctag (words (codes "42"))) (cons newline nil)))))))
          ∷ [])
      ∷ aside newline
      ∷ [];
  after = nil;
}

abbrev pub home_events : List Event
home_events = document_events ampersand home_document

parse_multistatus-document_example :
    parse_multistatus ampersand (λ name. "") home_events
    ≡ ok (responses_of ampersand home_document.entries)
parse_multistatus-document_example = parse_multistatus-document ampersand (λ name. "") home_document

-- What the test expects of it.
home_read :
    responses_of ampersand home_document.entries
    ≡ record empty_response {
      href = some (codes "/dav/card/u/");
      current_user_principal = some (codes "/principals/u/");
      addressbook_home = some (codes "/dav/card/u/");
    }
      ∷ record empty_response {
        href = some (codes "/dav/card/u/default/");
        display_name = some (codes "Personal & Shared");
        ctag = some (codes "42");
        is_addressbook = true;
      }
      ∷ []
unfolding read_node same trim trim_start_matches trim_end_matches is_whitespace
home_read = refl
