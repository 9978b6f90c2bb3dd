-- ===== src/CardDav/Multistatus/Written.antt =====
-- Multistatus documents, as the events that a reader makes of them, and what is read back.
use carddav_mcp.Base.{
  true, false, List, [], ◌∷◌, ◌++◌, Option, none, some, String, ok, ◌≡◌, refl, ap, append_assoc,
  map, Result, if◌then◌else◌,
}
use carddav_mcp.Base.Str.{Text, codes, same}
use carddav_mcp.CardDav.Multistatus.{
  empty_response, trim_parsed_response, ParsedDavResponse, Capture, of_href, of_current_principal,
  of_addressbook_home, of_display_name, of_ctag, of_etag, of_address_data, Event, start,
  empty_element, end_tag, text, cdata, general_ref, other, push_str, append_capture,
}

-- A text that may be missing, and what follows it.
abbrev pub joined : Option Text → Option Text → Option Text
joined none t = t
joined (some s) none = some s
joined (some s) (some t) = some (s ++ t)

joined-push_str :
    (s : Option Text) (t : Text) (u : Option Text)
    → joined (push_str s t) u ≡ joined s (joined (some t) u)
joined-push_str none t u = refl
joined-push_str (some s) t none = refl
joined-push_str (some s) t (some u) = ap some (append_assoc s t u)

joined-none : (s : Option Text) → joined s none ≡ s
joined-none none = refl
joined-none (some s) = refl

-- The field that a capture fills, and a response with more text in it.
abbrev pub add_to : Capture → Option Text → ParsedDavResponse → ParsedDavResponse
add_to of_href t item = record item { href = joined item.href t }
add_to of_current_principal t item = record item {
  current_user_principal = joined item.current_user_principal t;
}
add_to of_addressbook_home t item = record item {
  addressbook_home = joined item.addressbook_home t;
}
add_to of_display_name t item = record item { display_name = joined item.display_name t }
add_to of_ctag t item = record item { ctag = joined item.ctag t }
add_to of_etag t item = record item { etag = joined item.etag t }
add_to of_address_data t item = record item { address_data = joined item.address_data t }

pub add_to-append_capture :
    (k : Capture) (item : ParsedDavResponse) (t : Text) (u : Option Text)
    → add_to k u (append_capture item k t) ≡ add_to k (joined (some t) u) item
add_to-append_capture of_href item t u =
    ap (λ f. record item { href = f }) (joined-push_str item.href t u)
add_to-append_capture of_current_principal item t u =
    ap (λ f. record item { current_user_principal = f })
      (joined-push_str item.current_user_principal t u)
add_to-append_capture of_addressbook_home item t u =
    ap (λ f. record item { addressbook_home = f }) (joined-push_str item.addressbook_home t u)
add_to-append_capture of_display_name item t u =
    ap (λ f. record item { display_name = f }) (joined-push_str item.display_name t u)
add_to-append_capture of_ctag item t u =
    ap (λ f. record item { ctag = f }) (joined-push_str item.ctag t u)
add_to-append_capture of_etag item t u =
    ap (λ f. record item { etag = f }) (joined-push_str item.etag t u)
add_to-append_capture of_address_data item t u =
    ap (λ f. record item { address_data = f }) (joined-push_str item.address_data t u)

pub add_to-none : (k : Capture) (item : ParsedDavResponse) → add_to k none item ≡ item
add_to-none of_href item = ap (λ f. record item { href = f }) (joined-none item.href)
add_to-none of_current_principal item =
    ap (λ f. record item { current_user_principal = f }) (joined-none item.current_user_principal)
add_to-none of_addressbook_home item =
    ap (λ f. record item { addressbook_home = f }) (joined-none item.addressbook_home)
add_to-none of_display_name item =
    ap (λ f. record item { display_name = f }) (joined-none item.display_name)
add_to-none of_ctag item = ap (λ f. record item { ctag = f }) (joined-none item.ctag)
add_to-none of_etag item = ap (λ f. record item { etag = f }) (joined-none item.etag)
add_to-none of_address_data item =
    ap (λ f. record item { address_data = f }) (joined-none item.address_data)

module _ (resolve : Text → Option Text) where
  -- The content of an element comes in pieces, with comments among them.
  pub data Piece : Type 0 where
    plain in_cdata character : Text → Piece
    entity : (name t : Text) → resolve name ≡ some t → Piece
    comment : Piece

  abbrev pub piece_event : Piece → Event
  piece_event (plain t) = text (ok t)
  piece_event (in_cdata t) = cdata (ok t)
  piece_event (character t) = general_ref (record { char_ref = ok (some t); decoded = ok [] })
  piece_event (entity name t e) = general_ref (record { char_ref = ok none; decoded = ok name })
  piece_event comment = other

  abbrev pub piece_text : Piece → Option Text
  piece_text (plain t) = some t
  piece_text (in_cdata t) = some t
  piece_text (character t) = some t
  piece_text (entity name t e) = some t
  piece_text comment = none

  -- The content: the texts of the pieces one after another, and nothing where no piece has one.
  abbrev pub content_of : List Piece → Option Text
  content_of [] = none
  content_of (p ∷ ps) = joined (piece_text p) (content_of ps)

-- The name of an element that is neither a response nor one whose text is read.
pub record IsPlain (name : Text) : Type 0 where
  pub no_response : same name (codes "response") ≡ false
  pub no_href : same name (codes "href") ≡ false
  pub no_display_name : same name (codes "displayname") ≡ false
  pub no_ctag : same name (codes "getctag") ≡ false
  pub no_etag : same name (codes "getetag") ≡ false
  pub no_address_data : same name (codes "address-data") ≡ false

-- The properties whose text is read.
pub data Property : Type 0 where
  display_name ctag etag address_data : Property

abbrev pub property_name : Property → Text
property_name display_name = codes "displayname"
property_name ctag = codes "getctag"
property_name etag = codes "getetag"
property_name address_data = codes "address-data"

abbrev pub field_of : Property → Capture
field_of display_name = of_display_name
field_of ctag = of_ctag
field_of etag = of_etag
field_of address_data = of_address_data

-- The elements that hold an `href` of their own: the principal, the home set, and any other.
pub data Link : Type 0 where
  principal home : Link
  elsewhere :
      (name : Text)
      → IsPlain name
      → same name (codes "current-user-principal") ≡ false
      → same name (codes "addressbook-home-set") ≡ false
      → Link

abbrev pub link_name : Link → Text
link_name principal = codes "current-user-principal"
link_name home = codes "addressbook-home-set"
link_name (elsewhere name plain_name no_principal no_home) = name

-- The field that the link's text goes to, if any.
abbrev pub add_link : Link → Option Text → ParsedDavResponse → ParsedDavResponse
add_link principal t item = add_to of_current_principal t item
add_link home t item = add_to of_addressbook_home t item
add_link (elsewhere name plain_name no_principal no_home) t item = item

-- An element named `addressbook`, wherever it stands, makes the response an address book.
abbrev pub mark : Text → ParsedDavResponse → ParsedDavResponse
mark name item =
    if same name (codes "addressbook") then record item { is_addressbook = true } else item

-- Text between elements, readable or not.
abbrev pub gaps : List (Result String Text) → List Event → List Event
gaps [] rest = rest
gaps (r ∷ rs) rest = text r ∷ gaps rs rest

module _ (resolve : Text → Option Text) where
  -- What stands in a response: properties, links, empty elements, text between elements,
  -- comments, and elements around all these, such as `propstat` and `prop`.
  mutual
    pub data Node : Type 0 where
      value : Property → List (Piece resolve) → Node
      link :
          Link → List (Result String Text) → List (Piece resolve) → List (Result String Text) → Node
      empty : Text → Node
      gap : Result String Text → Node
      remark : Node
      element : (name : Text) → IsPlain name → Nodes → Node

    pub data Nodes : Type 0 where
      nil : Nodes
      cons : Node → Nodes → Nodes

  -- The events of a node, with what follows it.
  unfoldable mutual
    pub node_events : Node → List Event → List Event
    node_events (value p ps) rest =
        start (property_name p) ∷ (map (piece_event resolve) ps ++ end_tag (property_name p) ∷ rest)
    node_events (link l before ps after) rest =
        start (link_name l)
        ∷ gaps before (
            start (codes "href")
            ∷ (map (piece_event resolve) ps
                ++ end_tag (codes "href") ∷ gaps after (end_tag (link_name l) ∷ rest)))
    node_events (empty name) rest = empty_element name ∷ rest
    node_events (gap r) rest = text r ∷ rest
    node_events remark rest = other ∷ rest
    node_events (element name plain_name ns) rest =
        start name ∷ nodes_events ns (end_tag name ∷ rest)

    pub nodes_events : Nodes → List Event → List Event
    nodes_events nil rest = rest
    nodes_events (cons n ns) rest = node_events n (nodes_events ns rest)

  -- What is to be read of a node, in addition to what was read before it.
  unfoldable mutual
    pub read_node : Node → ParsedDavResponse → ParsedDavResponse
    read_node (value p ps) item = add_to (field_of p) (content_of resolve ps) item
    read_node (link l before ps after) item =
        add_link l (content_of resolve ps) (mark (link_name l) item)
    read_node (empty name) item = mark name item
    read_node (gap r) item = item
    read_node remark item = item
    read_node (element name plain_name ns) item = read_nodes ns (mark name item)

    pub read_nodes : Nodes → ParsedDavResponse → ParsedDavResponse
    read_nodes nil item = item
    read_nodes (cons n ns) item = read_nodes ns (read_node n item)

  -- A response holds its own `href` beside the other nodes.
  pub data Part : Type 0 where
    own_href : List (Piece resolve) → Part
    node : Node → Part

  abbrev pub parts_events : List Part → List Event → List Event
  parts_events [] rest = rest
  parts_events (own_href ps ∷ parts) rest =
      start (codes "href")
      ∷ (map (piece_event resolve) ps ++ end_tag (codes "href") ∷ parts_events parts rest)
  parts_events (node n ∷ parts) rest = node_events n (parts_events parts rest)

  abbrev pub read_parts : List Part → ParsedDavResponse → ParsedDavResponse
  read_parts [] item = item
  read_parts (own_href ps ∷ parts) item =
      read_parts parts (add_to of_href (content_of resolve ps) item)
  read_parts (node n ∷ parts) item = read_parts parts (read_node n item)

  -- A document: responses, and nodes between, before and after them, of which nothing is read.
  pub data Entry : Type 0 where
    response : List Part → Entry
    aside : Node → Entry

  pub record Document : Type 0 where
    pub before : Nodes
    pub entries : List Entry
    pub after : Nodes

  abbrev pub entries_events : List Entry → List Event → List Event
  entries_events [] rest = rest
  entries_events (response parts ∷ entries) rest =
      start (codes "response")
      ∷ parts_events parts (end_tag (codes "response") ∷ entries_events entries rest)
  entries_events (aside n ∷ entries) rest = node_events n (entries_events entries rest)

  abbrev pub document_events : Document → List Event
  document_events doc = nodes_events doc.before (
      start (codes "multistatus")
      ∷ entries_events doc.entries (end_tag (codes "multistatus") ∷ nodes_events doc.after []))

  abbrev pub responses_of : List Entry → List ParsedDavResponse
  responses_of [] = []
  responses_of (response parts ∷ entries) =
      trim_parsed_response (read_parts parts empty_response) ∷ responses_of entries
  responses_of (aside n ∷ entries) = responses_of entries
