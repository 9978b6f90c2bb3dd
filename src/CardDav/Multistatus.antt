-- ===== src/CardDav/Multistatus.antt =====
-- src/carddav_client.rs: the reading of a multistatus answer, as a machine that takes the events of
-- the XML reader one after another. The reader belongs to the crate `quick_xml`: an event holds what
-- its methods return, the local name of an element, the decoded text or the error.
pub mod Written
pub mod Captured
pub mod Inside
pub mod Outside
pub mod ReadBack
pub mod Examples
use carddav_mcp.Base.{
  Bool, true, false, ◌&&◌, ◌||◌, List, [], ◌∷◌, ◌++◌, Option, none, some, String, Result, ok, err,
  ◌>>=◌, map, if◌then◌else◌,
}
use carddav_mcp.Base.Str.{Text, codes, same, trim}
use carddav_mcp.Tools.{CardDavError, xml}

pub record ParsedDavResponse : Type 0 where
  pub href : Option Text
  pub display_name : Option Text
  pub ctag : Option Text
  pub etag : Option Text
  pub address_data : Option Text
  pub current_user_principal : Option Text
  pub addressbook_home : Option Text
  pub is_addressbook : Bool

-- `ParsedDavResponse::default()`
abbrev pub empty_response : ParsedDavResponse
empty_response = record {
  href = none;
  display_name = none;
  ctag = none;
  etag = none;
  address_data = none;
  current_user_principal = none;
  addressbook_home = none;
  is_addressbook = false;
}

pub data Capture : Type 0 where
  of_href of_current_principal of_addressbook_home of_display_name of_ctag of_etag of_address_data :
      Capture

-- `BytesRef`: what `resolve_char_ref` and `decode` return for it, the character as a text.
pub record Reference : Type 0 where
  pub char_ref : Result String (Option Text)
  pub decoded : Result String Text

-- `Event`, where `failed` stands for an error of the reader, after which nothing is read, and the
-- end of a list of events for `Eof`.
pub data Event : Type 0 where
  start empty_element end_tag : Text → Event
  text cdata : Result String Text → Event
  general_ref : Reference → Event
  other : Event
  failed : String → Event

-- `get_or_insert_with(String::new).push_str(text)`
abbrev pub push_str : Option Text → Text → Option Text
push_str none t = some t
push_str (some s) t = some (s ++ t)

abbrev pub append_capture : ParsedDavResponse → Capture → Text → ParsedDavResponse
append_capture item of_href t = record item { href = push_str item.href t }
append_capture item of_current_principal t = record item {
  current_user_principal = push_str item.current_user_principal t;
}
append_capture item of_addressbook_home t = record item {
  addressbook_home = push_str item.addressbook_home t;
}
append_capture item of_display_name t = record item { display_name = push_str item.display_name t }
append_capture item of_ctag t = record item { ctag = push_str item.ctag t }
append_capture item of_etag t = record item { etag = push_str item.etag t }
append_capture item of_address_data t = record item { address_data = push_str item.address_data t }

abbrev pub trim_option : Option Text → Option Text
trim_option none = none
trim_option (some s) = some (trim s)

abbrev pub trim_parsed_response : ParsedDavResponse → ParsedDavResponse
trim_parsed_response item = record item {
  href = trim_option item.href;
  display_name = trim_option item.display_name;
  ctag = trim_option item.ctag;
  etag = trim_option item.etag;
  current_user_principal = trim_option item.current_user_principal;
  addressbook_home = trim_option item.addressbook_home;
}

-- The variables of the loop; the stack's top stands first.
pub record Loop : Type 0 where
  pub stack : List Text
  pub current : Option ParsedDavResponse
  pub capture : Option Capture
  pub output : List ParsedDavResponse

-- The capture that an `href` opens, by the element it stands in.
abbrev href_capture_in : Text → Option Capture → Option Capture
href_capture_in parent capture =
    if same parent (codes "current-user-principal")
    then some of_current_principal
    else if same parent (codes "addressbook-home-set")
    then some of_addressbook_home
    else if same parent (codes "response")
    then some of_href
    else capture

abbrev href_capture : List Text → Option Capture → Option Capture
href_capture [] capture = capture
href_capture (parent ∷ stack) capture = href_capture_in parent capture

-- The `match` on the name of an element that starts.
unfoldable pub start_capture : Text → List Text → Option Capture → Option Capture
start_capture name stack capture =
    if same name (codes "href")
    then href_capture stack capture
    else if same name (codes "displayname")
    then some of_display_name
    else if same name (codes "getctag")
    then some of_ctag
    else if same name (codes "getetag")
    then some of_etag
    else if same name (codes "address-data")
    then some of_address_data
    else capture

abbrev mark_addressbook : Text → ParsedDavResponse → ParsedDavResponse
mark_addressbook name item = record item {
  is_addressbook = same name (codes "addressbook") || item.is_addressbook;
}

abbrev pub mark_current : Text → Option ParsedDavResponse → Option ParsedDavResponse
mark_current name none = none
mark_current name (some item) = some (mark_addressbook name item)

-- `Event::Start`, once the current response is chosen.
abbrev pub start_in : Text → Loop → Option ParsedDavResponse → Loop
start_in name l none = record l { current = none; stack = name ∷ l.stack }
start_in name l (some item) = record l {
  current = some (mark_addressbook name item);
  capture = start_capture name l.stack l.capture;
  stack = name ∷ l.stack;
}

unfoldable pub on_start : Text → Loop → Loop
unfolding start_capture
on_start name l =
    start_in name l (if same name (codes "response") then some empty_response else l.current)

-- `Event::Text`, `Event::CData` and `Event::GeneralRef`: the text is asked for only where it is
-- captured.
abbrev capture_in :
    Loop
    → Option ParsedDavResponse
    → Option Capture
    → Result CardDavError Text
    → Result CardDavError Loop
capture_in l none kind r = ok l
capture_in l (some item) none r = ok l
capture_in l (some item) (some kind) r =
    r >>= λ decoded. ok (record l { current = some (append_capture item kind decoded) })

abbrev pub on_text : Loop → Result CardDavError Text → Result CardDavError Loop
on_text l r = capture_in l l.current l.capture r

-- `map_err(|e| CardDavError::Xml(e.to_string()))`
abbrev pub xml_err : {A : Type 0} → Result String A → Result CardDavError A
xml_err (ok a) = ok a
xml_err (err e) = err (xml e)

unfoldable pub closes_capture : Text → Bool
closes_capture name =
    same name (codes "href")
    || same name (codes "displayname")
    || same name (codes "getctag")
    || same name (codes "getetag")
    || same name (codes "address-data")

abbrev pub pop : List Text → List Text
pop [] = []
pop (name ∷ stack) = stack

-- `if name == "response" && let Some(mut item) = current.take()`
abbrev take_response : Bool → Option ParsedDavResponse → Loop → Loop
take_response false current l = l
take_response true none l = l
take_response true (some item) l = record l {
  current = none;
  output = l.output ++ trim_parsed_response item ∷ [];
}

unfoldable pub on_end : Text → Loop → Loop
unfolding closes_capture
on_end name l =
    let l' = record l { capture = if closes_capture name then none else l.capture } in
    let l'' = take_response (same name (codes "response")) l'.current l' in
    record l'' { stack = pop l.stack }

abbrev pub start_loop : Loop
start_loop = record { stack = []; current = none; capture = none; output = [] }

-- `quick_xml::escape::resolve_xml_entity` is the parameter; the text of an error that names an
-- entity is another.
module _ (resolve_xml_entity : Text → Option Text) (unsupported : Text → String) where
  abbrev entity_text : Option Text → Text → Result CardDavError Text
  entity_text none decoded = err (xml (unsupported decoded))
  entity_text (some replacement) decoded = ok replacement

  -- The text that `append_general_ref` appends.
  abbrev pub reference_text : Reference → Result CardDavError Text
  reference_text reference = xml_err reference.char_ref >>= λ character. elim character [
    | some c ↦ ok c
    | none ↦
        xml_err reference.decoded >>= λ decoded. entity_text (resolve_xml_entity decoded) decoded
  ]

  unfoldable pub handle : Event → Loop → Result CardDavError Loop
  handle (start name) l = ok (on_start name l)
  handle (empty_element name) l = ok (record l {
    current = if same name (codes "addressbook") then mark_current name l.current else l.current;
  })
  handle (end_tag name) l = ok (on_end name l)
  handle (text r) l = on_text l (xml_err r)
  handle (cdata r) l = on_text l (xml_err r)
  handle (general_ref reference) l = on_text l (reference_text reference)
  handle other l = ok l
  handle (failed e) l = err (xml e)

  unfoldable pub run_events : List Event → Loop → Result CardDavError Loop
  run_events [] l = ok l
  run_events (e ∷ events) l = handle e l >>= λ l'. run_events events l'

  unfoldable pub parse_multistatus : List Event → Result CardDavError (List ParsedDavResponse)
  parse_multistatus events = run_events events start_loop >>= λ l. ok l.output
