-- ===== src/CardDav/Contacts.antt =====
-- src/carddav_client.rs: the operations of the client on address books and contacts.
use carddav_mcp.Base.{
  ℕ, Bool, true, false, not, ◌&&◌, ◌||◌, List, [], ◌∷◌, ◌++◌, Option, none, some, Result, ok, err,
  refuse_if, if◌then◌else◌, ◌==◌, ltb,
}
use carddav_mcp.Base.Str.{Text, codes, is_empty, len, trim, same, any, split}
use carddav_mcp.Base.Str.Utf8.{from_utf8}
use carddav_mcp.Base.Steps.{◌>>=◌, ◌>>◌, lift}
use carddav_mcp.OauthRedirect.{UrlParser}
use carddav_mcp.Tools.{CardDavError, not_found, upstream, invalid_data, DavAddressBook, DavContact}
use carddav_mcp.Tools.Listing.{last_nonempty}
use carddav_mcp.CardDav.{DavUrls, get_method, report_method, CardDavClient, DavStep}
use carddav_mcp.CardDav.Calls.{Transport, ensure_multistatus, send, propfind, parse_body, discover}
use carddav_mcp.CardDav.Escape.{escape_xml, is_illegal_xml_char}
use carddav_mcp.CardDav.Href.{resolve_href, normalize_href}
use carddav_mcp.CardDav.Multistatus.{ParsedDavResponse}

abbrev list_addressbooks_body : Text
list_addressbooks_body =
    codes
      "<?xml version=\"1.0\" encoding=\"UTF-8\"?>\n<d:propfind xmlns:d=\"DAV:\" xmlns:card=\"urn:ietf:params:xml:ns:carddav\" xmlns:cs=\"http://calendarserver.org/ns/\">\n  <d:prop>\n    <d:resourcetype/>\n    <d:displayname/>\n    <cs:getctag/>\n  </d:prop>\n</d:propfind>"

abbrev query_head : Text
query_head =
    codes
      "<?xml version=\"1.0\" encoding=\"UTF-8\"?>\n<card:addressbook-query xmlns:d=\"DAV:\" xmlns:card=\"urn:ietf:params:xml:ns:carddav\">\n  <d:prop><d:getetag/><card:address-data/></d:prop>\n"

abbrev list_contacts_body : Text
list_contacts_body = query_head ++ codes "</card:addressbook-query>"

-- One `prop-filter` of the search.
abbrev prop_filter : Text → Text → Text
prop_filter name escaped =
    codes "    <card:prop-filter name=\""
    ++ name
    ++ codes "\"><card:text-match collation=\"i;unicode-casemap\" match-type=\"contains\">"
    ++ escaped
    ++ codes "</card:text-match></card:prop-filter>\n"

unfoldable pub search_body : Text → Text
search_body escaped =
    query_head
    ++ codes "  <card:filter test=\"anyof\">\n"
    ++ prop_filter (codes "FN") escaped
    ++ prop_filter (codes "N") escaped
    ++ prop_filter (codes "EMAIL") escaped
    ++ prop_filter (codes "TEL") escaped
    ++ prop_filter (codes "ORG") escaped
    ++ codes "  </card:filter>\n</card:addressbook-query>"

-- `filter(|s| !s.is_empty())` on an optional text, and `filter(|s| !s.trim().is_empty())`.
abbrev nonempty : Option Text → Option Text
nonempty none = none
nonempty (some s) = if is_empty s then none else some s

abbrev nonblank : Option Text → Option Text
nonblank none = none
nonblank (some s) = if is_empty (trim s) then none else some s

-- `unwrap_or`
abbrev pub unwrap_or : Option Text → Text → Text
unwrap_or none s = s
unwrap_or (some t) s = t

unfoldable pub href_tail : Text → Option Text
href_tail href = last_nonempty (split (λ c. c == b'/') (normalize_href href))

unfoldable pub fallback_name : Text → Text
fallback_name href = unwrap_or (href_tail href) (codes "Contacts")

module _ (u : UrlParser) (d : DavUrls u) (t : Transport u.Url) (client : CardDavClient u.Url) where
  open u use {Url}
  open t use {Server}

  abbrev resolve : Text → Result CardDavError Url
  resolve = resolve_href u d client.base_url

  -- One round of the loop of `list_address_books`, and the loop.
  abbrev book_of : ParsedDavResponse → Text → DavAddressBook
  book_of item href = record {
    href = href;
    display_name = unwrap_or (nonblank item.display_name) (fallback_name href);
    ctag = nonempty item.ctag;
  }

  abbrev is_book : Text → ParsedDavResponse → Text → Bool
  is_book home item href =
      item.is_addressbook && not (same (normalize_href href) (normalize_href home))

  unfoldable pub collect_books :
      Text
      → List DavAddressBook
      → List ParsedDavResponse
      → Result CardDavError (List DavAddressBook)
  collect_books home books [] = ok books
  collect_books home books (item ∷ parsed) = elim item.href [
    | none ↦ collect_books home books parsed
    | some href ↦ elim (is_book home item href) [
      | false ↦ collect_books home books parsed
      | true ↦ elim (resolve href) [
        | err e ↦ err e
        | ok url ↦ collect_books home (books ++ book_of item href ∷ []) parsed
      ]
    ]
  ]

  unfoldable pub list_address_books : Text → DavStep Server (List DavAddressBook)
  list_address_books token = do
    discovery ← discover u d t client token
    home_url ← lift (resolve discovery.addressbook_home_href)
    response ← propfind u d t client token home_url (codes "1") list_addressbooks_body
    parsed ← lift (parse_body u d t client response)
    lift (collect_books discovery.addressbook_home_href [] parsed)

  -- The loop of `query_contacts`.
  unfoldable pub collect_contacts :
      List DavContact → List ParsedDavResponse → Result CardDavError (List DavContact)
  collect_contacts contacts [] = ok contacts
  collect_contacts contacts (item ∷ parsed) = elim item.href [
    | none ↦ collect_contacts contacts parsed
    | some href ↦ elim item.address_data [
      | none ↦ collect_contacts contacts parsed
      | some vcard ↦ elim (resolve href) [
        | err e ↦ err e
        | ok url ↦
            collect_contacts
              (contacts ++ (record { href = href; etag = nonempty item.etag; vcard = vcard }) ∷ [])
              parsed
      ]
    ]
  ]

  unfoldable pub query_contacts : Text → Text → Text → DavStep Server (List DavContact)
  query_contacts token addressbook_href body = do
    url ← lift (resolve addressbook_href)
    response ← send u d t client token (record {
      method = report_method;
      url = url;
      bearer = none;
      headers =
          ("Depth", codes "1")
          ∷ ("Content-Type", codes "application/xml; charset=utf-8")
          ∷ ("Accept", codes "application/xml, text/vcard")
          ∷ [];
      body = some body;
    })
    lift (ensure_multistatus u d t client response.status)
    parsed ← lift (parse_body u d t client response)
    lift (collect_contacts [] parsed)

  unfoldable pub list_contacts : Text → Text → DavStep Server (List DavContact)
  list_contacts token addressbook_href = query_contacts token addressbook_href list_contacts_body

  unfoldable pub search_contacts : Text → Text → Text → DavStep Server (List DavContact)
  search_contacts token addressbook_href query = do
    lift (refuse_if (is_empty (trim query)) (invalid_data "search query must not be empty"))
    lift (
        refuse_if (ltb 256 (len query) || any is_illegal_xml_char query)
          (invalid_data "search query is too long or contains an XML control character"))
    query_contacts token addressbook_href (search_body (escape_xml query))

  unfoldable pub ensure_found : ℕ → Result CardDavError (Unit {0})
  ensure_found status =
      if status == 200
      then ok tt
      else if status == 404
      then err not_found
      else err (upstream (t.shown_status status))

  -- `String::from_utf8`, where the error tells no more than that.
  unfoldable pub vcard_text : List ℕ → Result CardDavError Text
  vcard_text bytes = elim (from_utf8 bytes) [
    | none ↦ err (invalid_data "vCard is not UTF-8")
    | some vcard ↦ ok vcard
  ]

  unfoldable pub get_contact : Text → Text → DavStep Server DavContact
  get_contact token contact_href = do
    url ← lift (resolve contact_href)
    response ← send u d t client token (record {
      method = get_method;
      url = url;
      bearer = none;
      headers = ("Accept", codes "text/vcard, text/x-vcard") ∷ [];
      body = none;
    })
    lift (ensure_found response.status)
    vcard ← lift (vcard_text response.body)
    lift (ok (record { href = contact_href; etag = response.etag; vcard = vcard }))
