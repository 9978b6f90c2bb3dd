-- ===== src/Tools/Search.antt =====
-- `search_contacts` of src/mcp.rs, and what it shows of a contact.
use carddav_mcp.Base.{
  ℕ, Bool, false, ◌||◌, List, [], ◌∷◌, ◌++◌, map, Option, none, some, length, ok, err, Result, leb,
  ◌==◌, min, refuse_if, if◌then◌else◌,
}
use carddav_mcp.Base.Str.{Text, is_empty, trim, same}
use carddav_mcp.Rpc.{ErrorData, invalid_params}
use carddav_mcp.RateLimit.{Governor, read}
use carddav_mcp.Vcard.Parse.{parse_vcard}
use carddav_mcp.Base.Steps.{lift, ◌>>=◌, ◌>>◌}
use carddav_mcp.Tools.{
  DavContact, Client, Context, Service, Step, ok_or, missing_token_err, call, rate_limit_check,
  react_to_auth_expiry,
}

abbrev pub max_contact_limit : ℕ
max_contact_limit = 100

pub record ContactSummary : Type 0 where
  pub href : Text
  pub etag : Option Text
  pub uid : Option Text
  pub full_name : Option Text
  pub given_name : Option Text
  pub family_name : Option Text
  pub emails : List Text
  pub phones : List Text
  pub organization : Option Text
  pub title : Option Text
  pub note : Option Text
  pub birthday : Option Text
  pub has_photo : Bool
  pub vcard : Text

unfoldable pub contact_summary : DavContact → ContactSummary
contact_summary contact =
    let parsed = parse_vcard contact.vcard in
    record {
      href = contact.href;
      etag = contact.etag;
      uid = parsed.uid;
      full_name = parsed.full_name;
      given_name = parsed.given_name;
      family_name = parsed.family_name;
      emails = parsed.emails;
      phones = parsed.phones;
      organization = parsed.organization;
      title = parsed.title;
      note = parsed.note;
      birthday = parsed.birthday;
      has_photo = parsed.has_photo;
      vcard = contact.vcard;
    }

unfoldable pub validated_limit : ℕ → Result ErrorData ℕ
validated_limit limit =
    if limit == 0
    then err (invalid_params "`limit` must be greater than zero")
    else ok (min limit max_contact_limit)

-- `seen`, a set of hrefs, and `contacts`.
pub record Found : Type 0 where
  pub seen : List Text
  pub contacts : List ContactSummary

unfoldable pub has_seen : List Text → Text → Bool
has_seen [] href = false
has_seen (h ∷ hs) href = same h href || has_seen hs href

-- `if seen.insert(contact.href.clone()) { contacts.push(contact_summary(contact)); }`
unfoldable pub add_match : Found → DavContact → Found
add_match found contact = if has_seen found.seen contact.href then found else record {
  seen = found.seen ++ contact.href ∷ [];
  contacts = found.contacts ++ contact_summary contact ∷ [];
}

-- `contacts.len() >= limit`
abbrev pub is_full : ℕ → Found → Bool
is_full limit found = leb limit (length found.contacts)

-- The loop over the matches of one address book.
unfoldable pub add_matches : ℕ → Found → List DavContact → Found
add_matches limit found [] = found
add_matches limit found (contact ∷ matches) =
    let found' = add_match found contact in
    let rest = add_matches limit found' matches in if is_full limit found' then found' else rest

pub record SearchContactsParams : Type 0 where
  pub query : Text
  pub addressbook_href : Option Text
  pub limit : ℕ

module _ (g : Governor) (c : Client) where
  open c use {World}

  -- The loop over the address books.
  unfoldable pub search_books : Text → Text → ℕ → Found → List Text → Step (Service g World) Found
  search_books token query limit found [] = lift (ok found)
  search_books token query limit found (href ∷ hrefs) = do
    matches ← call g c (c.search_contacts token href query)
    let found' = add_matches limit found matches
    if is_full limit found' then lift (ok found') else search_books token query limit found' hrefs

  unfoldable pub books_to_search : Text → Option Text → Step (Service g World) (List Text)
  books_to_search token (some href) = lift (ok (href ∷ []))
  books_to_search token none = do
    books ← call g c (c.list_address_books token)
    lift (ok (map (λ b. b.href) books))

  -- The `async` block.
  unfoldable pub search_block :
      Context → SearchContactsParams → Step (Service g World) (List ContactSummary)
  search_block ctx params = do
    rate_limit_check g c ctx read
    limit ← lift (validated_limit params.limit)
    lift (refuse_if (is_empty (trim params.query)) (invalid_params "`query` must not be empty"))
    token ← lift (ok_or ctx.token missing_token_err)
    hrefs ← books_to_search token params.addressbook_href
    found ← search_books token params.query limit (record { seen = []; contacts = [] }) hrefs
    lift (ok found.contacts)

  unfoldable pub search_contacts :
      Context → SearchContactsParams → Step (Service g World) (List ContactSummary)
  search_contacts ctx params s = react_to_auth_expiry g c ctx (search_block ctx params s)
