-- ===== src/Tools/Listing.antt =====
-- `list_address_books` and `list_contacts` of src/mcp.rs.
use carddav_mcp.Base.{ℕ, List, [], ◌∷◌, map, take, Option, none, some, ok, ◌==◌, if◌then◌else◌}
use carddav_mcp.Base.Str.{Text, is_empty, split, trim_end_matches}
use carddav_mcp.RateLimit.{Governor, read}
use carddav_mcp.Base.Steps.{lift, ◌>>=◌, ◌>>◌}
use carddav_mcp.Tools.{
  DavAddressBook, Client, Context, Service, Step, ok_or, missing_token_err, call, rate_limit_check,
  react_to_auth_expiry,
}
use carddav_mcp.Tools.Search.{ContactSummary, contact_summary, validated_limit}

pub record AddressBookSummary : Type 0 where
  pub id : Text
  pub href : Text
  pub name : Text
  pub ctag : Option Text

pub record ListContactsParams : Type 0 where
  pub addressbook_href : Text
  pub limit : ℕ

-- `rsplit('/').find(|part| !part.is_empty())`, on the parts in their order.
unfoldable pub last_nonempty : List Text → Option Text
last_nonempty [] = none
last_nonempty (part ∷ parts) = elim (last_nonempty parts) [
  | some later ↦ some later
  | none ↦ if is_empty part then none else some part
]

unfoldable pub href_id : Text → Text
href_id href =
    elim (last_nonempty (split (λ c. c == b'/') (trim_end_matches (λ c. c == b'/') href))) [
      | none ↦ href
      | some part ↦ part
    ]

unfoldable pub address_book_summary : DavAddressBook → AddressBookSummary
address_book_summary book = record {
  id = href_id book.href;
  href = book.href;
  name = book.display_name;
  ctag = book.ctag;
}

module _ (g : Governor) (c : Client) where
  open c use {World}

  unfoldable pub books_block : Context → Step (Service g World) (List AddressBookSummary)
  books_block ctx = do
    rate_limit_check g c ctx read
    token ← lift (ok_or ctx.token missing_token_err)
    books ← call g c (c.list_address_books token)
    lift (ok (map address_book_summary books))

  unfoldable pub list_address_books : Context → Step (Service g World) (List AddressBookSummary)
  list_address_books ctx s = react_to_auth_expiry g c ctx (books_block ctx s)

  unfoldable pub list_block :
      Context → ListContactsParams → Step (Service g World) (List ContactSummary)
  list_block ctx params = do
    rate_limit_check g c ctx read
    limit ← lift (validated_limit params.limit)
    token ← lift (ok_or ctx.token missing_token_err)
    contacts ← call g c (c.list_contacts token params.addressbook_href)
    lift (ok (map contact_summary (take limit contacts)))

  unfoldable pub list_contacts :
      Context → ListContactsParams → Step (Service g World) (List ContactSummary)
  list_contacts ctx params s = react_to_auth_expiry g c ctx (list_block ctx params s)
