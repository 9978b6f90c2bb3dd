-- ===== src/Tools/Examples.antt =====
-- The theorems on the tools of src/mcp.rs at a client that knows one contact and counts its writes,
-- behind a limiter that allows everything.
use mathlib.Core.List.{flatten}
use carddav_mcp.Base.HashMap.{get, insert}
use carddav_mcp.Base.{List, take, ℕ, ◌+◌, ◌≡◌, refl, arith, true, [], ◌∷◌, none, some, ok, map}
use carddav_mcp.Base.Str.{codes, trim, len, any, is_control, same}
use carddav_mcp.RateLimit.{Governor, empty_map, check, charge}
use carddav_mcp.Vcard.Contact.{
  ContactInput, validate_contact_input, any_too_long, validate_given_uid, build_vcard, validate_uid,
  card_lines,
}
use carddav_mcp.Vcard.Lines.{write_lines}
use carddav_mcp.Vcard.Fold.{fold_vcard_line}
use carddav_mcp.Vcard.Escape.{escape_vcard_text}
use carddav_mcp.Vcard.Parse.{parse_vcard}
use carddav_mcp.Base.Steps.{after_step}
use carddav_mcp.Tools.{Client, Context, Service, DavContact, react_to_auth_expiry, rate_limit_check}
use carddav_mcp.Tools.Search.{validated_limit, ContactSummary, Found, search_books, contact_summary}
use carddav_mcp.Tools.Listing.{ListContactsParams, list_contacts, list_block}
use carddav_mcp.Tools.Listed.{IsListing, list_contacts-IsListing}
use carddav_mcp.Tools.Found.{unseen, done, next, search_books-take}
use carddav_mcp.Tools.Write.{
  CreateContactParams, UpdateContactParams, ContactWriteResult, create_contact, update_contact,
  create_block, update_block, uid_or_fresh, changes_uid,
}
use carddav_mcp.Tools.Written.{IsUpdated, update_contact-IsUpdated}
use carddav_mcp.Tools.Created.{IsCreated, create_contact-IsCreated}

abbrev open_gate : Governor
open_gate = record {
  Quota = ℕ;
  State = ℕ;
  per_minute = λ n. n;
  with_period = λ n. some n;
  allow_burst = λ quota n. n;
  direct = λ quota now. quota;
  check = λ state now. (true, state);
}

abbrev jo : DavContact
jo = record { href = codes "/b/jo.vcf"; etag = none; vcard = codes "UID:jo\nFN:Jo" }

abbrev one_contact : Client
one_contact = record {
  World = ℕ;
  list_address_books = λ token w. (w, ok []);
  list_contacts = λ token href w. (w, ok (jo ∷ jo ∷ jo ∷ []));
  search_contacts = λ token href query w. (w, ok (jo ∷ []));
  get_contact = λ token href w. (w, ok jo);
  create_contact = λ token href uid vcard w. (w + 1, ok (record { href = href; etag = none }));
  update_contact = λ token href etag vcard w. (w + 1, ok (record { href = href; etag = none }));
  delete_contact = λ token href etag w. (w + 1, ok tt);
  evict = λ token w. w;
  drop_token = λ token w. w;
  generate_uid = λ w. (w, codes "fresh");
  token_hash = λ token. token;
}

abbrev start : Service open_gate ℕ
start = record {
  limiter = record {
    reads_per_min = 1;
    writes_per_min = 1;
    bearer_read = empty_map;
    bearer_write = empty_map;
    sub_read = empty_map;
    sub_write = empty_map;
  };
  world = 0;
}

abbrev ctx : Context
ctx = record {
  token = some (codes "t");
  user_id = some (codes "u");
  readings = record { looked_up = 0; checked = 0 };
  sub_readings = record { looked_up = 0; checked = 0 };
}

-- Two address books with the same contact.
search_books-take_example :
    (found : Found) × ((search_books open_gate one_contact
        (codes "t")
        (codes "jo")
        5
        (record { seen = []; contacts = [] })
        (codes "/a" ∷ codes "/b" ∷ [])
        start).1
      ≡ ok found)
    × (found.contacts ≡ take 5 (map contact_summary (unseen [] (jo ∷ jo ∷ []))))
unfolding flatten
search_books-take_example =
    search_books-take open_gate one_contact (codes "t") (codes "jo") 5
      (codes "/a" ∷ codes "/b" ∷ []) ((jo ∷ []) ∷ (jo ∷ []) ∷ []) start (omega arith)
      (next 0 0 (codes "/a") (codes "/b" ∷ []) (jo ∷ []) ((jo ∷ []) ∷ []) refl
        (next 0 0 (codes "/b") [] (jo ∷ []) [] refl (done 0)))

abbrev joanna : ContactInput
joanna = record {
  uid = none;
  full_name = codes "Joanna";
  given_name = none;
  family_name = none;
  emails = [];
  phones = [];
  organization = none;
  title = none;
  note = none;
}

abbrev update : UpdateContactParams
update = record { contact_href = codes "/b/jo.vcf"; etag = none; contact = joanna }

abbrev updated : ContactWriteResult
updated = record { href = codes "/b/jo.vcf"; etag = none; uid = codes "jo" }

abbrev after_update : Service open_gate ℕ
after_update = (update_contact open_gate one_contact ctx update start).0

updated_is : update_contact open_gate one_contact ctx update start ≡ (after_update, ok updated)
unfolding update_contact update_block react_to_auth_expiry after_step rate_limit_check check charge
    insert get validate_contact_input trim len any any_too_long validate_given_uid build_vcard
    validate_uid card_lines write_lines fold_vcard_line escape_vcard_text is_control parse_vcard
    changes_uid same
updated_is = refl

update_contact-IsUpdated_example :
    IsUpdated open_gate one_contact update (codes "t") 0 after_update.world updated
update_contact-IsUpdated_example =
    update_contact-IsUpdated open_gate one_contact ctx update start after_update updated (codes "t")
      refl updated_is

abbrev create : CreateContactParams
create = record { addressbook_href = codes "/b"; contact = joanna }

abbrev created : ContactWriteResult
created = record { href = codes "/b"; etag = none; uid = codes "fresh" }

abbrev after_create : Service open_gate ℕ
after_create = (create_contact open_gate one_contact ctx create start).0

created_is : create_contact open_gate one_contact ctx create start ≡ (after_create, ok created)
unfolding create_contact create_block react_to_auth_expiry after_step rate_limit_check check charge
    insert get validate_contact_input trim len any any_too_long validate_given_uid build_vcard
    validate_uid card_lines write_lines fold_vcard_line escape_vcard_text is_control uid_or_fresh
created_is = refl

create_contact-IsCreated_example :
    IsCreated open_gate one_contact create (codes "t") 0 after_create.world created
create_contact-IsCreated_example =
    create_contact-IsCreated open_gate one_contact ctx create start after_create created (codes "t")
      refl created_is

abbrev at_most_two : ListContactsParams
at_most_two = record { addressbook_href = codes "/b"; limit = 2 }

abbrev listed : List ContactSummary
listed = contact_summary jo ∷ contact_summary jo ∷ []

abbrev after_list : Service open_gate ℕ
after_list = (list_contacts open_gate one_contact ctx at_most_two start).0

listed_is : list_contacts open_gate one_contact ctx at_most_two start ≡ (after_list, ok listed)
unfolding list_contacts list_block react_to_auth_expiry after_step rate_limit_check check charge
    insert get validated_limit take
listed_is = refl

list_contacts-IsListing_example :
    IsListing one_contact at_most_two (codes "t") 0 after_list.world listed
list_contacts-IsListing_example =
    list_contacts-IsListing open_gate one_contact ctx at_most_two start after_list listed
      (codes "t") refl listed_is
