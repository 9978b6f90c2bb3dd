-- ===== src/CardDav/Service.antt =====
-- The tools of src/mcp.rs over the client of src/carddav_client.rs: the client as the interface that
-- the tools call, and the requests of a whole tool. The cache of validated tokens and the maker of
-- UIDs are the rest of the world.
pub mod Sent
pub mod Examples
use carddav_mcp.Base.{
  ℕ, ◌≡◌, refl, ap, sym, ◌∙◌, arith, List, [], ◌∷◌, Bool, true, false, Option, none, some, Result,
  ok, err, Bool-cases, inl, inr, if◌then◌else◌,
}
use carddav_mcp.Base.Str.{Text}
use carddav_mcp.Base.Steps.{StepOf, after_step, ◌>>=◌, lift, Keeps, Keeps-bind, Keeps-lift}
use carddav_mcp.OauthRedirect.{UrlParser}
use carddav_mcp.RateLimit.{Governor, Category}
use carddav_mcp.Rpc.{ErrorData}
use carddav_mcp.Tools.{
  Client, Context, Service, Step, ok_or, missing_token_err, call, rate_limit_check, charge_limiter,
  react_to_auth_expiry, is_auth_expired, CardDavError,
}
use carddav_mcp.Tools.Listing.{
  ListContactsParams, books_block, list_block, list_address_books as list_address_books_tool,
  list_contacts as list_contacts_tool,
}
use carddav_mcp.Tools.Search.{
  SearchContactsParams, Found, is_full, add_matches, search_books, books_to_search, search_block,
  search_contacts as search_contacts_tool,
}
use carddav_mcp.Tools.Write.{
  CreateContactParams, UpdateContactParams, DeleteContactParams, uid_or_fresh, create_block,
  update_block, delete_block, create_contact as create_contact_tool,
  update_contact as update_contact_tool, delete_contact as delete_contact_tool,
}
use carddav_mcp.CardDav.{DavUrls, Request, CardDavClient, DavWorld, DavStep}
use carddav_mcp.CardDav.Calls.{Transport, evict}
use carddav_mcp.CardDav.Contacts.{list_address_books, list_contacts, search_contacts, get_contact}
use carddav_mcp.CardDav.Href.{IsOwn}
use carddav_mcp.CardDav.Own.{
  Call, listing_books, listing, searching, getting, creating, updating, deleting, perform,
  IsOwnRequest, IsUrlCrate, perform-IsOwnRequest,
}
use carddav_mcp.CardDav.Write.{create_contact, update_contact, delete_contact}

-- The rest of the world: the cache of tokens and the source of UIDs.
pub record Others : Type 1 where
  pub Rest : Type 0
  pub drop_token : Text → Rest → Rest
  pub generate_uid : Rest → Rest × Text
  pub token_hash : Text → Text

-- The requests for the tools.
pub data ToolCall : Type 0 where
  call_list_address_books : ToolCall
  call_list_contacts : ListContactsParams → ToolCall
  call_search_contacts : SearchContactsParams → ToolCall
  call_create_contact : CreateContactParams → ToolCall
  call_update_contact : UpdateContactParams → ToolCall
  call_delete_contact : DeleteContactParams → ToolCall

module _ (u : UrlParser) (d : DavUrls u) (t : Transport u.Url) (client : CardDavClient u.Url)
    (o : Others) where
  open u use {Url}
  open t use {Server}

  -- A call of the client, beside the rest of the world.
  abbrev beside :
      {A : Type 0}
      → DavStep Server A
      → DavWorld Server × o.Rest
      → (DavWorld Server × o.Rest) × Result CardDavError A
  beside step w = (((step w.0).0, w.1), (step w.0).1)

  -- The client, as the tools see it.
  abbrev pub service_client : Client
  service_client = record {
    World = DavWorld Server × o.Rest;
    list_address_books = λ token. beside (list_address_books u d t client token);
    list_contacts = λ token href. beside (list_contacts u d t client token href);
    search_contacts = λ token href query. beside (search_contacts u d t client token href query);
    get_contact = λ token href. beside (get_contact u d t client token href);
    create_contact =
        λ token href uid vcard. beside (create_contact u d t client token href uid vcard);
    update_contact =
        λ token href etag vcard. beside (update_contact u d t client token href etag vcard);
    delete_contact = λ token href etag. beside (delete_contact u d t client token href etag);
    evict = λ token w. (evict u d t client token w.0, w.1);
    drop_token = λ token w. (w.0, o.drop_token token w.1);
    generate_uid = λ w. ((w.0, (o.generate_uid w.1).0), (o.generate_uid w.1).1);
    token_hash = o.token_hash;
  }

  module _ (g : Governor) where
    abbrev World : Type 0
    World = Service g (DavWorld Server × o.Rest)

    -- A tool, of which only the service is kept.
    unfoldable pub run_tool : Context → ToolCall → World → World
    run_tool ctx call_list_address_books s = (list_address_books_tool g service_client ctx s).0
    run_tool ctx (call_list_contacts p) s = (list_contacts_tool g service_client ctx p s).0
    run_tool ctx (call_search_contacts p) s = (search_contacts_tool g service_client ctx p s).0
    run_tool ctx (call_create_contact p) s = (create_contact_tool g service_client ctx p s).0
    run_tool ctx (call_update_contact p) s = (update_contact_tool g service_client ctx p s).0
    run_tool ctx (call_delete_contact p) s = (delete_contact_tool g service_client ctx p s).0
