-- ===== src/Lib.antt =====
-- carddav-mcp: a server of the Model Context Protocol, in Rust, that gives a client access to the
-- contacts of a CardDAV server. A request passes the bearer middleware and the record of its last
-- use (src/last_used.rs), is charged to the rate limiter (src/rate_limit.rs), and runs a tool
-- (src/mcp.rs), which validates its input, writes or reads vCard texts, and calls the CardDAV
-- client (src/carddav_client.rs). A client gets its token through the OAuth proxy
-- (src/oauth_proxy.rs), and src/logto_oidc.rs validates it. All is set up from src/config.rs.
--
-- Modelled here:
--   * Base and its children: what the modules share. Tests on numbers, lists, results
--     (`Result`, with `>>=` for `?`), texts (Base/Str) and hash maps (Base/HashMap). A text is the
--     list of its code points; `len` and the slices count UTF-8 bytes, as `str` does. A `HashMap`
--     is the list of its entries in the order of iteration, and the theorems hold for each order.
--   * Vcard: the functions on cards of src/mcp.rs. Vcard/Escape has `escape_vcard_text` and
--     `unescape_vcard_text`, Vcard/Fold `fold_vcard_line`, Vcard/Lines the writing of the lines and
--     `unfold_vcard_lines`, Vcard/Contact `ContactInput`, `validate_contact_input`, `validate_uid`
--     and `build_vcard`, Vcard/Parse `ParsedVcard` and `parse_vcard`.
--   * LastUsed: `LastUsedTracker`, `parse_client_ip` and `xff_entry_count` of src/last_used.rs. The
--     parser of addresses is a parameter: any function from texts to an optional address.
--   * RateLimit: `Limiter` and `InitializeLimiter` of src/rate_limit.rs. The token buckets of the
--     crate `governor` are a parameter, the record `Governor`; no theorem asks anything of them. An
--     `Arc` to a bucket is the number of a cell that the map and its users share. The readings of
--     the clock are arguments of each call.
--   * OauthRedirect: the allowlist of redirect URIs of src/oauth_redirect.rs. The parser of URLs of
--     the crate `url` is a parameter, the record `UrlParser`; no theorem asks anything of it.
--   * Tools: the tools of src/mcp.rs that list, search and write, as steps on the limiter and the
--     world of the CardDAV client. Tools itself has the rate-limit check and the reaction to an
--     expired token, Tools/Listing `list_address_books` and `list_contacts`, Tools/Search
--     `search_contacts`, Tools/Write `create_contact`, `update_contact` and `delete_contact`. The
--     client is an interface here, the record `Client`, whose calls may do anything to their
--     world; the theorems ask nothing of it, but that it answers for each book where they say so.
--   * CardDav: the client of src/carddav_client.rs. CardDav/Multistatus has `parse_multistatus`
--     as a machine over the events of the XML reader, CardDav/Href `resolve_href`, CardDav/Body
--     `read_limited` and `read_prefix`, CardDav/Escape `escape_xml`, CardDav/Discoveries the
--     cache of discoveries, CardDav/New `CardDavClient::new`, CardDav/Calls `send`, `propfind`
--     and `discover`, CardDav/Contacts and CardDav/Write the calls that read and write. The crate
--     `url` is the records `UrlParser` and `DavUrls`; `reqwest`, the clock, the XML reader and
--     the hash are the record `Transport`, whose server may do anything, let time pass too; one
--     `request` is one `send` of `reqwest`, with the redirects that it follows. The documents of
--     CardDav/Multistatus/Written are trees of the events that a reader makes; a read element
--     holds text alone there, and a response no response. CardDav/Service fills
--     the interface `Client` of the tools with this client, so that a theorem speaks of whole
--     tools.
--   * OauthProxy: src/oauth_proxy.rs, its store of pending authorizations, `authorize` and
--     `callback` as steps on the store, and `token` in OauthProxy/Token. The crate `url` and its
--     forms are the records `UrlParser` and `Forms`; the random state is an argument, which
--     the theorem on a whole authorization asks other requests not to take again.
--   * Validation: src/logto_oidc.rs, `validate_token` with the cache of positive answers
--     (Validation/Cache) and the keys of the authorization server. `jsonwebtoken` is the record
--     `Jwt`, HTTP, the clocks and the hash the record `Outside`; no theorem asks anything of
--     them. A call is one step, as if no other ran between its reads of the shared state.
--   * Config: src/config.rs, `Config::new` in Config itself and `Config::from_env` in Config/Env,
--     where the environment is any function from names to variables. Config/Numbers has the
--     parser of unsigned integers.
--   * Audit: the test of the resource that `tool_call` of src/audit.rs logs.
--   * Rpc: the `ErrorData` of the protocol, as far as the code makes one.
--
-- Bounds: the loop of `fold_vcard_line` runs on fuel, the length of the line in bytes, of which each
-- round takes at least one. All other loops are structural. The caps (64 values, 4096 and 65536
-- bytes of a field, 262144 of a card, 512 of a UID, 1024 records, 4096 buckets, 256
-- discoveries and validations, 2048 pending authorizations) are the source's.
--
-- Not modelled: HTTP, XML, URLs and their forms, signatures, tracing and metrics, which belong to
-- other crates, as do the redirects that `reqwest` follows by its default policy; the tools `whoami` and `upcoming_birthdays` with src/birthday.rs, the session
-- manager, the bearer middleware, the introspection of tokens, the metadata documents, the list
-- of accepted audiences, and the setting up in src/main.rs. A lock makes each call on a tracker
-- or a map one step; a poisoned lock is used like another one, as the limiter does, and is not
-- modelled where the client, the proxy or the validation give up on it. The texts of some errors
-- are left out or named by what they say.
pub mod Base
pub mod Vcard
pub mod Rpc
pub mod LastUsed
pub mod RateLimit
pub mod OauthRedirect
pub mod Tools
pub mod Audit
pub mod CardDav
pub mod Config
pub mod OauthProxy
pub mod Validation
