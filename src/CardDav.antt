-- ===== src/CardDav.antt =====
-- src/carddav_client.rs: the CardDAV client. What it calls of other crates is an interface here: the
-- URLs of the crate `url`, the HTTP requests of `reqwest`, the XML reader and the hash.
pub mod Multistatus
pub mod Href
pub mod Body
pub mod Escape
pub mod New
pub mod Discoveries
pub mod Calls
pub mod Contacts
pub mod Write
pub mod Own
pub mod Cached
pub mod Service
pub mod Examples
use carddav_mcp.Base.{ℕ, List, Option, String, Result}
use carddav_mcp.Base.Str.{Text}
use carddav_mcp.Base.HashMap.{HashMap}
use carddav_mcp.Base.Steps.{StepOf}
use carddav_mcp.OauthRedirect.{UrlParser}
use carddav_mcp.Tools.{CardDavError}

-- What the client calls of the crate `url` besides the parts of a URL, and `shown`, the string of
-- the characters of a text.
pub record DavUrls (u : UrlParser) : Type 0 where
  pub join : u.Url → Text → Option u.Url
  pub port_or_known_default : u.Url → Option ℕ
  pub set_path : u.Url → Text → u.Url
  pub without_query : u.Url → u.Url
  pub without_fragment : u.Url → u.Url
  pub pop_if_empty_push : u.Url → Text → Option u.Url
  pub shown : Text → String

pub record DavDiscovery : Type 0 where
  pub principal_href : Text
  pub addressbook_home_href : Text

pub record CachedDiscovery : Type 0 where
  pub discovery : DavDiscovery
  pub cached_at : ℕ

pub data Method : Type 0 where
  get_method put_method delete_method propfind_method report_method : Method

-- A request, with the headers by their names; `bearer` is the token of `bearer_auth`.
pub record Request (Url : Type 0) : Type 0 where
  pub method : Method
  pub url : Url
  pub bearer : Option Text
  pub headers : List (String × Text)
  pub body : Option Text

-- A response: its status, the headers that the client reads, where they can be read, and the chunks
-- of its body.
pub record HttpResponse : Type 0 where
  pub status : ℕ
  pub etag : Option Text
  pub location : Option Text
  pub content_length : Option ℕ
  pub chunks : List (Result String (List ℕ))

pub record DavHttpResponse : Type 0 where
  pub status : ℕ
  pub body : List ℕ
  pub etag : Option Text
  pub location : Option Text

pub record CardDavClient (Url : Type 0) : Type 0 where
  pub base_url : Url
  pub discovery_url : Url
  pub max_response_bytes : ℕ

-- The cache of the client and the world of the transport.
pub record DavWorld (Server : Type 0) : Type 0 where
  pub discoveries : HashMap Text CachedDiscovery
  pub server : Server

abbrev pub DavStep : Type 0 → Type 0 → Type 0
DavStep Server A = StepOf CardDavError (DavWorld Server) A
