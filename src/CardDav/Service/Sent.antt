-- ===== src/CardDav/Service/Sent.antt =====
-- The requests that the tools hand to the HTTP client: to which URL, and with which token.
use carddav_mcp.Base.{◌≡◌, some}
use carddav_mcp.Base.Str.{Text}
use carddav_mcp.OauthRedirect.{UrlParser}
use carddav_mcp.RateLimit.{Governor}
use carddav_mcp.Tools.{Client, Context, Service}
use carddav_mcp.CardDav.{DavUrls, Request, CardDavClient, DavWorld}
use carddav_mcp.CardDav.Calls.{Transport}
use carddav_mcp.CardDav.Href.{IsOwn}
use carddav_mcp.CardDav.Own.{IsOwnRequest, IsUrlCrate}
use carddav_mcp.CardDav.Service.{Others, service_client}

module _ (u : UrlParser) (d : DavUrls u) (t : Transport u.Url) (client : CardDavClient u.Url)
    (o : Others) (g : Governor) (laws : IsUrlCrate u d)
    (own : IsOwn u d client.base_url client.discovery_url) (ctx : Context) (P : t.Server → Type 0)
    (keep : (token : Text) (r : Request u.Url) (s : t.Server)
      → ctx.token ≡ some token
      → IsOwnRequest u d t client token r
      → P s
      → P (t.request r s).0) where
  open t use {Server}

  abbrev c : Client
  c = service_client u d t client o

  abbrev World : Type 0
  World = Service g (DavWorld Server × o.Rest)

  abbrev Stays : World → Type 0
  Stays s = P s.world.0.server

  abbrev IsKeeping : (DavWorld Server → DavWorld Server) → Type 0
  IsKeeping f = (w : DavWorld Server) → P w.server → P (f w).server
