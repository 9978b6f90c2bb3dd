-- ===== src/CardDav/Own.antt =====
-- src/carddav_client.rs: the requests that the client hands to `reqwest`, over all of its calls.
use carddav_mcp.Base.{
  ◌≡◌, refl, ◌∙◌, arith, subst, ◌||◌, ◌++◌, Option, none, some, String, Result, ok, err, Bool-cases,
  Option-cases, inl, inr, ◌==◌,
}
use carddav_mcp.Base.Str.{Text, codes}
use carddav_mcp.Base.Steps.{after_step, ◌>>=◌, lift, Keeps, Keeps-bind, Keeps-lift}
use carddav_mcp.OauthRedirect.{UrlParser}
use carddav_mcp.CardDav.{
  DavUrls, DavDiscovery, Request, HttpResponse, CardDavClient, DavWorld, DavStep,
}
use carddav_mcp.CardDav.Calls.{
  Transport, send, on_response, evict, propfind, discover, discover_fresh, remember,
}
use carddav_mcp.CardDav.Contacts.{
  list_address_books, query_contacts, list_contacts, search_contacts, get_contact,
}
use carddav_mcp.CardDav.Body.{read_limited}
use carddav_mcp.CardDav.Discoveries.{discovery_lookup}
use carddav_mcp.CardDav.Href.{resolve_href, IsOwn, resolve_href-IsOwn}
use carddav_mcp.CardDav.Write.{create_contact, update_contact, delete_contact, new_contact_url}

-- The calls of the client.
pub data Call : Type 0 where
  listing_books : Call
  listing : Text → Call
  searching : Text → Text → Call
  getting : Text → Call
  creating : Text → Text → Text → Call
  updating : Text → Option Text → Text → Call
  deleting : Text → Option Text → Call

module _ (u : UrlParser) (d : DavUrls u) where
  open u use {Url}

  -- The parts that a change of the path or of the query leaves alone.
  pub record IsSameSite (url url' : Url) : Type 0 where
    pub same_scheme : u.scheme url' ≡ u.scheme url
    pub same_host : u.host_str url' ≡ u.host_str url
    pub same_known_port : d.port_or_known_default url' ≡ d.port_or_known_default url
    pub same_user : u.username url' ≡ u.username url
    pub same_password : u.password url' ≡ u.password url

  -- What the crate `url` documents: a segment that is pushed changes the path alone,
  -- `set_query(None)` the query, and `set_fragment(None)` removes the fragment.
  pub record IsUrlCrate : Type 0 where
    pub push_site :
        (url url' : Url) (segment : Text)
        → d.pop_if_empty_push url segment ≡ some url'
        → IsSameSite url url'
    pub query_site : (url : Url) → IsSameSite url (d.without_query url)
    pub fragment_site : (url : Url) → IsSameSite url (d.without_fragment url)
    pub fragment_gone : (url : Url) → u.fragment (d.without_fragment url) ≡ none

  IsOwn-site :
      {base url url' : Url}
      → IsOwn u d base url
      → IsSameSite url url'
      → u.fragment url' ≡ none
      → IsOwn u d base url'
  IsOwn-site o s f = record {
    own_scheme = s.same_scheme ∙ o.own_scheme;
    own_host = s.same_host ∙ o.own_host;
    own_port = s.same_known_port ∙ o.own_port;
    no_user = s.same_user ∙ o.no_user;
    no_password = s.same_password ∙ o.no_password;
    no_fragment = f;
  }

  IsSameSite-trans : {a b c : Url} → IsSameSite a b → IsSameSite b c → IsSameSite a c
  IsSameSite-trans p q = record {
    same_scheme = q.same_scheme ∙ p.same_scheme;
    same_host = q.same_host ∙ p.same_host;
    same_known_port = q.same_known_port ∙ p.same_known_port;
    same_user = q.same_user ∙ p.same_user;
    same_password = q.same_password ∙ p.same_password;
  }

  new_contact_url-IsOwn :
      (laws : IsUrlCrate) (base url url' : Url) (href uid : Text)
      → IsOwn u d base url
      → new_contact_url u d href uid url ≡ ok url'
      → IsOwn u d base url'
  unfolding new_contact_url
  new_contact_url-IsOwn laws base url url' href uid own h =
      elim (Option-cases (d.pop_if_empty_push url (uid ++ codes ".vcf"))) [
        | inl bad ↦ absurd (ground arith)
        | inr (p, e) ↦
            let e' : d.without_fragment (d.without_query p) ≡ url' = ground arith in
            subst (IsOwn u d base) e' (
              IsOwn-site own
                (IsSameSite-trans (laws.push_site url p _ e)
                  (IsSameSite-trans (laws.query_site p) (laws.fragment_site _)))
                (laws.fragment_gone _))
      ]

module _ (u : UrlParser) (d : DavUrls u) (t : Transport u.Url) (client : CardDavClient u.Url)
    (token : Text) where
  open u use {Url}
  open t use {Server}

  -- One call, of which only the world is kept.
  unfoldable pub perform : Call → DavWorld Server → DavWorld Server
  perform listing_books w = (list_address_books u d t client token w).0
  perform (listing href) w = (list_contacts u d t client token href w).0
  perform (searching href query) w = (search_contacts u d t client token href query w).0
  perform (getting href) w = (get_contact u d t client token href w).0
  perform (creating href uid vcard) w = (create_contact u d t client token href uid vcard w).0
  perform (updating href etag vcard) w = (update_contact u d t client token href etag vcard w).0
  perform (deleting href etag) w = (delete_contact u d t client token href etag w).0

  -- A request whose URL is on the client's own server, with the caller's token.
  pub record IsOwnRequest (r : Request Url) : Type 0 where
    pub own_url : IsOwn u d client.base_url r.url
    pub own_token : r.bearer ≡ some token

  module _ (P : Server → Type 0)
      (keep : (r : Request Url) (s : Server) → IsOwnRequest r → P s → P (t.request r s).0) where
    abbrev pub Stays : DavWorld Server → Type 0
    Stays w = P w.server

    Keeps-resolve :
        {B : Type 0} (href : Text) (f : Url → DavStep Server B)
        → ((url : Url) → IsOwn u d client.base_url url → Keeps Stays (f url))
        → Keeps Stays (lift (resolve_href u d client.base_url href) >>= f)
    Keeps-resolve href f k =
        Keeps-lift Stays (resolve_href u d client.base_url href) f
          (λ url e. k url ((resolve_href-IsOwn u d client.base_url href url).0 e).3)

    on_response-Keeps :
        (answer : Result String HttpResponse) → Keeps Stays (on_response u d t client token answer)
    unfolding on_response evict after_step
    on_response-Keeps (err e) w p = p
    on_response-Keeps (ok response) w p =
        elim (Bool-cases (response.status == 401 || response.status == 403)) [
          | inl refused ↦ rw refused p
          | inr answered ↦ rw answered (
              Keeps-lift Stays
                (read_limited client.max_response_bytes response.content_length response.chunks) _
                (λ body e w' p'. p') w p)
        ]

    send-Keeps :
        (r : Request Url)
        → IsOwn u d client.base_url r.url
        → Keeps Stays (send u d t client token r)
    unfolding send
    send-Keeps r own w p = on_response-Keeps _ _ (
        keep (record r { bearer = some token }) w.server
          (record { own_url = own; own_token = refl }) p)

    propfind-Keeps :
        (url : Url) (depth body : Text)
        → IsOwn u d client.base_url url
        → Keeps Stays (propfind u d t client token url depth body)
    unfolding propfind
    propfind-Keeps url depth body own =
        Keeps-bind Stays _ _ (send-Keeps _ own) (λ response. Keeps-lift Stays _ _ (λ x e w p. p))

    remember-Keeps :
        (discovery : DavDiscovery) → Keeps Stays (remember u d t client token discovery)
    unfolding remember
    remember-Keeps discovery w p = p

    discover_fresh-Keeps :
        IsOwn u d client.base_url client.discovery_url
        → Keeps Stays (discover_fresh u d t client token)
    unfolding discover_fresh
    discover_fresh-Keeps own = Keeps-bind Stays _ _ (propfind-Keeps _ _ _ own) (λ response.
        Keeps-lift Stays _ _ (λ responses e1. Keeps-lift Stays _ _ (λ href e2.
          Keeps-resolve href _ (λ url own_url.
            Keeps-bind Stays _ _ (propfind-Keeps _ _ _ own_url) (λ home.
              Keeps-lift Stays _ _ (λ homes e3. Keeps-lift Stays _ _ (λ home_href e4.
                Keeps-resolve home_href _ (λ home_url own_home.
                  Keeps-bind Stays _ _ (remember-Keeps _) (λ x w' p'. p')))))))))

    discover-Keeps :
        IsOwn u d client.base_url client.discovery_url → Keeps Stays (discover u d t client token)
    unfolding discover
    discover-Keeps own w p =
        elim (Option-cases (discovery_lookup w.discoveries (t.hash_token token) (t.now w.server))) [
          | inr (discovery, e) ↦ rw (e, discover) p
          | inl missing ↦ rw (missing, discover) (discover_fresh-Keeps own w p)
        ]

    list_address_books-Keeps :
        IsOwn u d client.base_url client.discovery_url
        → Keeps Stays (list_address_books u d t client token)
    unfolding list_address_books
    list_address_books-Keeps own = Keeps-bind Stays _ _ (discover-Keeps own) (λ discovery.
        Keeps-resolve _ _ (λ url own_url.
          Keeps-bind Stays _ _ (propfind-Keeps _ _ _ own_url)
            (λ response. Keeps-lift Stays _ _ (λ parsed e w p. p))))

    query_contacts-Keeps :
        (href body : Text) → Keeps Stays (query_contacts u d t client token href body)
    unfolding query_contacts
    query_contacts-Keeps href body = Keeps-resolve href _ (λ url own.
        Keeps-bind Stays _ _ (send-Keeps _ own)
          (λ response. Keeps-lift Stays _ _ (λ x e. Keeps-lift Stays _ _ (λ parsed e' w p. p))))

    -- What requests to its own site with the caller's token keep, every call of the client keeps.
    pub perform-IsOwnRequest :
        IsUrlCrate u d
        → IsOwn u d client.base_url client.discovery_url
        → (call : Call) (w : DavWorld Server) → P w.server
        → P (perform call w).server
    unfolding perform list_contacts search_contacts get_contact create_contact update_contact
        delete_contact
    perform-IsOwnRequest laws own listing_books w p = list_address_books-Keeps own w p
    perform-IsOwnRequest laws own (listing href) w p = query_contacts-Keeps href _ w p
    perform-IsOwnRequest laws own (searching href query) w p =
        Keeps-lift Stays _ _ (λ x e. Keeps-lift Stays _ _ (λ x' e'. query_contacts-Keeps href _)) w
          p
    perform-IsOwnRequest laws own (getting href) w p =
        Keeps-resolve href _
          (λ url own_url.
            Keeps-bind Stays _ _ (send-Keeps _ own_url) (λ response.
              Keeps-lift Stays _ _ (λ x e. Keeps-lift Stays _ _ (λ vcard e' w' p'. p'))))
          w p
    perform-IsOwnRequest laws own (creating href uid vcard) w p =
        Keeps-resolve href _
          (λ book own_book. Keeps-lift Stays _ _ (λ url e.
            Keeps-bind Stays _ _
              (send-Keeps _ (new_contact_url-IsOwn u d laws _ book url href uid own_book e))
              (λ response w' p'. p')))
          w p
    perform-IsOwnRequest laws own (updating href etag vcard) w p =
        Keeps-resolve href _
          (λ url own_url. Keeps-bind Stays _ _ (send-Keeps _ own_url) (λ response w' p'. p')) w p
    perform-IsOwnRequest laws own (deleting href etag) w p =
        Keeps-resolve href _
          (λ url own_url. Keeps-bind Stays _ _ (send-Keeps _ own_url) (λ response w' p'. p')) w p
