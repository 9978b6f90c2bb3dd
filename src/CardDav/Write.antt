-- ===== src/CardDav/Write.antt =====
-- src/carddav_client.rs: the writing of contacts.
use carddav_mcp.Base.{◌||◌, [], ◌∷◌, ◌++◌, Option, none, some, Result, ok, err, if◌then◌else◌, ◌==◌}
use carddav_mcp.Base.Str.{Text, codes}
use carddav_mcp.Base.Steps.{◌>>=◌, lift}
use carddav_mcp.OauthRedirect.{UrlParser}
use carddav_mcp.Tools.{CardDavError, not_found, conflict, upstream, invalid_href, DavWriteResult}
use carddav_mcp.CardDav.{
  DavUrls, put_method, delete_method, DavHttpResponse, CardDavClient, DavStep,
}
use carddav_mcp.CardDav.Calls.{Transport, send}
use carddav_mcp.CardDav.Contacts.{unwrap_or}
use carddav_mcp.CardDav.Href.{resolve_href}

module _ (u : UrlParser) (d : DavUrls u) where
  open u use {Url}

  -- `path_segments_mut().pop_if_empty().push(&filename)`
  abbrev pushed : Text → Option Url → Result CardDavError Url
  pushed addressbook_href none = err (invalid_href (d.shown addressbook_href))
  pushed addressbook_href (some url) = ok (d.without_fragment (d.without_query url))

  unfoldable pub new_contact_url : Text → Text → Url → Result CardDavError Url
  new_contact_url addressbook_href uid url =
      pushed addressbook_href (d.pop_if_empty_push url (uid ++ codes ".vcf"))

module _ (u : UrlParser) (d : DavUrls u) (t : Transport u.Url) (client : CardDavClient u.Url) where
  open u use {Url}
  open t use {Server}

  abbrev resolve : Text → Result CardDavError Url
  resolve = resolve_href u d client.base_url

  -- The `match` on the status, for each of the three writes.
  abbrev written_to : Text → DavHttpResponse → DavWriteResult
  written_to href response = record {
    href = unwrap_or response.location href;
    etag = response.etag;
  }

  unfoldable pub created : Text → DavHttpResponse → Result CardDavError DavWriteResult
  created href response =
      if response.status == 201 || response.status == 204 || response.status == 200
      then ok (written_to href response)
      else if response.status == 412 || response.status == 409
      then err conflict
      else err (upstream (t.shown_status response.status))

  unfoldable pub updated : Text → DavHttpResponse → Result CardDavError DavWriteResult
  updated href response =
      if response.status == 200 || response.status == 201 || response.status == 204
      then ok (written_to href response)
      else if response.status == 404
      then err not_found
      else if response.status == 412 || response.status == 409
      then err conflict
      else err (upstream (t.shown_status response.status))

  unfoldable pub deleted : DavHttpResponse → Result CardDavError (Unit {0})
  deleted response =
      if response.status == 200 || response.status == 204
      then ok tt
      else if response.status == 404
      then err not_found
      else if response.status == 412 || response.status == 409
      then err conflict
      else err (upstream (t.shown_status response.status))

  unfoldable pub create_contact : Text → Text → Text → Text → DavStep Server DavWriteResult
  create_contact token addressbook_href uid vcard = do
    book_url ← lift (resolve addressbook_href)
    url ← lift (new_contact_url u d addressbook_href uid book_url)
    response ← send u d t client token (record {
      method = put_method;
      url = url;
      bearer = none;
      headers =
          ("Content-Type", codes "text/vcard; charset=utf-8") ∷ ("If-None-Match", codes "*") ∷ [];
      body = some vcard;
    })
    lift (created (u.path url) response)

  unfoldable pub update_contact : Text → Text → Option Text → Text → DavStep Server DavWriteResult
  update_contact token contact_href etag vcard = do
    url ← lift (resolve contact_href)
    response ← send u d t client token (record {
      method = put_method;
      url = url;
      bearer = none;
      headers =
          ("Content-Type", codes "text/vcard; charset=utf-8")
          ∷ ("If-Match", unwrap_or etag (codes "*"))
          ∷ [];
      body = some vcard;
    })
    lift (updated contact_href response)

  unfoldable pub delete_contact : Text → Text → Option Text → DavStep Server (Unit {0})
  delete_contact token contact_href etag = do
    url ← lift (resolve contact_href)
    response ← send u d t client token (record {
      method = delete_method;
      url = url;
      bearer = none;
      headers = ("If-Match", unwrap_or etag (codes "*")) ∷ [];
      body = none;
    })
    lift (deleted response)
