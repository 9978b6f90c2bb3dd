-- ===== src/Tools.antt =====
-- The tools of src/mcp.rs: what they share, as steps on the service. A step threads the limiter and
-- the world of the CardDAV client, which is an interface here: its calls change the world and
-- answer a result. Spans, log lines and metrics are left out.
pub mod Search
pub mod Listing
pub mod Listed
pub mod Write
pub mod Steps
pub mod Written
pub mod Created
pub mod Found
pub mod Examples
use Prim.Native.String.{◌++◌ as append}
use carddav_mcp.Base.{
  ℕ, Bool, true, false, List, Option, none, some, String, Result, ok, err, ◌==◌, if◌then◌else◌,
}
use carddav_mcp.Base.Int.{ℤ, pos, negsuc}
use carddav_mcp.Base.Str.{Text}
use carddav_mcp.Base.Steps.{StepOf, ◌>>=◌, ◌>>◌, lift}
use carddav_mcp.Rpc.{ErrorData, minus, invalid_params, internal_error}
use carddav_mcp.RateLimit.{Governor, Limiter, Category, Readings, RateLimited, check}

pub record DavAddressBook : Type 0 where
  pub href : Text
  pub display_name : Text
  pub ctag : Option Text

pub record DavContact : Type 0 where
  pub href : Text
  pub etag : Option Text
  pub vcard : Text

pub record DavWriteResult : Type 0 where
  pub href : Text
  pub etag : Option Text

-- `CardDavError` of src/carddav_client.rs. The errors that wrap others hold the text that they show.
pub data CardDavError : Type 0 where
  unauthorized not_found conflict too_large : CardDavError
  invalid_href invalid_data http upstream xml : String → CardDavError

abbrev rate_limited_code : ℤ
rate_limited_code = minus 32029

abbrev pub auth_expired_code : ℤ
auth_expired_code = minus 32028

-- `error.to_string()`
display : CardDavError → String
display unauthorized = "not authenticated to Stalwart CardDAV (token expired or bearer rejected)"
display not_found = "CardDAV resource was not found"
display conflict = "CardDAV write conflicted with the current ETag"
display too_large = "CardDAV response exceeds the configured size cap"
display (invalid_href s) = append "unsafe or invalid DAV href: " s
display (invalid_data s) = append "invalid CardDAV data: " s
display (http s) = append "CardDAV transport error: " s
display (upstream s) = append "CardDAV endpoint returned non-success status " s
display (xml s) = append "invalid CardDAV XML: " s

unfoldable pub map_carddav_err : CardDavError → ErrorData
unfolding display
map_carddav_err unauthorized = record {
  code = auth_expired_code;
  message = "auth expired or Stalwart rejected bearer; reconnect";
}
map_carddav_err not_found = invalid_params (display not_found)
map_carddav_err conflict = invalid_params (display conflict)
map_carddav_err too_large = invalid_params (display too_large)
map_carddav_err (invalid_href s) = invalid_params (display (invalid_href s))
map_carddav_err (invalid_data s) = invalid_params (display (invalid_data s))
map_carddav_err (http s) = internal_error (display (http s))
map_carddav_err (upstream s) = internal_error (display (upstream s))
map_carddav_err (xml s) = internal_error (display (xml s))

abbrev pub missing_identity_err : ErrorData
missing_identity_err = internal_error "no authenticated identity in request context"

abbrev pub missing_token_err : ErrorData
missing_token_err = internal_error "no access token in request context"

abbrev pub rate_limit_err : ErrorData
rate_limit_err = record {
  code = rate_limited_code;
  message = "rate limit exceeded - try again in a minute";
}

abbrev expired_err : ErrorData
expired_err = record {
  code = auth_expired_code;
  message =
      "Your carddav-mcp session has expired or Stalwart rejected its bearer. Disconnect and reconnect the MCP client to obtain a fresh Logto token, then retry.";
}

-- What the tools call: the CardDAV client, the cache of tokens, the hash of a token, and the maker
-- of fresh UIDs.
pub record Client : Type 1 where
  pub World : Type 0
  pub list_address_books : Text → World → World × Result CardDavError (List DavAddressBook)
  pub list_contacts : Text → Text → World → World × Result CardDavError (List DavContact)
  pub search_contacts : Text → Text → Text → World → World × Result CardDavError (List DavContact)
  pub get_contact : Text → Text → World → World × Result CardDavError DavContact
  pub create_contact :
      Text → Text → Text → Text → World → World × Result CardDavError DavWriteResult
  pub update_contact :
      Text → Text → Option Text → Text → World → World × Result CardDavError DavWriteResult
  pub delete_contact : Text → Text → Option Text → World → World × Result CardDavError (Unit {0})
  pub evict : Text → World → World
  pub drop_token : Text → World → World
  pub generate_uid : World → World × Text
  pub token_hash : Text → Text

-- What the middleware put into the request, and the readings of the clock.
pub record Context : Type 0 where
  pub token : Option Text
  pub user_id : Option Text
  pub readings : Readings
  pub sub_readings : Readings

pub record Service (g : Governor) (World : Type 0) : Type 0 where
  pub limiter : Limiter g
  pub world : World

-- A step of a tool, which may end it with an error.
abbrev pub Step : Type 0 → Type 0 → Type 0
Step S A = StepOf ErrorData S A

-- `ok_or_else`
abbrev pub ok_or : {A : Type 0} → Option A → ErrorData → Result ErrorData A
ok_or none e = err e
ok_or (some a) e = ok a

abbrev pub map_err : {A : Type 0} → Result CardDavError A → Result ErrorData A
map_err (ok a) = ok a
map_err (err e) = err (map_carddav_err e)

abbrev limited : Result RateLimited (Unit {0}) → Result ErrorData (Unit {0})
limited (ok t) = ok tt
limited (err e) = err rate_limit_err

module _ (g : Governor) (c : Client) where
  open c use {World}

  -- A call of the client, with its error mapped.
  abbrev pub call :
      {A : Type 0} → (World → World × Result CardDavError A) → Step (Service g World) A
  call f s = (record s { world = (f s.world).0 }, map_err (f s.world).1)

  unfoldable pub charge_limiter :
      Context → Category → Text → Text → Step (Service g World) (Unit {0})
  charge_limiter ctx category token user_id s =
      let (limiter', answer) =
        check g s.limiter (c.token_hash token) (some user_id) category ctx.readings
          ctx.sub_readings in
      (record s { limiter = limiter' }, limited answer)

  unfoldable pub rate_limit_check : Context → Category → Step (Service g World) (Unit {0})
  unfolding charge_limiter
  rate_limit_check ctx category = do
    token ← lift (ok_or ctx.token missing_token_err)
    user_id ← lift (ok_or ctx.user_id missing_identity_err)
    charge_limiter ctx category token user_id

  -- `evict` and `drop_token`, if there is a token.
  abbrev pub forget : Option Text → World → World
  forget none w = w
  forget (some token) w = c.drop_token token (c.evict token w)

  unfoldable pub is_auth_expired : ErrorData → Bool
  is_auth_expired e = elim e.code [ pos n ↦ false | negsuc n ↦ n == 32027 ]

  -- `react_to_auth_expiry`, on the service and the result of a tool.
  unfoldable pub react_to_auth_expiry :
      {A : Type 0}
      → Context
      → Service g World × Result ErrorData A
      → Service g World × Result ErrorData A
  unfolding is_auth_expired
  react_to_auth_expiry ctx (s, ok a) = (s, ok a)
  react_to_auth_expiry ctx (s, err e) =
      if is_auth_expired e
      then (record s { world = forget ctx.token s.world }, err expired_err)
      else (s, err e)
