-- ===== src/OauthProxy/Examples.antt =====
-- The theorems on src/oauth_proxy.rs, for one client whose redirect URI is listed.
use carddav_mcp.OauthProxy.Forwarded.{IsForwarded, forwarded_pairs-IsForwarded}
use carddav_mcp.Base.{
  List, All, ◌≡◌, ◌≢◌, refl, subst, sym, ◌∙◌, [], ◌∷◌, Option, none, some, ok, map, ◌==◌, arith,
}
use carddav_mcp.Base.Str.{
  Text, Text-discrete, codes, same, split, split_once, first_piece, after_first, trim,
  trim_start_matches, trim_end_matches, is_whitespace, len, len_utf8, any,
}
use carddav_mcp.Base.HashMap.Laws.{get-cons_head}
use carddav_mcp.Base.HashMap.{insert, remove}
use carddav_mcp.OauthRedirect.{
  UrlParser, is_allowed_redirect_uri, is_valid, validate_redirect_uri, parse_url, check_scheme,
  contains,
}
use carddav_mcp.Config.{is_absolute_http_uri, is_http_url}
use carddav_mcp.OauthProxy.{
  Forms, Pairs, Pending, Store, Proxy, redirect, authorize, callback, find_pair, last_pair,
  remember_client, insert_pending, drop_expired, forwarded_pairs, set_values, or_push,
  apply_dav_resource, or_empty,
}
use carddav_mcp.OauthProxy.Flow.{IsBounced, callback-IsBounced}
use carddav_mcp.OauthProxy.Returned.{
  IsReturnedOnce, callback-take, bounced-live, authorize-callback,
}
use carddav_mcp.OauthProxy.Answered.{first_of, last_of}
use carddav_mcp.OauthProxy.Rewritten.{values_of, same-differs}
use carddav_mcp.OauthProxy.Spared.{IsSparing, IsNotIssuing}
use carddav_mcp.OauthProxy.Stored.{
  some-injective, Visit, authorizing, returning, stored, visited, visit,
}
use carddav_mcp.OauthProxy.Token.{
  IsRelayed, token_pairs, relay_pairs, is_authorization_code, token_pairs-IsRelayed,
}

abbrev https_parser : UrlParser
https_parser = record {
  Url = Text;
  parse = λ uri. some uri;
  scheme = λ url. codes "https";
  host_str = λ url. some (codes "c.test");
  path = λ url. codes "/";
  query = λ url. none;
  fragment = λ url. none;
  username = λ url. [];
  password = λ url. none;
}

abbrev pair_of_part : Text → Text × Text
pair_of_part part = elim (split_once b'=' part) [ none ↦ (part, []) | some pair ↦ pair ]

-- Forms without escapes.
abbrev plain_forms : Forms https_parser
plain_forms = record {
  parse_pairs = λ q. map pair_of_part (split (λ c. c == b'&') q);
  serialize = λ pairs. [];
  appended = λ url pairs. url;
}

abbrev cb : Text
cb = codes "https://c.test/"

abbrev proxy : Proxy
proxy = record {
  logto_base = codes "https://l.test";
  callback_url = codes "https://p.test/oauth/callback";
  allowed_redirect_uris = cb ∷ [];
  dav_audience = codes "https://p.test";
}

abbrev asking : Option Text
asking = some (codes "redirect_uri=https://c.test/&state=x")

abbrev waiting : Pending
waiting = record { client_redirect_uri = cb; client_state = some (codes "x"); created = 5 }

abbrev store : Store
store = (codes "r", waiting) ∷ []

forwarded_pairs-IsForwarded_example :
    IsForwarded https_parser proxy
      (codes "r")
      ((codes "state", codes "x") ∷ [])
      (forwarded_pairs https_parser proxy (codes "r") ((codes "state", codes "x") ∷ []))
forwarded_pairs-IsForwarded_example =
    forwarded_pairs-IsForwarded https_parser proxy (codes "r") ((codes "state", codes "x") ∷ [])

stored_is : stored https_parser plain_forms proxy (authorizing asking (codes "r") 5 6 ∷ []) ≡ store
unfolding visited visit authorize split split_once first_piece after_first find_pair same
    is_allowed_redirect_uri is_valid validate_redirect_uri parse_url check_scheme contains trim
    trim_start_matches trim_end_matches is_whitespace remember_client len len_utf8 insert_pending
    drop_expired insert
stored_is = refl

asked :
    authorize https_parser plain_forms proxy asking
      (codes "r")
      5
      6
      (stored https_parser plain_forms proxy [])
    ≡ (store, redirect (codes "https://l.test/auth?"))
unfolding visited authorize split split_once first_piece after_first find_pair same
    is_allowed_redirect_uri is_valid validate_redirect_uri parse_url check_scheme contains trim
    trim_start_matches trim_end_matches is_whitespace remember_client len len_utf8 insert_pending
    drop_expired insert
asked = refl

abbrev returning_with : Option Text
returning_with = some (codes "state=r&code=k")

client_is :
    first_of (values_of (codes "redirect_uri") (plain_forms.parse_pairs (or_empty asking)))
    ≡ some cb
unfolding values_of split split_once first_piece after_first same
client_is = refl

state_is :
    last_of (values_of (codes "state") (plain_forms.parse_pairs (or_empty returning_with)))
    ≡ some (codes "r")
unfolding values_of split split_once first_piece after_first same
state_is = refl

-- What the callback leaves, and where it goes.
abbrev left : Store
left = remove Text-discrete (codes "r") store

returned :
    callback https_parser plain_forms proxy returning_with 9
      (stored https_parser plain_forms proxy (authorizing asking (codes "r") 5 6 ∷ []))
    ≡ (left, redirect cb)
unfolding last_pair split split_once first_piece after_first same
returned =
    subst (λ g. callback https_parser plain_forms proxy returning_with 9 g ≡ (left, redirect cb))
      (sym stored_is)
      (callback-take https_parser plain_forms proxy returning_with 9 store (codes "r")
          (some waiting) refl (get-cons_head Text-discrete (codes "r") waiting [])
        ∙ bounced-live https_parser plain_forms proxy
            (plain_forms.parse_pairs (or_empty returning_with)) left waiting cb 9 refl
            (omega arith))

callback-IsBounced_example :
    IsBounced https_parser plain_forms proxy
      (authorizing asking (codes "r") 5 6 ∷ [])
      (plain_forms.parse_pairs (or_empty returning_with))
      9
      left
      cb
callback-IsBounced_example =
    callback-IsBounced https_parser plain_forms proxy (authorizing asking (codes "r") 5 6 ∷ [])
      returning_with 9 left cb returned

-- Another client asks before the first is sent back, and one returns with another state.
abbrev others : List Visit
others = returning (some (codes "state=s")) 8 ∷ authorizing asking (codes "s") 6 7 ∷ []

states-differ : codes "s" ≢ codes "r"
unfolding same
states-differ = same-differs (codes "s") (codes "r") refl

others-IsSparing : All (IsSparing https_parser plain_forms proxy (codes "r") 5) others
unfolding values_of split split_once first_piece after_first same
others-IsSparing = (λ e. states-differ (some-injective e), ((states-differ, omega arith), tt))

others-IsNotIssuing : All (IsNotIssuing https_parser plain_forms proxy (codes "r")) others
others-IsNotIssuing = (tt, (states-differ, tt))

authorize-callback_example :
    IsReturnedOnce https_parser plain_forms proxy
      (plain_forms.parse_pairs (or_empty asking))
      (plain_forms.parse_pairs (or_empty returning_with))
      cb
      (callback https_parser plain_forms proxy returning_with 9
        (visited https_parser plain_forms proxy store others)).1
      (callback https_parser plain_forms proxy returning_with 10 (
        visited https_parser plain_forms proxy
          (callback https_parser plain_forms proxy returning_with 9
            (visited https_parser plain_forms proxy store others)).0
          others)).1
authorize-callback_example =
    authorize-callback https_parser plain_forms proxy [] asking (codes "r") cb 5 6 store
      (codes "https://l.test/auth?") cb others others returning_with returning_with 9 10 client_is
      refl asked others-IsSparing state_is (omega arith) others-IsNotIssuing state_is

abbrev exchange : Pairs
exchange = (codes "grant_type", codes "authorization_code") ∷ (codes "redirect_uri", cb) ∷ []

abbrev relayed : Pairs
relayed =
    (codes "grant_type", codes "authorization_code")
    ∷ (codes "redirect_uri", codes "https://p.test/oauth/callback")
    ∷ (codes "resource", codes "https://p.test")
    ∷ []

relayed_is : token_pairs https_parser proxy exchange ≡ ok relayed
unfolding token_pairs relay_pairs is_authorization_code same is_allowed_redirect_uri is_valid
    validate_redirect_uri parse_url check_scheme contains trim trim_start_matches trim_end_matches
    is_whitespace apply_dav_resource is_absolute_http_uri is_http_url any set_values or_push
    find_pair
relayed_is = refl

token_pairs-IsRelayed_example : IsRelayed https_parser proxy exchange relayed
token_pairs-IsRelayed_example = token_pairs-IsRelayed https_parser proxy exchange relayed relayed_is
