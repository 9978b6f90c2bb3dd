-- ===== src/Validation/Cache.antt =====
-- src/logto_oidc.rs: the cache of positive validations, by the hash of the token.
use carddav_mcp.Base.{
  ℕ, ◌+◌, ◌-◌, min, not, ◌&&◌, Option, none, some, length, leb, ltb, if◌then◌else◌,
}
use carddav_mcp.Base.Int.{ℤ, pos, negsuc}
use carddav_mcp.Base.Str.{Text, Text-discrete}
use carddav_mcp.Base.HashMap.{HashMap, get, contains_key, insert, remove_least, retain}

abbrev pub max_cache_ttl : ℕ
max_cache_ttl = 60

abbrev pub cache_cap : ℕ
cache_cap = 256

pub record AuthenticatedIdentity : Type 0 where
  pub user_id : Text
  pub email : Option Text
  pub name : Option Text
  pub exp : Option ℤ

pub record CacheEntry : Type 0 where
  pub identity : AuthenticatedIdentity
  pub expires_at : ℕ

abbrev pub TokenCache : Type 0
TokenCache = HashMap Text CacheEntry

abbrev live_identity : ℕ → Option CacheEntry → Option AuthenticatedIdentity
live_identity now none = none
live_identity now (some e) = if ltb now e.expires_at then some e.identity else none

unfoldable pub cache_lookup : TokenCache → Text → ℕ → Option AuthenticatedIdentity
cache_lookup cache key now = live_identity now (get Text-discrete key cache)

-- `(exp - now).max(0)`, of a time since the epoch.
abbrev pub remaining : ℤ → ℕ → ℕ
remaining (pos exp) now = exp - now
remaining (negsuc n) now = 0

abbrev pub cache_ttl : Option ℤ → ℕ → ℕ
cache_ttl none unix = max_cache_ttl
cache_ttl (some exp) unix = min (remaining exp unix) max_cache_ttl

-- The two `if`s of `cache_insert`.
unfoldable pub drop_expired : TokenCache → ℕ → TokenCache
drop_expired cache now =
    if leb cache_cap (length cache) then retain (λ e. ltb now e.expires_at) cache else cache

unfoldable pub drop_expiring : TokenCache → Text → TokenCache
drop_expiring cache key =
    if leb cache_cap (length cache) && not (contains_key Text-discrete key cache)
    then remove_least Text-discrete (λ e. e.expires_at) cache
    else cache

-- `cache_insert`, at the time `unix` since the epoch and `now` of the clock.
unfoldable pub cache_insert :
    TokenCache → Text → AuthenticatedIdentity → Option ℤ → ℕ → ℕ → TokenCache
cache_insert cache key identity exp unix now =
    insert Text-discrete key (record { identity = identity; expires_at = now + cache_ttl exp unix })
      (drop_expiring (drop_expired cache now) key)
