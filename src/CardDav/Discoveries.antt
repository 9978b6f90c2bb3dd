-- ===== src/CardDav/Discoveries.antt =====
-- src/carddav_client.rs: the cache of discoveries, by the hash of the token. A call reads the clock
-- once for the ages and once for the entry that it puts in.
use carddav_mcp.Base.{
  ℕ, ◌+◌, ◌-◌, ◌≤◌, ◌<◌, ◌≡◌, arith, Bool, not, ◌&&◌, Option, none, some, length, leb, ltb,
  if◌then◌else◌, inl, inr, Bool-cases, leb→le, leb_false→lt, lt→ltb,
}
use carddav_mcp.Base.Str.{Text, Text-discrete}
use carddav_mcp.Base.HashMap.{HashMap, get, contains_key, insert, remove, remove_least, retain}
use carddav_mcp.Base.HashMap.Laws.{get-retain}
use carddav_mcp.Base.HashMap.Bounded.{
  IsBounded, IsLeast, IsKept, IsPutIn, IsPutIn-insert, IsKept-room, IsKept-old, IsKept-least,
  IsKept-retain, IsBounded-retain,
}
use carddav_mcp.CardDav.{DavDiscovery, CachedDiscovery}

-- Seconds.
abbrev pub discovery_ttl : ℕ
discovery_ttl = 3600

abbrev pub discovery_cap : ℕ
discovery_cap = 256

abbrev pub Discoveries : Type 0
Discoveries = HashMap Text CachedDiscovery

-- `entry.cached_at.elapsed() < DISCOVERY_TTL`
abbrev pub is_fresh : ℕ → CachedDiscovery → Bool
is_fresh now entry = ltb (now - entry.cached_at) discovery_ttl

abbrev fresh_discovery : ℕ → Option CachedDiscovery → Option DavDiscovery
fresh_discovery now none = none
fresh_discovery now (some entry) = if is_fresh now entry then some entry.discovery else none

unfoldable pub discovery_lookup : Discoveries → Text → ℕ → Option DavDiscovery
discovery_lookup cache key now = fresh_discovery now (get Text-discrete key cache)

-- The two `if`s of `discovery_insert`.
unfoldable pub drop_expired : Discoveries → ℕ → Discoveries
drop_expired cache now =
    if leb discovery_cap (length cache) then retain (is_fresh now) cache else cache

unfoldable pub drop_oldest : Discoveries → Text → Discoveries
drop_oldest cache key =
    if leb discovery_cap (length cache) && not (contains_key Text-discrete key cache)
    then remove_least Text-discrete (λ entry. entry.cached_at) cache
    else cache

unfoldable pub discovery_insert : Discoveries → Text → DavDiscovery → ℕ → ℕ → Discoveries
discovery_insert cache key discovery checked now =
    insert Text-discrete key (record { discovery = discovery; cached_at = now })
      (drop_oldest (drop_expired cache checked) key)

-- `evict`
unfoldable pub evict_discovery : Discoveries → Text → Discoveries
evict_discovery cache key = remove Text-discrete key cache

-- Why an entry is lost when another is put in: it was too old, or it was the oldest of those that
-- were not, in a full cache.
pub data IsLost (cache : Discoveries) (now : ℕ) (e : CachedDiscovery) : Type 0 where
  expired : discovery_cap ≤ length cache → discovery_ttl ≤ now - e.cached_at → IsLost cache now e
  oldest :
      discovery_cap ≤ length cache
      → ((k : Text) (d : CachedDiscovery)
          → get Text-discrete k cache ≡ some d
          → now - d.cached_at < discovery_ttl
          → e.cached_at ≤ d.cached_at)
      → IsLost cache now e

drop_oldest-IsKept :
    (cache : Discoveries) (key : Text) (Gone : CachedDiscovery → Type 0)
    → IsBounded Text-discrete discovery_cap cache
    → ((e : CachedDiscovery)
        → discovery_cap ≤ length cache
        → IsLeast Text-discrete (λ (d : CachedDiscovery). d.cached_at) cache e
        → Gone e)
    → IsKept Text-discrete discovery_cap key Gone cache (drop_oldest cache key)
unfolding drop_oldest
drop_oldest-IsKept cache key Gone b gone = elim (Bool-cases (leb discovery_cap (length cache))) [
  | inr room ↦ rw room (IsKept-room Text-discrete key Gone b (leb_false→lt _ _ room))
  | inl full ↦ elim (Bool-cases (contains_key Text-discrete key cache)) [
    | inl old ↦ rw (full, old) (IsKept-old Text-discrete key Gone b old)
    | inr new ↦
        rw (full, new)
          (IsKept-least Text-discrete key Gone b (λ e. e.cached_at) (omega (arith, leb→le _ _ full))
            (λ e. gone e (leb→le _ _ full)))
  ]
]

make_room-IsKept :
    (cache : Discoveries) (key : Text) (now : ℕ)
    → IsBounded Text-discrete discovery_cap cache
    → IsKept Text-discrete discovery_cap key
        (IsLost cache now)
        cache
        (drop_oldest (drop_expired cache now) key)
unfolding drop_expired
make_room-IsKept cache key now b = elim (Bool-cases (leb discovery_cap (length cache))) [
  | inr room ↦ rw room (
      drop_oldest-IsKept cache key _ b
        (λ e full least. absurd (omega (arith, leb_false→lt _ _ room))))
  | inl full ↦ rw full (
      IsKept-retain Text-discrete (is_fresh now) b.distinct
        (λ e is_old. expired (leb→le _ _ full) (ground arith))
        (drop_oldest-IsKept _ key _ (IsBounded-retain Text-discrete _ b) (λ e still least.
          oldest (leb→le _ _ full) (λ k d h fresh.
            least k d (get-retain Text-discrete k _ cache d h (lt→ltb _ _ fresh))))))
]

-- What is promised of the cache after a discovery is put in.
pub record IsCached (cache : Discoveries) (key : Text) (discovery : DavDiscovery) (checked now : ℕ)
    (after : Discoveries) : Type 0 where
  pub put_in :
      IsPutIn Text-discrete discovery_cap key
        (record { discovery = discovery; cached_at = now })
        (IsLost cache checked)
        cache
        after
  pub found : (later : ℕ) → later < now + 3600 → discovery_lookup after key later ≡ some discovery
  pub stale : (later : ℕ) → now + 3600 ≤ later → discovery_lookup after key later ≡ none

-- `discovery_insert` keeps the cache within 256 distinct keys; it puts the entry in, which is
-- then found for 3600 seconds and not after; and another entry goes only from a full cache, if
-- it is expired or no unexpired entry is older.
pub discovery_insert-IsCached :
    (cache : Discoveries) (key : Text) (discovery : DavDiscovery) (checked now : ℕ)
    → IsBounded Text-discrete discovery_cap cache
    → IsCached cache key discovery checked now (discovery_insert cache key discovery checked now)
unfolding discovery_insert discovery_lookup
discovery_insert-IsCached cache key discovery checked now b =
    let p = IsPutIn-insert Text-discrete _ (make_room-IsKept cache key checked b) in
    record {
      put_in = p;
      found = λ later h. rw (p.is_in) (ground arith);
      stale = λ later h. rw (p.is_in) (ground arith);
    }
