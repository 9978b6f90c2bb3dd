-- ===== src/RateLimit.antt =====
-- src/rate_limit.rs: token buckets for each identity, in maps with a cap. The buckets themselves
-- are those of the crate `governor`, a parameter. Times are clock readings; a call reads the clock
-- once when it looks up its bucket and once when it checks it. An `Arc<Bucket>` is the number of a
-- cell, so that a map and a caller share a bucket; the cells of one map are numbered apart.
pub mod Buckets
pub mod Charge
pub mod Check
pub mod Initialize
pub mod Examples
use carddav_mcp.Base.{
  ℕ, zero, suc, ◌+◌, ◌-◌, ◌≤◌, Bool, true, false, List, [], ◌∷◌, ◌++◌, Option, none, some, length,
  Result, ok, err, get_elem?, set, String, ltb, leb, if◌then◌else◌,
}
use carddav_mcp.Base.Str.{Text, Text-discrete}
use carddav_mcp.Base.HashMap.{HashMap, get, insert, retain, remove_least}

abbrev pub max_buckets_per_map : ℕ
max_buckets_per_map = 4096

-- In seconds, as are the clock readings.
abbrev pub bucket_idle_ttl : ℕ
bucket_idle_ttl = 3600

-- What the program calls of `governor`: quotas, a fresh bucket, and the check that may take a token.
pub record Governor : Type 1 where
  pub Quota : Type 0
  pub State : Type 0
  pub per_minute : ℕ → Quota
  pub with_period : ℕ → Option Quota
  pub allow_burst : Quota → ℕ → Quota
  pub direct : Quota → ℕ → State
  pub check : State → ℕ → Bool × State

pub record BucketEntry : Type 0 where
  pub bucket : ℕ
  pub last_seen : ℕ

-- A `BucketMap`, and the buckets that its entries and their users hold.
pub record BucketMap (State : Type 0) : Type 0 where
  pub entries : HashMap Text BucketEntry
  pub cells : List State

abbrev pub empty_map : {State : Type 0} → BucketMap State
empty_map = record { entries = []; cells = [] }

pub data Category : Type 0 where
  read write : Category

pub data RateLimited : Type 0 where
  rate_limited : RateLimited

-- Which bucket refused an initialize request.
pub data RejectedBy : Type 0 where
  subject bearer : RejectedBy

-- `RejectedBy::as_str`
unfoldable pub as_str : RejectedBy → String
as_str subject = "subject"
as_str bearer = "bearer"

-- The two readings of one charge.
pub record Readings : Type 0 where
  pub looked_up : ℕ
  pub checked : ℕ

-- At the cap, idle buckets go first, and then the one that was seen longest ago.
unfoldable pub drop_idle : HashMap Text BucketEntry → ℕ → HashMap Text BucketEntry
drop_idle entries now =
    if leb max_buckets_per_map (length entries)
    then retain (λ e. ltb (now - e.last_seen) bucket_idle_ttl) entries
    else entries

unfoldable pub drop_oldest : HashMap Text BucketEntry → HashMap Text BucketEntry
drop_oldest entries =
    if leb max_buckets_per_map (length entries)
    then remove_least Text-discrete (λ e. e.last_seen) entries
    else entries

module _ (g : Governor) where
  open g use {Quota, State}

  -- `entry.last_seen = now; return Arc::clone(&entry.bucket);`
  touch_entry : BucketMap State → Text → BucketEntry → ℕ → BucketMap State × ℕ
  touch_entry map key entry now = (
    record map {
      entries = insert Text-discrete key (record entry { last_seen = now }) map.entries;
    },
    entry.bucket,
  )

  -- The rest of the function, for a key that the map does not hold.
  add_bucket : BucketMap State → Text → Quota → ℕ → BucketMap State × ℕ
  unfolding drop_idle drop_oldest
  add_bucket map key quota now = (
    record {
      entries =
          insert Text-discrete key (record { bucket = length map.cells; last_seen = now })
            (drop_oldest (drop_idle map.entries now));
      cells = map.cells ++ g.direct quota now ∷ [];
    },
    length map.cells,
  )

  unfoldable pub get_or_insert_with_quota : BucketMap State → Text → Quota → ℕ → BucketMap State × ℕ
  unfolding touch_entry add_bucket
  get_or_insert_with_quota map key quota now = elim (get Text-discrete key map.entries) [
    | some entry ↦ touch_entry map key entry now
    | none ↦ add_bucket map key quota now
  ]

  -- `bucket.check()` on the shared bucket. A number that is no cell does not occur.
  unfoldable pub check_bucket : BucketMap State → ℕ → ℕ → BucketMap State × Bool
  check_bucket map bucket now = elim (get_elem? map.cells bucket) [
    | none ↦ (map, false)
    | some state ↦
        (record map { cells = set map.cells bucket (g.check state now).1 }, (g.check state now).0)
  ]

  -- The two calls that every charge makes.
  unfoldable pub charge : BucketMap State → Text → Quota → Readings → BucketMap State × Bool
  unfolding get_or_insert_with_quota check_bucket
  charge map key quota r =
      let (map', bucket) = get_or_insert_with_quota map key quota r.looked_up in
      check_bucket map' bucket r.checked

  pub record Limiter : Type 0 where
    pub reads_per_min : ℕ
    pub writes_per_min : ℕ
    pub bearer_read : BucketMap State
    pub bearer_write : BucketMap State
    pub sub_read : BucketMap State
    pub sub_write : BucketMap State

  -- `Limiter::new`
  unfoldable pub new_limiter : ℕ → ℕ → Option Limiter
  new_limiter zero writes = none
  new_limiter (suc reads) zero = none
  new_limiter (suc reads) (suc writes) = some (record {
    reads_per_min = suc reads;
    writes_per_min = suc writes;
    bearer_read = empty_map;
    bearer_write = empty_map;
    sub_read = empty_map;
    sub_write = empty_map;
  })

  -- The part of `Limiter::check` behind the bearer's bucket.
  charge_sub :
      BucketMap State
      → Option Text
      → Quota
      → Readings
      → BucketMap State × Result RateLimited (Unit {0})
  charge_sub sub_map none quota r = (sub_map, ok tt)
  charge_sub sub_map (some s) quota r =
      let (sub_map', allows) = charge sub_map s quota r in
      (sub_map', if allows then ok tt else err rate_limited)

  -- `Limiter::check` on the two maps and the quota that the category selects.
  unfoldable pub check_maps :
      BucketMap State
      → BucketMap State
      → Quota
      → Text
      → Option Text
      → Readings
      → Readings
      → BucketMap State × BucketMap State × Result RateLimited (Unit {0})
  unfolding charge_sub
  check_maps bearer_map sub_map quota bearer_hash sub r r' =
      let (bearer_map', allows) = charge bearer_map bearer_hash quota r in
      let (sub_map', result) = charge_sub sub_map sub quota r' in
      if allows then (bearer_map', sub_map', result) else (bearer_map', sub_map, err rate_limited)

  unfoldable pub check :
      Limiter
      → Text
      → Option Text
      → Category
      → Readings
      → Readings
      → Limiter × Result RateLimited (Unit {0})
  unfolding check_maps
  check l bearer_hash sub read r r' =
      let (b, s, result) =
        check_maps l.bearer_read l.sub_read (g.per_minute l.reads_per_min) bearer_hash sub r r' in
      (record l { bearer_read = b; sub_read = s }, result)
  check l bearer_hash sub write r r' =
      let (b, s, result) =
        check_maps l.bearer_write l.sub_write (g.per_minute l.writes_per_min) bearer_hash sub r
          r' in
      (record l { bearer_write = b; sub_write = s }, result)

  pub record InitializeLimiter : Type 0 where
    pub quota : Quota
    pub bearer : BucketMap State
    pub sub : BucketMap State

  -- `NonZeroU32::new(burst).unwrap_or(NonZeroU32::MIN)`
  abbrev at_least_one : ℕ → ℕ
  at_least_one zero = 1
  at_least_one (suc n) = suc n

  unfoldable pub new_initialize_limiter : ℕ → ℕ → InitializeLimiter
  new_initialize_limiter replenish_1_per burst =
      let base : Quota = elim (g.with_period replenish_1_per) [
        | none ↦ g.per_minute 1
        | some q ↦ q
      ] in
      record {
        quota = g.allow_burst base (at_least_one burst);
        bearer = empty_map;
        sub = empty_map;
      }

  -- `InitializeLimiter::check`
  unfoldable pub check_initialize :
      InitializeLimiter
      → Text
      → Option Text
      → Readings
      → InitializeLimiter × Result RejectedBy (Unit {0})
  check_initialize l bearer_hash none r =
      let (map, allows) = charge l.bearer bearer_hash l.quota r in
      (record l { bearer = map }, if allows then ok tt else err RejectedBy.bearer)
  check_initialize l bearer_hash (some s) r =
      let (map, allows) = charge l.sub s l.quota r in
      (record l { sub = map }, if allows then ok tt else err subject)
