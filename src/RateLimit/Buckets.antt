-- ===== src/RateLimit/Buckets.antt =====
-- The maps of buckets of src/rate_limit.rs: at most 4096 keys, a bucket of its own for each, and
-- which entries the making of room for a new key may drop.
use mathlib.Core.Option.{some-injective}
use carddav_mcp.Base.{
  ℕ, ◌-◌, ◌≤◌, ◌<◌, ◌≡◌, ◌≢◌, sym, ap, ◌∙◌, arith, List, Option, none, some, length, get_elem?, set,
  ltb, leb, inl, inr, Bool-cases, leb→le, leb_false→lt, lt→ltb, length-set,
}
use carddav_mcp.Base.Str.{Text, Text-discrete}
use carddav_mcp.Base.HashMap.{HashMap, get}
use carddav_mcp.Base.HashMap.Laws.{get-retain}
use carddav_mcp.Base.HashMap.Bounded.{
  IsBounded, IsLeast, IsKept, IsPutIn, IsKept-room, IsKept-least, IsKept-retain, IsBounded-retain,
}
use carddav_mcp.RateLimit.{
  max_buckets_per_map, bucket_idle_ttl, BucketEntry, BucketMap, empty_map, drop_idle, drop_oldest,
}

-- At most 4096 keys; each has a bucket, and no two keys share one.
pub record IsBucketMap {State : Type 0} (map : BucketMap State) : Type 0 where
  pub is_bounded : IsBounded Text-discrete max_buckets_per_map map.entries
  pub has_bucket :
      (k : Text) (e : BucketEntry)
      → get Text-discrete k map.entries ≡ some e
      → e.bucket < length map.cells
  pub unshared :
      (j k : Text) (d e : BucketEntry)
      → get Text-discrete j map.entries ≡ some d
      → get Text-discrete k map.entries ≡ some e
      → d.bucket ≡ e.bucket
      → j ≡ k

pub empty_map-IsBucketMap : {State : Type 0} → IsBucketMap (empty_map {State = State})
unfolding get
empty_map-IsBucketMap = record {
  is_bounded = record { distinct = tt; bounded = omega arith };
  has_bucket = λ k e h. cc;
  unshared = λ j k d e h g. cc;
}

-- The state of the bucket of a key, if it has one.
unfoldable pub state_of : {State : Type 0} → BucketMap State → Text → Option State
state_of map key = elim (get Text-discrete key map.entries) [
  | none ↦ none
  | some e ↦ get_elem? map.cells e.bucket
]

-- A bucket is lost only from a full map: an idle one, or one that was seen no later than any that
-- is not idle.
pub data IsDropped (entries : HashMap Text BucketEntry) (now : ℕ) (e : BucketEntry) : Type 0 where
  idle :
      max_buckets_per_map ≤ length entries
      → bucket_idle_ttl ≤ now - e.last_seen
      → IsDropped entries now e
  oldest :
      max_buckets_per_map ≤ length entries
      → ((k : Text) (d : BucketEntry)
          → get Text-discrete k entries ≡ some d
          → now - d.last_seen < bucket_idle_ttl
          → e.last_seen ≤ d.last_seen)
      → IsDropped entries now e

drop_oldest-IsKept :
    (entries : HashMap Text BucketEntry) (key : Text) (Gone : BucketEntry → Type 0)
    → IsBounded Text-discrete max_buckets_per_map entries
    → ((e : BucketEntry)
        → max_buckets_per_map ≤ length entries
        → IsLeast Text-discrete (λ (d : BucketEntry). d.last_seen) entries e
        → Gone e)
    → IsKept Text-discrete max_buckets_per_map key Gone entries (drop_oldest entries)
unfolding drop_oldest
drop_oldest-IsKept entries key Gone b gone =
    elim (Bool-cases (leb max_buckets_per_map (length entries))) [
      | inr room ↦ rw room (IsKept-room Text-discrete key Gone b (leb_false→lt _ _ room))
      | inl full ↦ rw full (
          IsKept-least Text-discrete key Gone b (λ e. e.last_seen) (omega (arith, leb→le _ _ full))
            (λ e. gone e (leb→le _ _ full)))
    ]

pub drop_oldest-drop_idle :
    (entries : HashMap Text BucketEntry) (key : Text) (now : ℕ)
    → IsBounded Text-discrete max_buckets_per_map entries
    → IsKept Text-discrete max_buckets_per_map key
        (IsDropped entries now)
        entries
        (drop_oldest (drop_idle entries now))
unfolding drop_idle
drop_oldest-drop_idle entries key now b =
    elim (Bool-cases (leb max_buckets_per_map (length entries))) [
      | inr room ↦ rw room (
          drop_oldest-IsKept entries key _ b
            (λ e full least. absurd (omega (arith, leb_false→lt _ _ room))))
      | inl full ↦ rw full (
          IsKept-retain Text-discrete (λ (e : BucketEntry). ltb (now - e.last_seen) bucket_idle_ttl)
            b.distinct (λ e is_idle. idle (leb→le _ _ full) (ground arith))
            (drop_oldest-IsKept _ key _ (IsBounded-retain Text-discrete _ b) (λ e still least.
              oldest (leb→le _ _ full) (λ k d h fresh.
                least k d (get-retain Text-discrete k _ entries d h (lt→ltb _ _ fresh))))))
    ]

-- Putting an entry in keeps the map well formed, if no other key has its bucket.
pub IsBucketMap-put_in :
    {State : Type 0} (map : BucketMap State) (key : Text) (entry : BucketEntry)
    (Gone : BucketEntry → Type 0) (after : HashMap Text BucketEntry) (cells : List State)
    → IsBucketMap map
    → IsPutIn Text-discrete max_buckets_per_map key entry Gone map.entries after
    → length map.cells ≤ length cells
    → entry.bucket < length cells
    → ((j : Text) (e : BucketEntry)
        → key ≢ j
        → get Text-discrete j map.entries ≡ some e
        → e.bucket ≢ entry.bucket)
    → IsBucketMap (record { entries = after; cells = cells })
IsBucketMap-put_in map key entry Gone after cells m put longer lt fresh = record {
  is_bounded = put.is_bounded;
  has_bucket = λ k e h. elim (Text-discrete key k) [
    | yes same ↦ omega (arith, ap (λ d. d.bucket) (here k e same h), lt)
    | no other ↦ omega (arith, m.has_bucket k e (put.was_there k e other h), longer)
  ];
  unshared = λ j k d e hj hk eq. elim (Text-discrete key j) [
    | yes sj ↦ elim (Text-discrete key k) [
      | yes sk ↦ sym sj ∙ sk
      | no ok' ↦
          absurd (
            fresh k e ok' (put.was_there k e ok' hk) (sym eq ∙ ap (λ b. b.bucket) (here j d sj hj)))
    ]
    | no oj ↦ elim (Text-discrete key k) [
      | yes sk ↦
          absurd (fresh j d oj (put.was_there j d oj hj) (eq ∙ ap (λ b. b.bucket) (here k e sk hk)))
      | no ok' ↦ m.unshared j k d e (put.was_there j d oj hj) (put.was_there k e ok' hk) eq
    ]
  ];
}
  where
    here : (k : Text) (e : BucketEntry) → key ≡ k → get Text-discrete k after ≡ some e → e ≡ entry
    here k e same h =
        some-injective _ _ (sym h ∙ ap (λ i. get Text-discrete i after) (sym same) ∙ put.is_in)

pub IsBucketMap-set :
    {State : Type 0} (map : BucketMap State) (bucket : ℕ) (state : State)
    → IsBucketMap map
    → IsBucketMap (record map { cells = set map.cells bucket state })
IsBucketMap-set map bucket state m = record {
  is_bounded = m.is_bounded;
  has_bucket = λ k e h. omega (arith, length-set map.cells bucket state, m.has_bucket k e h);
  unshared = m.unshared;
}

pub state_of-some :
    {State : Type 0} (map : BucketMap State) (k : Text) (e : BucketEntry)
    → get Text-discrete k map.entries ≡ some e
    → state_of map k ≡ get_elem? map.cells e.bucket
unfolding state_of
state_of-some map k e h = rw (h, state_of)

pub state_of-none :
    {State : Type 0} (map : BucketMap State) (k : Text)
    → get Text-discrete k map.entries ≡ none
    → state_of map k ≡ none
unfolding state_of
state_of-none map k h = rw (h, state_of)
