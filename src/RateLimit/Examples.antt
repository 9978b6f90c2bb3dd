-- ===== src/RateLimit/Examples.antt =====
-- The theorems on src/rate_limit.rs with buckets that count down from the burst and never refill.
use carddav_mcp.Base.{fold, ℕ, zero, suc, ◌≡◌, Bool, true, false, [], ◌∷◌, some, refl}
use carddav_mcp.Base.Str.{codes}
use carddav_mcp.RateLimit.{
  Governor, BucketMap, empty_map, read, Limiter, new_limiter, check, InitializeLimiter,
  check_initialize, Readings, charge,
}
use carddav_mcp.RateLimit.Buckets.{empty_map-IsBucketMap}
use carddav_mcp.RateLimit.Charge.{IsCharged, charge-IsCharged}
use carddav_mcp.RateLimit.Check.{
  IsLimiter, Call, replay, replay-IsLimiter, IsChecked, check-IsChecked,
}
use carddav_mcp.RateLimit.Initialize.{IsInitializeAnswered, check_initialize-IsInitializeAnswered}

abbrev take_one : ℕ → ℕ → Bool × ℕ
take_one zero now = (false, zero)
take_one (suc n) now = (true, n)

abbrev counting : Governor
counting = record {
  Quota = ℕ;
  State = ℕ;
  per_minute = λ n. n;
  with_period = λ n. some 1;
  allow_burst = λ quota n. n;
  direct = λ quota now. quota;
  check = take_one;
}

abbrev no_buckets : BucketMap ℕ
no_buckets = empty_map

abbrev at_start : Readings
at_start = record { looked_up = 10; checked = 11 }

charge-IsCharged_example :
    IsCharged counting no_buckets
      (codes "t")
      2
      at_start
      (charge counting no_buckets (codes "t") 2 at_start)
charge-IsCharged_example =
    charge-IsCharged counting no_buckets (codes "t") 2 at_start empty_map-IsBucketMap

abbrev limits : Limiter counting
limits = record {
  reads_per_min = 1;
  writes_per_min = 1;
  bearer_read = empty_map;
  bearer_write = empty_map;
  sub_read = empty_map;
  sub_write = empty_map;
}

limits_are_new : new_limiter counting 1 1 ≡ some limits
unfolding new_limiter
limits_are_new = refl

abbrev one_read : Call counting
one_read = record {
  bearer_hash = codes "t";
  sub = some (codes "u");
  category = read;
  readings = at_start;
  sub_readings = at_start;
}

replay-IsLimiter_example : IsLimiter counting (replay counting limits (one_read ∷ one_read ∷ []))
replay-IsLimiter_example =
    replay-IsLimiter counting 1 1 limits (one_read ∷ one_read ∷ []) limits_are_new

check-IsChecked_example :
    IsChecked counting limits
      (codes "t")
      (some (codes "u"))
      read
      at_start
      at_start
      (check counting limits (codes "t") (some (codes "u")) read at_start at_start)
unfolding fold
check-IsChecked_example =
    check-IsChecked counting limits (codes "t") (some (codes "u")) read at_start at_start
      (replay-IsLimiter counting 1 1 limits [] limits_are_new)

abbrev initializes : InitializeLimiter counting
initializes = record { quota = 32; bearer = empty_map; sub = empty_map }

check_initialize-IsInitializeAnswered_example :
    IsInitializeAnswered counting initializes
      (codes "t")
      at_start
      (some (codes "u"))
      (check_initialize counting initializes (codes "t") (some (codes "u")) at_start)
check_initialize-IsInitializeAnswered_example =
    check_initialize-IsInitializeAnswered counting initializes (codes "t") (some (codes "u"))
      at_start empty_map-IsBucketMap empty_map-IsBucketMap
