-- ===== src/RateLimit/Initialize.antt =====
-- `InitializeLimiter::check` of src/rate_limit.rs: which bucket a call charges, and which answer
-- follows.
use carddav_mcp.Base.{Bool, Option, none, some, Result, ok, err, if◌then◌else◌}
use carddav_mcp.Base.Str.{Text}
use carddav_mcp.RateLimit.{
  Governor, BucketMap, RejectedBy, subject, Readings, InitializeLimiter, check_initialize,
}
use carddav_mcp.RateLimit.Buckets.{IsBucketMap}
use carddav_mcp.RateLimit.Charge.{IsCharged, charge-IsCharged}

module _ (g : Governor) where
  open g use {Quota, State}

  -- What an initialize request does: it charges one bucket, the subject's if there is a subject and
  -- the bearer's otherwise, and the answer names that bucket if it refuses.
  pub data IsInitializeAnswered (l : InitializeLimiter g) (bearer_hash : Text) (r : Readings)
      : Option Text → InitializeLimiter g × Result RejectedBy (Unit {0}) → Type 0 where
    by_bearer :
        (after : BucketMap State) (allows : Bool)
        → IsCharged g l.bearer bearer_hash l.quota r (after, allows)
        → IsInitializeAnswered l bearer_hash r none
            (record l { bearer = after }, if allows then ok tt else err RejectedBy.bearer)
    by_subject :
        (s : Text) (after : BucketMap State) (allows : Bool)
        → IsCharged g l.sub s l.quota r (after, allows)
        → IsInitializeAnswered l bearer_hash r
            (some s)
            (record l { sub = after }, if allows then ok tt else err subject)

  -- An initialize request on well-formed maps charges the subject's bucket alone when it has a
  -- subject, and the bearer's alone when it has none; the quota and the other map are
  -- untouched, and the error names the bucket that refused.
  pub check_initialize-IsInitializeAnswered :
      (l : InitializeLimiter g) (bearer_hash : Text) (sub : Option Text) (r : Readings)
      → IsBucketMap l.bearer
      → IsBucketMap l.sub
      → IsInitializeAnswered l bearer_hash r sub (check_initialize g l bearer_hash sub r)
  unfolding check_initialize
  check_initialize-IsInitializeAnswered l bearer_hash none r b s =
      by_bearer _ _ (charge-IsCharged g l.bearer bearer_hash l.quota r b)
  check_initialize-IsInitializeAnswered l bearer_hash (some sub) r b s =
      by_subject sub _ _ (charge-IsCharged g l.sub sub l.quota r s)
