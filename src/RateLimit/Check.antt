-- ===== src/RateLimit/Check.antt =====
-- `Limiter::check` of src/rate_limit.rs: which buckets a call
-- charges, in which order, and which answer follows.
use mathlib.Core.Option.{some-injective}
use carddav_mcp.Base.{
  ℕ, zero, suc, List, [], ◌∷◌, fold, ◌≡◌, refl, subst, Bool, true, false, Option, none, some,
  Result, ok, err, Bool-cases, inl, inr,
}
use carddav_mcp.Base.Str.{Text}
use carddav_mcp.RateLimit.{
  Governor, BucketMap, Category, read, write, RateLimited, rate_limited, Readings, charge,
  charge_sub, check_maps, Limiter, new_limiter, check,
}
use carddav_mcp.RateLimit.Buckets.{IsBucketMap, empty_map-IsBucketMap}
use carddav_mcp.RateLimit.Charge.{IsCharged, charge-IsCharged}

module _ (g : Governor) where
  open g use {Quota, State}

  -- What one check does to the maps of its category, and what it answers: the bearer's bucket is
  -- charged first, and if it refuses the subject's map is left alone.
  pub data IsAnswered (bearer_map sub_map : BucketMap State) (quota : Quota) (bearer_hash : Text)
      (sub : Option Text) (r r' : Readings)
      : BucketMap State × BucketMap State × Result RateLimited (Unit {0}) → Type 0 where
    bearer_refuses :
        (after : BucketMap State)
        → IsCharged g bearer_map bearer_hash quota r (after, false)
        → IsAnswered bearer_map sub_map quota bearer_hash sub r r'
            (after, sub_map, err rate_limited)
    no_subject :
        (after : BucketMap State)
        → sub ≡ none
        → IsCharged g bearer_map bearer_hash quota r (after, true)
        → IsAnswered bearer_map sub_map quota bearer_hash sub r r' (after, sub_map, ok tt)
    subject_refuses :
        (s : Text) (after sub_after : BucketMap State)
        → sub ≡ some s
        → IsCharged g bearer_map bearer_hash quota r (after, true)
        → IsCharged g sub_map s quota r' (sub_after, false)
        → IsAnswered bearer_map sub_map quota bearer_hash sub r r'
            (after, sub_after, err rate_limited)
    both_allow :
        (s : Text) (after sub_after : BucketMap State)
        → sub ≡ some s
        → IsCharged g bearer_map bearer_hash quota r (after, true)
        → IsCharged g sub_map s quota r' (sub_after, true)
        → IsAnswered bearer_map sub_map quota bearer_hash sub r r' (after, sub_after, ok tt)

  -- The verdict of a charge, split off.
  with_verdict :
      (map : BucketMap State) (key : Text) (quota : Quota) (r : Readings) (verdict : Bool)
      → IsBucketMap map
      → (charge g map key quota r).1 ≡ verdict
      → IsCharged g map key quota r ((charge g map key quota r).0, verdict)
  with_verdict map key quota r verdict m e =
      subst (λ v. IsCharged g map key quota r ((charge g map key quota r).0, v)) e
        (charge-IsCharged g map key quota r m)

  module _ (bearer_map sub_map : BucketMap State) (quota : Quota) (bearer_hash : Text)
      (r r' : Readings) (b : IsBucketMap bearer_map) (m : IsBucketMap sub_map) where
    check_maps-IsAnswered :
        (sub : Option Text)
        → IsAnswered bearer_map sub_map quota bearer_hash sub r r'
            (check_maps g bearer_map sub_map quota bearer_hash sub r r')
    unfolding check_maps charge_sub
    check_maps-IsAnswered none = elim (Bool-cases (charge g bearer_map bearer_hash quota r).1) [
      | inr refused ↦
          rw refused
            (bearer_refuses _ (with_verdict bearer_map bearer_hash quota r false b refused))
      | inl allowed ↦
          rw allowed
            (no_subject _ refl (with_verdict bearer_map bearer_hash quota r true b allowed))
    ]
    check_maps-IsAnswered (some s) = elim (Bool-cases (charge g bearer_map bearer_hash quota r).1) [
      | inr refused ↦
          rw refused
            (bearer_refuses _ (with_verdict bearer_map bearer_hash quota r false b refused))
      | inl allowed ↦ elim (Bool-cases (charge g sub_map s quota r').1) [
        | inr sub_refused ↦
            rw (allowed, sub_refused)
              (subject_refuses s _ _ refl
                (with_verdict bearer_map bearer_hash quota r true b allowed)
                (with_verdict sub_map s quota r' false m sub_refused))
        | inl sub_allowed ↦
            rw (allowed, sub_allowed)
              (both_allow s _ _ refl (with_verdict bearer_map bearer_hash quota r true b allowed)
                (with_verdict sub_map s quota r' true m sub_allowed))
      ]
    ]

    answered-IsBucketMap :
        (sub : Option Text)
        (out : BucketMap State × BucketMap State × Result RateLimited (Unit {0}))
        → IsAnswered bearer_map sub_map quota bearer_hash sub r r' out
        → IsBucketMap out.0 × IsBucketMap out.1
    answered-IsBucketMap sub out (bearer_refuses after c) = (c.is_map, m)
    answered-IsBucketMap sub out (no_subject after e c) = (c.is_map, m)
    answered-IsBucketMap sub out (subject_refuses s after sub_after e c d) = (c.is_map, d.is_map)
    answered-IsBucketMap sub out (both_allow s after sub_after e c d) = (c.is_map, d.is_map)

  -- The two maps and the quota of a category.
  unfoldable pub bearer_map_of : Limiter g → Category → BucketMap State
  bearer_map_of l read = l.bearer_read
  bearer_map_of l write = l.bearer_write

  unfoldable pub sub_map_of : Limiter g → Category → BucketMap State
  sub_map_of l read = l.sub_read
  sub_map_of l write = l.sub_write

  unfoldable pub quota_of : Limiter g → Category → Quota
  quota_of l read = g.per_minute l.reads_per_min
  quota_of l write = g.per_minute l.writes_per_min

  unfoldable pub other_category : Category → Category
  other_category read = write
  other_category write = read

  pub record IsLimiter (l : Limiter g) : Type 0 where
    pub bearer_IsBucketMap : (c : Category) → IsBucketMap (bearer_map_of l c)
    pub sub_IsBucketMap : (c : Category) → IsBucketMap (sub_map_of l c)

  pub record IsChecked (l : Limiter g) (bearer_hash : Text) (sub : Option Text) (c : Category)
      (r r' : Readings) (out : Limiter g × Result RateLimited (Unit {0})) : Type 0 where
    pub is_limiter : IsLimiter out.0
    pub is_answered :
        IsAnswered
          (bearer_map_of l c)
          (sub_map_of l c)
          (quota_of l c)
          bearer_hash
          sub
          r
          r'
          (bearer_map_of out.0 c, sub_map_of out.0 c, out.1)
    pub other_bearer : bearer_map_of out.0 (other_category c) ≡ bearer_map_of l (other_category c)
    pub other_sub : sub_map_of out.0 (other_category c) ≡ sub_map_of l (other_category c)
    pub same_quota : (d : Category) → quota_of out.0 d ≡ quota_of l d

  -- `check` on a well-formed limiter charges the bearer's bucket of the category, and then, if
  -- that allows and there is a subject, the subject's; it answers `ok` just if every bucket
  -- that it charged allows. The maps of the other category and the quotas are untouched, and
  -- the limiter stays well formed.
  pub check-IsChecked :
      (l : Limiter g) (bearer_hash : Text) (sub : Option Text) (c : Category) (r r' : Readings)
      → IsLimiter l
      → IsChecked l bearer_hash sub c r r' (check g l bearer_hash sub c r r')
  unfolding check bearer_map_of sub_map_of quota_of other_category
  check-IsChecked l bearer_hash sub read r r' w =
      let a =
        check_maps-IsAnswered l.bearer_read l.sub_read (g.per_minute l.reads_per_min) bearer_hash r
          r' (w.bearer_IsBucketMap read) (w.sub_IsBucketMap read) sub in
      let (b, s) =
        answered-IsBucketMap l.bearer_read l.sub_read (g.per_minute l.reads_per_min) bearer_hash r
          r' (w.bearer_IsBucketMap read) (w.sub_IsBucketMap read) sub _ a in
      record {
        is_limiter = record {
          bearer_IsBucketMap = elim [ read ↦ b | write ↦ w.bearer_IsBucketMap write ];
          sub_IsBucketMap = elim [ read ↦ s | write ↦ w.sub_IsBucketMap write ];
        };
        is_answered = a;
        other_bearer = refl;
        other_sub = refl;
        same_quota = elim [ read ↦ refl | write ↦ refl ];
      }
  check-IsChecked l bearer_hash sub write r r' w =
      let a =
        check_maps-IsAnswered l.bearer_write l.sub_write (g.per_minute l.writes_per_min) bearer_hash
          r r' (w.bearer_IsBucketMap write) (w.sub_IsBucketMap write) sub in
      let (b, s) =
        answered-IsBucketMap l.bearer_write l.sub_write (g.per_minute l.writes_per_min) bearer_hash
          r r' (w.bearer_IsBucketMap write) (w.sub_IsBucketMap write) sub _ a in
      record {
        is_limiter = record {
          bearer_IsBucketMap = elim [ read ↦ w.bearer_IsBucketMap read | write ↦ b ];
          sub_IsBucketMap = elim [ read ↦ w.sub_IsBucketMap read | write ↦ s ];
        };
        is_answered = a;
        other_bearer = refl;
        other_sub = refl;
        same_quota = elim [ read ↦ refl | write ↦ refl ];
      }

  -- One call of `check`.
  pub record Call : Type 0 where
    pub bearer_hash : Text
    pub sub : Option Text
    pub category : Category
    pub readings : Readings
    pub sub_readings : Readings

  abbrev pub replay : Limiter g → List Call → Limiter g
  replay = fold (λ l c. (check g l c.bearer_hash c.sub c.category c.readings c.sub_readings).0)

  replay-keeps : (calls : List Call) (l : Limiter g) → IsLimiter l → IsLimiter (replay l calls)
  unfolding fold
  replay-keeps [] l w = w
  replay-keeps (c ∷ cs) l w =
      replay-keeps cs _
        (check-IsChecked l c.bearer_hash c.sub c.category c.readings c.sub_readings w).is_limiter

  new_limiter-IsLimiter :
      (reads writes : ℕ) (l : Limiter g) → new_limiter g reads writes ≡ some l → IsLimiter l
  unfolding new_limiter bearer_map_of sub_map_of
  new_limiter-IsLimiter zero writes l h = cc
  new_limiter-IsLimiter (suc r) zero l h = cc
  new_limiter-IsLimiter (suc r) (suc w) l h = subst IsLimiter (some-injective _ _ h) (record {
    bearer_IsBucketMap = elim [ read ↦ empty_map-IsBucketMap | write ↦ empty_map-IsBucketMap ];
    sub_IsBucketMap = elim [ read ↦ empty_map-IsBucketMap | write ↦ empty_map-IsBucketMap ];
  })

  -- A limiter that `new` made has, after any sequence of calls of `check`, at most 4096 entries
  -- in each of its maps, and a bucket of its own for each key.
  pub replay-IsLimiter :
      (reads writes : ℕ) (l : Limiter g) (calls : List Call)
      → new_limiter g reads writes ≡ some l
      → IsLimiter (replay l calls)
  replay-IsLimiter reads writes l calls h =
      replay-keeps calls l (new_limiter-IsLimiter reads writes l h)
