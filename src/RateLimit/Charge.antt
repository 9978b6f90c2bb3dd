-- ===== src/RateLimit/Charge.antt =====
-- src/rate_limit.rs: what one charge does to a map of buckets, whatever `governor` answers.
use carddav_mcp.Base.{
  ℕ, ◌≡◌, ◌≢◌, refl, sym, ap, subst, ◌∙◌, arith, Bool, [], ◌∷◌, ◌++◌, none, some, length, get_elem?,
  set, ◌⊎◌, inl, inr, Option-cases, get_elem?-append_left, get_elem?-last, length-append,
  get_elem?-lt, get_elem?-set_self, get_elem?-set_ne,
}
use native.Mathlib.Nat.{le_refl}
use carddav_mcp.Base.Str.{Text, Text-discrete}
use carddav_mcp.Base.HashMap.{get}
use carddav_mcp.Base.HashMap.Laws.{contains_key-true}
use carddav_mcp.Base.HashMap.Bounded.{IsPutIn-insert, IsKept-old}
use carddav_mcp.RateLimit.{
  Governor, BucketEntry, BucketMap, Readings, get_or_insert_with_quota, check_bucket, charge,
  touch_entry, add_bucket,
}
use carddav_mcp.RateLimit.Buckets.{
  IsBucketMap, IsDropped, state_of, state_of-some, state_of-none, drop_oldest-drop_idle,
  IsBucketMap-put_in, IsBucketMap-set,
}

module _ (g : Governor) where
  open g use {Quota, State}

  -- The state that a check of the key's bucket finds: as it was left, or fresh.
  unfoldable pub found_state : BucketMap State → Text → Quota → ℕ → State
  unfolding state_of
  found_state map key quota now = elim (state_of map key) [
    | none ↦ g.direct quota now
    | some state ↦ state
  ]

  found_state-old :
      (map : BucketMap State) (key : Text) (quota : Quota) (now : ℕ) (e : BucketEntry)
      (state : State)
      → get Text-discrete key map.entries ≡ some e
      → get_elem? map.cells e.bucket ≡ some state
      → found_state map key quota now ≡ state
  unfolding found_state
  found_state-old map key quota now e state h c = ground arith

  found_state-new :
      (map : BucketMap State) (key : Text) (quota : Quota) (now : ℕ)
      → get Text-discrete key map.entries ≡ none
      → found_state map key quota now ≡ g.direct quota now
  unfolding found_state
  found_state-new map key quota now h = ground arith

  -- What looking a bucket up does.
  pub record IsLookedUp (map : BucketMap State) (key : Text) (quota : Quota) (now : ℕ)
      (r : BucketMap State × ℕ) : Type 0 where
    pub is_map : IsBucketMap r.0
    pub is_in : get Text-discrete key r.0.entries ≡ some (record { bucket = r.1; last_seen = now })
    pub is_found : get_elem? r.0.cells r.1 ≡ some (found_state map key quota now)
    pub others_stay :
        (j : Text) (e : BucketEntry)
        → key ≢ j
        → get Text-discrete j map.entries ≡ some e
        → ((get Text-discrete j r.0.entries ≡ some e)
            × (get_elem? r.0.cells e.bucket ≡ get_elem? map.cells e.bucket))
          ⊎ ((get Text-discrete key map.entries ≡ none) × IsDropped map.entries now e)

  module _ (map : BucketMap State) (key : Text) (quota : Quota) (now : ℕ)
      (m : IsBucketMap map) where
    touch_entry-IsLookedUp :
        (entry : BucketEntry)
        → get Text-discrete key map.entries ≡ some entry
        → IsLookedUp map key quota now (touch_entry g map key entry now)
    unfolding touch_entry
    touch_entry-IsLookedUp entry h =
        let put =
          IsPutIn-insert Text-discrete (record entry { last_seen = now })
            (IsKept-old Text-discrete key (λ e. ⊥) m.is_bounded
              (contains_key-true Text-discrete key map.entries entry h)) in
        let (state, cell) = get_elem?-lt map.cells entry.bucket (m.has_bucket key entry h) in
        record {
          is_map =
              IsBucketMap-put_in map key (record entry { last_seen = now }) (λ e. ⊥) _ map.cells m
                put (le_refl _) (m.has_bucket key entry h)
                (λ j e ne g eq. ne (sym (m.unshared j key e entry g h eq)));
          is_in = put.is_in;
          is_found = cell ∙ ap some (sym (found_state-old map key quota now entry state h cell));
          others_stay = λ j e ne g. elim (put.others_stay j e ne g) [
            | inl stays ↦ inl (stays, refl)
            | inr never ↦ absurd never
          ];
        }

    add_bucket-IsLookedUp :
        get Text-discrete key map.entries ≡ none
        → IsLookedUp map key quota now (add_bucket g map key quota now)
    unfolding add_bucket
    add_bucket-IsLookedUp h =
        let put =
          IsPutIn-insert Text-discrete (record { bucket = length map.cells; last_seen = now })
            (drop_oldest-drop_idle map.entries key now m.is_bounded) in
        record {
          is_map =
              IsBucketMap-put_in map key _ _ _ (map.cells ++ g.direct quota now ∷ []) m put
                (omega (arith, length-append map.cells (g.direct quota now ∷ [])))
                (omega (arith, length-append map.cells (g.direct quota now ∷ [])))
                (λ j e ne g eq. absurd (omega (arith, m.has_bucket j e g, eq)));
          is_in = put.is_in;
          is_found =
              get_elem?-last map.cells (g.direct quota now)
              ∙ ap some (sym (found_state-new map key quota now h));
          others_stay = λ j e ne g. elim (put.others_stay j e ne g) [
            | inl stays ↦
                inl (stays, get_elem?-append_left map.cells _ e.bucket (m.has_bucket j e g))
            | inr dropped ↦ inr (h, dropped)
          ];
        }

  get_or_insert-some :
      (map : BucketMap State) (key : Text) (quota : Quota) (now : ℕ) (e : BucketEntry)
      → get Text-discrete key map.entries ≡ some e
      → get_or_insert_with_quota g map key quota now ≡ touch_entry g map key e now
  unfolding get_or_insert_with_quota
  get_or_insert-some map key quota now e h = rw (h, get_or_insert_with_quota)

  get_or_insert-none :
      (map : BucketMap State) (key : Text) (quota : Quota) (now : ℕ)
      → get Text-discrete key map.entries ≡ none
      → get_or_insert_with_quota g map key quota now ≡ add_bucket g map key quota now
  unfolding get_or_insert_with_quota
  get_or_insert-none map key quota now h = rw (h, get_or_insert_with_quota)

  get_or_insert-IsLookedUp :
      (map : BucketMap State) (key : Text) (quota : Quota) (now : ℕ)
      → IsBucketMap map
      → IsLookedUp map key quota now (get_or_insert_with_quota g map key quota now)
  get_or_insert-IsLookedUp map key quota now m =
      elim (Option-cases (get Text-discrete key map.entries)) [
        | inl h ↦
            subst (IsLookedUp map key quota now) (sym (get_or_insert-none map key quota now h))
              (add_bucket-IsLookedUp map key quota now m h)
        | inr (e, h) ↦
            subst (IsLookedUp map key quota now) (sym (get_or_insert-some map key quota now e h))
              (touch_entry-IsLookedUp map key quota now m e h)
      ]

  -- What one charge does, whatever `governor` answers.
  pub record IsCharged (map : BucketMap State) (key : Text) (quota : Quota) (r : Readings)
      (out : BucketMap State × Bool) : Type 0 where
    pub is_map : IsBucketMap out.0
    pub verdict_is : out.1 ≡ (g.check (found_state map key quota r.looked_up) r.checked).0
    pub state_is :
        state_of out.0 key ≡ some (g.check (found_state map key quota r.looked_up) r.checked).1
    pub others_stay :
        (j : Text) (e : BucketEntry)
        → key ≢ j
        → get Text-discrete j map.entries ≡ some e
        → (state_of out.0 j ≡ state_of map j)
          ⊎ ((state_of map key ≡ none) × IsDropped map.entries r.looked_up e)

  check_bucket_lem :
      (map : BucketMap State) (bucket now : ℕ) (state : State)
      → get_elem? map.cells bucket ≡ some state
      → check_bucket g map bucket now
        ≡ (record map { cells = set map.cells bucket (g.check state now).1 }, (g.check state now).0)
  unfolding check_bucket
  check_bucket_lem map bucket now state h = rw (h, check_bucket)

  checked-IsCharged :
      (map after : BucketMap State) (key : Text) (quota : Quota) (r : Readings) (bucket : ℕ)
      → IsLookedUp map key quota r.looked_up (after, bucket)
      → IsCharged map key quota r (check_bucket g after bucket r.checked)
  checked-IsCharged map after key quota r bucket looked =
      subst (IsCharged map key quota r)
        (sym (check_bucket_lem after bucket r.checked _ looked.is_found))
        (record {
          is_map = IsBucketMap-set after bucket _ looked.is_map;
          verdict_is = refl;
          state_is =
              state_of-some _ key _ looked.is_in
              ∙ get_elem?-set_self after.cells bucket _
                  (looked.is_map.has_bucket key _ looked.is_in);
          others_stay = λ j e ne h. elim (looked.others_stay j e ne h) [
            | inl (there, same) ↦ inl (
                state_of-some _ j e there
                ∙ get_elem?-set_ne after.cells bucket e.bucket _
                    (λ eq. ne (looked.is_map.unshared key j _ e looked.is_in there eq))
                ∙ same
                ∙ sym (state_of-some map j e h))
            | inr (is_new, dropped) ↦ inr (state_of-none map key is_new, dropped)
          ];
        })

  -- Charging a key of a well-formed map answers what the key's bucket answers, as it was left
  -- or fresh, and keeps the state the check returns; the map stays well formed; another key
  -- keeps its state, unless the key was new to the map and the entry was dropped from a full
  -- map.
  pub charge-IsCharged :
      (map : BucketMap State) (key : Text) (quota : Quota) (r : Readings)
      → IsBucketMap map
      → IsCharged map key quota r (charge g map key quota r)
  unfolding charge
  charge-IsCharged map key quota r m =
      checked-IsCharged map _ key quota r _ (get_or_insert-IsLookedUp map key quota r.looked_up m)
