-- ===== src/Base/HashMap/Oldest.antt =====
-- `min_by_key` finds an entry of the map, and none has a lesser key.
use mathlib.Core.Option.{some-injective}
use carddav_mcp.Base.{
  ℕ, ◌+◌, ◌≤◌, ◌≡◌, refl, sym, ap, subst, ◌∙◌, arith, [], ◌∷◌, some, length, ◌⊎◌, inl, inr,
}
use carddav_mcp.Base.HashMap.{HashMap, get, remove, Distinct, earlier, least, remove_least}
use carddav_mcp.Base.HashMap.Laws.{
  get-cons_tail, get-cons_head, get-cons_inv, get-remove_ne, get-remove_inv, Distinct-remove,
  length-remove,
}

module _ {K V : Type 0} (f : V → ℕ) where
  earlier_lem :
      (a b : K × V)
      → ((earlier f a b ≡ a) × (f a.1 ≤ f b.1)) ⊎ ((earlier f a b ≡ b) × (f b.1 ≤ f a.1))
  unfolding earlier
  earlier_lem a b = ground arith

  earlier-le-left : (a b : K × V) → f (earlier f a b).1 ≤ f a.1
  unfolding earlier
  earlier-le-left a b = ground arith

  earlier-le-right : (a b : K × V) → f (earlier f a b).1 ≤ f b.1
  unfolding earlier
  earlier-le-right a b = ground arith

  least-le-best : (best : K × V) (m : HashMap K V) → f (least f best m).1 ≤ f best.1
  unfolding least
  least-le-best best [] = omega arith
  least-le-best best (e ∷ m) =
      omega (arith, least-le-best (earlier f best e) m, earlier-le-left best e)

module _ {K V : Type 0} (dec : Discrete K) (f : V → ℕ) where
  least-le :
      (best : K × V) (m : HashMap K V) (j : K) (w : V)
      → get dec j m ≡ some w
      → f (least f best m).1 ≤ f w
  unfolding least
  least-le best [] j w h = unfold get in cc
  least-le best ((k, v) ∷ m) j w h = elim (get-cons_inv dec k j v w m h) [
    | inl here ↦ omega (
      arith,
      ap f here,
      least-le-best f (earlier f best (k, v)) m,
      earlier-le-right f best (k, v),
    )
    | inr later ↦ least-le (earlier f best (k, v)) m j w later
  ]

  -- It is the first best entry or one of the map.
  least-entry :
      (best : K × V) (m : HashMap K V)
      → Distinct dec m
      → (least f best m ≡ best) ⊎ (get dec (least f best m).0 m ≡ some (least f best m).1)
  unfolding least
  least-entry best [] d = inl refl
  least-entry best ((k, v) ∷ m) d = elim (least-entry (earlier f best (k, v)) m d.1) [
    | inr found ↦ inr (get-cons_tail dec k _ v _ m d.0 found)
    | inl first ↦ elim (earlier_lem f best (k, v)) [
      | inl (e, _) ↦ inl (first ∙ e)
      | inr (e, _) ↦ inr (
          subst (λ (x : K × V). get dec x.0 ((k, v) ∷ m) ≡ some x.1) (sym (first ∙ e))
            (get-cons_head dec k v m))
    ]
  ]

  least-cons :
      (k : K) (v : V) (m : HashMap K V)
      → Distinct dec ((k, v) ∷ m)
      → get dec (least f (k, v) m).0 ((k, v) ∷ m) ≡ some (least f (k, v) m).1
  least-cons k v m d = elim (least-entry (k, v) m d.1) [
    | inr found ↦ get-cons_tail dec k _ v _ m d.0 found
    | inl first ↦
        subst (λ (x : K × V). get dec x.0 ((k, v) ∷ m) ≡ some x.1) (sym first)
          (get-cons_head dec k v m)
  ]

  -- The entry that `remove_least` takes out of a map that is not empty.
  pub record IsRemoved (m rest : HashMap K V) : Type 0 where
    pub key : K
    pub value : V
    pub was_in : get dec key m ≡ some value
    pub rest_is : rest ≡ remove dec key m
    pub is_least : (j : K) (w : V) → get dec j m ≡ some w → f value ≤ f w

  pub remove_least-IsRemoved :
      (m : HashMap K V) → Distinct dec m → 1 ≤ length m → IsRemoved m (remove_least dec f m)
  unfolding remove_least
  remove_least-IsRemoved [] d h = absurd (omega arith)
  remove_least-IsRemoved ((k, v) ∷ m) d h = record {
    key = (least f (k, v) m).0;
    value = (least f (k, v) m).1;
    was_in = least-cons k v m d;
    rest_is = refl;
    is_least = λ j w g. elim (get-cons_inv dec k j v w m g) [
      | inl here ↦ omega (arith, ap f here, least-le-best f (k, v) m)
      | inr later ↦ least-le (k, v) m j w later
    ];
  }

  pub length-remove_least :
      (m : HashMap K V)
      → Distinct dec m
      → 1 ≤ length m
      → length (remove_least dec f m) + 1 ≡ length m
  length-remove_least m d h =
      let r = remove_least-IsRemoved m d h in
      rw r.rest_is (length-remove dec r.key m r.value r.was_in)

  pub Distinct-remove_least :
      (m : HashMap K V) → Distinct dec m → Distinct dec (remove_least dec f m)
  unfolding remove_least
  Distinct-remove_least [] d = tt
  Distinct-remove_least ((k, v) ∷ m) d = Distinct-remove dec (least f (k, v) m).0 ((k, v) ∷ m) d

  -- Every other entry stays, and the one that goes has the least key of all.
  pub get-remove_least :
      (m : HashMap K V)
      → Distinct dec m
      → (j : K) (w : V) → get dec j m ≡ some w
      → (get dec j (remove_least dec f m) ≡ some w)
        ⊎ ((i : K) (u : V) → get dec i m ≡ some u → f w ≤ f u)
  get-remove_least [] d j w h = unfold get in cc
  get-remove_least (e ∷ m) d j w h =
      let r = remove_least-IsRemoved (e ∷ m) d (omega arith) in
      elim (dec r.key j) [
        | yes same ↦
            let value_is =
              some-injective _ _ (sym r.was_in ∙ ap (λ i. get dec i (e ∷ m)) same ∙ h) in
            inr (λ i u g. omega (arith, ap f value_is, r.is_least i u g))
        | no other ↦ inl (ap (get dec j) r.rest_is ∙ (get-remove_ne dec j r.key (e ∷ m) other ∙ h))
      ]

  -- Nothing is put in.
  pub get-remove_least_inv :
      (m : HashMap K V)
      → Distinct dec m
      → (j : K) (w : V) → get dec j (remove_least dec f m) ≡ some w
      → get dec j m ≡ some w
  unfolding remove_least
  get-remove_least_inv [] d j w h = h
  get-remove_least_inv ((k, v) ∷ m) d j w h =
      get-remove_inv dec j (least f (k, v) m).0 ((k, v) ∷ m) w d h
