-- ===== src/Base/HashMap/Bounded.antt =====
-- Maps with a cap: before a key is put in, entries are dropped to make room for it.
use carddav_mcp.Base.{
  ℕ, ◌≤◌, ◌<◌, ◌≡◌, ◌≢◌, sym, ◌∙◌, arith, Bool, true, false, some, length, ◌⊎◌, inl, inr,
  Bool-cases,
}
use carddav_mcp.Base.HashMap.{HashMap, get, contains_key, insert, remove_least, Distinct, retain}
use carddav_mcp.Base.HashMap.Laws.{
  get-insert_self, get-insert_ne, Distinct-insert, length-insert_old, length-insert-le,
  Distinct-retain, get-retain, get-retain_inv, length-retain-le,
}
use carddav_mcp.Base.HashMap.Oldest.{
  length-remove_least, Distinct-remove_least, get-remove_least, get-remove_least_inv,
}

module _ {K V : Type 0} (dec : Discrete K) where
  -- No key twice, and at most `cap` entries.
  pub record IsBounded (cap : ℕ) (m : HashMap K V) : Type 0 where
    pub distinct : Distinct dec m
    pub bounded : length m ≤ cap

  -- The value has the least key of all in the map.
  abbrev pub IsLeast : (V → ℕ) → HashMap K V → V → Type 0
  IsLeast f m v = (i : K) (u : V) → get dec i m ≡ some u → f v ≤ f u

  -- What is kept of a map when there is to be room for the key `j`: an entry is lost only if `Gone`
  -- says so of its value.
  pub record IsKept (cap : ℕ) (j : K) (Gone : V → Type 0) (m kept : HashMap K V) : Type 0 where
    pub distinct : Distinct dec kept
    pub bounded : length kept ≤ cap
    pub has_room : (contains_key dec j kept ≡ true) ⊎ (length kept < cap)
    pub stays : (i : K) (w : V) → get dec i m ≡ some w → (get dec i kept ≡ some w) ⊎ Gone w
    pub was_there : (i : K) (w : V) → get dec i kept ≡ some w → get dec i m ≡ some w

  -- The map after `insert j v` on what was kept.
  pub record IsPutIn (cap : ℕ) (j : K) (v : V) (Gone : V → Type 0) (m after : HashMap K V)
      : Type 0 where
    pub is_bounded : IsBounded cap after
    pub is_in : get dec j after ≡ some v
    pub others_stay :
        (i : K) (w : V) → j ≢ i → get dec i m ≡ some w → (get dec i after ≡ some w) ⊎ Gone w
    pub was_there : (i : K) (w : V) → j ≢ i → get dec i after ≡ some w → get dec i m ≡ some w

  module _ {cap : ℕ} {j : K} {Gone : V → Type 0} {m kept : HashMap K V} where
    length-insert-le-cap : (v : V) → IsKept cap j Gone m kept → length (insert dec j v kept) ≤ cap
    length-insert-le-cap v r = elim r.has_room [
      | inl old ↦ omega (arith, length-insert_old dec j v kept old, r.bounded)
      | inr room ↦ omega (arith, length-insert-le dec j v kept)
    ]

    pub IsPutIn-insert :
        (v : V) → IsKept cap j Gone m kept → IsPutIn cap j v Gone m (insert dec j v kept)
    IsPutIn-insert v r = record {
      is_bounded = record {
        distinct = Distinct-insert dec j v kept r.distinct;
        bounded = length-insert-le-cap v r;
      };
      is_in = get-insert_self dec j v kept;
      others_stay = λ i w ne h. elim (r.stays i w h) [
        | inl here ↦ inl (get-insert_ne dec i j v kept ne ∙ here)
        | inr gone ↦ inr gone
      ];
      was_there = λ i w ne h. r.was_there i w (sym (get-insert_ne dec i j v kept ne) ∙ h);
    }

  module _ {cap : ℕ} (j : K) (Gone : V → Type 0) {m : HashMap K V} (b : IsBounded cap m) where
    pub IsKept-room : length m < cap → IsKept cap j Gone m m
    IsKept-room lt = record {
      distinct = b.distinct;
      bounded = b.bounded;
      has_room = inr lt;
      stays = λ i w h. inl h;
      was_there = λ i w h. h;
    }

    pub IsKept-old : contains_key dec j m ≡ true → IsKept cap j Gone m m
    IsKept-old old = record {
      distinct = b.distinct;
      bounded = b.bounded;
      has_room = inl old;
      stays = λ i w h. inl h;
      was_there = λ i w h. h;
    }

    pub IsKept-least :
        (f : V → ℕ)
        → 1 ≤ length m
        → ((v : V) → IsLeast f m v → Gone v)
        → IsKept cap j Gone m (remove_least dec f m)
    IsKept-least f h gone = record {
      distinct = Distinct-remove_least dec f m b.distinct;
      bounded = omega (arith, length-remove_least dec f m b.distinct h, b.bounded);
      has_room = inr (omega (arith, length-remove_least dec f m b.distinct h, b.bounded));
      stays = λ i w g. elim (get-remove_least dec f m b.distinct i w g) [
        | inl here ↦ inl here
        | inr least ↦ inr (gone w least)
      ];
      was_there = get-remove_least_inv dec f m b.distinct;
    }

  pub IsBounded-retain :
      {cap : ℕ} {m : HashMap K V} (p : V → Bool) → IsBounded cap m → IsBounded cap (retain p m)
  IsBounded-retain {m = m} p b = record {
    distinct = Distinct-retain dec p m b.distinct;
    bounded = omega (arith, length-retain-le p m, b.bounded);
  }

  -- First the entries that fail the test go, and then what is kept of the others is kept.
  pub IsKept-retain :
      {cap : ℕ} {j : K} {Gone : V → Type 0} {m kept : HashMap K V} (p : V → Bool)
      → Distinct dec m
      → ((v : V) → p v ≡ false → Gone v)
      → IsKept cap j Gone (retain p m) kept
      → IsKept cap j Gone m kept
  IsKept-retain {m = m} p d gone r = record {
    distinct = r.distinct;
    bounded = r.bounded;
    has_room = r.has_room;
    stays = λ i w h. elim (Bool-cases (p w)) [
      | inl e ↦ r.stays i w (get-retain dec i p m w h e)
      | inr e ↦ inr (gone w e)
    ];
    was_there = λ i w h. (get-retain_inv dec i p m w d (r.was_there i w h)).0;
  }
