-- ===== src/Base/HashMap/Laws.antt =====
-- Laws of the map operations.
use mathlib.Core.Logic.{if_neg}
use carddav_mcp.Base.{
  ◌+◌, ◌≤◌, ◌≡◌, ◌≢◌, refl, ap, arith, Bool, true, false, [], ◌∷◌, none, some, length, ◌⊎◌,
}
use carddav_mcp.Base.HashMap.{HashMap, get, contains_key, insert, remove, Distinct, retain}

module _ {K V : Type 0} (dec : Discrete K) where
  pub contains_key-get :
      (j : K) (m : HashMap K V) → (contains_key dec j m ≡ false) → get dec j m ≡ none
  unfolding contains_key get
  contains_key-get j [] h = refl
  contains_key-get j ((k, v) ∷ m) h = ground (arith, contains_key-get j m)

  pub contains_key-true :
      (j : K) (m : HashMap K V) (v : V) → get dec j m ≡ some v → contains_key dec j m ≡ true
  unfolding contains_key get
  contains_key-true j [] v h = cc
  contains_key-true j ((k, w) ∷ m) v h = ground (arith, contains_key-true j m v)

  pub get-contains_key :
      (j : K) (m : HashMap K V) → get dec j m ≡ none → contains_key dec j m ≡ false
  unfolding contains_key get
  get-contains_key j [] h = refl
  get-contains_key j ((k, v) ∷ m) h = ground (arith, get-contains_key j m)

  pub get-insert_self : (j : K) (w : V) (m : HashMap K V) → get dec j (insert dec j w m) ≡ some w
  unfolding get insert
  get-insert_self j w [] = ground arith
  get-insert_self j w ((k, v) ∷ m) = ground (arith, get-insert_self j w m)

  pub get-insert_ne :
      (i j : K) (w : V) (m : HashMap K V) → j ≢ i → get dec i (insert dec j w m) ≡ get dec i m
  unfolding get insert
  get-insert_ne i j w [] h = ground arith
  get-insert_ne i j w ((k, v) ∷ m) h = ground (arith, get-insert_ne i j w m h)

  pub get-remove_self :
      (j : K) (m : HashMap K V) → Distinct dec m → get dec j (remove dec j m) ≡ none
  unfolding get remove
  get-remove_self j [] h = refl
  get-remove_self j ((k, v) ∷ m) h = ground (arith, get-remove_self j m h.1)

  pub get-remove_ne : (i j : K) (m : HashMap K V) → j ≢ i → get dec i (remove dec j m) ≡ get dec i m
  unfolding get remove
  get-remove_ne i j [] h = refl
  get-remove_ne i j ((k, v) ∷ m) h = ground (arith, get-remove_ne i j m h)

  -- What a map without an entry of the key says, says the map with one entry less.
  pub get-remove-none :
      (i j : K) (m : HashMap K V) → get dec i m ≡ none → get dec i (remove dec j m) ≡ none
  unfolding get remove
  get-remove-none i j [] h = refl
  get-remove-none i j ((k, v) ∷ m) h = ground (arith, get-remove-none i j m)

  pub get-remove_inv :
      (i j : K) (m : HashMap K V) (w : V)
      → Distinct dec m
      → get dec i (remove dec j m) ≡ some w
      → get dec i m ≡ some w
  unfolding get remove
  get-remove_inv i j [] w d h = h
  get-remove_inv i j ((k, v) ∷ m) w d h =
      ground (arith, get-remove_inv i j m w d.1, ap (λ n. get dec n m))

  pub get-retain-none :
      (i : K) (p : V → Bool) (m : HashMap K V) → get dec i m ≡ none → get dec i (retain p m) ≡ none
  unfolding get retain
  get-retain-none i p [] h = refl
  get-retain-none i p ((k, v) ∷ m) h = ground (arith, get-retain-none i p m)

  pub get-retain :
      (i : K) (p : V → Bool) (m : HashMap K V) (v : V)
      → get dec i m ≡ some v
      → p v ≡ true
      → get dec i (retain p m) ≡ some v
  unfolding get retain
  get-retain i p [] v h t = cc
  get-retain i p ((k, w) ∷ m) v h t = ground (arith, get-retain i p m v)

  -- What is left was there before, and passes the test.
  pub get-retain_inv :
      (i : K) (p : V → Bool) (m : HashMap K V) (v : V)
      → Distinct dec m
      → get dec i (retain p m) ≡ some v
      → (get dec i m ≡ some v) × (p v ≡ true)
  unfolding get retain
  get-retain_inv i p [] v d h = cc
  get-retain_inv i p ((k, w) ∷ m) v d h =
      ground (arith, get-retain_inv i p m v d.1, get-retain-none i p m, get-retain-none k p m d.0)

  pub Distinct-insert :
      (j : K) (w : V) (m : HashMap K V) → Distinct dec m → Distinct dec (insert dec j w m)
  unfolding get insert
  Distinct-insert j w [] h = ground arith
  Distinct-insert j w ((k, v) ∷ m) h =
      ground (arith, Distinct-insert j w m h.1, get-insert_ne k j w m)

  pub length-remove-le : (j : K) (m : HashMap K V) → length (remove dec j m) ≤ length m
  unfolding remove
  length-remove-le j [] = omega arith
  length-remove-le j ((k, v) ∷ m) = ground (arith, length-remove-le j m)

  pub Distinct-remove : (j : K) (m : HashMap K V) → Distinct dec m → Distinct dec (remove dec j m)
  unfolding remove
  Distinct-remove j [] h = tt
  Distinct-remove j ((k, v) ∷ m) h =
      ground (arith, Distinct-remove j m h.1, get-remove-none k j m h.0)

  pub Distinct-retain :
      (p : V → Bool) (m : HashMap K V) → Distinct dec m → Distinct dec (retain p m)
  unfolding retain
  Distinct-retain p [] h = tt
  Distinct-retain p ((k, v) ∷ m) h =
      ground (arith, Distinct-retain p m h.1, get-retain-none k p m h.0)

  pub length-insert_old :
      (j : K) (w : V) (m : HashMap K V)
      → contains_key dec j m ≡ true
      → length (insert dec j w m) ≡ length m
  unfolding contains_key insert
  length-insert_old j w [] h = cc
  length-insert_old j w ((k, v) ∷ m) h = ground (arith, length-insert_old j w m)

  pub length-insert-le :
      (j : K) (w : V) (m : HashMap K V) → length (insert dec j w m) ≤ length m + 1
  unfolding insert
  length-insert-le j w [] = omega arith
  length-insert-le j w ((k, v) ∷ m) = ground (arith, length-insert-le j w m)

  pub length-remove :
      (j : K) (m : HashMap K V) (v : V)
      → get dec j m ≡ some v
      → length (remove dec j m) + 1 ≡ length m
  unfolding get remove
  length-remove j [] w h = cc
  length-remove j ((k, v) ∷ m) w h = ground (arith, length-remove j m w)

pub length-retain-le :
    {K V : Type 0} (p : V → Bool) (m : HashMap K V) → length (retain p m) ≤ length m
unfolding retain
length-retain-le p [] = omega arith
length-retain-le p ((k, v) ∷ m) = ground (arith, length-retain-le p m)

module _ {K V : Type 0} (dec : Discrete K) where
  pub get-cons_tail :
      (k j : K) (v w : V) (m : HashMap K V)
      → get dec k m ≡ none
      → get dec j m ≡ some w
      → get dec j ((k, v) ∷ m) ≡ some w
  unfolding get
  get-cons_tail k j v w m n h = elim (dec k j) [
    | yes e ↦ absurd (cc (ap (λ i. get dec i m) e))
    | no ne ↦ rw (if_neg _ ne) h
  ]

  pub get-cons_head : (k : K) (v : V) (m : HashMap K V) → get dec k ((k, v) ∷ m) ≡ some v
  unfolding get
  get-cons_head k v m = ground arith

  pub get-cons_inv :
      (k j : K) (v w : V) (m : HashMap K V)
      → get dec j ((k, v) ∷ m) ≡ some w
      → (v ≡ w) ⊎ (get dec j m ≡ some w)
  unfolding get
  get-cons_inv k j v w m h = ground arith
