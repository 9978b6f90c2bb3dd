-- ===== src/Base/HashMap.antt =====
-- `std::collections::HashMap`, as the list of its entries in the order in which it is iterated.
-- That order is the map's own affair: the theorems hold for every order.
pub mod Laws
pub mod Oldest
pub mod Bounded
use mathlib.Core.Logic.{ite}
use carddav_mcp.Base.{
  ℕ, ◌≡◌, Bool, true, false, List, [], ◌∷◌, Option, none, some, leb, if◌then◌else◌,
}

abbrev pub HashMap : Type 0 → Type 0 → Type 0
HashMap K V = List (K × V)

module _ {K V : Type 0} (dec : Discrete K) where
  unfoldable pub get : K → HashMap K V → Option V
  get j [] = none
  get j ((k, v) ∷ m) = ite (dec k j) (some v) (get j m)

  unfoldable pub contains_key : K → HashMap K V → Bool
  contains_key j [] = false
  contains_key j ((k, v) ∷ m) = ite (dec k j) true (contains_key j m)

  unfoldable pub insert : K → V → HashMap K V → HashMap K V
  insert j w [] = (j, w) ∷ []
  insert j w ((k, v) ∷ m) = ite (dec k j) ((k, w) ∷ m) ((k, v) ∷ insert j w m)

  unfoldable pub remove : K → HashMap K V → HashMap K V
  remove j [] = []
  remove j ((k, v) ∷ m) = ite (dec k j) m ((k, v) ∷ remove j m)

  -- No key stands in two entries.
  abbrev pub Distinct : HashMap K V → Type 0
  Distinct [] = Unit
  Distinct ((k, v) ∷ m) = (get k m ≡ none) × Distinct m

-- `map.retain(|_, value| p(value))`
unfoldable pub retain : {K V : Type 0} → (V → Bool) → HashMap K V → HashMap K V
retain p [] = []
retain p ((k, v) ∷ m) = let rest = retain p m in if p v then (k, v) ∷ rest else rest

-- `map.iter().min_by_key(|(_, value)| f(value))`: the first entry with the least key.
unfoldable pub earlier : {K V : Type 0} → (V → ℕ) → K × V → K × V → K × V
earlier f a b = if leb (f a.1) (f b.1) then a else b

unfoldable pub least : {K V : Type 0} → (V → ℕ) → K × V → HashMap K V → K × V
unfolding earlier
least f best [] = best
least f best (e ∷ m) = least f (earlier f best e) m

unfoldable pub min_by_key : {K V : Type 0} → (V → ℕ) → HashMap K V → Option (K × V)
unfolding least
min_by_key f [] = none
min_by_key f (e ∷ m) = some (least f e m)

-- `if let Some(oldest_key) = … { map.remove(&oldest_key); }`
unfoldable pub remove_least : {K V : Type 0} → Discrete K → (V → ℕ) → HashMap K V → HashMap K V
unfolding min_by_key remove
remove_least dec f m = elim (min_by_key f m) [ none ↦ m | some (k, v) ↦ remove dec k m ]
