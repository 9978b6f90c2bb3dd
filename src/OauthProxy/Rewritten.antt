-- ===== src/OauthProxy/Rewritten.antt =====
-- What src/oauth_proxy.rs forwards of a client's parameters, name by name.
use carddav_mcp.Base.{
  ◌≡◌, ◌≢◌, refl, sym, ◌∙◌, arith, true, false, List, [], ◌∷◌, ◌++◌, map, append-nil, inl, inr,
  Bool-cases, if◌then◌else◌,
}
use carddav_mcp.Base.Str.{Text, same}
use carddav_mcp.Base.Str.Pieces.{same_iff}
use carddav_mcp.OauthRedirect.{is_some}
use carddav_mcp.OauthProxy.{Pairs, find_pair, set_values, or_push}

-- The values that a name has, in their order.
unfoldable pub values_of : Text → Pairs → List Text
values_of key [] = []
values_of key ((k, v) ∷ pairs) = if same k key then v ∷ values_of key pairs else values_of key pairs

-- The values, and `v` where there is none.
abbrev pub at_least : Text → List Text → List Text
at_least v [] = v ∷ []
at_least v (w ∷ ws) = w ∷ ws

-- `v` in the place of each value.
abbrev pub each : Text → List Text → List Text
each v = map (λ w. v)

pub same-false : (s t : Text) → s ≢ t → same s t ≡ false
same-false s t ne = ground (arith, same_iff s t)

pub same-differs : (s t : Text) → same s t ≡ false → s ≢ t
same-differs s t h e = ground (arith, same_iff s t)

pub values_of-set_values_self :
    (key v : Text) (pairs : Pairs)
    → values_of key (set_values key v pairs) ≡ each v (values_of key pairs)
unfolding values_of set_values
values_of-set_values_self key v [] = refl
values_of-set_values_self key v ((k, w) ∷ pairs) = elim (Bool-cases (same k key)) [
  | inl here ↦ rw (here, values_of-set_values_self key v pairs) refl
  | inr other ↦ rw (other, values_of-set_values_self key v pairs) refl
]

pub values_of-set_values_ne :
    (key k v : Text) (pairs : Pairs)
    → key ≢ k
    → values_of key (set_values k v pairs) ≡ values_of key pairs
unfolding values_of set_values
values_of-set_values_ne key k v [] ne = refl
values_of-set_values_ne key k v ((j, w) ∷ pairs) ne = elim (Bool-cases (same j key)) [
  | inl here ↦
      let other : same j k ≡ false = same-false j k (λ e. ne (sym ((same_iff j key).0 here) ∙ e)) in
      rw (here, other, values_of-set_values_ne key k v pairs ne) refl
  | inr other ↦ rw (other, values_of-set_values_ne key k v pairs ne) refl
]

values_of-append :
    (key k v : Text) (pairs : Pairs)
    → values_of key (pairs ++ (k, v) ∷ [])
      ≡ values_of key pairs ++ (if same k key then v ∷ [] else [])
unfolding values_of
values_of-append key k v [] = refl
values_of-append key k v ((j, w) ∷ pairs) = elim (Bool-cases (same j key)) [
  | inl here ↦ rw (here, values_of-append key k v pairs) refl
  | inr other ↦ rw (other, values_of-append key k v pairs) refl
]

at_least-find_pair :
    (key v : Text) (pairs : Pairs)
    → is_some (find_pair key pairs) ≡ true
    → at_least v (values_of key pairs) ≡ values_of key pairs
unfolding values_of find_pair
at_least-find_pair key v [] h = absurd (ground arith)
at_least-find_pair key v ((k, w) ∷ pairs) h = elim (Bool-cases (same k key)) [
  | inl here ↦ rw here refl
  | inr other ↦ rw other (at_least-find_pair key v pairs (ground arith))
]

values_of-find_pair :
    (key : Text) (pairs : Pairs) → is_some (find_pair key pairs) ≡ false → values_of key pairs ≡ []
unfolding values_of find_pair
values_of-find_pair key [] h = refl
values_of-find_pair key ((k, w) ∷ pairs) h = elim (Bool-cases (same k key)) [
  | inl here ↦ absurd (ground arith)
  | inr other ↦ rw other (values_of-find_pair key pairs (ground arith))
]

pub values_of-or_push_self :
    (key v : Text) (pairs : Pairs)
    → values_of key (or_push key v pairs) ≡ at_least v (values_of key pairs)
unfolding or_push
values_of-or_push_self key v pairs = elim (Bool-cases (is_some (find_pair key pairs))) [
  | inl there ↦ rw there (sym (at_least-find_pair key v pairs there))
  | inr missing ↦
      rw
        (
          missing,
          values_of-append key key v pairs,
          values_of-find_pair key pairs missing,
          (same_iff key key).1 refl,
        )
        refl
]

pub values_of-or_push_ne :
    (key k v : Text) (pairs : Pairs)
    → key ≢ k
    → values_of key (or_push k v pairs) ≡ values_of key pairs
unfolding or_push
values_of-or_push_ne key k v pairs ne = elim (Bool-cases (is_some (find_pair k pairs))) [
  | inl there ↦ rw there refl
  | inr missing ↦
      rw (missing, values_of-append key k v pairs, same-false k key (λ e. ne (sym e)))
        (append-nil (values_of key pairs))
]
