-- ===== src/OauthProxy/Answered.antt =====
-- The pairs that the callback of src/oauth_proxy.rs appends to a client's URL, name by name.
use carddav_mcp.Base.{
  ◌≡◌, ◌≢◌, refl, ap, sym, ◌∙◌, List, [], ◌∷◌, ◌++◌, Option, none, some, append-nil, inl, inr,
  Bool-cases, Option-cases,
}
use carddav_mcp.Base.Str.{Text, codes, same}
use carddav_mcp.Base.Str.Pieces.{same_iff}
use carddav_mcp.OauthRedirect.{UrlParser}
use carddav_mcp.OauthProxy.{Forms, Pairs, Proxy, find_pair, last_pair, pair_of, returned_pairs}
use carddav_mcp.OauthProxy.Rewritten.{values_of, same-false, same-differs}

-- The first and the last of a name's values.
abbrev pub first_of : List Text → Option Text
first_of [] = none
first_of (v ∷ vs) = some v

abbrev pub last_of : List Text → Option Text
last_of [] = none
last_of (v ∷ vs) = elim (last_of vs) [ some w ↦ some w | none ↦ some v ]

abbrev pub as_list : Option Text → List Text
as_list none = []
as_list (some v) = v ∷ []

pub find_pair-first_of :
    (key : Text) (pairs : Pairs) → find_pair key pairs ≡ first_of (values_of key pairs)
unfolding find_pair values_of
find_pair-first_of key [] = refl
find_pair-first_of key ((k, v) ∷ pairs) = elim (Bool-cases (same k key)) [
  | inl here ↦ rw here refl
  | inr other ↦ rw other (find_pair-first_of key pairs)
]

pub last_pair-last_of :
    (key : Text) (pairs : Pairs) → last_pair key pairs ≡ last_of (values_of key pairs)
unfolding last_pair values_of
last_pair-last_of key [] = refl
last_pair-last_of key ((k, v) ∷ pairs) = elim (Bool-cases (same k key)) [
  | inl here ↦ elim (Option-cases (last_pair key pairs)) [
    | inl missing ↦
        let nothing : last_of (values_of key pairs) ≡ none =
          sym (last_pair-last_of key pairs) ∙ missing in
        rw (missing, here, nothing) refl
    | inr (v', found) ↦
        let later : last_of (values_of key pairs) ≡ some v' =
          sym (last_pair-last_of key pairs) ∙ found in
        rw (found, here, later) refl
  ]
  | inr other ↦ elim (Option-cases (last_pair key pairs)) [
    | inl missing ↦ rw (missing, other) (sym missing ∙ last_pair-last_of key pairs)
    | inr (v', found) ↦ rw (found, other) (sym found ∙ last_pair-last_of key pairs)
  ]
]

values_of-append :
    (key : Text) (xs ys : Pairs) → values_of key (xs ++ ys) ≡ values_of key xs ++ values_of key ys
unfolding values_of
values_of-append key [] ys = refl
values_of-append key ((k, v) ∷ xs) ys = elim (Bool-cases (same k key)) [
  | inl here ↦ rw (here, values_of-append key xs ys) refl
  | inr other ↦ rw (other, values_of-append key xs ys) refl
]

append_of :
    (key : Text) (xs ys : Pairs) {a b : List Text}
    → values_of key xs ≡ a
    → values_of key ys ≡ b
    → values_of key (xs ++ ys) ≡ a ++ b
append_of key xs ys ea eb = rw (values_of-append key xs ys, ea, eb) refl

module _ (u : UrlParser) (f : Forms u) (st : Proxy) where
  pair_of_self : (key : Text) (o : Option Text) → values_of key (pair_of u f st key o) ≡ as_list o
  unfolding values_of
  pair_of_self key none = refl
  pair_of_self key (some v) = rw ((same_iff key key).1 refl) refl

  pair_of_ne : (key k : Text) (o : Option Text) → key ≢ k → values_of key (pair_of u f st k o) ≡ []
  unfolding values_of
  pair_of_ne key k none ne = refl
  pair_of_ne key k (some v) ne = rw (same-false k key (λ e. ne (sym e))) refl

  -- The answers of the query, once each, and the client's own state.
  pub record IsReturned (pairs : Pairs) (client_state : Option Text) (out : Pairs) : Type 0 where
    pub codes_are :
        values_of (codes "code") out ≡ as_list (last_of (values_of (codes "code") pairs))
    pub errors_are :
        values_of (codes "error") out ≡ as_list (last_of (values_of (codes "error") pairs))
    pub descriptions_are :
        values_of (codes "error_description") out
        ≡ as_list (last_of (values_of (codes "error_description") pairs))
    pub states_are : values_of (codes "state") out ≡ as_list client_state
    pub no_others :
        (key : Text)
        → key ≢ codes "code"
        → key ≢ codes "error"
        → key ≢ codes "error_description"
        → key ≢ codes "state"
        → values_of key out ≡ []

  -- The four parts, by what a name has in each.
  in_parts :
      (key : Text) (pairs : Pairs) (client_state : Option Text) (a b c d : List Text)
      → values_of key (pair_of u f st (codes "code") (last_pair (codes "code") pairs)) ≡ a
      → values_of key (pair_of u f st (codes "error") (last_pair (codes "error") pairs)) ≡ b
      → values_of key
          (pair_of u f st (codes "error_description") (last_pair (codes "error_description") pairs))
        ≡ c
      → values_of key (pair_of u f st (codes "state") client_state) ≡ d
      → values_of key (returned_pairs u f st pairs client_state) ≡ a ++ b ++ c ++ d
  unfolding returned_pairs
  in_parts key pairs client_state a b c d ea eb ec ed =
      append_of key _ _ (append_of key _ _ (append_of key _ _ ea eb) ec) ed

  last_value :
      (key : Text) (pairs : Pairs)
      → values_of key (pair_of u f st key (last_pair key pairs))
        ≡ as_list (last_of (values_of key pairs))
  last_value key pairs =
      pair_of_self key (last_pair key pairs) ∙ ap as_list (last_pair-last_of key pairs)

  pub returned_pairs-IsReturned :
      (pairs : Pairs) (client_state : Option Text)
      → IsReturned pairs client_state (returned_pairs u f st pairs client_state)
  unfolding same
  returned_pairs-IsReturned pairs client_state = record {
    codes_are =
        in_parts _ pairs client_state _ [] [] [] (last_value (codes "code") pairs)
          (pair_of_ne _ _ _ (same-differs _ _ refl)) (pair_of_ne _ _ _ (same-differs _ _ refl))
          (pair_of_ne _ _ _ (same-differs _ _ refl))
        ∙ (append-nil _ ∙ (append-nil _ ∙ append-nil _));
    errors_are =
        in_parts _ pairs client_state [] _ [] [] (pair_of_ne _ _ _ (same-differs _ _ refl))
          (last_value (codes "error") pairs) (pair_of_ne _ _ _ (same-differs _ _ refl))
          (pair_of_ne _ _ _ (same-differs _ _ refl))
        ∙ (append-nil _ ∙ append-nil _);
    descriptions_are =
        in_parts _ pairs client_state [] [] _ [] (pair_of_ne _ _ _ (same-differs _ _ refl))
          (pair_of_ne _ _ _ (same-differs _ _ refl)) (last_value (codes "error_description") pairs)
          (pair_of_ne _ _ _ (same-differs _ _ refl))
        ∙ append-nil _;
    states_are =
        in_parts _ pairs client_state [] [] [] _ (pair_of_ne _ _ _ (same-differs _ _ refl))
          (pair_of_ne _ _ _ (same-differs _ _ refl)) (pair_of_ne _ _ _ (same-differs _ _ refl))
          (pair_of_self (codes "state") client_state);
    no_others = λ key n1 n2 n3 n4.
        in_parts key pairs client_state [] [] [] [] (pair_of_ne _ _ _ n1) (pair_of_ne _ _ _ n2)
          (pair_of_ne _ _ _ n3) (pair_of_ne _ _ _ n4);
  }
