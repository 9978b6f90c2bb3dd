-- ===== src/OauthRedirect/Allowlist.antt =====
-- What `parse_allowlist` of src/oauth_redirect.rs makes of the variable of the environment.
use carddav_mcp.Base.{
  ok-injective, Result-cases, false, List, [], ◌∷◌, ◌++◌, ◌≡◌, ◌↔◌, ◌⊎◌, inl, inr, refl, sym, ◌∙◌,
  arith, ok, err, Bool-cases, subst, Result, All,
}
use carddav_mcp.Base.Str.{Text, is_empty}
use carddav_mcp.OauthRedirect.{
  UrlParser, RedirectError, contains, push_new, validate_redirect_uri, add_entries, entries_of,
  parse_allowlist,
}
use carddav_mcp.OauthRedirect.Allowed.{IsListed, contains-IsListed}
use carddav_mcp.OauthRedirect.Valid.{
  IsRedirectUri, validate_redirect_uri-IsRedirectUri, IsRedirectUri-validate_redirect_uri,
}

-- No URI stands in the list twice.
abbrev pub NoRepeats : List Text → Type 0
NoRepeats [] = Unit
NoRepeats (uri ∷ uris) = (¬ IsListed uris uri) × NoRepeats uris

IsListed-append :
    (uris : List Text) (uri t : Text)
    → IsListed (uris ++ uri ∷ []) t ↔ (IsListed uris t ⊎ (uri ≡ t))
IsListed-append [] uri t = ground arith
IsListed-append (x ∷ xs) uri t = ground (arith, IsListed-append xs uri t)

NoRepeats-append :
    (uris : List Text) (uri : Text)
    → NoRepeats uris
    → ¬ IsListed uris uri
    → NoRepeats (uris ++ uri ∷ [])
NoRepeats-append [] uri n h = (λ e. e, tt)
NoRepeats-append (x ∷ xs) uri n h =
    (ground (arith, IsListed-append xs uri x), NoRepeats-append xs uri n.1 (λ l. h (inr l)))

err≢ok :
    {e : RedirectError} {a : List Text}
    → ¬ (◌≡◌ {A = Result RedirectError (List Text)} (err e) (ok a))
err≢ok h = cc

push_new-IsListed :
    (uris : List Text) (uri t : Text)
    → IsListed (push_new uris uri) t ↔ (IsListed uris t ⊎ (uri ≡ t))
unfolding push_new
push_new-IsListed uris uri t = elim (Bool-cases (contains uris uri)) [
  | inl old ↦ rw old (
    inl,
    elim [ inl l ↦ l | inr e ↦ subst (IsListed uris) e ((contains-IsListed uris uri).0 old) ],
  )
  | inr new ↦ rw new (IsListed-append uris uri t)
]

push_new-NoRepeats :
    (uris : List Text) (uri : Text) → NoRepeats uris → NoRepeats (push_new uris uri)
unfolding push_new
push_new-NoRepeats uris uri n = elim (Bool-cases (contains uris uri)) [
  | inl old ↦ rw old n
  | inr new ↦ rw new (NoRepeats-append uris uri n (ground (arith, contains-IsListed uris uri)))
]

module _ (u : UrlParser) where
  -- What the loop makes of the list so far and the entries that are left.
  pub record IsAdded (uris rest out : List Text) : Type 0 where
    pub all_valid : All (IsRedirectUri u) rest
    pub listed : (t : Text) → IsListed out t ↔ (IsListed uris t ⊎ IsListed rest t)
    pub no_repeats : NoRepeats uris → NoRepeats out

  add_entries-cons :
      (uris rest : List Text) (uri : Text)
      → validate_redirect_uri u uri ≡ ok tt
      → add_entries u uris (uri ∷ rest) ≡ add_entries u (push_new uris uri) rest
  unfolding add_entries
  add_entries-cons uris rest uri h = rw (h, add_entries)

  add_entries-refused :
      (uris rest : List Text) (uri : Text) (e : RedirectError)
      → validate_redirect_uri u uri ≡ err e
      → add_entries u uris (uri ∷ rest) ≡ err e
  unfolding add_entries
  add_entries-refused uris rest uri e h = rw (h, add_entries)

  IsAdded-cons :
      (uris rest out : List Text) (uri : Text)
      → IsRedirectUri u uri
      → IsAdded (push_new uris uri) rest out
      → IsAdded uris (uri ∷ rest) out
  IsAdded-cons uris rest out uri valid added = record {
    all_valid = (valid, added.all_valid);
    listed = λ t. ground (arith, added.listed t, push_new-IsListed uris uri t);
    no_repeats = λ n. added.no_repeats (push_new-NoRepeats uris uri n);
  }

  add_entries-IsAdded :
      (rest uris out : List Text) → add_entries u uris rest ≡ ok out → IsAdded uris rest out
  unfolding add_entries
  add_entries-IsAdded [] uris out h = subst (IsAdded uris []) (ok-injective h) (record {
    all_valid = tt;
    listed = λ t. (inl, elim [ inl l ↦ l | inr e ↦ absurd e ]);
    no_repeats = λ n. n;
  })
  add_entries-IsAdded (uri ∷ rest) uris out h = elim (Result-cases (validate_redirect_uri u uri)) [
    | inr (e, refused) ↦ absurd (err≢ok (sym (add_entries-refused uris rest uri e refused) ∙ h))
    | inl (t, valid) ↦
        IsAdded-cons uris rest out uri (validate_redirect_uri-IsRedirectUri u uri valid) (
          add_entries-IsAdded rest (push_new uris uri) out
            (sym (add_entries-cons uris rest uri valid) ∙ h))
  ]

  add_entries-valid :
      (rest uris : List Text)
      → All (IsRedirectUri u) rest
      → (out : List Text) × (add_entries u uris rest ≡ ok out)
  unfolding add_entries
  add_entries-valid [] uris h = (uris, refl)
  add_entries-valid (uri ∷ rest) uris h =
      let (out, e) = add_entries-valid rest (push_new uris uri) h.1 in
      (out, add_entries-cons uris rest uri (IsRedirectUri-validate_redirect_uri u uri h.0) ∙ e)

  pub record IsAllowlist (raw : Text) (uris : List Text) : Type 0 where
    pub not_empty : is_empty uris ≡ false
    pub all_valid : All (IsRedirectUri u) (entries_of raw)
    pub listed : (t : Text) → IsListed uris t ↔ IsListed (entries_of raw) t
    pub no_repeats : NoRepeats uris

  IsAdded-not_empty :
      (entries out : List Text)
      → is_empty entries ≡ false
      → IsAdded [] entries out
      → is_empty out ≡ false
  IsAdded-not_empty [] out h added = cc
  IsAdded-not_empty (e ∷ es) [] h added = absurd ((added.listed e).1 (inr (inl refl)))
  IsAdded-not_empty (e ∷ es) (o ∷ os) h added = refl

  IsAllowlist-added :
      (raw : Text) (uris : List Text)
      → is_empty uris ≡ false
      → IsAdded [] (entries_of raw) uris
      → IsAllowlist raw uris
  IsAllowlist-added raw uris h added = record {
    not_empty = h;
    all_valid = added.all_valid;
    listed = λ t. ground (arith, added.listed t);
    no_repeats = added.no_repeats tt;
  }

  -- A list that `parse_allowlist` returns is not empty, has no URI twice, and has exactly the
  -- entries of the text, all of them valid.
  pub parse_allowlist-IsAllowlist :
      (raw : Text) (uris : List Text) → parse_allowlist u raw ≡ ok uris → IsAllowlist raw uris
  unfolding parse_allowlist
  parse_allowlist-IsAllowlist raw uris h = elim (Result-cases (add_entries u [] (entries_of raw))) [
    | inr (e, refused) ↦ absurd (ground arith)
    | inl (out, added) ↦
        let same_list : (out ≡ uris) × (is_empty out ≡ false) = ground arith in
        subst (IsAllowlist raw) same_list.0 (
          IsAllowlist-added raw out same_list.1 (add_entries-IsAdded (entries_of raw) [] out added))
  ]

  -- `parse_allowlist` returns a list for each text that has an entry and whose entries are all
  -- valid.
  pub parse_allowlist-valid :
      (raw : Text)
      → All (IsRedirectUri u) (entries_of raw)
      → is_empty (entries_of raw) ≡ false
      → (uris : List Text) × (parse_allowlist u raw ≡ ok uris)
  unfolding parse_allowlist
  parse_allowlist-valid raw valid some_entry =
      let (out, e) = add_entries-valid (entries_of raw) [] valid in
      let some_uri =
        IsAdded-not_empty (entries_of raw) out some_entry
          (add_entries-IsAdded (entries_of raw) [] out e) in
      (out, ground (arith, e, some_uri))
