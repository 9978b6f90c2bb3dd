-- ===== src/OauthProxy/Asked.antt =====
-- Which request to src/oauth_proxy.rs made each entry of its store.
use carddav_mcp.Base.{
  length, ℕ, ◌≡◌, subst, List, [], ◌∷◌, ◌⊎◌, ◌∙◌, sym, ap, Option, none, some, leb, inl, inr,
  Bool-cases,
}
use carddav_mcp.Base.Str.{Text, Text-discrete, codes}
use carddav_mcp.Base.HashMap.{get, insert}
use carddav_mcp.Base.HashMap.Laws.{get-remove_inv, get-retain_inv, get-insert_self, get-insert_ne}
use carddav_mcp.OauthRedirect.{UrlParser, is_allowed_redirect_uri}
use carddav_mcp.OauthProxy.{
  Forms, Pending, Store, Proxy, Pairs, take_pending, is_live, or_empty, find_pair, insert_pending,
  drop_expired, for_client, remember_client, authorize, too_long, pending_cap, for_state, callback,
}
use carddav_mcp.OauthProxy.Answered.{first_of, find_pair-first_of}
use carddav_mcp.OauthProxy.Rewritten.{values_of}
use carddav_mcp.OauthProxy.Stored.{
  Visit, authorizing, returning, visit, visited, stored, IsStore, stored-IsStore, none≢some,
  some-injective, bounced-store, forwarded-store,
}

module _ (u : UrlParser) (f : Forms u) (st : Proxy) where
  -- Among the requests, the last one first, a client's authorization made the entry.
  pub data WasAsked : List Visit → Text → Pending → Type 0 where
    latest :
        {q : Option Text} {state : Text} {created now : ℕ} {earlier : List Visit} {p : Pending}
        → first_of (values_of (codes "redirect_uri") (f.parse_pairs (or_empty q)))
          ≡ some p.client_redirect_uri
        → first_of (values_of (codes "state") (f.parse_pairs (or_empty q))) ≡ p.client_state
        → created ≡ p.created
        → WasAsked (authorizing q state created now ∷ earlier) state p
    before :
        {v : Visit} {earlier : List Visit} {state : Text} {p : Pending}
        → WasAsked earlier state p
        → WasAsked (v ∷ earlier) state p

  abbrev IsNew : Text → Pending → Text → Pending → Type 0
  IsNew state p state' p' = (state' ≡ state) × (p' ≡ p)

  insert-get :
      (g : Store) (state' : Text) (p' : Pending) (state : Text) (p : Pending)
      → get Text-discrete state (insert Text-discrete state' p' g) ≡ some p
      → (get Text-discrete state g ≡ some p) ⊎ IsNew state p state' p'
  insert-get g state' p' state p h = elim (Text-discrete state' state) [
    | yes e ↦ inr (
      e,
      some-injective (
          sym (get-insert_self Text-discrete state' p' g)
          ∙ subst (λ k. get Text-discrete k (insert Text-discrete state' p' g) ≡ some p) (sym e) h),
    )
    | no ne ↦ inl (sym (get-insert_ne Text-discrete state state' p' g ne) ∙ h)
  ]

  drop_expired-get :
      (g : Store) (now : ℕ) (state : Text) (p : Pending)
      → IsStore u f st g
      → get Text-discrete state (drop_expired g now) ≡ some p
      → get Text-discrete state g ≡ some p
  unfolding drop_expired
  drop_expired-get g now state p s = elim (Bool-cases (leb pending_cap (length g))) [
    | inr room ↦ rw room (λ h. h)
    | inl full ↦
        rw full
          (λ h. (get-retain_inv Text-discrete state (is_live now) g p s.is_bounded.distinct h).0)
  ]

  insert_pending-get :
      (g : Store) (state' : Text) (p' : Pending) (now : ℕ) (state : Text) (p : Pending)
      → IsStore u f st g
      → get Text-discrete state (insert_pending g state' p' now).0 ≡ some p
      → (get Text-discrete state g ≡ some p) ⊎ IsNew state p state' p'
  unfolding insert_pending
  insert_pending-get g state' p' now state p s =
      elim (Bool-cases (leb pending_cap (length (drop_expired g now)))) [
        | inl full ↦ rw full (λ h. inl (drop_expired-get g now state p s h))
        | inr room ↦ rw room (λ h. elim (insert-get (drop_expired g now) state' p' state p h) [
          | inl old ↦ inl (drop_expired-get g now state p s old)
          | inr new ↦ inr new
        ])
      ]

  -- The entry is one of the old store, or that of the request.
  abbrev pub IsOldOrAsked : Pairs → Text → ℕ → Store → Option Text → Text → Pending → Type 0
  IsOldOrAsked pairs state' created g o state p =
      (get Text-discrete state g ≡ some p)
      ⊎ ((state' ≡ state)
          × (o ≡ some p.client_redirect_uri)
          × (find_pair (codes "state") pairs ≡ p.client_state)
          × (created ≡ p.created))

  remember_client-get :
      (pairs : Pairs) (uri : Text) (state' : Text) (created now : ℕ) (g : Store) (state : Text)
      (p : Pending)
      → IsStore u f st g
      → get Text-discrete state
          (remember_client u f st pairs uri
            (find_pair (codes "state") pairs)
            state'
            created
            now
            g).0
        ≡ some p
      → IsOldOrAsked pairs state' created g (some uri) state p
  unfolding remember_client
  remember_client-get pairs uri state' created now g state p s =
      let p' : Pending = record {
        client_redirect_uri = uri;
        client_state = find_pair (codes "state") pairs;
        created = created;
      } in
      elim (Bool-cases (too_long (find_pair (codes "state") pairs))) [
        | inl long ↦ rw long (λ h. inl h)
        | inr short ↦
            rw (short, forwarded-store u f st pairs state' (insert_pending g state' p' now))
              (λ h. elim (insert_pending-get g state' p' now state p s h) [
                | inl old ↦ inl old
                | inr new ↦ inr (
                  new.0,
                  ap (λ x. some x.client_redirect_uri) new.1,
                  ap (λ x. x.client_state) new.1,
                  ap (λ x. x.created) new.1,
                )
              ])
      ]

  pub for_client-get :
      (pairs : Pairs) (state' : Text) (created now : ℕ) (g : Store) (o : Option Text) (state : Text)
      (p : Pending)
      → IsStore u f st g
      → get Text-discrete state (for_client u f st pairs state' created now g o).0 ≡ some p
      → IsOldOrAsked pairs state' created g o state p
  for_client-get pairs state' created now g none state p s = λ h. inl h
  for_client-get pairs state' created now g (some uri) state p s =
      elim (Bool-cases (is_allowed_redirect_uri u st.allowed_redirect_uris uri)) [
        | inr bad ↦ rw bad (λ h. inl h)
        | inl good ↦ rw good (remember_client-get pairs uri state' created now g state p s)
      ]

  pub for_state-get :
      (pairs : Pairs) (now : ℕ) (g : Store) (o : Option Text) (state : Text) (p : Pending)
      → IsStore u f st g
      → get Text-discrete state (for_state u f st pairs now g o).0 ≡ some p
      → get Text-discrete state g ≡ some p
  unfolding take_pending
  for_state-get pairs now g none state p s = λ h. h
  for_state-get pairs now g (some used) state p s =
      rw (bounced-store u f st pairs (take_pending g used now))
        (get-remove_inv Text-discrete state used g p s.is_bounded.distinct)

  visit-WasAsked :
      (q : Option Text) (state' : Text) (created now : ℕ) (earlier : List Visit) (state : Text)
      (p : Pending)
      → WasAsked earlier state p
        ⊎ ((state' ≡ state)
            × (find_pair (codes "redirect_uri") (f.parse_pairs (or_empty q))
                ≡ some p.client_redirect_uri)
            × (find_pair (codes "state") (f.parse_pairs (or_empty q)) ≡ p.client_state)
            × (created ≡ p.created))
      → WasAsked (authorizing q state' created now ∷ earlier) state p
  visit-WasAsked q state' created now earlier state p (inl old) = before old
  visit-WasAsked q state' created now earlier state p (inr (e, from, its, at)) =
      subst (λ k. WasAsked (authorizing q state' created now ∷ earlier) k p) e
        (latest
          (sym (find_pair-first_of (codes "redirect_uri") (f.parse_pairs (or_empty q))) ∙ from)
          (sym (find_pair-first_of (codes "state") (f.parse_pairs (or_empty q))) ∙ its) at)

  pub stored-WasAsked :
      (visits : List Visit) (state : Text) (p : Pending)
      → get Text-discrete state (stored u f st visits) ≡ some p
      → WasAsked visits state p
  unfolding visited visit authorize callback get
  stored-WasAsked [] state p h = absurd (none≢some h)
  stored-WasAsked (authorizing q state' created now ∷ earlier) state p h =
      visit-WasAsked q state' created now earlier state p
        (elim (for_client-get (f.parse_pairs (or_empty q)) state' created now
          (stored u f st earlier) _ state p (stored-IsStore u f st earlier) h) [
            | inl old ↦ inl (stored-WasAsked earlier state p old)
            | inr asked ↦ inr asked
          ])
  stored-WasAsked (returning q now ∷ earlier) state p h = before (
      stored-WasAsked earlier state p (
        for_state-get (f.parse_pairs (or_empty q)) now (stored u f st earlier) _ state p
          (stored-IsStore u f st earlier) h))
