-- ===== src/OauthProxy/Spared.antt =====
-- What other requests to src/oauth_proxy.rs leave of a pending authorization.
use carddav_mcp.Base.{
  ℕ, ◌+◌, ◌<◌, ◌≡◌, ◌≢◌, ap, sym, ◌∙◌, arith, List, [], ◌∷◌, Option, none, some, length, leb, inl,
  inr, Bool-cases, Option-cases, All, true, lt→ltb,
}
use carddav_mcp.Base.Str.{Text, Text-discrete, codes}
use carddav_mcp.Base.HashMap.{get}
use carddav_mcp.Base.HashMap.Laws.{get-insert_ne, get-retain, get-remove_ne}
use carddav_mcp.OauthRedirect.{UrlParser, is_allowed_redirect_uri}
use carddav_mcp.OauthProxy.{
  Forms, Pending, Store, Proxy, Pairs, pending_cap, drop_expired, insert_pending, take_pending,
  is_live, or_empty, too_long, for_client, remember_client, for_state, authorize, callback,
  find_pair,
}
use carddav_mcp.OauthProxy.Answered.{last_of, last_pair-last_of}
use carddav_mcp.OauthProxy.Asked.{for_client-get, for_state-get}
use carddav_mcp.OauthProxy.Rewritten.{values_of}
use carddav_mcp.OauthProxy.Stored.{
  Visit, authorizing, returning, visit, visited, IsStore, visited-IsStore, none≢some, bounced-store,
  forwarded-store,
}

module _ (u : UrlParser) (f : Forms u) (st : Proxy) (state : Text) where
  -- A request within the lifetime of the entry that neither uses nor takes the proxy's state.
  abbrev pub IsSparing : ℕ → Visit → Type 0
  IsSparing created (authorizing q other entered now) = (other ≢ state) × (now < created + 600)
  IsSparing created (returning q now) =
      last_of (values_of (codes "state") (f.parse_pairs (or_empty q))) ≢ some state

  -- A request that does not give the proxy's state out.
  abbrev pub IsNotIssuing : Visit → Type 0
  IsNotIssuing (authorizing q other entered now) = other ≢ state
  IsNotIssuing (returning q now) = Unit

  drop_expired-keeps :
      (g : Store) (now : ℕ) (p : Pending)
      → now < p.created + 600
      → get Text-discrete state g ≡ some p
      → get Text-discrete state (drop_expired g now) ≡ some p
  unfolding drop_expired
  drop_expired-keeps g now p live h = elim (Bool-cases (leb pending_cap (length g))) [
    | inr room ↦ rw room h
    | inl full ↦
        let fresh : is_live now p ≡ true = lt→ltb _ _ (omega (arith, live)) in
        rw full (get-retain Text-discrete state (is_live now) g p h fresh)
  ]

  insert_pending-keeps :
      (g : Store) (other : Text) (p' : Pending) (now : ℕ) (p : Pending)
      → other ≢ state
      → now < p.created + 600
      → get Text-discrete state g ≡ some p
      → get Text-discrete state (insert_pending g other p' now).0 ≡ some p
  unfolding insert_pending
  insert_pending-keeps g other p' now p ne live h =
      let kept = drop_expired-keeps g now p live h in
      elim (Bool-cases (leb pending_cap (length (drop_expired g now)))) [
        | inl full ↦ rw full kept
        | inr room ↦
            rw room (get-insert_ne Text-discrete state other p' (drop_expired g now) ne ∙ kept)
      ]

  for_client-keeps :
      (pairs : Pairs) (other : Text) (created now : ℕ) (g : Store) (o : Option Text) (p : Pending)
      → other ≢ state
      → now < p.created + 600
      → get Text-discrete state g ≡ some p
      → get Text-discrete state (for_client u f st pairs other created now g o).0 ≡ some p
  unfolding remember_client
  for_client-keeps pairs other created now g none p ne live h = h
  for_client-keeps pairs other created now g (some uri) p ne live h =
      let p' : Pending = record {
        client_redirect_uri = uri;
        client_state = find_pair (codes "state") pairs;
        created = created;
      } in
      elim (Bool-cases (is_allowed_redirect_uri u st.allowed_redirect_uris uri)) [
        | inr bad ↦ rw bad h
        | inl good ↦ elim (Bool-cases (too_long (find_pair (codes "state") pairs))) [
          | inl long ↦ rw (good, long) h
          | inr short ↦
              rw (good, short, forwarded-store u f st pairs other (insert_pending g other p' now))
                (insert_pending-keeps g other p' now p ne live h)
        ]
      ]

  for_state-keeps :
      (pairs : Pairs) (now : ℕ) (g : Store) (o : Option Text) (p : Pending)
      → o ≢ some state
      → get Text-discrete state g ≡ some p
      → get Text-discrete state (for_state u f st pairs now g o).0 ≡ some p
  unfolding take_pending
  for_state-keeps pairs now g none p ne h = h
  for_state-keeps pairs now g (some used) p ne h =
      rw (bounced-store u f st pairs (take_pending g used now))
        (get-remove_ne Text-discrete state used g (λ e. ne (ap some e)) ∙ h)

  visit-keeps :
      (v : Visit) (g : Store) (p : Pending)
      → IsSparing p.created v
      → get Text-discrete state g ≡ some p
      → get Text-discrete state (visit u f st v g).0 ≡ some p
  unfolding visit authorize callback
  visit-keeps (authorizing q other created now) g p spare h =
      for_client-keeps _ other created now g _ p spare.0 spare.1 h
  visit-keeps (returning q now) g p spare h =
      for_state-keeps _ now g _ p
        (λ e. spare (sym (last_pair-last_of (codes "state") (f.parse_pairs (or_empty q))) ∙ e)) h

  -- An entry outlives the requests that spare it.
  pub visited-keeps :
      (visits : List Visit) (g : Store) (p : Pending)
      → All (IsSparing p.created) visits
      → get Text-discrete state g ≡ some p
      → get Text-discrete state (visited u f st g visits) ≡ some p
  unfolding visited
  visited-keeps [] g p spare h = h
  visited-keeps (v ∷ earlier) g p spare h =
      visit-keeps v (visited u f st g earlier) p spare.0 (visited-keeps earlier g p spare.1 h)

  visit-gone :
      (v : Visit) (g : Store)
      → IsStore u f st g
      → IsNotIssuing v
      → get Text-discrete state g ≡ none
      → (p : Pending) → ¬ (get Text-discrete state (visit u f st v g).0 ≡ some p)
  unfolding visit authorize callback
  visit-gone (authorizing q other created now) g s ne gone p h =
      elim (for_client-get u f st _ other created now g _ state p s h) [
        | inl old ↦ none≢some (sym gone ∙ old)
        | inr new ↦ ne new.0
      ]
  visit-gone (returning q now) g s ne gone p h =
      none≢some (sym gone ∙ for_state-get u f st _ now g _ state p s h)

  -- A state without an entry gets none from requests that do not give it out.
  pub visited-gone :
      (visits : List Visit) (g : Store)
      → IsStore u f st g
      → All IsNotIssuing visits
      → get Text-discrete state g ≡ none
      → get Text-discrete state (visited u f st g visits) ≡ none
  unfolding visited
  visited-gone [] g s ne gone = gone
  visited-gone (v ∷ earlier) g s ne gone =
      elim (Option-cases (get Text-discrete state (visit u f st v (visited u f st g earlier)).0)) [
        | inl missing ↦ missing
        | inr (p, e) ↦ absurd (
            visit-gone v (visited u f st g earlier) (visited-IsStore u f st earlier g s) ne.0
              (visited-gone earlier g s ne.1 gone) p e)
      ]
