-- ===== src/OauthProxy/Returned.antt =====
-- An authorization of src/oauth_proxy.rs from the client's request to its return.
use carddav_mcp.Base.{
  List, All, sym, ℕ, ◌+◌, ◌-◌, ◌<◌, ◌≡◌, refl, ap, ◌∙◌, subst, arith, false, Option, none, some,
  length, leb, inl, inr, Bool-cases, lt→leb_false,
}
use carddav_mcp.Base.Str.{Text, Text-discrete, codes}
use carddav_mcp.Base.HashMap.{get, insert, remove}
use carddav_mcp.Base.HashMap.Laws.{get-insert_self, get-remove_self}
use carddav_mcp.OauthRedirect.{UrlParser, is_allowed_redirect_uri}
use carddav_mcp.OauthProxy.Answered.{
  first_of, last_of, find_pair-first_of, last_pair-last_of, IsReturned, returned_pairs-IsReturned,
}
use carddav_mcp.OauthProxy.Rewritten.{values_of}
use carddav_mcp.OauthProxy.Spared.{IsSparing, IsNotIssuing, visited-keeps, visited-gone}
use carddav_mcp.OauthProxy.Stored.{
  Visit, authorizing, returning, stored, visited, IsStore, visit, visit-IsStore, visited-IsStore,
  stored-IsStore,
}
use carddav_mcp.OauthProxy.{
  Answer, Forms, Pending, Store, Proxy, Pairs, refused, redirect, pending_cap, pending_ttl,
  drop_expired, insert_pending, take_pending, live_or_none, find_pair, last_pair, too_long,
  or_empty, forwarded, for_client, remember_client, authorize, bounced, callback, returned_pairs,
}

module _ (u : UrlParser) (f : Forms u) (st : Proxy) where
  forwarded-stored :
      (pairs : Pairs) (state : Text) (p : Pending) (now : ℕ) (g g' : Store) (target : Text)
      → forwarded u f st pairs state (insert_pending g state p now) ≡ (g', redirect target)
      → get Text-discrete state g' ≡ some p
  unfolding insert_pending
  forwarded-stored pairs state p now g g' target h =
      elim (Bool-cases (leb pending_cap (length (drop_expired g now)))) [
        | inl full ↦ absurd (ground arith)
        | inr room ↦
            let same_store : insert Text-discrete state p (drop_expired g now) ≡ g' =
              ground arith in
            subst (λ x. get Text-discrete state x ≡ some p) same_store
              (get-insert_self Text-discrete state p (drop_expired g now))
      ]

  for_client-stored :
      (pairs : Pairs) (state uri : Text) (created now : ℕ) (g g' : Store) (target : Text)
      → for_client u f st pairs state created now g (some uri) ≡ (g', redirect target)
      → get Text-discrete state g'
        ≡ some (record {
          client_redirect_uri = uri;
          client_state = find_pair (codes "state") pairs;
          created = created;
        })
  unfolding remember_client
  for_client-stored pairs state uri created now g g' target h =
      elim (Bool-cases (is_allowed_redirect_uri u st.allowed_redirect_uris uri)) [
        | inr bad ↦ absurd (ground arith)
        | inl good ↦ elim (Bool-cases (too_long (find_pair (codes "state") pairs))) [
          | inl long ↦ absurd (ground arith)
          | inr short ↦ forwarded-stored pairs state _ now g g' target (ground arith)
        ]
      ]

  pub bounced-live :
      (pairs : Pairs) (g : Store) (p : Pending) (url : u.Url) (now : ℕ)
      → u.parse p.client_redirect_uri ≡ some url
      → now < p.created + pending_ttl
      → bounced u f st pairs (g, live_or_none now (some p))
        ≡ (g, redirect (f.appended url (returned_pairs u f st pairs p.client_state)))
  bounced-live pairs g p url now parsed live =
      let fresh : leb pending_ttl (now - p.created) ≡ false =
        lt→leb_false _ _ (omega (arith, live)) in
      rw (fresh, parsed) refl

  pub callback-take :
      (q : Option Text) (now : ℕ) (g : Store) (state : Text) (o : Option Pending)
      → last_pair (codes "state") (f.parse_pairs (or_empty q)) ≡ some state
      → get Text-discrete state g ≡ o
      → callback u f st q now g
        ≡ bounced u f st
            (f.parse_pairs (or_empty q))
            (remove Text-discrete state g, live_or_none now o)
  unfolding callback take_pending
  callback-take q now g state o asked found = rw (asked, found) refl

  -- The client is sent back once: `first` is the answer to the callback, and `again` that to a later
  -- one with the same state.
  pub record IsReturnedOnce (pairs returned : Pairs) (url : u.Url) (first again : Answer)
      : Type 0 where
    pub out : Pairs
    pub sent_back : first ≡ redirect (f.appended url out)
    pub answers : IsReturned u f st returned (first_of (values_of (codes "state") pairs)) out
    pub refused_again : again ≡ refused 400 "unknown or expired state\n"

  sent-IsReturnedOnce :
      (q : Option Text) (state : Text) (g : Store) (p : Pending) (url : u.Url)
      (between further : List Visit) (back back' : Option Text) (later again : ℕ)
      → IsStore u f st g
      → get Text-discrete state g ≡ some p
      → u.parse p.client_redirect_uri ≡ some url
      → All (IsSparing u f st state p.created) between
      → last_of (values_of (codes "state") (f.parse_pairs (or_empty back))) ≡ some state
      → later < p.created + 600
      → All (IsNotIssuing u f st state) further
      → last_of (values_of (codes "state") (f.parse_pairs (or_empty back'))) ≡ some state
      → p.client_state ≡ find_pair (codes "state") (f.parse_pairs (or_empty q))
      → IsReturnedOnce
          (f.parse_pairs (or_empty q))
          (f.parse_pairs (or_empty back))
          url
          (callback u f st back later (visited u f st g between)).1
          (callback u f st back' again
            (visited u f st (callback u f st back later (visited u f st g between)).0 further)).1
  unfolding visit
  sent-IsReturnedOnce q state g p url between further back back' later again s there parsed spare
        asked live not_issued asked' its =
      let returned = f.parse_pairs (or_empty back) in
      let g1 = visited u f st g between in
      let s1 = visited-IsStore u f st between g s in
      let there1 = visited-keeps u f st state between g p spare there in
      let first : callback u f st back later g1 ≡ (
        remove Text-discrete state g1,
        redirect (f.appended url (returned_pairs u f st returned p.client_state)),
      ) =
        callback-take back later g1 state (some p)
          (last_pair-last_of (codes "state") returned ∙ asked) there1
        ∙ bounced-live returned (remove Text-discrete state g1) p url later parsed live in
      let gone : get Text-discrete state (callback u f st back later g1).0 ≡ none =
        subst (λ x. get Text-discrete state x ≡ none) (sym (ap (λ r. r.0) first))
          (get-remove_self Text-discrete state g1 s1.is_bounded.distinct) in
      let gone2 =
        visited-gone u f st state further (callback u f st back later g1).0
          (visit-IsStore u f st (returning back later) g1 s1) not_issued gone in
      record {
        out = returned_pairs u f st returned p.client_state;
        sent_back = ap (λ r. r.1) first;
        answers =
            subst
              (λ o. IsReturned u f st returned o (returned_pairs u f st returned p.client_state))
              (its ∙ find_pair-first_of (codes "state") (f.parse_pairs (or_empty q)))
              (returned_pairs-IsReturned u f st returned p.client_state);
        refused_again =
            ap (λ r. r.1)
              (callback-take back' again _ state none
                (last_pair-last_of (codes "state") (f.parse_pairs (or_empty back')) ∙ asked')
                gone2);
      }

  -- After any requests, when `authorize` redirects for a client whose URI parses, then, after
  -- more requests within 600 seconds that neither use nor take the proxy's state, `callback`
  -- with that state, within the 600 seconds, redirects to the client's URI. Appended are, once
  -- each, the last code, error and error description of the callback's query, where it has
  -- them, and the client's own first state, if it gave one, and nothing else. A later
  -- `callback` with that state is refused, whatever requests come in between that do not take
  -- the state again.
  pub authorize-callback :
      (earlier : List Visit) (q : Option Text) (state uri : Text) (created now : ℕ) (g : Store)
      (target : Text) (url : u.Url) (between further : List Visit) (back back' : Option Text)
      (later again : ℕ)
      → first_of (values_of (codes "redirect_uri") (f.parse_pairs (or_empty q))) ≡ some uri
      → u.parse uri ≡ some url
      → authorize u f st q state created now (stored u f st earlier) ≡ (g, redirect target)
      → All (IsSparing u f st state created) between
      → last_of (values_of (codes "state") (f.parse_pairs (or_empty back))) ≡ some state
      → later < created + 600
      → All (IsNotIssuing u f st state) further
      → last_of (values_of (codes "state") (f.parse_pairs (or_empty back'))) ≡ some state
      → IsReturnedOnce
          (f.parse_pairs (or_empty q))
          (f.parse_pairs (or_empty back))
          url
          (callback u f st back later (visited u f st g between)).1
          (callback u f st back' again
            (visited u f st (callback u f st back later (visited u f st g between)).0 further)).1
  unfolding authorize visit
  authorize-callback earlier q state uri created now g target url between further back back' later
        again from parsed h spare asked live not_issued asked' =
      let pairs = f.parse_pairs (or_empty q) in
      let from' = find_pair-first_of (codes "redirect_uri") pairs ∙ from in
      let p : Pending = record {
        client_redirect_uri = uri;
        client_state = find_pair (codes "state") pairs;
        created = created;
      } in
      let h' : for_client u f st pairs state created now (stored u f st earlier) (some uri)
          ≡ (g, redirect target) =
        subst
          (λ o.
            for_client u f st pairs state created now (stored u f st earlier) o
            ≡ (g, redirect target))
          from' h in
      let there : get Text-discrete state g ≡ some p =
        for_client-stored pairs state uri created now (stored u f st earlier) g target h' in
      let s : IsStore u f st g = subst (IsStore u f st) (ap (λ r. r.0) h) (
        visit-IsStore u f st (authorizing q state created now) (stored u f st earlier)
          (stored-IsStore u f st earlier)) in
      sent-IsReturnedOnce q state g p url between further back back' later again s there parsed
        spare asked live not_issued asked' refl
