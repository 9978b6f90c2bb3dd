-- ===== src/OauthProxy/Flow.antt =====
-- The flow of an authorization through src/oauth_proxy.rs: where the callback sends a client, and
-- that it does so once.
use carddav_mcp.Base.{
  ℕ, ◌+◌, ◌-◌, ◌<◌, ◌≡◌, refl, subst, arith, true, List, ◌∙◌, sym, Option, none, some, leb, inl,
  inr, Bool-cases, Option-cases,
}
use carddav_mcp.Base.Str.{Text, Text-discrete, codes}
use carddav_mcp.Base.HashMap.{get, remove}
use carddav_mcp.Base.HashMap.Laws.{get-remove_self}
use carddav_mcp.OauthRedirect.{UrlParser, is_allowed_redirect_uri}
use carddav_mcp.OauthProxy.{
  Forms, Pending, Store, Proxy, Pairs, Answer, redirect, pending_ttl, take_pending, live_or_none,
  last_pair, or_empty, bounced, for_state, callback, returned_pairs,
}
use carddav_mcp.OauthProxy.Answered.{
  last_of, last_pair-last_of, IsReturned, returned_pairs-IsReturned,
}
use carddav_mcp.OauthProxy.Rewritten.{values_of}
use carddav_mcp.OauthProxy.Stored.{Visit, stored, stored-IsStore}
use carddav_mcp.OauthProxy.Asked.{WasAsked, stored-WasAsked}

module _ (u : UrlParser) (f : Forms u) (st : Proxy) where
  -- The client was sent back with the answers, by an entry that is then gone.
  pub record IsBounced (visits : List Visit) (pairs : Pairs) (now : ℕ) (g' : Store) (target : Text)
      : Type 0 where
    pub state : Text
    pub entry : Pending
    pub url : u.Url
    pub out : Pairs
    pub asked : last_of (values_of (codes "state") pairs) ≡ some state
    pub was_asked : WasAsked u f st visits state entry
    pub live : now < entry.created + 600
    pub allowed :
        is_allowed_redirect_uri u st.allowed_redirect_uris entry.client_redirect_uri ≡ true
    pub parsed : u.parse entry.client_redirect_uri ≡ some url
    pub target_is : target ≡ f.appended url out
    pub returned : IsReturned u f st pairs entry.client_state out
    pub used_up : get Text-discrete state g' ≡ none

  bounced-IsBounced :
      (visits : List Visit) (pairs : Pairs) (now : ℕ) (g' : Store) (target state : Text)
      (o : Option Pending)
      → last_pair (codes "state") pairs ≡ some state
      → get Text-discrete state (stored u f st visits) ≡ o
      → ◌≡◌ {A = Store × Answer}
          (bounced u f st pairs
            (remove Text-discrete state (stored u f st visits), live_or_none now o))
          (g', redirect target)
      → IsBounced visits pairs now g' target
  bounced-IsBounced visits pairs now g' target state none asked found h = absurd (ground arith)
  bounced-IsBounced visits pairs now g' target state (some p) asked found h =
      let g = stored u f st visits in
      let s = stored-IsStore u f st visits in
      elim (Bool-cases (leb pending_ttl (now - p.created))) [
        | inl old ↦ absurd (ground arith)
        | inr fresh ↦ elim (Option-cases (u.parse p.client_redirect_uri)) [
          | inl bad ↦ absurd (ground arith)
          | inr (url, e) ↦
              let same_store : remove Text-discrete state g ≡ g' = ground arith in
              record {
                state = state;
                entry = p;
                url = url;
                out = returned_pairs u f st pairs p.client_state;
                asked = sym (last_pair-last_of (codes "state") pairs) ∙ asked;
                was_asked = stored-WasAsked u f st visits state p found;
                live = ground arith;
                allowed = (s.all_pending state p found).allowed;
                parsed = e;
                target_is = ground arith;
                returned = returned_pairs-IsReturned u f st pairs p.client_state;
                used_up =
                    subst (λ x. get Text-discrete state x ≡ none) same_store
                      (get-remove_self Text-discrete state g s.is_bounded.distinct);
              }
        ]
      ]

  for_state-IsBounced :
      (visits : List Visit) (pairs : Pairs) (now : ℕ) (g' : Store) (target : Text) (o : Option Text)
      → last_pair (codes "state") pairs ≡ o
      → for_state u f st pairs now (stored u f st visits) o ≡ (g', redirect target)
      → IsBounced visits pairs now g' target
  unfolding take_pending
  for_state-IsBounced visits pairs now g' target none asked h = absurd (ground arith)
  for_state-IsBounced visits pairs now g' target (some state) asked h =
      bounced-IsBounced visits pairs now g' target state
        (get Text-discrete state (stored u f st visits)) asked refl h

  -- After any requests to the proxy, a redirect of `callback` goes to a redirect URI that an
  -- earlier `authorize` of a client gave, entered under the state of the query, less than 600
  -- seconds old, and allowed. Appended to it are, once each, the last code, the last error and
  -- the last error description of the query, where it has them, and the state of that client,
  -- if it gave one, and nothing else. The entry is gone afterwards.
  pub callback-IsBounced :
      (visits : List Visit) (q : Option Text) (now : ℕ) (g' : Store) (target : Text)
      → callback u f st q now (stored u f st visits) ≡ (g', redirect target)
      → IsBounced visits (f.parse_pairs (or_empty q)) now g' target
  unfolding callback
  callback-IsBounced visits q now g' target h =
      for_state-IsBounced visits (f.parse_pairs (or_empty q)) now g' target _ refl h
