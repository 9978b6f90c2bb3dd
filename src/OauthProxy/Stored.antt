-- ===== src/OauthProxy/Stored.antt =====
-- The store of pending authorizations of src/oauth_proxy.rs under any sequence of requests.
use carddav_mcp.Base.{
  ℕ, ◌<◌, ◌≡◌, refl, sym, ◌∙◌, subst, arith, Bool, true, false, List, [], ◌∷◌, Option, none, some,
  length, leb, inl, inr, Bool-cases, leb_false→lt,
}
use carddav_mcp.Base.Str.{Text, Text-discrete}
use carddav_mcp.Base.HashMap.{get, insert, remove}
use carddav_mcp.Base.HashMap.Laws.{
  get-insert_self, get-retain_inv, get-remove_self, get-remove_ne, Distinct-remove,
  length-remove-le,
}
use carddav_mcp.Base.HashMap.Bounded.{IsBounded, IsBounded-retain, IsKept-room, IsPutIn-insert}
use carddav_mcp.OauthRedirect.{UrlParser, is_allowed_redirect_uri}
use carddav_mcp.OauthProxy.{
  Forms, Pending, Store, Proxy, Answer, pending_cap, drop_expired, insert_pending, take_pending,
  Pairs, forwarded, for_client, bounced, for_state, too_long, remember_client, authorize, callback,
  is_live,
}

-- The requests that the store sees.
pub data Visit : Type 0 where
  authorizing : Option Text → Text → ℕ → ℕ → Visit
  returning : Option Text → ℕ → Visit

pub some-injective : {A : Type 0} {a b : A} → some a ≡ some b → a ≡ b
some-injective h = ground arith

pub none≢some : {A : Type 0} {a : A} → ¬ (none ≡ some a)
none≢some h = cc

module _ (u : UrlParser) (f : Forms u) (st : Proxy) where
  unfoldable pub visit : Visit → Store → Store × Answer
  visit (authorizing q proxy_state created now) g = authorize u f st q proxy_state created now g
  visit (returning q now) g = callback u f st q now g

  -- The store after requests, the last one first.
  unfoldable pub visited : Store → List Visit → Store
  visited g [] = g
  visited g (v ∷ earlier) = (visit v (visited g earlier)).0

  abbrev pub stored : List Visit → Store
  stored = visited []

  -- An entry that the proxy may keep.
  pub record IsPending (p : Pending) : Type 0 where
    pub allowed : is_allowed_redirect_uri u st.allowed_redirect_uris p.client_redirect_uri ≡ true
    pub short_state : too_long p.client_state ≡ false

  pub record IsStore (g : Store) : Type 0 where
    pub is_bounded : IsBounded Text-discrete pending_cap g
    pub all_pending :
        (state : Text) (p : Pending) → get Text-discrete state g ≡ some p → IsPending p

  drop_expired-IsStore : (g : Store) (now : ℕ) → IsStore g → IsStore (drop_expired g now)
  unfolding drop_expired
  drop_expired-IsStore g now s = elim (Bool-cases (leb pending_cap (length g))) [
    | inr room ↦ rw room s
    | inl full ↦ rw full (record {
      is_bounded = IsBounded-retain Text-discrete (is_live now) s.is_bounded;
      all_pending = λ state p h.
          s.all_pending state p
            ((get-retain_inv Text-discrete state (is_live now) g p s.is_bounded.distinct h).0);
    })
  ]

  insert-IsStore :
      (g : Store) (state : Text) (p : Pending)
      → IsStore g
      → IsPending p
      → length g < pending_cap
      → IsStore (insert Text-discrete state p g)
  insert-IsStore g state p s ok_entry room =
      let put =
        IsPutIn-insert Text-discrete p
          (IsKept-room Text-discrete state (λ v. Unit) s.is_bounded room) in
      record {
        is_bounded = put.is_bounded;
        all_pending = λ i v h. elim (Text-discrete state i) [
          | yes same_key ↦
              let e : some p ≡ some v =
                sym (get-insert_self Text-discrete state p g)
                ∙ subst (λ k. get Text-discrete k (insert Text-discrete state p g) ≡ some v)
                    (sym same_key) h in
              subst IsPending (some-injective e) ok_entry
          | no other ↦ s.all_pending i v (put.was_there i v other h)
        ];
      }

  insert_pending-IsStore :
      (g : Store) (state : Text) (p : Pending) (now : ℕ)
      → IsStore g
      → IsPending p
      → IsStore (insert_pending g state p now).0
  unfolding insert_pending
  insert_pending-IsStore g state p now s ok_entry =
      elim (Bool-cases (leb pending_cap (length (drop_expired g now)))) [
        | inl full ↦ rw full (drop_expired-IsStore g now s)
        | inr room ↦ rw room (
            insert-IsStore (drop_expired g now) state p (drop_expired-IsStore g now s) ok_entry
              (leb_false→lt _ _ room))
      ]

  remove-IsStore : (g : Store) (state : Text) → IsStore g → IsStore (remove Text-discrete state g)
  remove-IsStore g state s = record {
    is_bounded = record {
      distinct = Distinct-remove Text-discrete state g s.is_bounded.distinct;
      bounded = omega (arith, length-remove-le Text-discrete state g, s.is_bounded.bounded);
    };
    all_pending = λ i v h. elim (Text-discrete state i) [
      | yes same_key ↦ absurd (
          none≢some (
            sym (get-remove_self Text-discrete state g s.is_bounded.distinct)
            ∙ subst (λ k. get Text-discrete k (remove Text-discrete state g) ≡ some v)
                (sym same_key) h))
      | no other ↦ s.all_pending i v (sym (get-remove_ne Text-discrete i state g other) ∙ h)
    ];
  }

  pub forwarded-store :
      (pairs : Pairs) (state : Text) (r : Store × Bool) → (forwarded u f st pairs state r).0 ≡ r.0
  forwarded-store pairs state (g, false) = refl
  forwarded-store pairs state (g, true) = refl

  remember_client-IsStore :
      (pairs : Pairs) (uri : Text) (client_state : Option Text) (state : Text) (created now : ℕ)
      (g : Store)
      → is_allowed_redirect_uri u st.allowed_redirect_uris uri ≡ true
      → IsStore g
      → IsStore (remember_client u f st pairs uri client_state state created now g).0
  unfolding remember_client
  remember_client-IsStore pairs uri client_state state created now g good s =
      elim (Bool-cases (too_long client_state)) [
        | inl long ↦ rw (long, remember_client) s
        | inr short ↦
            rw
              (
                short,
                remember_client,
                forwarded-store pairs state (
                    insert_pending g state
                      (record {
                        client_redirect_uri = uri;
                        client_state = client_state;
                        created = created;
                      })
                      now),
              )
              (insert_pending-IsStore g state _ now s
                (record { allowed = good; short_state = short }))
      ]

  for_client-IsStore :
      (pairs : Pairs) (state : Text) (created now : ℕ) (g : Store) (o : Option Text)
      → IsStore g
      → IsStore (for_client u f st pairs state created now g o).0
  for_client-IsStore pairs state created now g none s = s
  for_client-IsStore pairs state created now g (some uri) s =
      elim (Bool-cases (is_allowed_redirect_uri u st.allowed_redirect_uris uri)) [
        | inr bad ↦ rw bad s
        | inl good ↦ rw good (remember_client-IsStore pairs uri _ state created now g good s)
      ]

  pub bounced-store :
      (pairs : Pairs) (r : Store × Option Pending) → (bounced u f st pairs r).0 ≡ r.0
  bounced-store pairs (g, none) = refl
  bounced-store pairs (g, some p) = refl

  for_state-IsStore :
      (pairs : Pairs) (now : ℕ) (g : Store) (o : Option Text)
      → IsStore g
      → IsStore (for_state u f st pairs now g o).0
  unfolding take_pending
  for_state-IsStore pairs now g none s = s
  for_state-IsStore pairs now g (some state) s =
      rw (bounced-store pairs (take_pending g state now)) (remove-IsStore g state s)

  pub visit-IsStore : (v : Visit) (g : Store) → IsStore g → IsStore (visit v g).0
  unfolding visit authorize callback
  visit-IsStore (authorizing q state created now) g s = for_client-IsStore _ state created now g _ s
  visit-IsStore (returning q now) g s = for_state-IsStore _ now g _ s

  pub visited-IsStore : (visits : List Visit) (g : Store) → IsStore g → IsStore (visited g visits)
  unfolding visited
  visited-IsStore [] g s = s
  visited-IsStore (v ∷ earlier) g s = visit-IsStore v _ (visited-IsStore earlier g s)

  pub stored-IsStore : (visits : List Visit) → IsStore (stored visits)
  unfolding get
  stored-IsStore visits = visited-IsStore visits [] (record {
    is_bounded = record { distinct = tt; bounded = omega arith };
    all_pending = λ state p h. absurd (none≢some h);
  })
