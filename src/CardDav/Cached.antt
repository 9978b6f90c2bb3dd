-- ===== src/CardDav/Cached.antt =====
-- src/carddav_client.rs: the discovery that is asked for again.
use carddav_mcp.Base.{
  ◌+◌, ◌<◌, ◌≤◌, arith, ok-injective, ◌≡◌, refl, ap, subst, sym, ◌∙◌, none, some, ok,
}
use carddav_mcp.Base.Str.{Text, Text-discrete}
use carddav_mcp.Base.Steps.{Answers, Answers-bind, lift, ◌>>◌, after_step}
use carddav_mcp.OauthRedirect.{UrlParser}
use carddav_mcp.Base.HashMap.{get}
use carddav_mcp.Base.HashMap.Laws.{get-insert_self}
use carddav_mcp.CardDav.{DavUrls, DavDiscovery, CardDavClient, DavWorld}
use carddav_mcp.CardDav.Calls.{Transport, discover, discover_fresh, remember}
use carddav_mcp.CardDav.Discoveries.{discovery_lookup, discovery_insert}

module _ (u : UrlParser) (d : DavUrls u) (t : Transport u.Url) (client : CardDavClient u.Url)
    (token : Text) where
  open t use {Server}

  abbrev IsFound : DavWorld Server → DavDiscovery → Type 0
  IsFound w discovery =
      discovery_lookup w.discoveries (t.hash_token token) (t.now w.server) ≡ some discovery

  -- The discovery stands in the cache, with the time on the clock.
  abbrev IsStored : DavWorld Server → DavDiscovery → Type 0
  IsStored w discovery =
      get Text-discrete (t.hash_token token) w.discoveries
      ≡ some (record { discovery = discovery; cached_at = t.now w.server })

  remember-IsStored :
      (discovery : DavDiscovery)
      → Answers IsStored (remember u d t client token discovery >> lift (ok discovery))
  unfolding remember after_step discovery_insert
  remember-IsStored discovery w w' a h =
      let key = t.hash_token token in
      let now = t.now w.server in
      let kept = record w { discoveries = discovery_insert w.discoveries key discovery now now } in
      let same_world : kept ≡ w' = ap (λ r. r.0) h in
      let same_value : discovery ≡ a = ok-injective (ap (λ r. r.1) h) in
      subst (λ v. IsStored v a) same_world
        (subst (IsStored kept) same_value
          (get-insert_self Text-discrete key (record { discovery = discovery; cached_at = now }) _))

  discover_fresh-IsStored : Answers IsStored (discover_fresh u d t client token)
  unfolding discover_fresh
  discover_fresh-IsStored = Answers-bind _ _ _ (λ response. Answers-bind _ _ _ (λ responses.
      Answers-bind _ _ _ (λ href. Answers-bind _ _ _ (λ url. Answers-bind _ _ _ (λ home.
        Answers-bind _ _ _ (λ homes.
          Answers-bind _ _ _
            (λ home_href. Answers-bind _ _ _ (λ home_url. remember-IsStored _))))))))

  -- What is asked later, less than an hour after the answer, or an hour or more after it.
  pub record IsAskedAgain (w' later : DavWorld Server) (discovery : DavDiscovery) : Type 0 where
    pub answered :
        t.now later.server < t.now w'.server + 3600
        → discover u d t client token later ≡ (later, ok discovery)
    pub asked_again :
        t.now w'.server + 3600 ≤ t.now later.server
        → discover u d t client token later ≡ discover_fresh u d t client token later

  discover-missing :
      (w : DavWorld Server)
      → discovery_lookup w.discoveries (t.hash_token token) (t.now w.server) ≡ none
      → discover u d t client token w ≡ discover_fresh u d t client token w
  unfolding discover
  discover-missing w e = rw (e, discover) refl

  discover-found :
      (w : DavWorld Server) (found : DavDiscovery)
      → IsFound w found
      → discover u d t client token w ≡ (w, ok found)
  unfolding discover
  discover-found w found e = rw (e, discover) refl

  -- When `discover` finds no fresh entry and answers, then `discover` with the same token, in
  -- any world in which the cache is as it was left, answers the same with no request and no
  -- change if less than 3600 seconds have passed since the answer, and asks the server anew if
  -- 3600 or more have passed.
  pub discover-discover :
      (w w' later : DavWorld Server) (discovery : DavDiscovery)
      → discovery_lookup w.discoveries (t.hash_token token) (t.now w.server) ≡ none
      → discover u d t client token w ≡ (w', ok discovery)
      → later.discoveries ≡ w'.discoveries
      → IsAskedAgain w' later discovery
  unfolding discovery_lookup
  discover-discover w w' later discovery missing h same_cache =
      let stored = discover_fresh-IsStored w w' discovery (sym (discover-missing w missing) ∙ h) in
      let entry : get Text-discrete (t.hash_token token) later.discoveries
          ≡ some (record { discovery = discovery; cached_at = t.now w'.server }) =
        subst
          (λ c.
            get Text-discrete (t.hash_token token) c
            ≡ some (record { discovery = discovery; cached_at = t.now w'.server }))
          (sym same_cache) stored in
      record {
        answered =
            λ fresh. discover-found later discovery (rw (discovery_lookup, entry) (ground arith));
        asked_again = λ old. discover-missing later (rw (discovery_lookup, entry) (ground arith));
      }
