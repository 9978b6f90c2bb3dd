-- ===== src/LastUsed/Tracker.antt =====
-- What `LastUsedTracker` of src/last_used.rs promises: a bounded map in which the last use of each
-- bearer can be looked up, from which only the oldest record goes.
use mathlib.Core.Logic.{ite}
use carddav_mcp.Base.{
  ℕ, ◌+◌, ◌≤◌, ◌<◌, ◌≡◌, refl, ap, ◌∙◌, arith, List, [], ◌∷◌, Option, none, some, length, leb, inl,
  inr, Bool-cases, leb→le, leb_false→lt, lt→leb_false, fold,
}
use carddav_mcp.Base.Str.{Text, Text-discrete}
use carddav_mcp.Base.HashMap.{contains_key}
use carddav_mcp.Base.HashMap.Laws.{
  contains_key-get, length-insert-le, get-insert_ne, get-insert_self,
}
use carddav_mcp.Base.HashMap.Bounded.{
  IsBounded, IsKept, IsPutIn, IsPutIn-insert, IsKept-room, IsKept-old, IsKept-least,
}
use carddav_mcp.LastUsed.{
  max_entries, LastUsedRecord, LastUsedTracker, make_room, record_use, get_use,
}

-- One accepted request: the bearer, its address, and the time.
pub record Use (Ip : Type 0) : Type 0 where
  pub token_hash : Text
  pub ip : Option Ip
  pub now : ℕ

module _ {Ip : Type 0} where
  abbrev pub IsTracker : LastUsedTracker Ip → Type 0
  IsTracker = IsBounded Text-discrete max_entries

  -- A record goes only from a full tracker, for a new bearer, and if no record is older.
  pub record IsEvicted (tracker : LastUsedTracker Ip) (token_hash : Text) (r : LastUsedRecord Ip)
      : Type 0 where
    pub was_full : max_entries ≤ length tracker
    pub is_new : get_use tracker token_hash ≡ none
    pub is_oldest :
        (other : Text) (s : LastUsedRecord Ip) → get_use tracker other ≡ some s → r.at ≤ s.at

  make_room-IsKept :
      (tracker : LastUsedTracker Ip) (token_hash : Text)
      → IsTracker tracker
      → IsKept Text-discrete max_entries token_hash
          (IsEvicted tracker token_hash)
          tracker
          (make_room tracker token_hash)
  unfolding make_room
  make_room-IsKept tracker h b = elim (Bool-cases (leb max_entries (length tracker))) [
    | inr room ↦ rw room (IsKept-room Text-discrete h _ b (leb_false→lt _ _ room))
    | inl full ↦ elim (Bool-cases (contains_key Text-discrete h tracker)) [
      | inl old ↦ rw (full, old) (IsKept-old Text-discrete h _ b old)
      | inr new ↦
          rw (full, new)
            (IsKept-least Text-discrete h _ b (λ r. r.at) (omega (arith, leb→le _ _ full))
              (λ r least. record {
                was_full = leb→le _ _ full;
                is_new = unfold get_use in contains_key-get Text-discrete h tracker new;
                is_oldest = unfold get_use in least;
              }))
    ]
  ]

  -- `record` on a tracker within its cap keeps it within the cap; the bearer's record is the
  -- new one; another bearer's stays as it was, unless the tracker was full, the bearer new, and
  -- no record older; and no other bearer gets a record.
  pub record_use-IsPutIn :
      (tracker : LastUsedTracker Ip) (token_hash : Text) (ip : Option Ip) (now : ℕ)
      → IsTracker tracker
      → IsPutIn Text-discrete max_entries token_hash
          (record { at = now; ip = ip })
          (IsEvicted tracker token_hash)
          tracker
          (record_use tracker token_hash ip now)
  unfolding record_use
  record_use-IsPutIn tracker h ip now b =
      IsPutIn-insert Text-discrete _ (make_room-IsKept tracker h b)

  abbrev pub replay : LastUsedTracker Ip → List (Use Ip) → LastUsedTracker Ip
  replay = fold (λ t u. record_use t u.token_hash u.ip u.now)

  -- The specification: what the last request of the bearer says.
  abbrev last_step : Text → Option (LastUsedRecord Ip) → Use Ip → Option (LastUsedRecord Ip)
  last_step j last u =
      ite (Text-discrete u.token_hash j) (some (record { at = u.now; ip = u.ip })) last

  abbrev pub last_use :
      Text → Option (LastUsedRecord Ip) → List (Use Ip) → Option (LastUsedRecord Ip)
  last_use j = fold (last_step j)

  get_use-record_use :
      (t : LastUsedTracker Ip) (u : Use Ip) (j : Text)
      → length t < max_entries
      → get_use (record_use t u.token_hash u.ip u.now) j ≡ last_step j (get_use t j) u
  unfolding record_use get_use
  get_use-record_use t u j lt = ground (
    arith,
    lt→leb_false max_entries (length t) lt,
    get-insert_ne Text-discrete j u.token_hash (record { at = u.now; ip = u.ip }) t,
    get-insert_self Text-discrete u.token_hash (record { at = u.now; ip = u.ip }) t,
  )

  length-record_use-le :
      (t : LastUsedTracker Ip) (u : Use Ip)
      → length t < max_entries
      → length (record_use t u.token_hash u.ip u.now) ≤ length t + 1
  unfolding record_use
  length-record_use-le t u lt =
      rw (lt→leb_false max_entries (length t) lt) (length-insert-le Text-discrete u.token_hash _ t)

  -- As long as the entries and the requests together are no more than the cap, the tracker
  -- answers for each bearer with its last request.
  pub get_use-replay :
      (t : LastUsedTracker Ip) (uses : List (Use Ip)) (j : Text)
      → length t + length uses ≤ max_entries
      → get_use (replay t uses) j ≡ last_use j (get_use t j) uses
  unfolding fold
  get_use-replay t [] j h = refl
  get_use-replay t (u ∷ us) j h =
      let lt : length t < max_entries = omega arith in
      get_use-replay (record_use t u.token_hash u.ip u.now) us j
        (omega (arith, length-record_use-le t u lt))
      ∙ ap (λ last. last_use j last us) (get_use-record_use t u j lt)
