-- ===== src/LastUsed.antt =====
-- src/last_used.rs: the tracker of the last use of each bearer, and the choice of the client's
-- address. Times are numbers that a clock gives; the parser of addresses is a parameter, whatever
-- it accepts. The lock makes each call one step.
pub mod Tracker
pub mod Forwarded
pub mod Examples
use carddav_mcp.Base.{
  ℕ, ◌+◌, ◌-◌, ◌≤◌, Bool, true, false, not, ◌&&◌, ◌||◌, List, [], ◌∷◌, Option, none, some, length,
  fold, map, ltb, leb, ◌==◌, if◌then◌else◌, get_elem?,
}
use carddav_mcp.Base.Str.{Text, split, trim, Text-discrete}
use carddav_mcp.Base.HashMap.{HashMap, get, contains_key, insert, remove_least}

abbrev pub max_entries : ℕ
max_entries = 1024

pub record LastUsedRecord (Ip : Type 0) : Type 0 where
  pub at : ℕ
  pub ip : Option Ip

abbrev pub LastUsedTracker : Type 0 → Type 0
LastUsedTracker Ip = HashMap Text (LastUsedRecord Ip)

module _ {Ip : Type 0} where
  -- The `if` of `record`: at the cap, a new key drops the oldest entry.
  make_room : LastUsedTracker Ip → Text → LastUsedTracker Ip
  make_room tracker token_hash =
      if leb max_entries (length tracker) && not (contains_key Text-discrete token_hash tracker)
      then remove_least Text-discrete (λ r. r.at) tracker
      else tracker

  -- `LastUsedTracker::record` at the time `now`.
  unfoldable pub record_use : LastUsedTracker Ip → Text → Option Ip → ℕ → LastUsedTracker Ip
  unfolding make_room
  record_use tracker token_hash ip now =
      insert Text-discrete token_hash (record { at = now; ip = ip }) (make_room tracker token_hash)

  -- `LastUsedTracker::get`
  unfoldable pub get_use : LastUsedTracker Ip → Text → Option (LastUsedRecord Ip)
  get_use tracker token_hash = get Text-discrete token_hash tracker

-- `raw.split(',').map(str::trim).collect()`
unfoldable pub forwarded_parts : Text → List Text
forwarded_parts raw = map trim (split (λ c. c == b',') raw)

-- The entry so many hops from the right, parsed.
choose_entry : {Ip : Type 0} → (Text → Option Ip) → List Text → ℕ → Option Ip
choose_entry parse parts trusted_proxy_hops =
    if trusted_proxy_hops == 0 || ltb (length parts) trusted_proxy_hops
    then none
    else elim (get_elem? parts (length parts - trusted_proxy_hops)) [
      | none ↦ none
      | some part ↦ parse part
    ]

-- `parse_client_ip`
unfoldable pub parse_client_ip : {Ip : Type 0} → (Text → Option Ip) → Option Text → ℕ → Option Ip
unfolding choose_entry
parse_client_ip parse none trusted_proxy_hops = none
parse_client_ip parse (some raw) trusted_proxy_hops =
    choose_entry parse (forwarded_parts raw) trusted_proxy_hops

-- `xff_entry_count`
unfoldable pub xff_entry_count : Option Text → ℕ
xff_entry_count none = 0
xff_entry_count (some raw) = length (split (λ c. c == b',') raw)
