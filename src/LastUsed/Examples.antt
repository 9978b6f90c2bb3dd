-- ===== src/LastUsed/Examples.antt =====
-- The theorems on src/last_used.rs at concrete requests. The addresses are numbers here, and the
-- parser reads texts of one digit.
use carddav_mcp.Base.{
  ℕ, ◌-◌, ◌≡◌, arith, List, [], ◌∷◌, ◌++◌, Option, none, some, refl, get_elem?, if◌then◌else◌,
}
use carddav_mcp.Base.Str.{Text, codes, Text-discrete, is_ascii_digit, split, trim}
use carddav_mcp.Base.HashMap.Bounded.{IsPutIn}
use carddav_mcp.LastUsed.{
  max_entries, LastUsedTracker, record_use, get_use, parse_client_ip, forwarded_parts,
  xff_entry_count,
}
use carddav_mcp.LastUsed.Tracker.{
  Use, IsEvicted, record_use-IsPutIn, replay, last_use, get_use-replay,
}
use carddav_mcp.LastUsed.Forwarded.{parse_client_ip-position, parse_client_ip-claimed}

abbrev one_digit : Text → Option ℕ
one_digit (c ∷ []) = if is_ascii_digit c then some (c - b'0') else none
one_digit s = none

abbrev empty : LastUsedTracker ℕ
empty = []

record_use-IsPutIn_example :
    IsPutIn Text-discrete max_entries
      (codes "ab")
      (record { at = 5; ip = some 7 })
      (IsEvicted empty (codes "ab"))
      empty
      (record_use empty (codes "ab") (some 7) 5)
record_use-IsPutIn_example =
    record_use-IsPutIn empty (codes "ab") (some 7) 5
      (record { distinct = tt; bounded = omega arith })

abbrev uses : List (Use ℕ)
uses =
    record { token_hash = codes "a"; ip = some 1; now = 3 }
    ∷ record { token_hash = codes "b"; ip = none; now = 4 }
    ∷ record { token_hash = codes "a"; ip = some 2; now = 5 }
    ∷ []

get_use-replay_example :
    get_use (replay empty uses) (codes "a") ≡ last_use (codes "a") (get_use empty (codes "a")) uses
get_use-replay_example = get_use-replay empty uses (codes "a") (omega arith)

-- The client, the edge, and a proxy of the cluster.
abbrev chain : Text
chain = codes "1, 2,3"

chain_count : xff_entry_count (some chain) ≡ 3
unfolding xff_entry_count split
chain_count = refl

parse_client_ip-position_example :
    (part : Text) × (get_elem? (forwarded_parts chain) (xff_entry_count (some chain) - 2)
      ≡ some part)
    × (parse_client_ip one_digit (some chain) 2 ≡ one_digit part)
parse_client_ip-position_example =
    parse_client_ip-position one_digit chain 2 (omega arith) (omega (arith, chain_count))

parse_client_ip-claimed_example :
    parse_client_ip one_digit (some (codes "9" ++ b',' ∷ chain)) 2
    ≡ parse_client_ip one_digit (some chain) 2
parse_client_ip-claimed_example =
    parse_client_ip-claimed one_digit (codes "9") chain 2 (omega (arith, chain_count))

chosen : parse_client_ip one_digit (some chain) 2 ≡ some 2
unfolding parse_client_ip forwarded_parts split trim is_ascii_digit
chosen = refl
