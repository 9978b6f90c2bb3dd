-- ===== src/LastUsed/Forwarded.antt =====
-- Which entry of `X-Forwarded-For` `parse_client_ip` of src/last_used.rs chooses.
use carddav_mcp.Base.{
  ℕ, ◌+◌, ◌-◌, ◌≤◌, ◌≡◌, refl, ap, ◌∙◌, arith, List, ◌∷◌, ◌++◌, Option, some, length, ◌==◌,
  get_elem?, get_elem?-append_right, get_elem?-lt, length-map, length-append, map-append, map,
}
use carddav_mcp.Base.Str.{Text, split, trim}
use carddav_mcp.Base.Str.Pieces.{split-append}
use carddav_mcp.LastUsed.{choose_entry, forwarded_parts, parse_client_ip, xff_entry_count}

length-forwarded_parts : (raw : Text) → length (forwarded_parts raw) ≡ xff_entry_count (some raw)
unfolding forwarded_parts xff_entry_count
length-forwarded_parts raw = length-map (split (λ c. c == b',') raw) trim

forwarded_parts-append :
    (claimed raw : Text)
    → forwarded_parts (claimed ++ b',' ∷ raw) ≡ forwarded_parts claimed ++ forwarded_parts raw
unfolding forwarded_parts
forwarded_parts-append claimed raw =
    ap (map trim) (split-append (λ c. c == b',') claimed b',' raw refl)
    ∙ map-append trim (split (λ c. c == b',') claimed) (split (λ c. c == b',') raw)

choose_entry-append :
    {Ip : Type 0} (parse : Text → Option Ip) (xs ys : List Text) (hops : ℕ)
    → hops ≤ length ys
    → choose_entry parse (xs ++ ys) hops ≡ choose_entry parse ys hops
unfolding choose_entry
choose_entry-append parse xs ys hops h =
    let from_right : length (xs ++ ys) - hops ≡ length xs + (length ys - hops) =
      omega (arith, length-append xs ys) in
    let same =
      ap (get_elem? (xs ++ ys)) from_right ∙ get_elem?-append_right xs ys (length ys - hops) in
    ground (arith, length-append xs ys, same)

module _ {Ip : Type 0} (parse : Text → Option Ip) where
  -- With at least one trusted hop, and no more hops than entries, the entry that many hops from
  -- the right is parsed.
  pub parse_client_ip-position :
      (raw : Text) (hops : ℕ)
      → 1 ≤ hops
      → hops ≤ xff_entry_count (some raw)
      → (part : Text) × (get_elem? (forwarded_parts raw) (xff_entry_count (some raw) - hops)
          ≡ some part)
        × (parse_client_ip parse (some raw) hops ≡ parse part)
  unfolding parse_client_ip
  parse_client_ip-position raw hops h lt =
      let count = length-forwarded_parts raw in
      let (part, e) =
        get_elem?-lt (forwarded_parts raw) (xff_entry_count (some raw) - hops)
          (omega (arith, count)) in
      (part, e, ground (arith, count, ap (λ n. get_elem? (forwarded_parts raw) (n - hops)) count))

  -- What a client claims in front of the entries that the trusted proxies append is never
  -- chosen: as long as there are as many entries as trusted hops, the address is the same with
  -- and without it.
  pub parse_client_ip-claimed :
      (claimed raw : Text) (hops : ℕ)
      → hops ≤ xff_entry_count (some raw)
      → parse_client_ip parse (some (claimed ++ b',' ∷ raw)) hops
        ≡ parse_client_ip parse (some raw) hops
  unfolding parse_client_ip
  parse_client_ip-claimed claimed raw hops h =
      ap (λ parts. choose_entry parse parts hops) (forwarded_parts-append claimed raw)
      ∙ choose_entry-append parse _ (forwarded_parts raw) hops
          (omega (arith, length-forwarded_parts raw))
