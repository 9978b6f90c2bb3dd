-- ===== src/Base/Str/Utf8.antt =====
-- `String::from_utf8`: the decoding of UTF-8, which refuses what is not well-formed: overlong
-- forms, surrogates, numbers above U+10FFFF, and sequences that stop early.
use carddav_mcp.Base.{
  ℕ, ◌+◌, ◌-◌, ◌*◌, ◌%◌, ◌&&◌, List, [], ◌∷◌, Option, none, some, leb, ltb, ◌==◌, if◌then◌else◌,
}
use carddav_mcp.Base.Str.{Text}

-- What a leading byte calls for: how many bytes follow, the bits that it gives, and the range in
-- which the next byte must be. The later ones are between 0x80 and 0xbf.
pub record Lead : Type 0 where
  pub following : ℕ
  pub bits : ℕ
  pub low : ℕ
  pub high : ℕ

unfoldable lead : ℕ → Option Lead
lead b =
    if ltb b 0x80
    then some (record { following = 0; bits = b; low = 0x80; high = 0xbf })
    else if leb 0xc2 b && leb b 0xdf
    then some (record { following = 1; bits = b % 32; low = 0x80; high = 0xbf })
    else if leb 0xe0 b && leb b 0xef
    then some (record {
      following = 2;
      bits = b % 16;
      low = if b == 0xe0 then 0xa0 else 0x80;
      high = if b == 0xed then 0x9f else 0xbf;
    })
    else if leb 0xf0 b && leb b 0xf4
    then some (record {
      following = 3;
      bits = b % 8;
      low = if b == 0xf0 then 0x90 else 0x80;
      high = if b == 0xf4 then 0x8f else 0xbf;
    })
    else none

abbrev prepend : ℕ → Option Text → Option Text
prepend c none = none
prepend c (some s) = some (c ∷ s)

-- The next byte, where `l` says what is still to come.
unfoldable next : Lead → ℕ → Option Lead
unfolding lead
next l b =
    if l.following == 0
    then lead b
    else if leb l.low b && leb b l.high
    then some (record {
      following = l.following - 1;
      bits = l.bits * 64 + b % 64;
      low = 0x80;
      high = 0xbf;
    })
    else none

unfoldable decode_from : Lead → List ℕ → Option Text
unfolding next
decode_from l [] = if l.following == 0 then some [] else none
decode_from l (b ∷ bytes) = elim (next l b) [
  | none ↦ none
  | some l' ↦
      let rest = decode_from l' bytes in if l'.following == 0 then prepend l'.bits rest else rest
]

unfoldable pub from_utf8 : List ℕ → Option Text
unfolding decode_from
from_utf8 bytes = decode_from (record { following = 0; bits = 0; low = 0; high = 0 }) bytes
