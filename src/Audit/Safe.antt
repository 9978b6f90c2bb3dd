-- ===== src/Audit/Safe.antt =====
-- What `tool_call` of src/audit.rs can put into a log line as the resource.
use carddav_mcp.Base.{
  ℕ, ◌≤◌, ◌≡◌, ◌≢◌, arith, true, false, [], ◌∷◌, Option, none, some, All, inl, inr, Bool-cases,
  subst,
}
use carddav_mcp.Base.Str.{Text, codes, len, is_whitespace, is_control}
use carddav_mcp.Audit.{is_safe_char, all_safe, is_safe_id, safe_resource}

-- A character that cannot end a field of a log line or begin another.
abbrev pub IsCleanChar : ℕ → Type 0
IsCleanChar c = (is_whitespace c ≡ false) × (is_control c ≡ false) × (c ≢ b'=')

safe_char-IsCleanChar : (c : ℕ) → is_safe_char c ≡ true → IsCleanChar c
unfolding is_safe_char is_whitespace is_control
safe_char-IsCleanChar c h = ground arith

all_safe-IsClean : (s : Text) → all_safe s ≡ true → All IsCleanChar s
unfolding all_safe
all_safe-IsClean [] h = tt
all_safe-IsClean (c ∷ s) h =
    (safe_char-IsCleanChar c (ground arith), all_safe-IsClean s (ground arith))

is_safe_id-IsClean : (r : Text) → is_safe_id r ≡ true → All IsCleanChar r × (len r ≤ 255)
unfolding is_safe_id
is_safe_id-IsClean r h = (all_safe-IsClean r (ground arith), ground arith)

invalid-IsClean : All IsCleanChar (codes "<invalid>") × (len (codes "<invalid>") ≤ 255)
unfolding is_whitespace is_control len
invalid-IsClean = ground arith

-- The resource that an audit event shows, whatever the caller sent, has at most 255 bytes and
-- holds no white space, no control character and no equals sign.
pub safe_resource-IsClean :
    (resource : Option Text) (shown : Text)
    → safe_resource resource ≡ some shown
    → All IsCleanChar shown × (len shown ≤ 255)
unfolding safe_resource
safe_resource-IsClean none shown h = cc
safe_resource-IsClean (some r) shown h = elim (Bool-cases (is_safe_id r)) [
  | inl safe ↦
      let same_text : r ≡ shown = ground arith in
      subst (λ t. All IsCleanChar t × (len t ≤ 255)) same_text (is_safe_id-IsClean r safe)
  | inr unsafe ↦
      let same_text : codes "<invalid>" ≡ shown = ground arith in
      subst (λ t. All IsCleanChar t × (len t ≤ 255)) same_text invalid-IsClean
]
