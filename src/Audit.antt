-- ===== src/Audit.antt =====
-- src/audit.rs: the resource that an audit event of a tool call may show.
pub mod Safe
pub mod Examples
use carddav_mcp.Base.{
  ℕ, Bool, true, false, not, ◌&&◌, ◌||◌, List, [], ◌∷◌, Option, none, some, String, leb, ◌==◌,
  if◌then◌else◌,
}
use carddav_mcp.Base.Str.{Text, codes, is_empty, len, is_ascii_digit}

-- `char::is_ascii_alphanumeric`
abbrev pub is_ascii_alphanumeric : ℕ → Bool
is_ascii_alphanumeric c =
    (leb b'0' c && leb c b'9') || (leb b'A' c && leb c b'Z') || (leb b'a' c && leb c b'z')

unfoldable pub is_safe_char : ℕ → Bool
is_safe_char c =
    is_ascii_alphanumeric c
    || c == b'-'
    || c == b'_'
    || c == b'.'
    || c == b'@'
    || c == b':'
    || c == b'/'
    || c == b'~'
    || c == b'%'

-- `id.chars().all(…)`
unfoldable pub all_safe : Text → Bool
all_safe [] = true
all_safe (c ∷ s) = is_safe_char c && all_safe s

unfoldable pub is_safe_id : Text → Bool
is_safe_id id = not (is_empty id) && leb (len id) 255 && all_safe id

-- `safe_resource` of `tool_call`
unfoldable pub safe_resource : Option Text → Option Text
safe_resource none = none
safe_resource (some r) = if is_safe_id r then some r else some (codes "<invalid>")
