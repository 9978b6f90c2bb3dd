-- ===== src/Audit/Examples.antt =====
-- The theorem on src/audit.rs at a resource that tries to forge a field.
use carddav_mcp.Base.{◌≡◌, ◌≤◌, refl, some, All}
use carddav_mcp.Base.Str.{codes, len}
use carddav_mcp.Audit.{safe_resource, is_safe_id, all_safe, is_safe_char}
use carddav_mcp.Audit.Safe.{IsCleanChar, safe_resource-IsClean}

forged_is_replaced : safe_resource (some (codes "x\noutcome=ok")) ≡ some (codes "<invalid>")
unfolding safe_resource is_safe_id all_safe is_safe_char len
forged_is_replaced = refl

safe_resource-IsClean_example :
    All IsCleanChar (codes "<invalid>") × (len (codes "<invalid>") ≤ 255)
safe_resource-IsClean_example =
    safe_resource-IsClean (some (codes "x\noutcome=ok")) (codes "<invalid>") forged_is_replaced
