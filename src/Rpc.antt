-- ===== src/Rpc.antt =====
-- `ErrorData` of rmcp as src/mcp.rs and src/audit.rs use it: a JSON-RPC code and a message.
use Prim.Native.Nat.{pred}
use carddav_mcp.Base.{ℕ, String}
use carddav_mcp.Base.Int.{ℤ, negsuc}

pub record ErrorData : Type 0 where
  pub code : ℤ
  pub message : String

-- JSON-RPC codes are negative: `minus n` is -n for positive n.
abbrev pub minus : ℕ → ℤ
minus n = negsuc (pred n)

-- `ErrorData::invalid_params` and `ErrorData::internal_error`, with the codes of JSON-RPC.
abbrev pub invalid_params : String → ErrorData
invalid_params message = record { code = minus 32602; message = message }

abbrev pub internal_error : String → ErrorData
internal_error message = record { code = minus 32603; message = message }
