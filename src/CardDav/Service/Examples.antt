-- ===== src/CardDav/Service/Examples.antt =====
-- The theorem on the tools over the client, with a deletion at a server that logs its requests.
use carddav_mcp.Base.{ℕ, List, none, some, true}
use carddav_mcp.Base.Str.{Text, codes}
use carddav_mcp.RateLimit.{Governor, empty_map}
use carddav_mcp.Tools.{Context, Service}
use carddav_mcp.CardDav.{Request, DavWorld}
use carddav_mcp.CardDav.Service.{Others, ToolCall, call_delete_contact}
use carddav_mcp.CardDav.Examples.{fresh_world}

abbrev others : Others
others = record {
  Rest = Unit;
  drop_token = λ token r. r;
  generate_uid = λ r. (r, codes "fresh");
  token_hash = λ token. token;
}

-- A limiter whose buckets are never empty.
abbrev open_gate : Governor
open_gate = record {
  Quota = ℕ;
  State = ℕ;
  per_minute = λ n. n;
  with_period = λ n. some n;
  allow_burst = λ quota n. n;
  direct = λ quota now. quota;
  check = λ state now. (true, state);
}

abbrev ctx : Context
ctx = record {
  token = some (codes "t");
  user_id = some (codes "u");
  readings = record { looked_up = 0; checked = 0 };
  sub_readings = record { looked_up = 0; checked = 0 };
}

abbrev service : Service open_gate (DavWorld (List (Request Text)) × Unit {0})
service = record {
  limiter = record {
    reads_per_min = 1;
    writes_per_min = 1;
    bearer_read = empty_map;
    bearer_write = empty_map;
    sub_read = empty_map;
    sub_write = empty_map;
  };
  world = (fresh_world, tt);
}

abbrev deletion : ToolCall
deletion = call_delete_contact (record { contact_href = codes "/dav/home/jo.vcf"; etag = none })
