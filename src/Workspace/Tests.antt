-- ===== src/Workspace/Tests.antt =====
-- Sessions of src/buyer/workspace.ts, and the theorems about them at concrete inputs.
use j41_sovagent_sdk.Prelude.{
  starts_with, str_member, ◌≡◌, refl, true, false, List, [], ◌∷◌, none, Str, codes, str_discrete,
}
use j41_sovagent_sdk.Prelude.Maps.{get, put}
use j41_sovagent_sdk.Workspace.{
  Config, Call, content, blocked, excluded, written, outside, read_file, write_file, init,
  handle_mcp_call, run_calls, resolve_safe, split_at, walk, count_read,
}
use j41_sovagent_sdk.Workspace.Bypass.{handle_mcp_call-dot_slash}

abbrev same : Str → Str
same s = s

abbrev config : Config
config = record {
  root = codes "p" ∷ [];
  permissions = record { read = true; write = true };
  auto_approve_writes = true;
  has_on_write = false;
  exclusions = codes ".env" ∷ [];
}

abbrev disk : List (Str × Str)
disk = (codes "/p/.env", codes "key") ∷ (codes "/q", codes "old") ∷ []

abbrev read : Str → Call
read path = record {
  tool = read_file;
  path = path;
  text = [];
  approved = false;
  listing = none;
  disk_ok = true;
}

abbrev write : Str → Str → Call
write path text = record {
  tool = write_file;
  path = path;
  text = text;
  approved = false;
  listing = none;
  disk_ok = true;
}

abbrev session : List Call
session =
    write (codes "a/b") (codes "hi")
    ∷ write (codes "../q") (codes "x")
    ∷ write (codes "/q") (codes "x")
    ∷ read (codes "a/b")
    ∷ []

session_replies :
    (run_calls same same config session (init disk)).1
    ≡ written 2 ∷ blocked outside ∷ blocked outside ∷ content (codes "hi") ∷ []
unfolding run_calls handle_mcp_call resolve_safe split_at walk str_discrete starts_with get put
    str_member
session_replies = refl

handle_mcp_call-dot_slash_example :
    (handle_mcp_call same same config (read (codes ".env")) (init disk)
      ≡ (init disk, blocked excluded))
    × (handle_mcp_call same same config (read (codes "./.env")) (init disk)
        ≡ (count_read 3 (init disk), content (codes "key")))
unfolding resolve_safe split_at walk str_discrete starts_with get
handle_mcp_call-dot_slash_example =
    handle_mcp_call-dot_slash same same config (read []) (init disk) b'.' (codes "env")
      (codes "p" ∷ codes ".env" ∷ []) (codes "key") refl refl refl refl refl refl refl refl refl
