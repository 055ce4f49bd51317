-- ===== src/Workspace.antt =====
-- src/buyer/workspace.ts: the buyer's side of a workspace, the calls of a seller's agent on the files of
-- a project directory. The disk is its files by absolute path; what it says of directories, and
-- whether a write succeeds, is part of a call. `encode` and `decode` are UTF-8; a file holds bytes.
pub mod Disk
pub mod Limit
pub mod Bypass
mod Tests
use j41_sovagent_sdk.Prelude.{
  ℕ, ◌+◌, ◌*◌, Bool, true, false, not, ◌&&◌, ◌||◌, List, [], ◌∷◌, ◌++◌, map, Option, none, some,
  ltb, length, take, any, if◌then◌else◌, ◌==◌, Str, codes, ◌===◌, str_member, str_discrete,
  starts_with,
}
use j41_sovagent_sdk.Prelude.Maps.{get, put}

abbrev pub max_file_size : ℕ
max_file_size = 10 * 1024 * 1024

abbrev pub max_dir_entries : ℕ
max_dir_entries = 10000

abbrev pub max_session_transfer : ℕ
max_session_transfer = 500 * 1024 * 1024

-- `s.split(...)` at the characters of a set.
unfoldable pub cons_first : ℕ → List Str → List Str
cons_first c [] = (c ∷ []) ∷ []
cons_first c (s ∷ ss) = (c ∷ s) ∷ ss

unfoldable pub split_at : (ℕ → Bool) → Str → List Str
unfolding cons_first
split_at is_sep [] = [] ∷ []
split_at is_sep (c ∷ cs) =
    if is_sep c then [] ∷ split_at is_sep cs else cons_first c (split_at is_sep cs)

abbrev pub is_slash : ℕ → Bool
is_slash c = c == b'/'

-- `/[\\/]/`
abbrev pub is_any_slash : ℕ → Bool
is_any_slash c = c == b'/' || c == b'\\'

abbrev pub dotdot : Str
dotdot = codes ".."

abbrev pub drop_last : List Str → List Str
drop_last [] = []
drop_last (s ∷ []) = []
drop_last (s ∷ t ∷ ss) = s ∷ drop_last (t ∷ ss)

-- The segments of a path, walked from a directory: Node's `path.resolve` on POSIX.
unfoldable pub walk : List Str → List Str → List Str
walk at [] = at
walk at (s ∷ ss) =
    let stayed = walk at ss in
    let up = walk (drop_last at) ss in
    let down = walk (at ++ s ∷ []) ss in
    if s === []
    then stayed
    else if s === codes "."
    then stayed
    else if s === dotdot
    then up
    else down

abbrev pub path_resolve : List Str → Str → List Str
path_resolve root [] = walk root ([] ∷ [])
path_resolve root (c ∷ cs) = walk (if is_slash c then [] else root) (split_at is_slash (c ∷ cs))

abbrev pub slashed : List Str → Str
slashed [] = []
slashed (s ∷ ss) = b'/' ∷ (s ++ slashed ss)

-- An absolute path as a text.
abbrev pub path_text : List Str → Str
path_text [] = codes "/"
path_text (s ∷ ss) = slashed (s ∷ ss)

-- `absPath.startsWith(root + '/') || absPath === root`
abbrev pub is_inside : List Str → List Str → Bool
is_inside root at =
    starts_with (path_text at) (path_text root ++ codes "/") || path_text at === path_text root

-- `resolveSafe`, on the segments of the project directory.
unfoldable pub resolve_safe : List Str → Str → Option (List Str)
unfolding str_member walk
resolve_safe root [] = none
resolve_safe root (c ∷ cs) =
    if str_member dotdot (split_at is_any_slash (c ∷ cs))
    then none
    else if is_inside root (path_resolve root (c ∷ cs))
    then some (path_resolve root (c ∷ cs))
    else none

-- `isExcluded`; the entries stand without a trailing slash.
abbrev pub is_excluded : Str → List Str → Bool
is_excluded rel exclusions = any (λ ex. rel === ex || starts_with rel (ex ++ codes "/")) exclusions

pub record Permissions : Type 0 where
  pub read : Bool
  pub write : Bool

-- The configuration: `on_write` is there or not, and its answer is part of a call.
pub record Config : Type 0 where
  pub root : List Str
  pub permissions : Permissions
  pub auto_approve_writes : Bool
  pub has_on_write : Bool
  pub exclusions : List Str

pub record Stats : Type 0 where
  pub reads : ℕ
  pub writes : ℕ
  pub list_dirs : ℕ
  pub total_bytes : ℕ

pub record Workspace : Type 0 where
  pub files : List (Str × Str)
  pub transferred : ℕ
  pub stats : Stats

abbrev pub init : List (Str × Str) → Workspace
init files = record {
  files = files;
  transferred = 0;
  stats = record { reads = 0; writes = 0; list_dirs = 0; total_bytes = 0 };
}

pub data Block : Type 0 where
  no_write_permission excluded limit_exceeded rejected unknown_tool outside : Block
  not_a_directory not_found too_large binary disk_error : Block

pub data Reply : Type 0 where
  listed : List Str → Reply
  content : Str → Reply
  written : ℕ → Reply
  blocked : Block → Reply

pub data Tool : Type 0 where
  list_directory read_file write_file other_tool : Tool

-- A call, with what the outside says when it comes to it.
pub record Call : Type 0 where
  pub tool : Tool
  pub path : Str
  pub text : Str
  pub approved : Bool
  pub listing : Option (List Str)
  pub disk_ok : Bool

-- `params?.path || '.'`
abbrev pub rel_path : Call → Str
rel_path call = elim call.path [ [] ↦ codes "." | c ∷ cs ↦ c ∷ cs ]

abbrev pub count_list : Workspace → Workspace
count_list w = record w { stats = record w.stats { list_dirs = w.stats.list_dirs + 1 } }

abbrev pub count_read : ℕ → Workspace → Workspace
count_read n w = record w {
  transferred = w.transferred + n;
  stats = record w.stats { reads = w.stats.reads + 1; total_bytes = w.stats.total_bytes + n };
}

abbrev pub count_write : ℕ → Workspace → Workspace
count_write n w = record w {
  transferred = w.transferred + n;
  stats = record w.stats { writes = w.stats.writes + 1; total_bytes = w.stats.total_bytes + n };
}

abbrev pub is_write : Tool → Bool
is_write write_file = true
is_write _ = false

module _ (encode decode : Str → Str) where
  abbrev pub read_found : Option Str → Workspace → Workspace × Reply
  read_found none w = (w, blocked not_found)
  read_found (some bytes) w =
      if ltb max_file_size (length bytes)
      then (w, blocked too_large)
      else if any (λ b. b == 0) (take 8192 bytes)
      then (w, blocked binary)
      else (count_read (length bytes) w, content (decode bytes))

  -- `execReadFile`
  abbrev pub read_at : Option (List Str) → Workspace → Workspace × Reply
  read_at none w = (w, blocked outside)
  read_at (some at) w = read_found (get str_discrete (path_text at) w.files) w

  -- `execListDirectory`
  abbrev pub list_at : Option (List Str) → Option (List Str) → Workspace → Workspace × Reply
  list_at none listing w = (w, blocked outside)
  list_at (some at) none w = (w, blocked not_a_directory)
  list_at (some at) (some names) w = (count_list w, listed (take max_dir_entries names))

  -- `execWriteFile`
  abbrev pub write_at : Option (List Str) → Str → (disk_ok : Bool) → Workspace → Workspace × Reply
  write_at none text disk_ok w = (w, blocked outside)
  write_at (some at) text disk_ok w =
      if ltb max_file_size (length (encode text))
      then (w, blocked too_large)
      else if not disk_ok
      then (w, blocked disk_error)
      else (
        count_write (length (encode text))
            (record w { files = put str_discrete (path_text at) (encode text) w.files }),
        written (length (encode text)),
      )

  abbrev pub execute : Config → Call → Tool → Workspace → Workspace × Reply
  execute c call list_directory w = list_at (resolve_safe c.root (rel_path call)) call.listing w
  execute c call read_file w = read_at (resolve_safe c.root (rel_path call)) w
  execute c call write_file w =
      write_at (resolve_safe c.root (rel_path call)) call.text call.disk_ok w
  execute c call other_tool w = (w, blocked unknown_tool)

  -- `handleMcpCall`
  unfoldable pub handle_mcp_call : Config → Call → Workspace → Workspace × Reply
  unfolding resolve_safe
  handle_mcp_call c call w =
      if is_write call.tool && not c.permissions.write
      then (w, blocked no_write_permission)
      else if is_excluded (rel_path call) c.exclusions
      then (w, blocked excluded)
      else if ltb max_session_transfer w.transferred
      then (w, blocked limit_exceeded)
      else if is_write call.tool && not c.auto_approve_writes && c.has_on_write && not call.approved
      then (w, blocked rejected)
      else execute c call call.tool w

  -- A session of calls and its replies.
  unfoldable pub run_calls : Config → List Call → Workspace → Workspace × List Reply
  unfolding handle_mcp_call
  run_calls c [] w = (w, [])
  run_calls c (call ∷ calls) w =
      let (w', reply) = handle_mcp_call c call w in
      let rest = run_calls c calls w' in (rest.0, reply ∷ rest.1)
