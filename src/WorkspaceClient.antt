-- ===== src/WorkspaceClient.antt =====
-- src/workspace/client.ts: the seller's side of a workspace, tool calls that wait for a reply of the
-- buyer. What the socket, the clock and the caller do are events; `parse` is `JSON.parse`, where a
-- throw is `none`.
pub mod Reply
pub mod Calls
pub mod Ledger
pub mod Paths
pub mod Sent
mod Tests
use j41_sovagent_sdk.Prelude.{
  ℕ, suc, ◌+◌, ◌*◌, Bool, true, false, not, ◌&&◌, ◌||◌, List, [], ◌∷◌, ◌++◌, map, Option, none,
  some, Str, codes, length, ltb, ◌===◌, str_member, str_discrete, if◌then◌else◌,
}
use j41_sovagent_sdk.Prelude.Json.{
  Json, null, undefined, boolean, text, array, object, Items, no_items, item, Fields, lookup,
}
use j41_sovagent_sdk.Prelude.Maps.{get, put, remove}
use j41_sovagent_sdk.Workspace.{split_at, is_slash, is_any_slash, dotdot}

-- `assertSafePath`: whether it returns.
unfoldable pub assert_safe_path : Str → Bool
unfolding str_member
assert_safe_path [] = false
assert_safe_path (c ∷ cs) =
    if is_slash c then false else not (str_member dotdot (split_at is_any_slash (c ∷ cs)))

abbrev pub max_result_size : ℕ
max_result_size = 10 * 1024 * 1024

-- What the environment variables set.
pub record Limits : Type 0 where
  pub max_result_aggregate : ℕ
  pub max_result_items : ℕ
  pub max_reconnect_cycles : ℕ

pub record McpResultContent : Type 0 where
  pub type : Str
  pub text : Str

abbrev pub content_of_texts : Option Json → Option Json → Option McpResultContent
content_of_texts (some (text t)) (some (text s)) = some (record { type = t; text = s })
content_of_texts _ _ = none

abbrev pub content_of : Json → Option McpResultContent
content_of (object fs) = content_of_texts (lookup (codes "type") fs) (lookup (codes "text") fs)
content_of _ = none

-- The loop over `data.result.content`.
abbrev pub prepend :
    McpResultContent → Option (List McpResultContent) → Option (List McpResultContent)
prepend c none = none
prepend c (some cs) = some (c ∷ cs)

abbrev pub check_one :
    ℕ
    → (aggregate : ℕ) → Option McpResultContent
    → (ℕ → Option (List McpResultContent))
    → Option (List McpResultContent)
check_one max aggregate none next = none
check_one max aggregate (some c) next =
    if ltb max_result_size (length c.text)
    then none
    else if ltb max (aggregate + length c.text)
    then none
    else prepend c (next (aggregate + length c.text))

unfoldable pub check_items : ℕ → (aggregate : ℕ) → Items → Option (List McpResultContent)
check_items max aggregate no_items = some []
check_items max aggregate (item v vs) =
    check_one max aggregate (content_of v) (λ a. check_items max a vs)

abbrev pub count_items : Items → ℕ
count_items no_items = 0
count_items (item v vs) = suc (count_items vs)

abbrev pub check_content : Limits → Option Json → Option (List McpResultContent)
check_content l (some (array vs)) =
    if ltb l.max_result_items (count_items vs)
    then none
    else check_items l.max_result_aggregate 0 vs
check_content l _ = none

pub data McpResult : Type 0 where
  succeeded : (id : Str) → List McpResultContent → McpResult
  refused : (id : Str) → (error : Option Str) → McpResult

abbrev pub with_content : Str → Option (List McpResultContent) → Option McpResult
with_content id none = none
with_content id (some cs) = some (succeeded id cs)

abbrev pub check_result : Limits → Str → Option Json → Option McpResult
check_result l id (some (object r)) = with_content id (check_content l (lookup (codes "content") r))
check_result l id _ = none

abbrev pub check_error : Str → Option Json → Option McpResult
check_error id none = some (refused id none)
check_error id (some undefined) = some (refused id none)
check_error id (some (text e)) = some (refused id (some e))
check_error id _ = none

abbrev pub check_success : Limits → Option Json → Option Json → Fields → Option McpResult
check_success l (some (text id)) (some (boolean true)) fs =
    check_result l id (lookup (codes "result") fs)
check_success l (some (text id)) (some (boolean false)) fs =
    check_error id (lookup (codes "error") fs)
check_success l _ _ fs = none

-- `validateMcpResult`
unfoldable pub validate_mcp_result : Limits → Json → Option McpResult
unfolding check_items lookup str_discrete
validate_mcp_result l (object fs) =
    check_success l (lookup (codes "id") fs) (lookup (codes "success") fs) fs
validate_mcp_result l _ = none
