-- ===== src/WorkspaceClient/Tests.antt =====
-- Runs of the client of src/workspace/client.ts, and the theorems about it at concrete inputs.
use j41_sovagent_sdk.Prelude.{
  ◌+◌, ◌*◌, ◌≤◌, ◌≡◌, ◌↔◌, refl, true, List, [], ◌∷◌, Option, none, some, Str, codes, occ, All,
  arith, str_discrete,
}
use j41_sovagent_sdk.Prelude.Json.{
  Json, boolean, text, array, object, item, no_items, Fields, field, no_fields, lookup,
}
use j41_sovagent_sdk.Prelude.Maps.{get, put, remove}
use j41_sovagent_sdk.Workspace.{split_at}
use j41_sovagent_sdk.WorkspaceClient.{
  Limits, McpResultContent, succeeded, validate_mcp_result, check_items, assert_safe_path,
}
use j41_sovagent_sdk.WorkspaceClient.Calls.{
  read_file, write_file, Event, calls, mcp_result, call_times_out, connects, closes, init, reply,
  rejected, disconnected, Client, Url, TokenResponse, token, connect, step, run, send_tool_call,
  disconnect,
}
use j41_sovagent_sdk.WorkspaceClient.Reply.{contents, AreSmall, total, validate_mcp_result_lem}
use j41_sovagent_sdk.WorkspaceClient.Ledger.{call_ids, keys, sent_ids, run-settles}
use j41_sovagent_sdk.WorkspaceClient.Sent.{Resolves, run-sent-Resolves}

abbrev no_json : Str → Option Json
no_json s = none

abbrev limits : Limits
limits = record {
  max_result_aggregate = 40 * 1024 * 1024;
  max_result_items = 1024;
  max_reconnect_cycles = 3;
}

abbrev api : Url
api = record { hostname = codes "api"; protocol = codes "https:" }

abbrev relay : TokenResponse
relay = token (some (record { hostname = codes "api"; protocol = codes "wss:" }))

abbrev contents_fields : Fields
contents_fields =
    field (codes "content")
      (array (
        item
          (object (
            field (codes "type") (text (codes "text"))
              (field (codes "text") (text (codes "hi")) no_fields)))
          no_items))
      no_fields

abbrev reply_fields : Fields
reply_fields = field (codes "id") (text (codes "a")) (
    field (codes "success") (boolean true)
      (field (codes "result") (object contents_fields) no_fields))

-- One read is answered, one is not, and one has a path that is refused.
abbrev events : List Event
events =
    connects 5
    ∷ calls (codes "a") read_file (codes "src/x")
    ∷ calls (codes "b") read_file (codes "y")
    ∷ calls (codes "c") write_file (codes "../z")
    ∷ mcp_result (object reply_fields)
    ∷ mcp_result (object reply_fields)
    ∷ closes
    ∷ call_times_out (codes "b")
    ∷ []

abbrev ended : Client
ended = run no_json limits events (connect api (codes "job") relay init)

ended_outcomes :
    ended.outcomes ≡ (codes "b", rejected disconnected) ∷ (codes "a", reply (codes "hi")) ∷ []
unfolding run connect step send_tool_call assert_safe_path split_at str_discrete validate_mcp_result
    check_items lookup get put remove disconnect
ended_outcomes = refl

at_most_one : (j : Str) → occ j (call_ids events) ≤ 1
at_most_one j = ground arith

run-settles_example :
    (occ (codes "b") (sent_ids ended.sent)
      ≡ occ (codes "b") (keys ended.pending) + occ (codes "b") (keys ended.outcomes))
    × (occ (codes "b") (keys ended.outcomes) ≤ 1)
run-settles_example =
    run-settles no_json limits api (codes "job") relay events at_most_one (codes "b")

run-sent-Resolves_example : All (Resolves (codes "p") []) ended.sent
run-sent-Resolves_example =
    run-sent-Resolves (codes "p") [] no_json limits api (codes "job") relay events

abbrev hi : List McpResultContent
hi = record { type = codes "text"; text = codes "hi" } ∷ []

validate_mcp_result_lem_example :
    (validate_mcp_result limits (object reply_fields) ≡ some (succeeded (codes "a") hi)) ↔ (
      (1 ≤ limits.max_result_items)
      × (contents (
            item
              (object (
                field
                  (codes "type")
                  (text (codes "text"))
                  (field (codes "text") (text (codes "hi")) no_fields)))
              no_items)
          ≡ some hi)
      × AreSmall hi
      × (total hi ≤ limits.max_result_aggregate))
unfolding lookup str_discrete
validate_mcp_result_lem_example =
    validate_mcp_result_lem limits reply_fields contents_fields (codes "a")
      (item
        (object (
          field (codes "type") (text (codes "text"))
            (field (codes "text") (text (codes "hi")) no_fields)))
        no_items)
      hi refl refl refl refl
