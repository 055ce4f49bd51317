-- ===== src/WorkspaceClient/Calls.antt =====
-- src/workspace/client.ts, the class `WorkspaceClient`: connecting, the calls that wait, and what the
-- socket's listeners do. `outcomes` is how promises of calls were settled, the newest first.
use j41_sovagent_sdk.Prelude.{
  ℕ, suc, Bool, true, false, not, ◌&&◌, ◌||◌, List, [], ◌∷◌, Option, none, some, Str, codes, ltb,
  ◌===◌, str_discrete, if◌then◌else◌,
}
use j41_sovagent_sdk.Prelude.Json.{Json, array, Items}
use j41_sovagent_sdk.Prelude.Maps.{get, put, remove}
use j41_sovagent_sdk.WorkspaceClient.{
  Limits, McpResultContent, McpResult, succeeded, refused, validate_mcp_result, assert_safe_path,
}

-- Which method waits: `sendToolCall` itself, or one of the three above it.
pub data Purpose : Type 0 where
  raw list_directory read_file write_file : Purpose

pub data Failure : Type 0 where
  timeout disconnected unexpected_format not_a_listing : Failure
  tool_failed : Option Str → Failure

pub data Outcome : Type 0 where
  resolved : List McpResultContent → Outcome
  listing : Items → Outcome
  reply : Str → Outcome
  rejected : Failure → Outcome

pub record Stats : Type 0 where
  pub files_read : ℕ
  pub files_written : ℕ
  pub list_directory_calls : ℕ
  pub connected_at : ℕ

pub data ConnectFailure : Type 0 where
  token_timeout token_fetch token_refused invalid_ws_url hostname_mismatch insecure_ws_url :
      ConnectFailure
  connect_error ws_error buyer_timeout : ConnectFailure

-- The promise of `connect`.
pub data Connecting : Type 0 where
  waiting active : Connecting
  gave_up : ConnectFailure → Connecting

-- `sent` are the `mcp:call` messages, with the promises that wait for them in `pending`.
pub record Client : Type 0 where
  pub has_socket : Bool
  pub connected : Bool
  pub connecting : Connecting
  pub job_id : Option Str
  pub excluded_files : List Str
  pub reconnect_cycles : ℕ
  pub stats : Stats
  pub pending : List (Str × Purpose)
  pub sent : List (Str × Purpose × Str)
  pub outcomes : List (Str × Outcome)

abbrev pub no_stats : Stats
no_stats = record { files_read = 0; files_written = 0; list_directory_calls = 0; connected_at = 0 }

abbrev pub init : Client
init = record {
  has_socket = false;
  connected = false;
  connecting = waiting;
  job_id = none;
  excluded_files = [];
  reconnect_cycles = 0;
  stats = no_stats;
  pending = [];
  sent = [];
  outcomes = [];
}

-- `new URL(...)`, as far as it is read.
pub record Url : Type 0 where
  pub hostname : Str
  pub protocol : Str

-- What the request of a connect token gives; a `wsUrl` that is no URL is none.
pub data TokenResponse : Type 0 where
  timed_out failed not_ok : TokenResponse
  token : (ws_url : Option Url) → TokenResponse

abbrev pub is_secure : Url → Bool
is_secure u = u.protocol === codes "https:" || u.protocol === codes "wss:"

abbrev pub check_ws_url : (api ws : Url) → Option ConnectFailure
check_ws_url api ws =
    if not (ws.hostname === api.hostname)
    then some hostname_mismatch
    else if not (is_secure ws) && api.protocol === codes "https:"
    then some insecure_ws_url
    else none

abbrev pub check_token : Url → TokenResponse → Option ConnectFailure
check_token api timed_out = some token_timeout
check_token api failed = some token_fetch
check_token api not_ok = some token_refused
check_token api (token none) = some invalid_ws_url
check_token api (token (some ws)) = check_ws_url api ws

abbrev pub open_socket : Option ConnectFailure → Client → Client
open_socket (some e) c = record c { connecting = gave_up e }
open_socket none c = record c { has_socket = true; connecting = waiting }

-- `connect`, up to the socket's first event.
unfoldable pub connect : Url → Str → TokenResponse → Client → Client
connect api job response c = open_socket (check_token api response) (record c { job_id = some job })

abbrev pub settle : Str → Outcome → Client → Client
settle id o c = record c { outcomes = (id, o) ∷ c.outcomes }

-- `disconnect`: every waiting promise is rejected.
abbrev pub reject_all : List (Str × Purpose) → List (Str × Outcome) → List (Str × Outcome)
reject_all [] os = os
reject_all ((id, p) ∷ ps) os = reject_all ps ((id, rejected disconnected) ∷ os)

unfoldable pub disconnect : Client → Client
disconnect c = record c {
  stats = no_stats;
  outcomes = reject_all c.pending c.outcomes;
  pending = [];
  has_socket = false;
  connected = false;
  job_id = none;
}

-- The three methods assert their path first; `sendToolCall` does not.
abbrev pub path_ok : Purpose → Str → Bool
path_ok raw path = true
path_ok list_directory path = assert_safe_path path
path_ok read_file path = assert_safe_path path
path_ok write_file path = assert_safe_path path

-- A method call; `id` is the random id of the message.
unfoldable pub send_tool_call : Str → Purpose → Str → Client → Client
unfolding assert_safe_path
send_tool_call id p path c =
    if path_ok p path && (c.has_socket && c.connected)
    then record c { pending = put str_discrete id p c.pending; sent = (id, p, path) ∷ c.sent }
    else c

abbrev pub count : Purpose → Stats → Stats
count raw s = s
count list_directory s = record s { list_directory_calls = suc s.list_directory_calls }
count read_file s = record s { files_read = suc s.files_read }
count write_file s = record s { files_written = suc s.files_written }

-- `if (!result?.content?.[0]?.text)`
abbrev pub first_text : List McpResultContent → Outcome
first_text [] = rejected unexpected_format
first_text (c ∷ cs) = elim c.text [ [] ↦ rejected unexpected_format | x ∷ xs ↦ reply (x ∷ xs) ]

abbrev pub as_listing : Option Json → Outcome
as_listing (some (array vs)) = listing vs
as_listing _ = rejected not_a_listing

-- A time the socket's listeners see, or the caller.
pub data Event : Type 0 where
  calls : (id : Str) → Purpose → (path : Str) → Event
  mcp_result : Json → Event
  call_times_out : (id : Str) → Event
  connects : (now : ℕ) → Event
  reconnects reconnect_attempt connect_errors ws_errors disconnects buyer_times_out closes : Event
  status_changed : (status : Str) → Event
  exclusions : List Str → Event

abbrev pub settle_connecting : Connecting → Client → Client
settle_connecting o c = elim c.connecting [
  | waiting ↦ record c { connecting = o }
  | active ↦ c
  | gave_up e ↦ c
]

abbrev pub is_terminal : Str → Bool
is_terminal s = s === codes "aborted" || s === codes "completed"

abbrev pub activate_if : Bool → Client → Client
activate_if true c = settle_connecting active c
activate_if false c = c

abbrev pub end_if : Bool → Client → Client
end_if true c = record c { connected = false }
end_if false c = c

abbrev pub on_status : Str → Client → Client
on_status s c = end_if (is_terminal s) (activate_if (s === codes "active") c)

-- The five minutes for the buyer to connect.
abbrev pub on_buyer_timeout : Connecting → Client → Client
on_buyer_timeout waiting c = record (disconnect c) { connecting = gave_up buyer_timeout }
on_buyer_timeout active c = c
on_buyer_timeout (gave_up e) c = c

abbrev pub on_timeout : Str → Option Purpose → Client → Client
on_timeout id none c = c
on_timeout id (some p) c =
    settle id (rejected timeout) (record c { pending = remove str_discrete id c.pending })

abbrev pub id_of : McpResult → Str
id_of (succeeded id cs) = id
id_of (refused id e) = id

module _ (parse : Str → Option Json) (limits : Limits) where
  -- What a method makes of the content its call resolves to.
  abbrev pub outcome_of : Purpose → List McpResultContent → Outcome
  outcome_of raw cs = resolved cs
  outcome_of list_directory [] = rejected not_a_listing
  outcome_of list_directory (c ∷ cs) = as_listing (parse c.text)
  outcome_of read_file cs = first_text cs
  outcome_of write_file cs = first_text cs

  abbrev pub on_found : McpResult → Option Purpose → Client → Client
  on_found r none c = c
  on_found (succeeded id cs) (some p) c =
      settle id (outcome_of p cs)
        (record c { pending = remove str_discrete id c.pending; stats = count p c.stats })
  on_found (refused id e) (some p) c =
      settle id (rejected (tool_failed e)) (record c { pending = remove str_discrete id c.pending })

  abbrev pub on_result : Option McpResult → Client → Client
  on_result none c = c
  on_result (some r) c = on_found r (get str_discrete (id_of r) c.pending) c

  unfoldable pub step : Event → Client → Client
  unfolding send_tool_call disconnect validate_mcp_result get put remove
  step (calls id p path) c = send_tool_call id p path c
  step (mcp_result data') c = on_result (validate_mcp_result limits data') c
  step (call_times_out id) c = on_timeout id (get str_discrete id c.pending) c
  step (connects now) c = record c {
    connected = true;
    reconnect_cycles = 0;
    stats = record c.stats { connected_at = now };
  }
  step reconnects c = record c { connected = true }
  step reconnect_attempt c =
      if ltb limits.max_reconnect_cycles (suc c.reconnect_cycles)
      then record c { reconnect_cycles = suc c.reconnect_cycles; connected = false }
      else record c { reconnect_cycles = suc c.reconnect_cycles }
  step connect_errors c = settle_connecting (gave_up connect_error) c
  step ws_errors c = settle_connecting (gave_up ws_error) c
  step disconnects c = record c { connected = false }
  step buyer_times_out c = on_buyer_timeout c.connecting c
  step closes c = disconnect c
  step (status_changed s) c = on_status s c
  step (exclusions files) c = record c { excluded_files = files }

  unfoldable pub run : List Event → Client → Client
  unfolding step
  run [] c = c
  run (e ∷ es) c = run es (step e c)
