-- ===== src/WorkspaceClient/Sent.antt =====
-- Every path that src/workspace/client.ts sends, as src/buyer/workspace.ts resolves it.
use j41_sovagent_sdk.Prelude.{
  suc, ◌≡◌, refl, ◌∙◌, Bool, true, false, ◌&&◌, List, [], ◌∷◌, ◌++◌, Option, none, some, Str, codes,
  All, ltb, ◌===◌, str_discrete, Bool-cases, inl, inr,
}
use j41_sovagent_sdk.Prelude.Json.{Json}
use j41_sovagent_sdk.Prelude.Maps.{get}
use j41_sovagent_sdk.Workspace.{resolve_safe}
use j41_sovagent_sdk.WorkspaceClient.{Limits, McpResult, succeeded, refused, validate_mcp_result}
use j41_sovagent_sdk.WorkspaceClient.Calls.{
  Purpose, raw, list_directory, read_file, write_file, Client, Connecting, ConnectFailure, waiting,
  active, gave_up, Event, calls, mcp_result, call_times_out, connects, reconnects,
  reconnect_attempt, connect_errors, ws_errors, disconnects, buyer_times_out, closes,
  status_changed, exclusions, init, Url, TokenResponse, open_socket, check_token, connect,
  disconnect, path_ok, send_tool_call, settle_connecting, activate_if, end_if, is_terminal,
  on_buyer_timeout, on_timeout, on_found, id_of, on_result, step, run,
}
use j41_sovagent_sdk.WorkspaceClient.Paths.{resolve_safe-assert_safe_path}

-- What the buyer's workspace in the directory `d ∷ ds` makes of a path of the three methods.
abbrev pub Resolves : Str → List Str → Str × Purpose × Str → Type 0
Resolves d ds (id, raw, path) = Unit
Resolves d ds (id, list_directory, path) =
    (below : List Str) × (resolve_safe (d ∷ ds) path ≡ some ((d ∷ ds) ++ below))
Resolves d ds (id, read_file, path) =
    (below : List Str) × (resolve_safe (d ∷ ds) path ≡ some ((d ∷ ds) ++ below))
Resolves d ds (id, write_file, path) =
    (below : List Str) × (resolve_safe (d ∷ ds) path ≡ some ((d ∷ ds) ++ below))

Resolves-path_ok :
    (d : Str) (ds : List Str) (id : Str) (p : Purpose) (path : Str)
    → path_ok p path ≡ true
    → Resolves d ds (id, p, path)
Resolves-path_ok d ds id raw path h = tt
Resolves-path_ok d ds id list_directory path h = resolve_safe-assert_safe_path d ds path h
Resolves-path_ok d ds id read_file path h = resolve_safe-assert_safe_path d ds path h
Resolves-path_ok d ds id write_file path h = resolve_safe-assert_safe_path d ds path h

and-left : (a b : Bool) → (a && b) ≡ true → a ≡ true
and-left true b h = refl
and-left false b h = h

settle_connecting-sent : (o : Connecting) (c : Client) → (settle_connecting o c).sent ≡ c.sent
settle_connecting-sent o c = go c.connecting refl
  where
    go : (s : Connecting) → c.connecting ≡ s → (settle_connecting o c).sent ≡ c.sent
    go waiting e = rw e refl
    go active e = rw e refl
    go (gave_up f) e = rw e refl

activate_if-sent : (b : Bool) (c : Client) → (activate_if b c).sent ≡ c.sent
activate_if-sent true c = settle_connecting-sent active c
activate_if-sent false c = refl

end_if-sent : (b : Bool) (c : Client) → (end_if b c).sent ≡ c.sent
end_if-sent true c = refl
end_if-sent false c = refl

on_buyer_timeout-sent : (s : Connecting) (c : Client) → (on_buyer_timeout s c).sent ≡ c.sent
unfolding disconnect
on_buyer_timeout-sent waiting c = refl
on_buyer_timeout-sent active c = refl
on_buyer_timeout-sent (gave_up f) c = refl

on_timeout-sent : (id : Str) (o : Option Purpose) (c : Client) → (on_timeout id o c).sent ≡ c.sent
on_timeout-sent id none c = refl
on_timeout-sent id (some p) c = refl

module _ (d : Str) (ds : List Str) where
  send_tool_call-Resolves :
      (id : Str) (p : Purpose) (path : Str) (c : Client)
      → All (Resolves d ds) c.sent
      → All (Resolves d ds) (send_tool_call id p path c).sent
  unfolding send_tool_call
  send_tool_call-Resolves id p path c a =
      elim (Bool-cases (path_ok p path && (c.has_socket && c.connected))) [
        | inl e ↦ rw e (
          Resolves-path_ok d ds id p path
              (and-left (path_ok p path) (c.has_socket && c.connected) e),
          a,
        )
        | inr e ↦ rw e a
      ]

  open_socket-sent : (o : Option ConnectFailure) (c : Client) → (open_socket o c).sent ≡ c.sent
  open_socket-sent none c = refl
  open_socket-sent (some e) c = refl

  module _ (parse : Str → Option Json) (limits : Limits) where
    on_found-sent :
        (r : McpResult) (o : Option Purpose) (c : Client)
        → (on_found parse limits r o c).sent ≡ c.sent
    on_found-sent r none c = refl
    on_found-sent (succeeded id cs) (some p) c = refl
    on_found-sent (refused id f) (some p) c = refl

    on_result-sent :
        (r : Option McpResult) (c : Client) → (on_result parse limits r c).sent ≡ c.sent
    on_result-sent none c = refl
    on_result-sent (some r) c = on_found-sent r (get str_discrete (id_of r) c.pending) c

    attempt-sent : (c : Client) → (step parse limits reconnect_attempt c).sent ≡ c.sent
    unfolding step
    attempt-sent c = elim (Bool-cases (ltb limits.max_reconnect_cycles (suc c.reconnect_cycles))) [
      | inl e ↦ rw e refl
      | inr e ↦ rw e refl
    ]

    step-Resolves :
        (e : Event) (c : Client)
        → All (Resolves d ds) c.sent
        → All (Resolves d ds) (step parse limits e c).sent
    unfolding step
    step-Resolves (calls id p path) c a = send_tool_call-Resolves id p path c a
    step-Resolves (mcp_result v) c a = rw (on_result-sent (validate_mcp_result limits v) c) a
    step-Resolves (call_times_out id) c a =
        rw (on_timeout-sent id (get str_discrete id c.pending) c) a
    step-Resolves (connects now) c a = a
    step-Resolves reconnects c a = a
    step-Resolves reconnect_attempt c a = rw (attempt-sent c) a
    step-Resolves connect_errors c a = rw (settle_connecting-sent _ c) a
    step-Resolves ws_errors c a = rw (settle_connecting-sent _ c) a
    step-Resolves disconnects c a = a
    step-Resolves buyer_times_out c a = rw (on_buyer_timeout-sent c.connecting c) a
    step-Resolves closes c a = unfold disconnect in a
    step-Resolves (status_changed s) c a =
        rw
          (end_if-sent (is_terminal s) (activate_if (s === codes "active") c)
            ∙ activate_if-sent (s === codes "active") c)
          a
    step-Resolves (exclusions files) c a = a

    run-Resolves :
        (es : List Event) (c : Client)
        → All (Resolves d ds) c.sent
        → All (Resolves d ds) (run parse limits es c).sent
    unfolding run
    run-Resolves [] c a = a
    run-Resolves (e ∷ es) c a = run-Resolves es (step parse limits e c) (step-Resolves e c a)

-- Every path that the three methods ever send, whatever they are called with, is one that the buyer's
-- `resolveSafe` accepts and resolves below its project directory, unless that directory is the root
-- of the file system.
pub run-sent-Resolves :
    (d : Str) (ds : List Str) (parse : Str → Option Json) (limits : Limits) (api : Url) (job : Str)
    (response : TokenResponse) (es : List Event)
    → All (Resolves d ds) (run parse limits es (connect api job response init)).sent
unfolding connect
run-sent-Resolves d ds parse limits api job response es =
    run-Resolves d ds parse limits es (connect api job response init)
      (rw (open_socket-sent d ds (check_token api response) (record init { job_id = some job })) tt)
