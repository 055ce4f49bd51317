-- ===== src/WorkspaceClient/Ledger.antt =====
-- The promises of src/workspace/client.ts: each call that was sent waits or is settled, once.
use j41_sovagent_sdk.Prelude.{
  ℕ, suc, ◌+◌, ◌≤◌, ◌≡◌, ◌≢◌, refl, Bool, true, false, ◌&&◌, List, [], ◌∷◌, Option, none, some, Str,
  codes, arith, occ, ltb, ◌===◌, str_discrete, if◌then◌else◌, Bool-cases, Option-cases, inl, inr,
}
use j41_sovagent_sdk.Prelude.Json.{Json}
use j41_sovagent_sdk.Prelude.Maps.{get, put, remove}
use j41_sovagent_sdk.WorkspaceClient.{Limits, McpResult, succeeded, refused, validate_mcp_result}
use j41_sovagent_sdk.WorkspaceClient.Calls.{
  Purpose, Outcome, Client, Event, Connecting, waiting, active, gave_up, calls, mcp_result,
  call_times_out, connects, reconnects, reconnect_attempt, connect_errors, ws_errors, disconnects,
  buyer_times_out, closes, rejected, timeout, tool_failed, outcome_of, Url, TokenResponse,
  ConnectFailure, open_socket, check_token, connect, status_changed, exclusions, init, reject_all,
  disconnect, path_ok, send_tool_call, settle_connecting, on_status, activate_if, end_if,
  is_terminal, on_buyer_timeout, on_timeout, on_found, id_of, on_result, step, run,
}

abbrev pub call_ids : List Event → List Str
call_ids [] = []
call_ids (calls id p path ∷ es) = id ∷ call_ids es
call_ids (e ∷ es) = call_ids es

abbrev pub keys {ℓ} : {A : Type ℓ} → List (Str × A) → List Str
keys [] = []
keys ((k, a) ∷ m) = k ∷ keys m

abbrev pub sent_ids : List (Str × Purpose × Str) → List Str
sent_ids [] = []
sent_ids ((k, p, path) ∷ m) = k ∷ sent_ids m

module _ (j : Str) where
  put_other :
      (id : Str) (p : Purpose) (m : List (Str × Purpose))
      → id ≢ j
      → occ j (keys (put str_discrete id p m)) ≡ occ j (keys m)
  unfolding put
  put_other id p [] h = ground arith
  put_other id p ((k, q) ∷ m) h = ground (arith, put_other id p m h)

  put_new :
      (id : Str) (p : Purpose) (m : List (Str × Purpose))
      → id ≡ j
      → occ j (keys m) ≡ 0
      → occ j (keys (put str_discrete id p m)) ≡ 1
  unfolding put
  put_new id p [] e h = ground arith
  put_new id p ((k, q) ∷ m) e h = ground (arith, put_new id p m)

  occ-put :
      (id : Str) (p : Purpose) (m : List (Str × Purpose))
      → (id ≡ j → occ j (keys m) ≡ 0)
      → occ j (keys (put str_discrete id p m)) ≡ (if id === j then 1 else 0) + occ j (keys m)
  occ-put id p m h = elim (str_discrete id j) [
    | yes e ↦ ground (arith, put_new id p m e (h e), h e)
    | no n ↦ ground (arith, put_other id p m n)
  ]

  remove_other :
      (id : Str) (m : List (Str × Purpose))
      → id ≢ j
      → occ j (keys (remove str_discrete id m)) ≡ occ j (keys m)
  unfolding remove
  remove_other id [] h = refl
  remove_other id ((k, q) ∷ m) h = ground (arith, remove_other id m h)

  remove_self : (m : List (Str × Purpose)) → occ j (keys (remove str_discrete j m)) ≡ 0
  unfolding remove
  remove_self [] = refl
  remove_self ((k, q) ∷ m) = ground (arith, remove_self m)

  occ_of_get :
      (p : Purpose) (m : List (Str × Purpose)) → get str_discrete j m ≡ some p → 1 ≤ occ j (keys m)
  unfolding get
  occ_of_get p [] h = cc
  occ_of_get p ((k, q) ∷ m) h = ground (arith, occ_of_get p m)

  occ-reject_all :
      (ps : List (Str × Purpose)) (os : List (Str × Outcome))
      → occ j (keys (reject_all ps os)) ≡ occ j (keys ps) + occ j (keys os)
  occ-reject_all [] os = omega arith
  occ-reject_all ((k, p) ∷ ps) os = omega (arith, occ-reject_all ps ((k, _) ∷ os))

  occ-settle :
      (id : Str) (p : Purpose) (o : Outcome) (ps : List (Str × Purpose)) (os : List (Str × Outcome))
      → get str_discrete id ps ≡ some p
      → occ j (keys ps) ≤ 1
      → occ j (keys (remove str_discrete id ps)) + occ j (keys ((id, o) ∷ os))
        ≡ occ j (keys ps) + occ j (keys os)
  occ-settle id p o ps os g u = elim (str_discrete id j) [
    | yes e ↦ ground (arith, remove_self ps, occ_of_get p ps, e)
    | no n ↦ ground (arith, remove_other id ps n)
  ]

  -- The calls that were sent are those that wait and those that are settled; `later` calls are to
  -- come.
  record IsBalanced (later : ℕ) (c : Client) : Type 0 where
    balanced : occ j (sent_ids c.sent) ≡ occ j (keys c.pending) + occ j (keys c.outcomes)
    once : occ j (sent_ids c.sent) + later ≤ 1

  -- A step that leaves the calls alone.
  record IsAside (c d : Client) : Type 0 where
    sent : d.sent ≡ c.sent
    pending : d.pending ≡ c.pending
    outcomes : d.outcomes ≡ c.outcomes

  IsBalanced-aside :
      (later : ℕ) (c d : Client) → IsAside c d → IsBalanced later c → IsBalanced later d
  IsBalanced-aside later c d a b = record {
    balanced = rw (a.sent, a.pending, a.outcomes) b.balanced;
    once = rw a.sent b.once;
  }

  settle_connecting-IsAside : (o : Connecting) (c : Client) → IsAside c (settle_connecting o c)
  settle_connecting-IsAside o c = go c.connecting refl
    where
      go : (s : Connecting) → c.connecting ≡ s → IsAside c (settle_connecting o c)
      go waiting e = rw e (record { sent = refl; pending = refl; outcomes = refl })
      go active e = rw e (record { sent = refl; pending = refl; outcomes = refl })
      go (gave_up f) e = rw e (record { sent = refl; pending = refl; outcomes = refl })

  activate_if-IsAside : (b : Bool) (c : Client) → IsAside c (activate_if b c)
  activate_if-IsAside true c = settle_connecting-IsAside active c
  activate_if-IsAside false c = record { sent = refl; pending = refl; outcomes = refl }

  end_if-IsAside : (b : Bool) (c d : Client) → IsAside c d → IsAside c (end_if b d)
  end_if-IsAside true c d a = record { sent = a.sent; pending = a.pending; outcomes = a.outcomes }
  end_if-IsAside false c d a = a

  on_status-IsAside : (s : Str) (c : Client) → IsAside c (on_status s c)
  on_status-IsAside s c =
      end_if-IsAside (is_terminal s) c (activate_if (s === codes "active") c)
        (activate_if-IsAside (s === codes "active") c)

  send_tool_call-IsBalanced :
      (later : ℕ) (id : Str) (p : Purpose) (path : Str) (c : Client)
      → IsBalanced ((if id === j then 1 else 0) + later) c
      → IsBalanced later (send_tool_call id p path c)
  unfolding send_tool_call
  send_tool_call-IsBalanced later id p path c b =
      elim (Bool-cases (path_ok p path && (c.has_socket && c.connected))) [
        | inr e ↦ rw e (record { balanced = b.balanced; once = omega (arith, b.once) })
        | inl e ↦ rw e (record {
          balanced =
              omega (
                arith,
                b.balanced,
                occ-put id p c.pending (λ e. ground (arith, b.balanced, b.once)),
              );
          once = omega (arith, b.once);
        })
      ]

  disconnect-IsBalanced :
      (later : ℕ) (c : Client) → IsBalanced later c → IsBalanced later (disconnect c)
  unfolding disconnect
  disconnect-IsBalanced later c b = record {
    balanced = omega (arith, b.balanced, occ-reject_all c.pending c.outcomes);
    once = b.once;
  }

  on_timeout-IsBalanced :
      (later : ℕ) (id : Str) (c : Client)
      → IsBalanced later c
      → IsBalanced later (on_timeout id (get str_discrete id c.pending) c)
  on_timeout-IsBalanced later id c b = elim (Option-cases (get str_discrete id c.pending)) [
    | inl e ↦ rw e b
    | inr (p, e) ↦ rw e (record {
      balanced =
          omega
            (arith, b.balanced, b.once, occ-settle id p (rejected timeout) c.pending c.outcomes e);
      once = b.once;
    })
  ]

  on_buyer_timeout-IsBalanced :
      (later : ℕ) (s : Connecting) (c : Client)
      → IsBalanced later c
      → IsBalanced later (on_buyer_timeout s c)
  on_buyer_timeout-IsBalanced later waiting c b =
      let d = disconnect-IsBalanced later c b in record { balanced = d.balanced; once = d.once }
  on_buyer_timeout-IsBalanced later active c b = b
  on_buyer_timeout-IsBalanced later (gave_up f) c b = b

  module _ (parse : Str → Option Json) (limits : Limits) where
    on_found-IsBalanced :
        (later : ℕ) (r : McpResult) (o : Option Purpose) (c : Client)
        → get str_discrete (id_of r) c.pending ≡ o
        → IsBalanced later c
        → IsBalanced later (on_found parse limits r o c)
    on_found-IsBalanced later r none c e b = b
    on_found-IsBalanced later (succeeded id cs) (some p) c e b = record {
      balanced = omega (
        arith,
        b.balanced,
        b.once,
        occ-settle id p (outcome_of parse limits p cs) c.pending c.outcomes e,
      );
      once = b.once;
    }
    on_found-IsBalanced later (refused id f) (some p) c e b = record {
      balanced = omega (
        arith,
        b.balanced,
        b.once,
        occ-settle id p (rejected (tool_failed f)) c.pending c.outcomes e,
      );
      once = b.once;
    }

    on_result-IsBalanced :
        (later : ℕ) (r : Option McpResult) (c : Client)
        → IsBalanced later c
        → IsBalanced later (on_result parse limits r c)
    on_result-IsBalanced later none c b = b
    on_result-IsBalanced later (some r) c b =
        on_found-IsBalanced later r (get str_discrete (id_of r) c.pending) c refl b

    attempt-IsAside : (c : Client) → IsAside c (step parse limits reconnect_attempt c)
    unfolding step
    attempt-IsAside c =
        elim (Bool-cases (ltb limits.max_reconnect_cycles (suc c.reconnect_cycles))) [
          | inl e ↦ rw e (record { sent = refl; pending = refl; outcomes = refl })
          | inr e ↦ rw e (record { sent = refl; pending = refl; outcomes = refl })
        ]

    step-IsBalanced :
        (e : Event) (es : List Event) (c : Client)
        → IsBalanced (occ j (call_ids (e ∷ es))) c
        → IsBalanced (occ j (call_ids es)) (step parse limits e c)
    unfolding step
    step-IsBalanced (calls id p path) es c b = send_tool_call-IsBalanced _ id p path c b
    step-IsBalanced (mcp_result v) es c b =
        on_result-IsBalanced _ (validate_mcp_result limits v) c b
    step-IsBalanced (call_times_out id) es c b = on_timeout-IsBalanced _ id c b
    step-IsBalanced (connects now) es c b = record { balanced = b.balanced; once = b.once }
    step-IsBalanced reconnects es c b = record { balanced = b.balanced; once = b.once }
    step-IsBalanced reconnect_attempt es c b =
        IsBalanced-aside _ c (step parse limits reconnect_attempt c) (attempt-IsAside c) b
    step-IsBalanced connect_errors es c b =
        IsBalanced-aside _ c (step parse limits connect_errors c) (settle_connecting-IsAside _ c) b
    step-IsBalanced ws_errors es c b =
        IsBalanced-aside _ c (step parse limits ws_errors c) (settle_connecting-IsAside _ c) b
    step-IsBalanced disconnects es c b = record { balanced = b.balanced; once = b.once }
    step-IsBalanced buyer_times_out es c b = on_buyer_timeout-IsBalanced _ c.connecting c b
    step-IsBalanced closes es c b = disconnect-IsBalanced _ c b
    step-IsBalanced (status_changed s) es c b =
        IsBalanced-aside _ c (on_status s c) (on_status-IsAside s c) b
    step-IsBalanced (exclusions files) es c b = record { balanced = b.balanced; once = b.once }

    run-IsBalanced :
        (es : List Event) (c : Client)
        → IsBalanced (occ j (call_ids es)) c
        → IsBalanced 0 (run parse limits es c)
    unfolding run
    run-IsBalanced [] c b = b
    run-IsBalanced (e ∷ es) c b =
        run-IsBalanced es (step parse limits e c) (step-IsBalanced e es c b)

module _ (parse : Str → Option Json) (limits : Limits) where
  -- Over any history of calls with different ids, replies, timeouts and broken connections, a call that
  -- was sent either waits or has its promise settled, and is settled once at most; and a promise that
  -- waits or is settled is that of a call that was sent.
  pub run-settles :
      (api : Url) (job : Str) (response : TokenResponse) (es : List Event)
      → ((j : Str) → occ j (call_ids es) ≤ 1)
      → (j : Str)
      → (occ j (sent_ids (run parse limits es (connect api job response init)).sent)
          ≡ occ j (keys (run parse limits es (connect api job response init)).pending)
            + occ j (keys (run parse limits es (connect api job response init)).outcomes))
        × (occ j (keys (run parse limits es (connect api job response init)).outcomes) ≤ 1)
  unfolding connect
  run-settles api job response es fresh j = (b.balanced, omega (arith, b.balanced, b.once))
    where
      connected :
          (o : Option ConnectFailure)
          → IsBalanced j (occ j (call_ids es)) (open_socket o (record init { job_id = some job }))
      connected none = record { balanced = omega arith; once = omega (arith, fresh j) }
      connected (some e) = record { balanced = omega arith; once = omega (arith, fresh j) }

      b : IsBalanced j 0 (run parse limits es (connect api job response init))
      b =
          run-IsBalanced j parse limits es (connect api job response init)
            (connected (check_token api response))
