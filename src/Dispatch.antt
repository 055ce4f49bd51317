-- ===== src/Dispatch.antt =====
-- The handlers that `connectChat` of src/agent.ts registers with the chat client, with `autoDeliver` and
-- `sendChatMessage`. What the platform, the signer and the hooks answer is an argument.
pub mod Permitted
mod Tests
use j41_sovagent_sdk.Prelude.{
  ℕ, Bool, true, false, not, ◌&&◌, ◌||◌, List, [], ◌∷◌, ◌++◌, map, Option, none, some, Str, codes,
  ◌===◌, if◌then◌else◌,
}
use j41_sovagent_sdk.Prelude.Json.{Json}
use j41_sovagent_sdk.Chat.{Chat, is_connected, send_message}
use j41_sovagent_sdk.Inbox.Single
use j41_sovagent_sdk.Inbox.Single.{Platform, accept_review}

-- `self` of the agent: an address or a name may be absent or empty.
pub record Self : Type 0 where
  pub i_address : Option Str
  pub identity_name : Option Str
  pub has_wif : Bool
  pub has_signer : Bool

-- The hooks that the job handler has.
pub record Hooks : Type 0 where
  pub on_session_ending : Bool
  pub on_job_started : Bool
  pub on_job_completed : Bool
  pub on_job_disputed : Bool
  pub on_job_cancelled : Bool

pub data Hook : Type 0 where
  session_ending job_started job_completed job_disputed job_cancelled : Hook

pub data Notice : Type 0 where
  message session_end session_expiry status_changed review_came : Notice
  budget_approved budget_declined budget_added delivered error : Notice

-- What is done outside, in order: an event of the agent, a call of a handler or hook, a delivery, or what an
-- accept of a review does.
pub data Effect : Type 0 where
  emits : Notice → Effect
  hands_on : (job : Str) → Effect
  calls_hook : Hook → (job : Str) → Effect
  delivers : (job : Str) → Effect
  accepts : Single.Effect → Effect

-- The answers: the status of a job, none if `getJob` throws; whether a hook returns, whether a delivery is
-- signed and whether it is taken; and those to an accept.
pub record Answers : Type 0 where
  pub status_of : Str → Option Str
  pub hook_returns : Hook → Bool
  pub signs : Bool
  pub delivery_taken : Bool
  pub inbox : Str → Platform

abbrev pub is_filled : Option Str → Bool
is_filled none = false
is_filled (some []) = false
is_filled (some (c ∷ cs)) = true

abbrev pub is_same : Str → Option Str → Bool
is_same s none = false
is_same s (some t) = s === t

-- The agent's own messages are dropped.
abbrev pub on_message : Self → (has_handler : Bool) → (job sender : Str) → List Effect
on_message self has_handler job sender =
    if is_same sender self.i_address || is_same sender self.identity_name
    then []
    else if has_handler
    then emits message ∷ hands_on job ∷ []
    else emits message ∷ []

abbrev pub after_hook : Hook → Str → (returns : Bool) → List Effect
after_hook h job true = calls_hook h job ∷ []
after_hook h job false = calls_hook h job ∷ emits error ∷ []

abbrev pub is_deliverable : Str → Bool
is_deliverable s = s === codes "accepted" || s === codes "in_progress"

abbrev pub can_sign : Self → Bool
can_sign self = self.has_wif || self.has_signer

abbrev pub deliver : Answers → Str → List Effect
deliver p job =
    if p.signs
    then (if p.delivery_taken
        then delivers job ∷ emits delivered ∷ []
        else delivers job ∷ emits error ∷ [])
    else emits error ∷ []

abbrev pub deliver_if : Answers → Str → Option Str → List Effect
deliver_if p job none = emits error ∷ []
deliver_if p job (some status) = if is_deliverable status then deliver p job else []

-- `autoDeliver`, with the error event of its caller.
abbrev pub auto_deliver : Self → Answers → Str → List Effect
auto_deliver self p job =
    if not (is_filled self.i_address)
    then []
    else if not (can_sign self)
    then []
    else deliver_if p job (p.status_of job)

abbrev pub call_hook : Answers → Hook → Str → Option Str → List Effect
call_hook p h job none = emits error ∷ []
call_hook p h job (some status) = after_hook h job (p.hook_returns h)

abbrev pub on_session_ending : Self → Option Hooks → Answers → Str → List Effect
on_session_ending self none p job = emits session_end ∷ auto_deliver self p job
on_session_ending self (some h) p job =
    emits session_end
    ∷ (if h.on_session_ending
        then call_hook p session_ending job (p.status_of job)
        else auto_deliver self p job)

-- The hook of a status, if the handler has it.
abbrev pub hook_of : Hooks → Str → Option Hook
hook_of h s =
    if s === codes "in_progress" && h.on_job_started
    then some job_started
    else if s === codes "completed" && h.on_job_completed
    then some job_completed
    else if s === codes "disputed" && h.on_job_disputed
    then some job_disputed
    else if s === codes "cancelled" && h.on_job_cancelled
    then some job_cancelled
    else none

abbrev pub run_hook : Answers → Str → Option Hook → List Effect
run_hook p job none = []
run_hook p job (some h) = after_hook h job (p.hook_returns h)

abbrev pub with_job : Answers → Str → Option Hook → Option Str → List Effect
with_job p job h none = emits error ∷ []
with_job p job h (some status) = run_hook p job h

abbrev pub on_job_status_changed : Option Hooks → Answers → (job status : Str) → List Effect
on_job_status_changed none p job status = emits status_changed ∷ []
on_job_status_changed (some h) p job status =
    emits status_changed ∷ with_job p job (hook_of h status) (p.status_of job)

abbrev pub reverse_on : List Single.Effect → List Effect → List Effect
reverse_on [] es = es
reverse_on (e ∷ rest) es = reverse_on rest (accepts e ∷ es)

abbrev pub with_error : Option Single.AcceptError → List Effect → List Effect
with_error none es = es
with_error (some e) es = es ++ emits error ∷ []

abbrev pub after_accept : Single.Accept → List Effect
after_accept a = with_error a.0 (reverse_on a.1 [])

pub data Event : Type 0 where
  message_received : (job sender : Str) → Event
  ends : (job : Str) → Event
  expires : (job : Str) → Event
  changes : (job status : Str) → Event
  reviewed : (inbox_id : Str) → Event
  budget : Notice → Event

module _ (stringify : Json → Str) where
  -- In broker mode a review is left pending.
  abbrev pub on_review_received : Self → Answers → (now : ℕ) → (inbox_id : Str) → List Effect
  on_review_received self p now id =
      emits review_came
      ∷ (if self.has_signer
          then []
          else after_accept (
              accept_review stringify (self.has_wif && is_filled self.i_address) now id
                (p.inbox id)))

  abbrev pub dispatch :
      Self → (has_handler : Bool) → Option Hooks → Answers → (now : ℕ) → Event → List Effect
  dispatch self has_handler hooks p now (message_received job sender) =
      on_message self has_handler job sender
  dispatch self has_handler hooks p now (ends job) = on_session_ending self hooks p job
  dispatch self has_handler hooks p now (expires job) = emits session_expiry ∷ []
  dispatch self has_handler hooks p now (changes job status) =
      on_job_status_changed hooks p job status
  dispatch self has_handler hooks p now (reviewed id) = on_review_received self p now id
  dispatch self has_handler hooks p now (budget n) = emits n ∷ []

-- `sendChatMessage`; none if it throws. `leaks` is the test of the canary, if that is on.
abbrev pub send_checked : Option (Str → Bool) → (content : Str) → Option Chat → Option Chat
send_checked none content sent = sent
send_checked (some leaks) content sent = if leaks content then none else sent

abbrev pub send_chat_message :
    Option (Str → Bool) → (job content : Str) → (bytes : ℕ) → Option Chat → Option Chat
send_chat_message leaks job content bytes none = none
send_chat_message leaks job content bytes (some c) =
    if is_connected c.socket then send_checked leaks content (send_message job bytes c) else none
