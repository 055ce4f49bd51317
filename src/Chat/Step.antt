-- ===== src/Chat/Step.antt =====
-- The listeners and timers of src/chat/client.ts, and its histories.
use j41_sovagent_sdk.Prelude.{
  ℕ, zero, suc, Bool, true, false, List, [], ◌∷◌, Option, none, some, Str, ltb, if◌then◌else◌,
  str_discrete, ◌===◌,
}
use j41_sovagent_sdk.Prelude.Maps.{get}
use j41_sovagent_sdk.Chat.{
  join_job, typing, read, Caller, user, cycle, Socket, Handlers, Chat, max_reconnect_cycles,
  cycle_backoff_delay, call_connect, open_socket, settle, emit, emit_if_connected, join, leave,
  send_message, handlers_of, on_job_message, on, disconnect,
}

-- The client's socket, or one that was.
pub data Source : Type 0 where
  current : Source
  past : (i : ℕ) → Source

pub data Notice : Type 0 where
  session_ending session_expiring job_status_changed review_received : Notice

pub data Event : Type 0 where
  connect_called : Event
  token_received : (call : ℕ) → (ok : Bool) → Event
  connects connect_errors disconnects times_out : Source → Event
  reconnect_fails : Source → (jitter : ℕ) → Event
  message_received : Source → (job : Str) → Event
  notified : Source → Notice → Event
  generic_received : Source → (event : Str) → Event
  slept disconnect_called : Event
  joins leaves types reads : (job : Str) → Event
  sends : (job : Str) → (bytes : ℕ) → Event
  handles_job : (job : Str) → (handler : ℕ) → Event
  handles_all : (handler : ℕ) → Event
  handles : Notice → (handler : ℕ) → Event
  handles_generic : (event : Str) → (handler : ℕ) → Event

abbrev pub at : ℕ → List Socket → Option Socket
at i [] = none
at zero (s ∷ ss) = some s
at (suc i) (s ∷ ss) = at i ss

abbrev pub socket_of : Source → Chat → Option Socket
socket_of current c = c.socket
socket_of (past i) c = at i c.former

abbrev pub set_at : ℕ → Socket → List Socket → List Socket
set_at i t [] = []
set_at zero t (s ∷ ss) = t ∷ ss
set_at (suc i) t (s ∷ ss) = s ∷ set_at i t ss

abbrev pub set_socket : Source → Socket → Chat → Chat
set_socket current t c = record c { socket = some t }
set_socket (past i) t c = record c { former = set_at i t c.former }

-- The rooms are joined again on the socket that is the client's, whichever has connected.
abbrev pub rejoin : List Str → Chat → Chat
rejoin [] c = c
rejoin (job ∷ jobs) c = rejoin jobs (emit (join_job job) c)

-- The listener of `connect`.
abbrev pub on_connect : Source → Socket → Chat → Chat
on_connect src s c =
    let d = record c { reconnect_cycles = 0 } in
    if s.resolved
    then set_socket src (record s { connected = true }) d
    else settle s.caller true (
        rejoin d.joined_rooms
          (set_socket src (record s { connected = true; resolved = true; timer = false }) d))

abbrev pub on_connect_error : Source → Socket → Chat → Chat
on_connect_error src s c =
    if s.resolved
    then c
    else settle s.caller false (set_socket src (record s { resolved = true; timer = false }) c)

abbrev pub close : Option Socket → Option Socket
close none = none
close (some s) = some (record s { connected = false; closed = true; emitted = [] })

-- The timer of a promise: it disconnects the socket that is the client's.
abbrev pub on_timeout : Source → Socket → Chat → Chat
on_timeout src s c =
    if s.resolved
    then set_socket src (record s { timer = false }) c
    else let d = set_socket src (record s { resolved = true; timer = false }) c in
      settle s.caller false (record d { socket = close d.socket })

abbrev pub on_reconnect_failed : (jitter : ℕ) → Chat → Chat
on_reconnect_failed jitter c =
    let n = suc c.reconnect_cycles in
    if ltb max_reconnect_cycles n
    then record c { reconnect_cycles = n; failures = suc c.failures }
    else record c {
      reconnect_cycles = n;
      sleeping = suc c.sleeping;
      delays = cycle_backoff_delay n jitter ∷ c.delays;
    }

abbrev pub call : List ℕ → Chat → Chat
call [] c = c
call (h ∷ hs) c = call hs (record c { called = h ∷ c.called })

abbrev pub call_one : Option ℕ → Chat → Chat
call_one none c = c
call_one (some h) c = record c { called = h ∷ c.called }

-- The listener of messages: the handlers of the job, then the global one.
abbrev pub on_message : Str → Chat → Chat
on_message job c =
    call_one c.handlers.global (call (handlers_of (get str_discrete job c.message_handlers)) c)

abbrev pub handler_of : Notice → Handlers → Option ℕ
handler_of session_ending h = h.session_ending
handler_of session_expiring h = h.session_expiring
handler_of job_status_changed h = h.job_status_changed
handler_of review_received h = h.review_received

abbrev pub with_handler : Notice → ℕ → Handlers → Handlers
with_handler session_ending n h = record h { session_ending = some n }
with_handler session_expiring n h = record h { session_expiring = some n }
with_handler job_status_changed n h = record h { job_status_changed = some n }
with_handler review_received n h = record h { review_received = some n }

abbrev pub generic_of : Str → List (Str × ℕ) → List ℕ
generic_of event [] = []
generic_of event ((e, h) ∷ hs) =
    if e === event then h ∷ generic_of event hs else generic_of event hs

-- What a listener of a socket does.
abbrev pub Listener : Type 0
Listener = Socket → Chat → Chat

abbrev pub on_live : Option Socket → Listener → Chat → Chat
on_live none f c = c
on_live (some s) f c = if s.listening then f s c else c

abbrev pub listened : Source → Listener → Chat → Chat
listened src f c = on_live (socket_of src c) f c

abbrev pub open_unless_closed : Source → Listener
open_unless_closed src s c = if s.closed then c else on_connect src s c

abbrev pub on_timer : Option Socket → Source → Chat → Chat
on_timer none src c = c
on_timer (some s) src c = if s.timer then on_timeout src s c else c

abbrev pub take_at : ℕ → List Caller → Option (Caller × List Caller)
take_at i [] = none
take_at zero (x ∷ xs) = some (x, xs)
take_at (suc i) (x ∷ xs) = elim (take_at i xs) [ none ↦ none | some p ↦ some (p.0, x ∷ p.1) ]

-- `connect` after its first await.
abbrev pub after_token : Option (Caller × List Caller) → Bool → Chat → Chat
after_token none ok c = c
after_token (some (caller, rest)) ok c =
    let d = record c { fetching = rest } in
    if ok then open_socket caller d else settle caller false d

abbrev pub after_sleep : ℕ → Chat → Chat
after_sleep zero c = c
after_sleep (suc n) c = call_connect cycle (record c { sleeping = n })

abbrev pub or_unchanged : Chat → Option Chat → Chat
or_unchanged c none = c
or_unchanged c (some d) = d

unfoldable pub step : Event → Chat → Chat
step connect_called c = call_connect user c
step (token_received i ok) c = after_token (take_at i c.fetching) ok c
step (connects src) c = listened src (open_unless_closed src) c
step (connect_errors src) c = listened src (on_connect_error src) c
step (disconnects src) c =
    listened src (λ s d. set_socket src (record s { connected = false; emitted = [] }) d) c
step (times_out src) c = on_timer (socket_of src c) src c
step (reconnect_fails src jitter) c = listened src (λ s d. on_reconnect_failed jitter d) c
step (message_received src job) c = listened src (λ s d. on_message job d) c
step (notified src n) c = listened src (λ s d. call_one (handler_of n d.handlers) d) c
step (generic_received src event) c = listened src (λ s d. call (generic_of event s.generic) d) c
step slept c = after_sleep c.sleeping c
step disconnect_called c = disconnect c
step (joins job) c = join job c
step (leaves job) c = leave job c
step (types job) c = emit_if_connected (typing job) c
step (reads job) c = emit_if_connected (read job) c
step (sends job bytes) c = or_unchanged c (send_message job bytes c)
step (handles_job job h) c = on_job_message job h c
step (handles_all h) c = record c { handlers = record c.handlers { global = some h } }
step (handles n h) c = record c { handlers = with_handler n h c.handlers }
step (handles_generic event h) c = on event h c

unfoldable pub run : List Event → Chat → Chat
unfolding step
run [] c = c
run (e ∷ es) c = run es (step e c)
