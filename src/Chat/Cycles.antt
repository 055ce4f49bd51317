-- ===== src/Chat/Cycles.antt =====
-- How often the client of src/chat/client.ts tries again by itself.
use j41_sovagent_sdk.Prelude.{
  ℕ, zero, suc, ◌+◌, ◌-◌, ◌*◌, ◌≤◌, ◌≡◌, refl, Bool, true, false, List, [], ◌∷◌, Option, none, some,
  Str, arith, length, ltb, if◌then◌else◌, Bool-cases, inl, inr, not,
}
use j41_sovagent_sdk.Prelude.Maps.{get}
use j41_sovagent_sdk.Prelude.{str_discrete}
use j41_sovagent_sdk.Chat.{
  Packet, message, typing, read, join_job, Caller, user, cycle, Socket, Chat, init,
  max_message_size, max_reconnect_cycles, drop_socket, settle, emit, is_connected,
  emit_if_connected, handlers_of,
}
use j41_sovagent_sdk.Chat.Step.{
  Source, current, past, Event, connect_called, token_received, connects, connect_errors,
  disconnects, times_out, reconnect_fails, message_received, notified, generic_received, slept,
  disconnect_called, joins, leaves, types, reads, sends, handles_job, handles_all, handles,
  handles_generic, handler_of, generic_of, rejoin, socket_of, set_socket, on_connect, Listener,
  on_live, step, run, or_unchanged, call, call_one, on_timeout, close, on_connect_error, on_timer,
  open_unless_closed, on_reconnect_failed, take_at, after_token, after_sleep,
}

-- The delays begun and those that may still begin before a socket connects.
abbrev budget : Chat → ℕ
budget c = length c.delays + (max_reconnect_cycles - c.reconnect_cycles)

-- Below a bound.
abbrev IsWithin : ℕ → Chat → Type 0
IsWithin n c = budget c ≤ n

if-IsWithin :
    (n : ℕ) (b : Bool) (c d : Chat) → IsWithin n c → IsWithin n d → IsWithin n (if b then c else d)
if-IsWithin n true c d h k = h
if-IsWithin n false c d h k = k

settle-IsWithin :
    (n : ℕ) (caller : Caller) (ok : Bool) (c : Chat)
    → IsWithin n c
    → IsWithin n (settle caller ok c)
settle-IsWithin n user ok c h = h
settle-IsWithin n cycle true c h = h
settle-IsWithin n cycle false c h = h

set_socket-IsWithin :
    (n : ℕ) (src : Source) (s : Socket) (c : Chat) → IsWithin n c → IsWithin n (set_socket src s c)
set_socket-IsWithin n current s c h = h
set_socket-IsWithin n (past i) s c h = h

call-IsWithin : (n : ℕ) (hs : List ℕ) (c : Chat) → IsWithin n c → IsWithin n (call hs c)
call-IsWithin n [] c h = h
call-IsWithin n (x ∷ hs) c h = call-IsWithin n hs (record c { called = x ∷ c.called }) h

call_one-IsWithin : (n : ℕ) (o : Option ℕ) (c : Chat) → IsWithin n c → IsWithin n (call_one o c)
call_one-IsWithin n none c h = h
call_one-IsWithin n (some x) c h = h

rejoin-IsWithin : (n : ℕ) (jobs : List Str) (c : Chat) → IsWithin n c → IsWithin n (rejoin jobs c)
rejoin-IsWithin n [] c h = h
rejoin-IsWithin n (j ∷ js) c h = rejoin-IsWithin n js (emit (join_job j) c) h

drop_socket-IsWithin : (n : ℕ) (c : Chat) → IsWithin n c → IsWithin n (drop_socket c)
drop_socket-IsWithin n c h = go c.socket refl
  where
    go : (o : Option Socket) → c.socket ≡ o → IsWithin n (drop_socket c)
    go none e = rw e h
    go (some s) e = rw e h

on_live-IsWithin :
    (n : ℕ) (o : Option Socket) (f : Listener) (c : Chat)
    → ((s : Socket) → IsWithin n (f s c))
    → IsWithin n c
    → IsWithin n (on_live o f c)
on_live-IsWithin n none f c k h = h
on_live-IsWithin n (some s) f c k h = if-IsWithin n s.listening (f s c) c (k s) h

-- The count starts again when a socket connects.
on_connect-IsWithin :
    (n : ℕ) (src : Source) (s : Socket) (c : Chat)
    → IsWithin n c
    → IsWithin (max_reconnect_cycles + n) (on_connect src s c)
on_connect-IsWithin n src s c h =
    let m = max_reconnect_cycles + n in
    let d = record c { reconnect_cycles = 0 } in
    let t = record s { connected = true; resolved = true; timer = false } in
    let k : IsWithin m d = omega (arith, h) in
    if-IsWithin m s.resolved _ (settle s.caller true (rejoin c.joined_rooms (set_socket src t d)))
      (set_socket-IsWithin m src (record s { connected = true }) d k)
      (settle-IsWithin m s.caller true (rejoin c.joined_rooms (set_socket src t d))
        (rejoin-IsWithin m c.joined_rooms (set_socket src t d) (set_socket-IsWithin m src t d k)))

on_reconnect_failed-IsWithin :
    (n jitter : ℕ) (c : Chat) → IsWithin n c → IsWithin n (on_reconnect_failed jitter c)
on_reconnect_failed-IsWithin n jitter c h =
    elim (Bool-cases (ltb max_reconnect_cycles (suc c.reconnect_cycles))) [
      | inl e ↦ rw e (omega (arith, h))
      | inr e ↦ rw e (ground arith)
    ]

on_timeout-IsWithin :
    (n : ℕ) (src : Source) (s : Socket) (c : Chat) → IsWithin n c → IsWithin n (on_timeout src s c)
on_timeout-IsWithin n src s c h =
    let d = set_socket src (record s { resolved = true; timer = false }) c in
    let k = set_socket-IsWithin n src (record s { resolved = true; timer = false }) c h in
    if-IsWithin n s.resolved (set_socket src (record s { timer = false }) c)
      (settle s.caller false (record d { socket = close d.socket }))
      (set_socket-IsWithin n src (record s { timer = false }) c h)
      (settle-IsWithin n s.caller false (record d { socket = close d.socket }) k)

on_timer-IsWithin :
    (n : ℕ) (o : Option Socket) (src : Source) (c : Chat)
    → IsWithin n c
    → IsWithin n (on_timer o src c)
on_timer-IsWithin n none src c h = h
on_timer-IsWithin n (some s) src c h =
    if-IsWithin n s.timer (on_timeout src s c) c (on_timeout-IsWithin n src s c h) h

after_token-IsWithin :
    (n : ℕ) (o : Option (Caller × List Caller)) (ok : Bool) (c : Chat)
    → IsWithin n c
    → IsWithin n (after_token o ok c)
after_token-IsWithin n none ok c h = h
after_token-IsWithin n (some (caller, rest)) true c h = h
after_token-IsWithin n (some (caller, rest)) false c h =
    settle-IsWithin n caller false (record c { fetching = rest }) h

after_sleep-IsWithin : (n k : ℕ) (c : Chat) → IsWithin n c → IsWithin n (after_sleep k c)
after_sleep-IsWithin n zero c h = h
after_sleep-IsWithin n (suc k) c h = drop_socket-IsWithin n (record c { sleeping = k }) h

emits-IsWithin : (n : ℕ) (p : Packet) (c : Chat) → IsWithin n c → IsWithin n (emit_if_connected p c)
emits-IsWithin n p c h = if-IsWithin n (is_connected c.socket) (emit p c) c h h

guarded-IsWithin :
    (n : ℕ) (on big : Bool) (c d : Chat)
    → IsWithin n c
    → IsWithin n d
    → IsWithin n (or_unchanged c (if not on then none else if big then none else some d))
guarded-IsWithin n false big c d h k = h
guarded-IsWithin n true true c d h k = h
guarded-IsWithin n true false c d h k = k

-- What a connection allows.
abbrev pub is_connects : Event → Bool
is_connects (connects src) = true
is_connects e = false

abbrev more : Event → ℕ → ℕ
more e n = if is_connects e then max_reconnect_cycles + n else n

step-IsWithin : (n : ℕ) (e : Event) (c : Chat) → IsWithin n c → IsWithin (more e n) (step e c)
unfolding step
step-IsWithin n connect_called c h = drop_socket-IsWithin n c h
step-IsWithin n (token_received i ok) c h = after_token-IsWithin n (take_at i c.fetching) ok c h
step-IsWithin n (connects src) c h =
    let m = max_reconnect_cycles + n in
    let k : IsWithin m c = omega (arith, h) in
    on_live-IsWithin m (socket_of src c) (open_unless_closed src) c
      (λ s. if-IsWithin m s.closed c (on_connect src s c) k (on_connect-IsWithin n src s c h)) k
step-IsWithin n (connect_errors src) c h =
    on_live-IsWithin n (socket_of src c) (on_connect_error src) c
      (λ s.
        let t = record s { resolved = true; timer = false } in
        if-IsWithin n s.resolved c (settle s.caller false (set_socket src t c)) h
          (settle-IsWithin n s.caller false (set_socket src t c) (set_socket-IsWithin n src t c h)))
      h
step-IsWithin n (disconnects src) c h =
    on_live-IsWithin n (socket_of src c) _ c
      (λ s. set_socket-IsWithin n src (record s { connected = false; emitted = [] }) c h) h
step-IsWithin n (times_out src) c h = on_timer-IsWithin n (socket_of src c) src c h
step-IsWithin n (reconnect_fails src jitter) c h =
    on_live-IsWithin n (socket_of src c) _ c (λ s. on_reconnect_failed-IsWithin n jitter c h) h
step-IsWithin n (message_received src job) c h =
    on_live-IsWithin n (socket_of src c) _ c
      (λ s.
        let hs = handlers_of (get str_discrete job c.message_handlers) in
        call_one-IsWithin n c.handlers.global (call hs c) (call-IsWithin n hs c h))
      h
step-IsWithin n (notified src notice) c h =
    on_live-IsWithin n (socket_of src c) _ c
      (λ s. call_one-IsWithin n (handler_of notice c.handlers) c h) h
step-IsWithin n (generic_received src event) c h =
    on_live-IsWithin n (socket_of src c) _ c (λ s. call-IsWithin n (generic_of event s.generic) c h)
      h
step-IsWithin n slept c h = after_sleep-IsWithin n c.sleeping c h
step-IsWithin n disconnect_called c h = drop_socket-IsWithin n c h
step-IsWithin n (joins job) c h = if-IsWithin n (is_connected c.socket) _ _ h h
step-IsWithin n (leaves job) c h = if-IsWithin n (is_connected c.socket) _ _ h h
step-IsWithin n (types job) c h = emits-IsWithin n (typing job) c h
step-IsWithin n (reads job) c h = emits-IsWithin n (read job) c h
step-IsWithin n (sends job bytes) c h =
    guarded-IsWithin n (is_connected c.socket) (ltb max_message_size bytes) c
      (emit (message job bytes) c) h h
step-IsWithin n (handles_job job k) c h = h
step-IsWithin n (handles_all k) c h = h
step-IsWithin n (handles notice k) c h = h
step-IsWithin n (handles_generic event k) c h = h

-- The connections of sockets in a history.
abbrev pub connections : List Event → ℕ
connections [] = 0
connections (e ∷ es) = if is_connects e then suc (connections es) else connections es

run-IsWithin :
    (es : List Event) (n : ℕ) (c : Chat)
    → IsWithin n c
    → IsWithin (3 * connections es + n) (run es c)
unfolding run
run-IsWithin [] n c h = omega (arith, h)
run-IsWithin (e ∷ es) n c h =
    let k = run-IsWithin es (more e n) (step e c) (step-IsWithin n e c h) in ground (arith, k)

-- The client begins to try again by itself at most three times, and three times more for each connection
-- of a socket, whatever happens and in whatever order.
pub run-tries : (es : List Event) → length (run es init).delays ≤ 3 * suc (connections es)
run-tries es = let h = run-IsWithin es 3 init (omega arith) in omega (arith, h)
