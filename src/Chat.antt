-- ===== src/Chat.antt =====
-- src/chat/client.ts: the chat client. A step is an event: a call of a method, an answer of the platform,
-- what a socket's listener gets, or a timer.
pub mod Step
pub mod Rooms
pub mod Kept
pub mod Synced
pub mod Cycles
pub mod Stale
mod Tests
use j41_sovagent_sdk.Prelude.{
  ℕ, zero, suc, ◌*◌, ◌+◌, ◌^◌, Bool, true, false, not, ◌&&◌, List, [], ◌∷◌, ◌++◌, map, Option, none,
  some, Str, ltb, leb, if◌then◌else◌, str_discrete, ◌===◌,
}
use j41_sovagent_sdk.Prelude.Maps.{get, put, remove, add, delete}

pub data Packet : Type 0 where
  join_job leave_job typing read : (job : Str) → Packet
  message : (job : Str) → (bytes : ℕ) → Packet

-- Whether a call of `connect` is the user's or that of the client after a failed reconnection.
pub data Caller : Type 0 where
  user cycle : Caller

-- `resolved` and `timer` belong to the promise that waits for the socket; `emitted` are the packets since
-- it last lost its connection, the newest first, which are sent when it connects; `closed` says that `disconnect` was called, after which a
-- socket connects no more.
pub record Socket : Type 0 where
  pub caller : Caller
  pub connected : Bool
  pub listening : Bool
  pub closed : Bool
  pub resolved : Bool
  pub timer : Bool
  pub emitted : List Packet
  pub generic : List (Str × ℕ)

-- The handlers of one event each.
pub record Handlers : Type 0 where
  pub global : Option ℕ
  pub session_ending : Option ℕ
  pub session_expiring : Option ℕ
  pub job_status_changed : Option ℕ
  pub review_received : Option ℕ

-- `former` are the sockets that were the client's before, the newest first. `fetching` are the calls of
-- `connect` that wait for a token, `sleeping` those of the client that wait for their delay. `called`
-- are the handlers that were called, `settled` how calls of `connect` by the user ended, `failures`
-- counts the calls of `onReconnectFailed`, and `delays` are all delays begun.
pub record Chat : Type 0 where
  pub socket : Option Socket
  pub former : List Socket
  pub joined_rooms : List Str
  pub message_handlers : List (Str × List ℕ)
  pub handlers : Handlers
  pub generic_handlers : List (Str × List ℕ)
  pub reconnect_cycles : ℕ
  pub fetching : List Caller
  pub sleeping : ℕ
  pub called : List ℕ
  pub settled : List Bool
  pub failures : ℕ
  pub delays : List ℕ

abbrev pub no_handlers : Handlers
no_handlers = record {
  global = none;
  session_ending = none;
  session_expiring = none;
  job_status_changed = none;
  review_received = none;
}

abbrev pub init : Chat
init = record {
  socket = none;
  former = [];
  joined_rooms = [];
  message_handlers = [];
  handlers = no_handlers;
  generic_handlers = [];
  reconnect_cycles = 0;
  fetching = [];
  sleeping = 0;
  called = [];
  settled = [];
  failures = 0;
  delays = [];
}

abbrev pub max_message_size : ℕ
max_message_size = 64 * 1024

abbrev pub max_reconnect_cycles : ℕ
max_reconnect_cycles = 3

-- `cycleBackoffDelay`, with the random part of the delay.
abbrev pub cycle_backoff_delay : (n jitter : ℕ) → ℕ
cycle_backoff_delay n jitter =
    let base = 1000 * 2 ^ (if leb 1 n then n else 1) in
    (if leb base 60000 then base else 60000) + jitter

abbrev pub drop : Socket → Socket
drop s = record s { connected = false; listening = false; closed = true; emitted = [] }

-- The listeners are removed, the socket is disconnected and forgotten.
abbrev pub drop_socket : Chat → Chat
drop_socket c = elim c.socket [
  | none ↦ c
  | some s ↦ record c { socket = none; former = drop s ∷ c.former }
]

-- `connect` to its first await.
abbrev pub call_connect : Caller → Chat → Chat
call_connect caller c = let d = drop_socket c in record d { fetching = caller ∷ d.fetching }

abbrev pub with_event : Str → List ℕ → List (Str × ℕ)
with_event event [] = []
with_event event (h ∷ hs) = (event, h) ∷ with_event event hs

abbrev pub all_generic : List (Str × List ℕ) → List (Str × ℕ)
all_generic [] = []
all_generic ((event, hs) ∷ m) = with_event event hs ++ all_generic m

-- A socket that was the client's is still there when another takes its place.
abbrev pub set_aside : Option Socket → List Socket → List Socket
set_aside none former = former
set_aside (some s) former = s ∷ former

abbrev pub open_socket : Caller → Chat → Chat
open_socket caller c = record c {
  former = set_aside c.socket c.former;
  socket = some (record {
    caller = caller;
    connected = false;
    listening = true;
    closed = false;
    resolved = false;
    timer = true;
    emitted = [];
    generic = all_generic c.generic_handlers;
  });
}

-- The end of a call of `connect`; of one by the client only a failure is seen.
abbrev pub settle : Caller → Bool → Chat → Chat
settle user ok c = record c { settled = ok ∷ c.settled }
settle cycle true c = c
settle cycle false c = record c { failures = suc c.failures }

abbrev pub emit_on : Packet → Option Socket → Option Socket
emit_on p none = none
emit_on p (some s) = some (record s { emitted = p ∷ s.emitted })

-- `this.socket?.emit`
abbrev pub emit : Packet → Chat → Chat
emit p c = record c { socket = emit_on p c.socket }

abbrev pub is_connected : Option Socket → Bool
is_connected none = false
is_connected (some s) = s.connected

abbrev pub emit_if_connected : Packet → Chat → Chat
emit_if_connected p c = if is_connected c.socket then emit p c else c

-- `joinJob`
abbrev pub join : Str → Chat → Chat
join job c =
    emit_if_connected (join_job job)
      (record c { joined_rooms = add str_discrete job c.joined_rooms })

-- `leaveJob`
abbrev pub leave : Str → Chat → Chat
leave job c = emit_if_connected (leave_job job) (record c {
  joined_rooms = delete str_discrete job c.joined_rooms;
  message_handlers = remove str_discrete job c.message_handlers;
})

-- `sendMessage` of a content with that many bytes; none if it throws.
abbrev pub send_message : (job : Str) → (bytes : ℕ) → Chat → Option Chat
send_message job bytes c =
    if not (is_connected c.socket)
    then none
    else if ltb max_message_size bytes
    then none
    else some (emit (message job bytes) c)

abbrev pub handlers_of : Option (List ℕ) → List ℕ
handlers_of none = []
handlers_of (some hs) = hs

abbrev push : Str → ℕ → List (Str × List ℕ) → List (Str × List ℕ)
push k h m = put str_discrete k (handlers_of (get str_discrete k m) ++ h ∷ []) m

-- `onJobMessage`
abbrev pub on_job_message : Str → ℕ → Chat → Chat
on_job_message job h c = record c { message_handlers = push job h c.message_handlers }

abbrev pub listen : Str → ℕ → Option Socket → Option Socket
listen event h none = none
listen event h (some s) = some (record s { generic = s.generic ++ (event, h) ∷ [] })

-- `on`
abbrev pub on : Str → ℕ → Chat → Chat
on event h c = record c {
  generic_handlers = push event h c.generic_handlers;
  socket = listen event h c.socket;
}

-- `disconnect`
abbrev pub disconnect : Chat → Chat
disconnect c =
    let d = drop_socket c in
    record d { joined_rooms = []; message_handlers = []; handlers = no_handlers }
