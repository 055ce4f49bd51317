-- ===== src/Chat/Kept.antt =====
-- The calls of src/chat/client.ts and the listener of a connection keep the rooms on the server in step
-- with those of the client.
use mathlib.Core.Path.{subst}
use j41_sovagent_sdk.Prelude.{
  ℕ, ◌≡◌, refl, sym, ap, ◌∙◌, Bool, true, false, not, List, ◌∷◌, Option, none, some, Str, ltb,
  if◌then◌else◌, str_discrete, ite,
}
use j41_sovagent_sdk.Prelude.Maps.{remove, add, delete, has-add, has-delete}
use j41_sovagent_sdk.Chat.{
  Packet, join_job, leave_job, message, Caller, user, cycle, Socket, Chat, max_message_size, settle,
  emit_on, emit, is_connected, emit_if_connected, join, leave, send_message,
}
use j41_sovagent_sdk.Chat.Step.{
  Source, current, past, Event, connects, rejoin, socket_of, set_socket, on_connect, or_unchanged,
}
use j41_sovagent_sdk.Chat.Rooms.{
  rooms, Agree, IsIn, IsSynced, IsOn, rejoin_on, rejoin_lem, rejoin_on-IsIn, first-IsIn,
}

pub settle-IsSynced :
    (caller : Caller) (ok : Bool) (c : Chat) → IsSynced c → IsSynced (settle caller ok c)
settle-IsSynced user ok c h = h
settle-IsSynced cycle true c h = h
settle-IsSynced cycle false c h = h

-- A socket that is set keeps the rooms if it is not connected or has the packets it had.
pub set_socket-IsSynced :
    (src : Source) (t : Socket) (c : Chat)
    → (src ≡ current → IsIn c.joined_rooms (some t))
    → IsSynced c
    → IsSynced (set_socket src t c)
set_socket-IsSynced current t c k h = k refl
set_socket-IsSynced (past i) t c k h = h

pub same-IsIn :
    (src : Source) (s t : Socket) (c : Chat)
    → socket_of src c ≡ some s
    → t.connected ≡ s.connected
    → t.emitted ≡ s.emitted
    → IsSynced c
    → src ≡ current
    → IsIn c.joined_rooms (some t)
same-IsIn (past i) s t c e p q h k = cc
same-IsIn current s t c e p q h k =
    let g = subst (IsIn c.joined_rooms) e h in
    ((λ on. rw q (g.0 (sym p ∙ on))), (λ off. q ∙ g.1 (sym p ∙ off)))

-- The client's socket has not connected before; and one that it replaced connects only while the
-- client's is connected.
abbrev pub IsUnresolved : Option Socket → Type 0
IsUnresolved none = Unit
IsUnresolved (some s) = s.resolved ≡ false

abbrev pub IsFirst : Event → Chat → Type 0
IsFirst (connects current) c = IsUnresolved c.socket
IsFirst (connects (past i)) c = IsOn c.socket
IsFirst e c = Unit

pub rejoin-IsSynced :
    (c : Chat)
    → IsIn c.joined_rooms (rejoin_on c.joined_rooms c.socket)
    → IsSynced (rejoin c.joined_rooms c)
rejoin-IsSynced c h = rw (rejoin_lem c.joined_rooms c) h

pub if-IsSynced :
    (b : Bool) (c d : Chat)
    → (b ≡ true → IsSynced c)
    → (b ≡ false → IsSynced d)
    → IsSynced (if b then c else d)
if-IsSynced true c d t f = t refl
if-IsSynced false c d t f = f refl

-- The client when the promise of a socket is kept, before it joins its rooms.
abbrev opened : Source → Socket → Chat → Chat
opened src s c =
    set_socket src (record s { connected = true; resolved = true; timer = false })
      (record c { reconnect_cycles = 0 })

pub on_connect-IsSynced :
    (src : Source) (s : Socket) (c : Chat)
    → socket_of src c ≡ some s
    → IsFirst (connects src) c
    → IsSynced c
    → IsSynced (on_connect src s c)
on_connect-IsSynced current s c e f h =
    if-IsSynced s.resolved _ _ (λ r. let u : s.resolved ≡ false = subst IsUnresolved e f in cc)
      (λ r. settle-IsSynced s.caller true (rejoin c.joined_rooms (opened current s c)) (
        rejoin-IsSynced (opened current s c)
          (first-IsIn c.joined_rooms s (subst (IsIn c.joined_rooms) e h))))
on_connect-IsSynced (past i) s c e f h =
    if-IsSynced s.resolved _ _ (λ r. h)
      (λ r.
        settle-IsSynced s.caller true (rejoin c.joined_rooms (opened (past i) s c))
          (rejoin-IsSynced (opened (past i) s c) (rejoin_on-IsIn c.joined_rooms c.socket f h)))

pub emit-IsIn :
    (p : Packet) (rs qs : List Str) (o : Option Socket)
    → ((ps : List Packet) → Agree (rooms ps) rs → Agree (rooms (p ∷ ps)) qs)
    → is_connected o ≡ true
    → IsIn rs o
    → IsIn qs (emit_on p o)
emit-IsIn p rs qs none k on h = tt
emit-IsIn p rs qs (some s) k on h = ((λ t. k s.emitted (h.0 on)), (λ off. cc))

pub off-IsIn :
    (rs qs : List Str) (o : Option Socket) → IsIn rs o → is_connected o ≡ false → IsIn qs o
off-IsIn rs qs none h e = tt
off-IsIn rs qs (some s) h e = ((λ on. cc), h.1)

-- A packet that has the effect on the server that the client's rooms had.
pub emits-IsSynced :
    (p : Packet) (rs : List Str) (c : Chat)
    → ((ps : List Packet) → Agree (rooms ps) rs → Agree (rooms (p ∷ ps)) c.joined_rooms)
    → IsIn rs c.socket
    → IsSynced (emit_if_connected p c)
emits-IsSynced p rs c k h =
    if-IsSynced (is_connected c.socket) (emit p c) c
      (λ on. emit-IsIn p rs c.joined_rooms c.socket k on h) (off-IsIn rs c.joined_rooms c.socket h)

pub join-IsSynced : (job : Str) (c : Chat) → IsSynced c → IsSynced (join job c)
join-IsSynced job c h =
    emits-IsSynced (join_job job) c.joined_rooms
      (record c { joined_rooms = add str_discrete job c.joined_rooms })
      (λ ps a j.
        has-add str_discrete job j (rooms ps)
        ∙ ap (ite (str_discrete job j) true) (a j)
        ∙ sym (has-add str_discrete job j c.joined_rooms))
      h

pub leave-IsSynced : (job : Str) (c : Chat) → IsSynced c → IsSynced (leave job c)
leave-IsSynced job c h =
    emits-IsSynced (leave_job job) c.joined_rooms
      (record c {
        joined_rooms = delete str_discrete job c.joined_rooms;
        message_handlers = remove str_discrete job c.message_handlers;
      })
      (λ ps a j.
        has-delete str_discrete job j (rooms ps)
        ∙ ap (ite (str_discrete job j) false) (a j)
        ∙ sym (has-delete str_discrete job j c.joined_rooms))
      h

pub guarded-IsSynced :
    (on big : Bool) (c d : Chat)
    → IsSynced c
    → (on ≡ true → IsSynced d)
    → IsSynced (or_unchanged c (if not on then none else if big then none else some d))
guarded-IsSynced false big c d h k = h
guarded-IsSynced true true c d h k = h
guarded-IsSynced true false c d h k = k refl

pub send_message-IsSynced :
    (job : Str) (bytes : ℕ) (c : Chat)
    → IsSynced c
    → IsSynced (or_unchanged c (send_message job bytes c))
send_message-IsSynced job bytes c h =
    guarded-IsSynced (is_connected c.socket) (ltb max_message_size bytes) c
      (emit (message job bytes) c) h
      (λ on. emit-IsIn (message job bytes) c.joined_rooms c.joined_rooms c.socket (λ ps a. a) on h)
