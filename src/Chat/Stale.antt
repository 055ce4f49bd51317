-- ===== src/Chat/Stale.antt =====
-- What src/chat/client.ts does when a socket connects again, and when the timer of a socket that it has
-- replaced goes off.
use j41_sovagent_sdk.Prelude.{◌≡◌, refl, true, false, List, [], ◌∷◌, some, Str}
use j41_sovagent_sdk.Chat.{user, Socket, Chat, drop, settle, drop_socket, all_generic, set_aside}
use j41_sovagent_sdk.Chat.Step.{
  current, past, connect_called, token_received, connects, disconnects, times_out, rejoin, run,
  step,
}
use j41_sovagent_sdk.Chat.Rooms.{rooms, rejoin_lem, rejoin_on-some}

-- A socket whose promise was settled loses its connection and connects again: the client is in no room
-- on the server, whatever rooms it has joined.
pub run-reconnects :
    (c : Chat) (s : Socket)
    → c.socket ≡ some s
    → s.listening ≡ true
    → s.closed ≡ false
    → s.resolved ≡ true
    → (t : Socket) × ((run (disconnects current ∷ connects current ∷ []) c).socket ≡ some t)
      × (t.connected ≡ true)
      × (rooms t.emitted ≡ [])
      × ((run (disconnects current ∷ connects current ∷ []) c).joined_rooms ≡ c.joined_rooms)
unfolding run
run-reconnects c s e l k r =
    rw (e, l, k, r)
      (
        record s {
          connected = true;
          listening = true;
          closed = false;
          resolved = true;
          emitted = [];
        },
        refl,
        refl,
        refl,
        refl,
      )

-- The socket of the client has connected, and will not again.
abbrev pub IsCut : Chat → Type 0
IsCut c =
    (t : Socket) × (c.socket ≡ some t)
    × (t.resolved ≡ true)
    × (t.connected ≡ false)
    × (t.closed ≡ true)

times_out-IsCut :
    (rooms : List Str) (c : Chat) (b a : Socket) (former : List Socket)
    → b.resolved ≡ true
    → IsCut (
        step (times_out (past 0)) (
          settle user true (
            rejoin rooms (record c {
              socket = some b;
              former = record a { caller = user; timer = true; resolved = false } ∷ former;
            }))))
unfolding step
times_out-IsCut rs c b a former r =
    rw
      (
        rejoin_lem rs (record c {
          socket = some b;
          former = record a { caller = user; timer = true; resolved = false } ∷ former;
        }),
        rejoin_on-some rs b,
      )
      (_, refl, r, refl, refl)

token_received-IsCut :
    (d : Chat)
    → IsCut (
        run
          (token_received 0 true
            ∷ connect_called
            ∷ token_received 0 true
            ∷ connects current
            ∷ times_out (past 0)
            ∷ [])
          (record d { fetching = user ∷ d.fetching }))
unfolding run step
token_received-IsCut d =
    let s : Socket = record {
      caller = user;
      connected = false;
      listening = true;
      closed = false;
      resolved = false;
      timer = true;
      emitted = [];
      generic = all_generic d.generic_handlers;
    } in
    times_out-IsCut d.joined_rooms (record d { reconnect_cycles = 0 })
      (record s { connected = true; resolved = true; timer = false }) (drop s)
      (set_aside d.socket d.former) refl

-- A client that connects anew before its socket has connected: the new socket connects, and the timer of
-- the old one then disconnects it for good.
pub run-stale_timer :
    (c : Chat)
    → IsCut (
        run
          (connect_called
            ∷ token_received 0 true
            ∷ connect_called
            ∷ token_received 0 true
            ∷ connects current
            ∷ times_out (past 0)
            ∷ [])
          c)
unfolding run step
run-stale_timer c = token_received-IsCut (drop_socket c)
