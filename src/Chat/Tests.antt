-- ===== src/Chat/Tests.antt =====
-- Runs of src/chat/client.ts on concrete histories.
use j41_sovagent_sdk.Prelude.{
  ◌≡◌, refl, true, false, List, [], ◌∷◌, some, Str, codes, str_discrete, length, ◌≤◌, ◌*◌, suc,
}
use j41_sovagent_sdk.Prelude.Maps.{get, put}
use j41_sovagent_sdk.Chat.{join_job, user, Socket, Chat, init}
use j41_sovagent_sdk.Chat.Step.{
  Event, current, past, connect_called, token_received, connects, disconnects, times_out,
  reconnect_fails, slept, joins, leaves, handles_job, message_received, sends, run,
}
use j41_sovagent_sdk.Chat.Rooms.{rooms}
use j41_sovagent_sdk.Chat.Cycles.{connections, run-tries}
use j41_sovagent_sdk.Chat.Stale.{IsCut, run-reconnects, run-stale_timer}

abbrev job : Str
job = codes "j1"

-- A room that is joined before the socket connects, and one that is left.
abbrev session : List Event
session =
    joins job
    ∷ joins (codes "j2")
    ∷ connect_called
    ∷ token_received 0 true
    ∷ connects current
    ∷ leaves (codes "j2")
    ∷ []

abbrev failing : List Event
failing =
    connect_called
    ∷ token_received 0 true
    ∷ reconnect_fails current 500
    ∷ slept
    ∷ token_received 0 true
    ∷ reconnect_fails current 0
    ∷ slept
    ∷ token_received 0 true
    ∷ reconnect_fails current 0
    ∷ slept
    ∷ token_received 0 true
    ∷ reconnect_fails current 0
    ∷ []

failing_delays : (run failing init).delays ≡ 8000 ∷ 4000 ∷ 2500 ∷ []
unfolding run
failing_delays = refl

failing_failures : (run failing init).failures ≡ 1
unfolding run
failing_failures = refl

run-tries_example : length (run failing init).delays ≤ 3 * suc (connections failing)
run-tries_example = run-tries failing

-- A client in a room, whose socket has connected.
abbrev connected_socket : Socket
connected_socket = record {
  caller = user;
  connected = true;
  listening = true;
  closed = false;
  resolved = true;
  timer = false;
  emitted = join_job job ∷ [];
  generic = [];
}

abbrev in_room : Chat
in_room = record init { socket = some connected_socket; joined_rooms = job ∷ [] }

run-reconnects_example :
    (t : Socket) × ((run (disconnects current ∷ connects current ∷ []) in_room).socket ≡ some t)
    × (t.connected ≡ true)
    × (rooms t.emitted ≡ [])
    × ((run (disconnects current ∷ connects current ∷ []) in_room).joined_rooms
        ≡ in_room.joined_rooms)
run-reconnects_example = run-reconnects in_room connected_socket refl refl refl refl

run-stale_timer_example : IsCut (
    run
      (connect_called
        ∷ token_received 0 true
        ∷ connect_called
        ∷ token_received 0 true
        ∷ connects current
        ∷ times_out (past 0)
        ∷ [])
      in_room)
run-stale_timer_example = run-stale_timer in_room

-- The handlers of a job are called, and a message before the socket connects is not sent.
message_handled :
    (run
      (handles_job job 7
        ∷ sends job 10
        ∷ connect_called
        ∷ token_received 0 true
        ∷ connects current
        ∷ message_received current job
        ∷ [])
      init).called
    ≡ 7 ∷ []
unfolding run str_discrete get put
message_handled = refl
