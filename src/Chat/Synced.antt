-- ===== src/Chat/Synced.antt =====
-- The histories of src/chat/client.ts keep the rooms on the server in step with those of the client.
use j41_sovagent_sdk.Prelude.{List, [], ◌∷◌}
use j41_sovagent_sdk.Chat.{Chat}
use j41_sovagent_sdk.Chat.Step.{Event, step}
use j41_sovagent_sdk.Chat.Kept.{IsFirst}

-- The condition on a history: a socket of the client connects once.
pub data ConnectsOnce : List Event → Chat → Type 0 where
  ends : (c : Chat) → ConnectsOnce [] c
  goes :
      (e : Event) (es : List Event) (c : Chat)
      → IsFirst e c
      → ConnectsOnce es (step e c)
      → ConnectsOnce (e ∷ es) c
