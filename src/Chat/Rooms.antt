-- ===== src/Chat/Rooms.antt =====
-- The rooms of a socket of src/chat/client.ts: those that its server has the client in.
use j41_sovagent_sdk.Prelude.{
  ◌≡◌, refl, ◌∙◌, Bool, true, false, List, [], ◌∷◌, Option, none, some, Str, arith, if◌then◌else◌,
  str_discrete, Bool-cases, inl, inr,
}
use j41_sovagent_sdk.Prelude.Maps.{has, add, delete, has-add}
use j41_sovagent_sdk.Chat.{
  Packet, join_job, leave_job, typing, read, message, Socket, Chat, emit_on, emit,
}
use j41_sovagent_sdk.Chat.Step.{rejoin}

-- A server adds and removes a client as its packets ask, and forgets it when it disconnects.
abbrev pub rooms : List Packet → List Str
rooms [] = []
rooms (join_job job ∷ ps) = add str_discrete job (rooms ps)
rooms (leave_job job ∷ ps) = delete str_discrete job (rooms ps)
rooms (typing job ∷ ps) = rooms ps
rooms (read job ∷ ps) = rooms ps
rooms (message job n ∷ ps) = rooms ps

-- The same rooms.
abbrev pub Agree : List Str → List Str → Type 0
Agree rs qs = (job : Str) → has str_discrete job rs ≡ has str_discrete job qs

-- A socket that is connected is in those rooms, and one that is not has nothing to send.
abbrev pub IsIn : List Str → Option Socket → Type 0
IsIn rs none = Unit
IsIn rs (some s) =
    (s.connected ≡ true → Agree (rooms s.emitted) rs) × (s.connected ≡ false → s.emitted ≡ [])

abbrev pub IsOn : Option Socket → Type 0
IsOn none = Unit
IsOn (some s) = s.connected ≡ true

abbrev pub IsSynced : Chat → Type 0
IsSynced c = IsIn c.joined_rooms c.socket

abbrev pub rejoin_on : List Str → Option Socket → Option Socket
rejoin_on [] o = o
rejoin_on (job ∷ jobs) o = rejoin_on jobs (emit_on (join_job job) o)

abbrev pub packets : List Str → List Packet → List Packet
packets [] ps = ps
packets (job ∷ jobs) ps = packets jobs (join_job job ∷ ps)

pub rejoin_lem :
    (jobs : List Str) (c : Chat) → rejoin jobs c ≡ record c { socket = rejoin_on jobs c.socket }
rejoin_lem [] c = refl
rejoin_lem (job ∷ jobs) c = rejoin_lem jobs (emit (join_job job) c)

pub rejoin_on-some :
    (jobs : List Str) (s : Socket)
    → rejoin_on jobs (some s) ≡ some (record s { emitted = packets jobs s.emitted })
rejoin_on-some [] s = refl
rejoin_on-some (job ∷ jobs) s =
    rejoin_on-some jobs (record s { emitted = join_job job ∷ s.emitted })

pub rejoin_on-none : (jobs : List Str) → rejoin_on jobs none ≡ none
rejoin_on-none [] = refl
rejoin_on-none (job ∷ jobs) = rejoin_on-none jobs

pub has-packets :
    (job : Str) (jobs : List Str) (ps : List Packet)
    → has str_discrete job (rooms (packets jobs ps))
      ≡ (if has str_discrete job jobs then true else has str_discrete job (rooms ps))
unfolding has
has-packets job [] ps = refl
has-packets job (j ∷ jobs) ps =
    ground (arith, has-packets job jobs (join_job j ∷ ps), has-add str_discrete j job (rooms ps))

pub rejoin_on-IsIn :
    (rs : List Str) (o : Option Socket) → IsOn o → IsIn rs o → IsIn rs (rejoin_on rs o)
rejoin_on-IsIn rs none on h = rw (rejoin_on-none rs) tt
rejoin_on-IsIn rs (some s) on h =
    rw (rejoin_on-some rs s)
      ((λ k job. ground (arith, has-packets job rs s.emitted, h.0 k job)), (λ off. cc))

if_same : (b : Bool) → (if b then true else b) ≡ b
if_same true = refl
if_same false = refl

-- The rooms that a socket joins when it connects.
pub joined_lem :
    (rs : List Str) (s : Socket) (b : Bool)
    → s.connected ≡ b
    → IsIn rs (some s)
    → (job : Str)
    → (if has str_discrete job rs then true else has str_discrete job (rooms s.emitted))
      ≡ has str_discrete job rs
unfolding has
joined_lem rs s true e h job = rw (h.0 e job) (if_same (has str_discrete job rs))
joined_lem rs s false e h job = elim (Bool-cases (has str_discrete job rs)) [
  | inl k ↦ rw k refl
  | inr k ↦ rw (k, h.1 e) refl
]

pub first-IsIn :
    (rs : List Str) (s : Socket)
    → IsIn rs (some s)
    → IsIn rs (rejoin_on rs (some (record s { connected = true; resolved = true; timer = false })))
first-IsIn rs s h =
    rw (rejoin_on-some rs (record s { connected = true; resolved = true; timer = false })) (
      (λ k job. has-packets job rs s.emitted ∙ joined_lem rs s s.connected refl h job),
      (λ off. cc),
    )
