-- ===== src/Session/Replies.antt =====
-- `sendAndWait` in src/buyer/session.ts: the handler of messages that it puts into the configuration for
-- the time it waits.
use j41_sovagent_sdk.Prelude.{
  ℕ, zero, suc, ◌≡◌, ◌≢◌, ap, ◌+◌, ◌∙◌, List, [], ◌∷◌, arith, Option, none, some, ◌==◌,
  if◌then◌else◌,
}

-- The configured handler, or that of a wait with the one it found.
pub data Handler : Type 0 where
  configured : Handler
  waiter : (id : ℕ) → (original : Handler) → Handler

-- `on_message` is `this.config.onMessage`; `waits` are the timers that run, with the handler each puts
-- back; `resolved` and `rejected` are the calls of a promise's functions, the newest first.
pub record Replies : Type 0 where
  pub on_message : Handler
  pub waits : List (ℕ × Handler)
  pub resolved : List ℕ
  pub rejected : List ℕ
  pub handed_on : ℕ

abbrev pub no_waits : Replies
no_waits = record {
  on_message = configured;
  waits = [];
  resolved = [];
  rejected = [];
  handed_on = 0;
}

unfoldable pub clear : ℕ → List (ℕ × Handler) → List (ℕ × Handler)
clear id [] = []
clear id ((k, h) ∷ ws) = if k == id then clear id ws else (k, h) ∷ clear id ws

unfoldable pub find : ℕ → List (ℕ × Handler) → Option Handler
find id [] = none
find id ((k, h) ∷ ws) = if k == id then some h else find id ws

-- A handler is called with a message: a wait puts the handler back that it found, calls it and
-- resolves.
abbrev pub handle : Handler → Replies → Replies
handle configured r = record r { handed_on = suc r.handed_on }
handle (waiter id original) r =
    let r' = handle original (record r { waits = clear id r.waits; on_message = original }) in
    record r' { resolved = id ∷ r'.resolved }

pub data Event : Type 0 where
  send_and_wait : (id : ℕ) → Event
  message : Event
  times_out : (id : ℕ) → Event

abbrev pub on_timeout : ℕ → Option Handler → Replies → Replies
on_timeout id none r = r
on_timeout id (some original) r = record r {
  on_message = original;
  waits = clear id r.waits;
  rejected = id ∷ r.rejected;
}

unfoldable pub step : Event → Replies → Replies
step (send_and_wait id) r = record r {
  on_message = waiter id r.on_message;
  waits = (id, r.on_message) ∷ r.waits;
}
step message r = handle r.on_message r
step (times_out id) r = on_timeout id (find id r.waits) r

unfoldable pub run : List Event → Replies → Replies
unfolding step
run [] r = r
run (e ∷ es) r = run es (step e r)

abbrev pub messages : ℕ → List Event
messages zero = []
messages (suc n) = message ∷ messages n

abbrev with_messages : List (ℕ × Handler) → List ℕ → List ℕ → ℕ → Replies
with_messages ws rs js k = record {
  on_message = configured;
  waits = ws;
  resolved = rs;
  rejected = js;
  handed_on = k;
}

-- Under the configured handler a message is only handed on.
messages_lem :
    (n k : ℕ) (ws : List (ℕ × Handler)) (rs js : List ℕ)
    → run (messages n) (with_messages ws rs js k) ≡ with_messages ws rs js (n + k)
unfolding run
messages_lem zero k ws rs js = ap (with_messages ws rs js) (omega arith)
messages_lem (suc n) k ws rs js =
    messages_lem n (suc k) ws rs js ∙ ap (with_messages ws rs js) (omega arith)

-- The timer of the older of two waits.
find_older : (a b : ℕ) (w h : Handler) → a ≢ b → find a ((b, w) ∷ (a, h) ∷ []) ≡ some h
unfolding find
find_older a b w h n = ground arith

clear_older : (a b : ℕ) (w h : Handler) → a ≢ b → clear a ((b, w) ∷ (a, h) ∷ []) ≡ (b, w) ∷ []
unfolding clear
clear_older a b w h n = ground arith

-- Two waits that overlap, of which the first times out: the configured handler is back although the
-- second still waits, so however many messages come, each goes to it alone and none resolves the second.
pub run_overlapping :
    (a b n : ℕ)
    → a ≢ b
    → run (send_and_wait a ∷ send_and_wait b ∷ times_out a ∷ messages n) no_waits ≡ record {
      on_message = configured;
      waits = (b, waiter a configured) ∷ [];
      resolved = [];
      rejected = a ∷ [];
      handed_on = n;
    }
unfolding run
run_overlapping a b n h =
    let w = waiter a configured in
    let ws : List (ℕ × Handler) = (b, w) ∷ (a, configured) ∷ [] in
    let r : Replies = record {
      on_message = waiter b w;
      waits = ws;
      resolved = [];
      rejected = [];
      handed_on = 0;
    } in
    ap (λ o. run (messages n) (on_timeout a o r)) (find_older a b w configured h)
    ∙ ap (λ vs. run (messages n) (with_messages vs [] (a ∷ []) 0)) (clear_older a b w configured h)
    ∙ messages_lem n 0 ((b, w) ∷ []) [] (a ∷ [])
    ∙ ap (with_messages ((b, w) ∷ []) [] (a ∷ [])) (omega arith)
