-- ===== src/Dispatch/Permitted.antt =====
-- What the handlers of src/agent.ts do on their own: deliveries and transactions.
use j41_sovagent_sdk.Prelude.{
  ℕ, ◌≡◌, refl, Bool, true, false, not, ◌&&◌, ◌||◌, List, [], ◌∷◌, Option, none, some, Str,
  if◌then◌else◌, All, All-append,
}
use j41_sovagent_sdk.Prelude.Json.{Json}
use j41_sovagent_sdk.Inbox.{review}
use j41_sovagent_sdk.Inbox.Single
use j41_sovagent_sdk.Inbox.Single.{Platform, accept_review}
use j41_sovagent_sdk.Inbox.Accepted.{
  IsGated, IsSafe, skipped, untouched, half_done, done, accept_item-IsSafe,
}
use j41_sovagent_sdk.Dispatch.{
  Self, Hooks, Hook, session_ending, error, delivered, message, Effect, emits, hands_on, calls_hook,
  delivers, accepts, Answers, is_filled, is_same, on_message, after_hook, is_deliverable, can_sign,
  deliver, deliver_if, auto_deliver, call_hook, on_session_ending, hook_of, run_hook, with_job,
  on_job_status_changed, reverse_on, with_error, after_accept, Event, message_received, ends,
  expires, changes, reviewed, budget, dispatch,
}

-- A delivery is of a job in a state for it, by an agent that can sign; a transaction is one that an
-- accept of a review may send, by an agent that is not in broker mode.
abbrev pub IsPermitted : Self → Answers → Effect → Type 0
IsPermitted self p (emits n) = Unit
IsPermitted self p (hands_on job) = Unit
IsPermitted self p (calls_hook h job) = Unit
IsPermitted self p (delivers job) =
    (status : Str) × (p.status_of job ≡ some status)
    × (is_deliverable status ≡ true)
    × (can_sign self ≡ true)
IsPermitted self p (accepts (Single.sent tx)) =
    (self.has_signer ≡ false) × ((id : Str) × IsGated review (p.inbox id) tx)
IsPermitted self p (accepts (Single.acknowledged id txid)) = self.has_signer ≡ false
IsPermitted self p (accepts (Single.announced type id txid)) = self.has_signer ≡ false

module _ (self : Self) (p : Answers) where
  abbrev Permitted : List Effect → Type 0
  Permitted = All (IsPermitted self p)

  if-Permitted :
      (b : Bool) (xs ys : List Effect)
      → (b ≡ true → Permitted xs)
      → (b ≡ false → Permitted ys)
      → Permitted (if b then xs else ys)
  if-Permitted true xs ys t f = t refl
  if-Permitted false xs ys t f = f refl

  after_hook-Permitted : (h : Hook) (job : Str) (b : Bool) → Permitted (after_hook h job b)
  after_hook-Permitted h job true = (tt, tt)
  after_hook-Permitted h job false = (tt, (tt, tt))

  call_hook-Permitted : (h : Hook) (job : Str) (o : Option Str) → Permitted (call_hook p h job o)
  call_hook-Permitted h job none = (tt, tt)
  call_hook-Permitted h job (some status) = after_hook-Permitted h job (p.hook_returns h)

  deliver-Permitted :
      (job status : Str)
      → p.status_of job ≡ some status
      → is_deliverable status ≡ true
      → can_sign self ≡ true
      → Permitted (deliver p job)
  deliver-Permitted job status e d c =
      if-Permitted p.signs _ (emits error ∷ [])
        (λ s.
          if-Permitted p.delivery_taken (delivers job ∷ emits delivered ∷ [])
            (delivers job ∷ emits error ∷ []) (λ t. ((status, e, d, c), (tt, tt)))
            (λ t. ((status, e, d, c), (tt, tt))))
        (λ s. (tt, tt))

  deliver_if-Permitted :
      (job : Str) (o : Option Str)
      → p.status_of job ≡ o
      → can_sign self ≡ true
      → Permitted (deliver_if p job o)
  deliver_if-Permitted job none e c = (tt, tt)
  deliver_if-Permitted job (some status) e c =
      if-Permitted (is_deliverable status) (deliver p job) []
        (λ d. deliver-Permitted job status e d c) (λ d. tt)

  auto_deliver-Permitted : (job : Str) → Permitted (auto_deliver self p job)
  auto_deliver-Permitted job =
      if-Permitted (not (is_filled self.i_address)) [] _ (λ a. tt) (λ a. go (can_sign self) refl)
    where
      go :
          (b : Bool)
          → can_sign self ≡ b
          → Permitted (if not b then [] else deliver_if p job (p.status_of job))
      go true c = deliver_if-Permitted job (p.status_of job) refl c
      go false c = tt

  reverse_on-Permitted :
      (es : List Single.Effect) (xs : List Effect)
      → All (λ e. IsPermitted self p (accepts e)) es
      → Permitted xs
      → Permitted (reverse_on es xs)
  reverse_on-Permitted [] xs h k = k
  reverse_on-Permitted (e ∷ es) xs h k = reverse_on-Permitted es (accepts e ∷ xs) h.1 (h.0, k)

  with_error-Permitted :
      (o : Option Single.AcceptError) (xs : List Effect)
      → Permitted xs
      → Permitted (with_error o xs)
  with_error-Permitted none xs h = h
  with_error-Permitted (some e) xs h =
      All-append (IsPermitted self p) xs (emits error ∷ []) h (tt, tt)

  after_accept-Permitted :
      (id : Str) (r : Single.Accept)
      → self.has_signer ≡ false
      → IsSafe review id (p.inbox id) r
      → Permitted (after_accept r)
  after_accept-Permitted id _ b (skipped i e s) = tt
  after_accept-Permitted id _ b (untouched e) = with_error-Permitted (some e) [] tt
  after_accept-Permitted id _ b (half_done e tx g) =
      with_error-Permitted (some e) (accepts (Single.sent tx) ∷ []) ((b, (id, g)), tt)
  after_accept-Permitted id _ b (done tx txid g e) = ((b, (id, g)), (b, (b, tt)))

  run_hook-Permitted : (job : Str) (o : Option Hook) → Permitted (run_hook p job o)
  run_hook-Permitted job none = tt
  run_hook-Permitted job (some h) = after_hook-Permitted h job (p.hook_returns h)

  with_job-Permitted :
      (job : Str) (h : Option Hook) (o : Option Str) → Permitted (with_job p job h o)
  with_job-Permitted job h none = (tt, tt)
  with_job-Permitted job h (some status) = run_hook-Permitted job h

  on_session_ending-Permitted :
      (hooks : Option Hooks) (job : Str) → Permitted (on_session_ending self hooks p job)
  on_session_ending-Permitted none job = (tt, auto_deliver-Permitted job)
  on_session_ending-Permitted (some h) job = (
    tt,
    if-Permitted h.on_session_ending (call_hook p session_ending job (p.status_of job))
        (auto_deliver self p job) (λ t. call_hook-Permitted session_ending job (p.status_of job))
        (λ t. auto_deliver-Permitted job),
  )

  changed-Permitted :
      (hooks : Option Hooks) (job status : Str)
      → Permitted (on_job_status_changed hooks p job status)
  changed-Permitted none job status = (tt, tt)
  changed-Permitted (some h) job status =
      (tt, with_job-Permitted job (hook_of h status) (p.status_of job))

  message-Permitted :
      (has_handler : Bool) (job sender : Str) → Permitted (on_message self has_handler job sender)
  message-Permitted has_handler job sender =
      if-Permitted (is_same sender self.i_address || is_same sender self.identity_name) [] _
        (λ o. tt)
        (λ o.
          if-Permitted has_handler (emits message ∷ hands_on job ∷ []) (emits message ∷ [])
            (λ h. (tt, (tt, tt))) (λ h. (tt, tt)))

  -- Whatever the chat server sends, a handler delivers only a job that the platform says is accepted or in
  -- progress, with an agent that can sign, and sends only what accepting a review may send, never in broker
  -- mode.
  pub dispatch-IsPermitted :
      (stringify : Json → Str) (has_handler : Bool) (hooks : Option Hooks) (now : ℕ) (e : Event)
      → All (IsPermitted self p) (dispatch stringify self has_handler hooks p now e)
  dispatch-IsPermitted stringify has_handler hooks now (message_received job sender) =
      message-Permitted has_handler job sender
  dispatch-IsPermitted stringify has_handler hooks now (ends job) =
      on_session_ending-Permitted hooks job
  dispatch-IsPermitted stringify has_handler hooks now (expires job) = (tt, tt)
  dispatch-IsPermitted stringify has_handler hooks now (changes job status) =
      changed-Permitted hooks job status
  dispatch-IsPermitted stringify has_handler hooks now (reviewed id) = (
    tt,
    if-Permitted self.has_signer [] _ (λ b. tt)
        (λ b.
          after_accept-Permitted id
            (accept_review stringify (self.has_wif && is_filled self.i_address) now id (p.inbox id))
            b
            (accept_item-IsSafe stringify review (self.has_wif && is_filled self.i_address) now id
              (p.inbox id))),
  )
  dispatch-IsPermitted stringify has_handler hooks now (budget n) = (tt, tt)
