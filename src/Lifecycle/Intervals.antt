-- ===== src/Lifecycle/Intervals.antt =====
-- The agent of src/agent.ts polls by one interval, if it is not started again during a start.
use j41_sovagent_sdk.Prelude.{
  ℕ, zero, suc, ◌≡◌, refl, ap, ◌∙◌, ◌⊎◌, inl, inr, Bool, true, false, ◌&&◌, List, [], ◌∷◌, Option,
  none, some, arith, ◌==◌, any, if◌then◌else◌,
}
use j41_sovagent_sdk.Lifecycle.{
  Agent, clear_interval, clear_timer, start, set_interval, drop_timer, after_check, stop, Event,
  start_called, checked, stop_called, ticks, step, run,
}

pub clear-head : (id : ℕ) (is : List ℕ) → clear_interval id (id ∷ is) ≡ is
unfolding clear_interval
clear-head id is = ground arith

abbrev pub of_timer : Option ℕ → List ℕ
of_timer none = []
of_timer (some id) = id ∷ []

-- The intervals that run are that of the field, which there is neither while a start waits nor while
-- the agent is stopped.
pub record IsTidy (a : Agent) : Type 0 where
  pub owned : a.intervals ≡ of_timer a.poll_timer
  pub waiting : (a.starting ≡ 0) ⊎ ((a.starting ≡ 1) × (a.poll_timer ≡ none))
  pub stopped : (a.running ≡ true) ⊎ (a.poll_timer ≡ none)

cleared : (o : Option ℕ) → clear_timer o (of_timer o) ≡ []
cleared none = refl
cleared (some id) = clear-head id []

if-IsTidy :
    (b : Bool) (a c : Agent)
    → (b ≡ true → IsTidy a)
    → (b ≡ false → IsTidy c)
    → IsTidy (if b then a else c)
if-IsTidy true a c t f = t refl
if-IsTidy false a c t f = f refl

-- No start is called while another waits for its first check.
abbrev pub IsAlone : Event → Agent → Type 0
IsAlone (start_called l) a = a.starting ≡ 0
IsAlone e a = Unit

pub data OneByOne : List Event → Agent → Type 0 where
  ends : (a : Agent) → OneByOne [] a
  goes :
      (e : Event) (es : List Event) (a : Agent)
      → IsAlone e a
      → OneByOne es (step e a)
      → OneByOne (e ∷ es) a

stopped_none : (a : Agent) → IsTidy a → a.running ≡ false → a.poll_timer ≡ none
stopped_none a h r = elim h.stopped [ inl e ↦ cc | inr e ↦ e ]

start-IsTidy : (l : Bool) (a : Agent) → a.starting ≡ 0 → IsTidy a → IsTidy (start l a)
start-IsTidy l a e h =
    if-IsTidy a.running a _ (λ r. h)
      (λ r.
        if-IsTidy l (record a { running = true; starting = suc a.starting; polls = suc a.polls }) a
          (λ g. record {
            owned = h.owned;
            waiting = inr (ap suc e, stopped_none a h r);
            stopped = inl refl;
          })
          (λ g. h))

stop-IsTidy : (a : Agent) → IsTidy a → IsTidy (stop a)
stop-IsTidy a h = record {
  owned = rw h.owned (cleared a.poll_timer);
  waiting = elim h.waiting [ inl e ↦ inl e | inr p ↦ inr (p.0, refl) ];
  stopped = inr refl;
}

none_left : (a : Agent) → IsTidy a → a.poll_timer ≡ none → a.intervals ≡ []
none_left a h e = h.owned ∙ ap of_timer e

after_check-IsTidy : (n : ℕ) (a : Agent) → a.starting ≡ n → IsTidy a → IsTidy (after_check n a)
after_check-IsTidy zero a e h = h
after_check-IsTidy (suc n) a e h = elim h.waiting [
  | inl z ↦ absurd (omega (arith, e, z))
  | inr p ↦
      let b = set_interval (record a { starting = n }) in
      let z : n ≡ 0 = omega (arith, e, p.0) in
      let left = none_left a h p.1 in
      if-IsTidy a.running b (drop_timer b)
        (λ r. record { owned = ap (◌∷◌ a.next) left; waiting = inl z; stopped = inl r })
        (λ r. record {
          owned = clear-head a.next a.intervals ∙ left;
          waiting = inl z;
          stopped = inr refl;
        })
]

step-IsTidy : (e : Event) (a : Agent) → IsAlone e a → IsTidy a → IsTidy (step e a)
unfolding step
step-IsTidy (start_called l) a f h = start-IsTidy l a f h
step-IsTidy checked a f h = after_check-IsTidy a.starting a refl h
step-IsTidy stop_called a f h = stop-IsTidy a h
step-IsTidy (ticks id) a f h =
    if-IsTidy (any (λ i. i == id) a.intervals && a.running) (record a { polls = suc a.polls }) a
      (λ t. record { owned = h.owned; waiting = h.waiting; stopped = h.stopped }) (λ t. h)

-- Over any history of starts, stops and ticks in which no start is called while another waits for its
-- first check, the intervals that run are the one of the field, if that is set, and none runs of an agent
-- that is stopped.
pub run-IsTidy : (es : List Event) (a : Agent) → OneByOne es a → IsTidy a → IsTidy (run es a)
unfolding run
run-IsTidy [] a o h = h
run-IsTidy (e ∷ es) a (goes _ _ _ f o) h = run-IsTidy es (step e a) o (step-IsTidy e a f h)
