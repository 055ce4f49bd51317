-- ===== src/Session/Pay.antt =====
-- What `start` in src/buyer/session.ts pays, and when it leaves the session active.
use j41_sovagent_sdk.Prelude.{ℕ, ◌≤◌, ◌<◌, ◌≡◌, ◌⊎◌, true, List, [], ◌∷◌, none, some, inl, inr}
use j41_sovagent_sdk.Session.{SessionConfig, Output, StartError, is_verus_addr, Session, Started}

-- The amount to a well-formed address, and to another at most a fee that is no more.
abbrev pub IsFair : ℕ → List Output → Type 0
IsFair amount [] = ⊥
IsFair amount (o ∷ []) = (is_verus_addr o.address ≡ true) × (o.amount ≡ amount)
IsFair amount (o ∷ f ∷ []) =
    (is_verus_addr o.address ≡ true)
    × (o.amount ≡ amount)
    × (is_verus_addr f.address ≡ true)
    × (0 < f.amount)
    × (f.amount ≤ amount)
IsFair amount (o ∷ f ∷ g ∷ os) = ⊥

-- A list of outputs, if it is one, is fair.
abbrev AreFair : ℕ → StartError ⊎ List Output → Type 0
AreFair amount (inl e) = Unit
AreFair amount (inr os) = IsFair amount os

-- A start that was rejected before it paid, or that paid once and fairly; if it was not rejected, the
-- session is active.
pub data Paid (c : SessionConfig) (before : Session) (r : Started) : Type 0 where
  unpaid : (e : StartError) → r.1 ≡ some e → r.0.sent ≡ before.sent → Paid c before r
  once :
      (os : List Output)
      → IsFair c.amount os
      → r.0.sent ≡ os ∷ before.sent
      → (r.1 ≡ none → r.0.active ≡ true)
      → Paid c before r

-- What follows a payment sends nothing.
record IsAfter (s : Session) (r : Started) : Type 0 where
  sent : r.0.sent ≡ s.sent
  opens : r.1 ≡ none → r.0.active ≡ true
