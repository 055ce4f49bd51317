-- ===== src/Canonical/Window.antt =====
-- What `validateEnvelope` of src/crypto/canonical.ts establishes, and what it does with a date that
-- has the right shape and is no date.
use j41_sovagent_sdk.Prelude.{
  ℕ, ◌+◌, ◌≤◌, ◌<◌, ◌≡◌, ◌≢◌, ==_iff, List, [], ◌∷◌, All, ◌++◌, ◌⊎◌, if◌then◌else◌, refl, ap, sym,
  ◌∙◌, true, false, arith, Option, none, some, Str, codes, Option-cases, inl, inr, Bool, ◌===◌,
  str_discrete,
}
use j41_sovagent_sdk.Prelude.Json.{
  Json, undefined, null, boolean, number, other_number, text, array, object, Fields, lookup,
  is_text,
}
use j41_sovagent_sdk.Canonical.{
  ErrorCode, Action, Check, valid, invalid, first_failure, require, check_fields, window_check,
  field_checks, header_checks, is_one, action_max_window_ms, clock_skew_ms, suite, check_window,
  check_fields, find_action, validate_envelope, read_text, action_name, unknown_action,
  request_access, review_api_session, review_submit, budget_request,
}

-- The window of an envelope, from `issued` to `expires`, seen at `now`.
pub record IsCurrent (action : Action) (issued expires now : ℕ) : Type 0 where
  pub forward : issued < expires
  pub short : expires ≤ issued + action_max_window_ms action
  pub not_over : now ≤ expires + clock_skew_ms
  pub begun : issued ≤ now + clock_skew_ms

pub first_failure-valid : (cs : List Check) → first_failure cs ≡ valid → All (λ c. c ≡ valid) cs
first_failure-valid [] h = tt
first_failure-valid (valid ∷ cs) h = (refl, first_failure-valid cs h)
first_failure-valid (invalid e ∷ cs) h = cc

check_window-IsCurrent :
    (action : Action) (i e now : ℕ)
    → check_window action (some i) (some e) now ≡ valid
    → IsCurrent action i e now
unfolding check_window
check_window-IsCurrent action i e now h = record {
  forward = ground arith;
  short = ground arith;
  not_over = ground arith;
  begun = ground arith;
}

-- Without dates there is no window.
check_window-none : (action : Action) (now : ℕ) → check_window action none none now ≡ valid
unfolding check_window
check_window-none action now = refl

known_action :
    (s : Str) (a b : Action) (r : Option Action)
    → (if s === action_name b then some b else r) ≡ some a
    → (s ≡ action_name a) ⊎ (r ≡ some a)
known_action s a b r h = elim (str_discrete s (action_name b)) [
  | yes e ↦ inl (e ∙ ap action_name (ground arith))
  | no n ↦ inr (ground arith)
]

find_action_lem :
    (v : Option Json) (a : Action) → find_action v ≡ some a → v ≡ some (text (action_name a))
unfolding find_action
find_action_lem none a h = cc
find_action_lem (some (text s)) a h =
    ap (λ t. some (text t))
      (elim (known_action s a request_access _ h) [
        | inl e ↦ e
        | inr h ↦ elim (known_action s a review_api_session _ h) [
          | inl e ↦ e
          | inr h ↦ elim (known_action s a review_submit _ h) [
            | inl e ↦ e
            | inr h ↦ elim (known_action s a budget_request none h) [ inl e ↦ e | inr h ↦ cc ]
          ]
        ]
      ])
find_action_lem (some undefined) a h = cc
find_action_lem (some null) a h = cc
find_action_lem (some (boolean b)) a h = cc
find_action_lem (some (number n)) a h = cc
find_action_lem (some (other_number n)) a h = cc
find_action_lem (some (array xs)) a h = cc
find_action_lem (some (object fs)) a h = cc

require_lem : (b : Bool) (e : ErrorCode) → require b e ≡ valid → b ≡ true
require_lem true e h = refl
require_lem false e h = cc

no_action : invalid unknown_action ≢ valid
no_action h = cc

is_one_lem : (v : Option Json) → is_one v ≡ true → v ≡ some (number 1)
is_one_lem none h = cc
is_one_lem (some undefined) h = cc
is_one_lem (some null) h = cc
is_one_lem (some (boolean b)) h = cc
is_one_lem (some (number n)) h = ap (λ m. some (number m)) ((==_iff n 1).0 h)
is_one_lem (some (other_number s)) h = cc
is_one_lem (some (text s)) h = cc
is_one_lem (some (array xs)) h = cc
is_one_lem (some (object fs)) h = cc

equal_lem : (s t : Str) → (s === t) ≡ true → s ≡ t
equal_lem s t h = elim (str_discrete s t) [ yes e ↦ e | no n ↦ ground arith ]

is_text_lem : (t : Str) (v : Option Json) → is_text (λ s. s === t) v ≡ true → v ≡ some (text t)
is_text_lem t none h = cc
is_text_lem t (some undefined) h = cc
is_text_lem t (some null) h = cc
is_text_lem t (some (boolean b)) h = cc
is_text_lem t (some (number n)) h = cc
is_text_lem t (some (other_number s)) h = cc
is_text_lem t (some (text s)) h = ap (λ s. some (text s)) (equal_lem s t h)
is_text_lem t (some (array xs)) h = cc
is_text_lem t (some (object fs)) h = cc

module _ (parse_date : Str → Option ℕ) where
  -- The four fields that bind an envelope to a protocol, a purpose and a time.
  pub record IsAccepted (fs : Fields) (now : ℕ) : Type 0 where
    pub action : Action
    pub named : lookup (codes "action") fs ≡ some (text (action_name action))
    pub version : lookup (codes "version") fs ≡ some (number 1)
    pub suited : lookup (codes "cryptoSuite") fs ≡ some (text suite)
    pub current :
        (i e : ℕ)
        → parse_date (read_text (lookup (codes "issuedAt") fs)) ≡ some i
        → parse_date (read_text (lookup (codes "expiresAt") fs)) ≡ some e
        → IsCurrent action i e now

  -- An envelope that is accepted is an object of version 1 and of the one suite, with one of the four
  -- actions; and if its two dates are dates, it was issued for a window of positive length, at most the
  -- one that the action allows, and `now` is in it, give or take five minutes.
  pub validate_envelope-IsAccepted :
      (v : Json) (now : ℕ)
      → validate_envelope parse_date v now ≡ valid
      → (fs : Fields) × (v ≡ object fs) × IsAccepted fs now
  validate_envelope-IsAccepted (object fs) now h =
      let oks = first_failure-valid (header_checks parse_date fs ++ _ ∷ []) h in
      elim (Option-cases (find_action (lookup (codes "action") fs))) [
        | inl e ↦ absurd (no_action (rw e at oks.1.1.1.1.0))
        | inr (action, e) ↦
            let fields =
              first_failure-valid
                (field_checks parse_date fs ++ window_check parse_date action fs now ∷ [])
                (rw e at oks.1.1.1.1.0) in
            (
              fs,
              refl,
              record {
                action = action;
                named = find_action_lem _ action e;
                version = is_one_lem _ (require_lem _ _ oks.1.1.0);
                suited = is_text_lem suite _ (require_lem _ _ oks.1.1.1.0);
                current = λ i e pi pe.
                    check_window-IsCurrent action i e now (rw (pi, pe) at fields.1.1.1.1.1.1.1.0);
              },
            )
      ]
  validate_envelope-IsAccepted undefined now h = cc
  validate_envelope-IsAccepted null now h = cc
  validate_envelope-IsAccepted (boolean _) now h = cc
  validate_envelope-IsAccepted (number _) now h = cc
  validate_envelope-IsAccepted (other_number _) now h = cc
  validate_envelope-IsAccepted (text _) now h = cc
  validate_envelope-IsAccepted (array _) now h = cc

  -- A date that has the shape and is no date, such as a month 13, has no window at all: once such an
  -- envelope is accepted, it is accepted at any time.
  pub validate_envelope_timeless :
      (fs : Fields) (now later : ℕ)
      → parse_date (read_text (lookup (codes "issuedAt") fs)) ≡ none
      → parse_date (read_text (lookup (codes "expiresAt") fs)) ≡ none
      → validate_envelope parse_date (object fs) now ≡ valid
      → validate_envelope parse_date (object fs) later ≡ valid
  validate_envelope_timeless fs now later i e h =
      sym (
        ap (λ c. first_failure (header_checks parse_date fs ++ c ∷ []))
          (same (find_action (lookup (codes "action") fs))))
      ∙ h
    where
      same :
          (a : Option Action)
          → check_fields parse_date a fs now ≡ check_fields parse_date a fs later
      same none = refl
      same (some action) =
          ap (λ w. first_failure (field_checks parse_date fs ++ w ∷ []))
            (rw (i, e) (check_window-none action now ∙ sym (check_window-none action later)))
