-- ===== src/Credit/Window.antt =====
-- The rolling sum of src/buyer/credit-watcher.ts (`spentInWindow`, `recordSpend`).
use j41_sovagent_sdk.Prelude.{ℕ, ◌+◌, ◌≤◌, ◌≡◌, refl, List, [], ◌∷◌, ◌++◌, arith, filter, map}
use j41_sovagent_sdk.Credit.{Spend, Transfer, recent, spent_in_window, record_spend}

pub spent_in_window-append :
    (t : ℕ) (xs ys : List Spend)
    → spent_in_window t (xs ++ ys) ≡ spent_in_window t xs + spent_in_window t ys
unfolding spent_in_window
spent_in_window-append t [] ys = omega arith
spent_in_window-append t (x ∷ xs) ys = omega (arith, spent_in_window-append t xs ys)

pub spent_in_window-nil : (t : ℕ) → spent_in_window t [] ≡ 0
unfolding spent_in_window
spent_in_window-nil t = refl

-- A spend leaves the window and does not come back.
pub spent_in_window_antitone :
    (t u : ℕ) (xs : List Spend) → t ≤ u → spent_in_window u xs ≤ spent_in_window t xs
unfolding spent_in_window
spent_in_window_antitone t u [] h = omega arith
spent_in_window_antitone t u (x ∷ xs) h = ground (arith, spent_in_window_antitone t u xs h)

-- What pruning drops is outside every later window.
pub spent_in_window-filter :
    (n t : ℕ) (xs : List Spend)
    → n ≤ t
    → spent_in_window t (filter (recent n) xs) ≡ spent_in_window t xs
unfolding spent_in_window
spent_in_window-filter n t [] h = refl
spent_in_window-filter n t (x ∷ xs) h = ground (arith, spent_in_window-filter n t xs h)

pub spent_in_window_single-le :
    (t n a : ℕ) → spent_in_window t (record { at = n; amount = a } ∷ []) ≤ a
unfolding spent_in_window
spent_in_window_single-le t n a = ground arith

pub spent_in_window_now : (n a : ℕ) → spent_in_window n (record { at = n; amount = a } ∷ []) ≡ a
unfolding spent_in_window
spent_in_window_now n a = ground arith

pub spent_in_window-record_spend :
    (t n a : ℕ) (xs : List Spend)
    → n ≤ t
    → spent_in_window t (record_spend a n xs)
      ≡ spent_in_window t xs + spent_in_window t (record { at = n; amount = a } ∷ [])
spent_in_window-record_spend t n a xs h = omega (
  arith,
  spent_in_window-append t (filter (recent n) xs) (record { at = n; amount = a } ∷ []),
  spent_in_window-filter n t xs h,
)

-- The confirmed payments as spends.
abbrev pub paid : List Transfer → List Spend
paid = map λ p. p.spend

paid-append : (xs ys : List Transfer) → paid (xs ++ ys) ≡ paid xs ++ paid ys
paid-append [] ys = refl
paid-append (x ∷ xs) ys = rw (paid-append xs ys)

pub spent_in_window-paid_snoc :
    (t : ℕ) (xs : List Transfer) (x : Transfer)
    → spent_in_window t (paid (xs ++ x ∷ []))
      ≡ spent_in_window t (paid xs) + spent_in_window t (x.spend ∷ [])
spent_in_window-paid_snoc t xs x =
    rw (paid-append xs (x ∷ [])) (spent_in_window-append t (paid xs) (x.spend ∷ []))
