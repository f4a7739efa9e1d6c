-- ===== src/Toast/Quiet.antt =====
-- The toasts of frontend/src/components/Toast.tsx come to an end.
use mirraura.Base.{ℕ, ◌≤◌, ◌≡◌, refl, List, [], ◌∷◌, ◌++◌, All}
use mirraura.Toast.Shown.{Event, Entry, Clock, run, run_event}

run-append : (es fs : List Event) (c : Clock) → run (es ++ fs) c ≡ run fs (run es c)
run-append [] fs c = refl
run-append (e ∷ es) fs c = run-append es fs (run_event e c)

-- The toasts were pushed in the past.
abbrev ArePast : ℕ → List Entry → Type 0
ArePast now = All (λ (e : Entry). e.pushed_at ≤ now)
