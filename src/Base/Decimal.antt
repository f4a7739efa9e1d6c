-- ===== src/Base/Decimal.antt =====
-- `String(n)` of a natural number, read back.
use Prim.Native.Nat.{ℕ, zero, suc, ◌+◌, ◌*◌, ◌/◌, ◌%◌, ◌<◌, ◌≤◌, ◌-◌}
use mathlib.Core.Path.{◌≡◌, refl}
use mathlib.Core.List.{[], ◌∷◌, ◌++◌}
use mathlib.Core.Logic.{inl, inr}
use native.Mathlib.Omega.{arith}
use mirraura.Base.Tests.{ltb, if◌then◌else◌, Bool-cases}
use mirraura.Base.Texts.{Text}
use mirraura.Base.Predicates.{All, All-append}

-- The digits, the last one last; the fuel `n + 1` is more than the number of digits.
decimal_from : ℕ → ℕ → Text
decimal_from zero n = []
decimal_from (suc fuel) n =
    let rest = decimal_from fuel (n / 10) ++ (48 + n % 10) ∷ [] in
    if ltb n 10 then (48 + n) ∷ [] else rest

unfoldable pub decimal : ℕ → Text
unfolding decimal_from
decimal n = decimal_from (suc n) n

-- The number that digits spell, from the value of those before.
abbrev pub read_decimal : ℕ → Text → ℕ
read_decimal v [] = v
read_decimal v (c ∷ s) = read_decimal (v * 10 + (c - 48)) s

abbrev pub IsDigit : ℕ → Type 0
IsDigit c = (48 ≤ c) × (c ≤ 57)

read_decimal-append :
    (v : ℕ) (s : Text) (c : ℕ) → read_decimal v (s ++ c ∷ []) ≡ read_decimal v s * 10 + (c - 48)
read_decimal-append v [] c = refl
read_decimal-append v (d ∷ s) c = read_decimal-append (v * 10 + (d - 48)) s c

decimal_from_lem :
    (fuel n : ℕ)
    → n < fuel
    → (read_decimal 0 (decimal_from fuel n) ≡ n) × All IsDigit (decimal_from fuel n)
unfolding decimal_from
decimal_from_lem zero n h = elim h [ ]
decimal_from_lem (suc fuel) n h = elim (Bool-cases (ltb n 10)) [
  | inl small ↦ ground arith
  | inr big ↦
      let (value, digits) = decimal_from_lem fuel (n / 10) (ground arith) in
      ground (
        arith,
        read_decimal-append 0 (decimal_from fuel (n / 10)) (48 + n % 10),
        value,
        All-append IsDigit (decimal_from fuel (n / 10)) ((48 + n % 10) ∷ []) digits,
      )
]

pub decimal_lem : (n : ℕ) → (read_decimal 0 (decimal n) ≡ n) × All IsDigit (decimal n)
unfolding decimal
decimal_lem n = decimal_from_lem (suc n) n (omega arith)

-- Numbers of one, two and three digits.
decimal_from_one : (fuel n : ℕ) → n < 10 → 0 < fuel → decimal_from fuel n ≡ (48 + n) ∷ []
unfolding decimal_from
decimal_from_one zero n h f = absurd (omega arith)
decimal_from_one (suc fuel) n h f = ground arith

decimal_from_more :
    (fuel n : ℕ)
    → 10 ≤ n
    → decimal_from (suc fuel) n ≡ decimal_from fuel (n / 10) ++ (48 + n % 10) ∷ []
unfolding decimal_from
decimal_from_more fuel n h = ground arith

pub decimal_one : (n : ℕ) → n < 10 → decimal n ≡ (48 + n) ∷ []
unfolding decimal
decimal_one n h = decimal_from_one (suc n) n h (omega arith)

decimal_from_two :
    (fuel n : ℕ)
    → 10 ≤ n
    → n < 100
    → 1 < fuel
    → decimal_from fuel n ≡ (48 + n / 10) ∷ (48 + n % 10) ∷ []
decimal_from_two zero n h l f = absurd (omega arith)
decimal_from_two (suc fuel) n h l f =
    rw (decimal_from_more fuel n h, decimal_from_one fuel (n / 10) (omega arith) (omega arith)) refl

pub decimal_two : (n : ℕ) → 10 ≤ n → n < 100 → decimal n ≡ (48 + n / 10) ∷ (48 + n % 10) ∷ []
unfolding decimal
decimal_two n h l = decimal_from_two (suc n) n h l (omega arith)

pub decimal_three :
    (n : ℕ)
    → 100 ≤ n
    → n < 1000
    → decimal n ≡ (48 + n / 10 / 10) ∷ (48 + n / 10 % 10) ∷ (48 + n % 10) ∷ []
unfolding decimal
decimal_three n h l =
    rw
      (
        decimal_from_more n n (omega arith),
        decimal_from_two n (n / 10) (omega arith) (omega arith) (omega arith),
      )
      refl
