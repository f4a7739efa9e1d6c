-- ===== src/Feed/Time.antt =====
-- `formatTime` of frontend/src/components/EventFeed.tsx: the text of a time, and a reader of it.
use mirraura.Base.{
  ℕ, ◌+◌, ◌-◌, ◌*◌, ◌/◌, ◌%◌, ◌<◌, ◌≡◌, refl, [], ◌∷◌, Text, decimal, Option, none, some, length,
  arith, ltb, Bool-cases, inl, inr, decimal_one, decimal_two, decimal_three, ap, ◌∙◌,
}
use mirraura.Api.Hex.{pad_start}
use mirraura.Feed.{LocalTime, clock_text, format_time, time_text}

abbrev pub IsTime : LocalTime → Type 0
IsTime t = t.hours < 24 × t.minutes < 60 × t.seconds < 60 × t.milliseconds < 1000

two_digits : (n : ℕ) → n < 100 → pad_start 2 b'0' (decimal n) ≡ (48 + n / 10) ∷ (48 + n % 10) ∷ []
unfolding pad_start
two_digits n h = elim (Bool-cases (ltb n 10)) [
  | inl t ↦ rw (decimal_one n (ground arith)) (ground arith)
  | inr f ↦ rw (decimal_two n (ground arith) h) refl
]

three_digits :
    (n : ℕ)
    → n < 1000
    → pad_start 3 b'0' (decimal n) ≡ (48 + n / 10 / 10) ∷ (48 + n / 10 % 10) ∷ (48 + n % 10) ∷ []
unfolding pad_start
three_digits n h = elim (Bool-cases (ltb n 100)) [
  | inl t ↦ elim (Bool-cases (ltb n 10)) [
    | inl s ↦ rw (decimal_one n (ground arith)) (ground arith)
    | inr b ↦ rw (decimal_two n (ground arith) (ground arith)) (ground arith)
  ]
  | inr f ↦ rw (decimal_three n (ground arith) h) refl
]

abbrev value_2 : ℕ → ℕ → ℕ
value_2 a b = (a - 48) * 10 + (b - 48)

pub read_clock : Text → Option LocalTime
read_clock (a ∷ b ∷ _ ∷ c ∷ d ∷ _ ∷ e ∷ f ∷ _ ∷ g ∷ h ∷ i ∷ []) = some (record {
  hours = value_2 a b;
  minutes = value_2 c d;
  seconds = value_2 e f;
  milliseconds = value_2 g h * 10 + (i - 48);
})
read_clock _ = none

clock_text_lem :
    (t : LocalTime) → IsTime t → (length (clock_text t) ≡ 12) × (read_clock (clock_text t) ≡ some t)
unfolding clock_text read_clock
clock_text_lem t (h, m, s, k) =
    rw
      (
        two_digits t.hours (omega arith),
        two_digits t.minutes (omega arith),
        two_digits t.seconds (omega arith),
        three_digits t.milliseconds k,
      )
      (ground arith)

shown_text :
    (local : Text → Option LocalTime) (iso : Text) (o : Option LocalTime)
    → local iso ≡ o
    → format_time local iso ≡ time_text o iso
unfolding format_time
shown_text local iso o e = ap (λ x. time_text x iso) e

-- A date that is read as a time of the day is shown as a text of twelve characters from which the
-- hours, minutes, seconds and milliseconds can be read again, so that two events have the same text
-- only if they have the same time of the day.
pub format_time-round_trip :
    (local : Text → Option LocalTime) (iso : Text) (t : LocalTime)
    → local iso ≡ some t
    → IsTime t
    → (length (format_time local iso) ≡ 12) × (read_clock (format_time local iso) ≡ some t)
format_time-round_trip local iso t e h =
    let (l, r) = clock_text_lem t h in
    let same = shown_text local iso (some t) e in (ap length same ∙ l, ap read_clock same ∙ r)
