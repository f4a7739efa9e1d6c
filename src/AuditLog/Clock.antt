-- ===== src/AuditLog/Clock.antt =====
-- frontend/src/components/AuditLogTable.tsx, lines 48 to 71: the time of a row relative to now.
-- Reading a date and the formatter of the browser are parameters.
use mirraura.Base.{
  ℕ, ◌+◌, ◌-◌, ◌*◌, ◌/◌, ◌≤◌, Bool, true, false, Text, Option, none, some, leb, if◌then◌else◌,
  arith, ◌<◌, ◌≡◌, ◌≢◌, refl,
}

pub data TimeUnit : Type 0 where
  year month day hour minute second : TimeUnit

-- `RELATIVE_UNITS`, in seconds.
abbrev pub seconds_in : TimeUnit → ℕ
seconds_in year = 31536000
seconds_in month = 2592000
seconds_in day = 86400
seconds_in hour = 3600
seconds_in minute = 60
seconds_in second = 1

-- The time of a row less the time now, in milliseconds: whether it is ahead, and how far.
pub record Span : Type 0 where
  pub ahead : Bool
  pub ms : ℕ

-- The first unit that fits, and seconds if none does.
unfoldable pub unit_of : ℕ → TimeUnit
unit_of ms =
    if leb (31536000 * 1000) ms
    then year
    else if leb (2592000 * 1000) ms
    then month
    else if leb (86400 * 1000) ms
    then day
    else if leb (3600 * 1000) ms
    then hour
    else if leb (60 * 1000) ms
    then minute
    else second

-- `Math.round` of a quotient rounds a half up, which is towards now for a time in the past.
unfoldable pub rounded : Bool → ℕ → ℕ → ℕ
rounded true ms n = (2 * ms + n) / (2 * n)
rounded false ms n = (2 * ms + n - 1) / (2 * n)

unfoldable pub relative_time : (Text → Option Span) → (Bool → ℕ → TimeUnit → Text) → Text → Text
unfolding unit_of rounded
relative_time since_now format iso = elim (since_now iso) [
  | none ↦ iso
  | some d ↦ format d.ahead (rounded d.ahead d.ms (seconds_in (unit_of d.ms) * 1000)) (unit_of d.ms)
]

-- The unit fits into the time, as the longest that does; seconds fit always.
abbrev pub IsUnitOf : ℕ → TimeUnit → Type 0
IsUnitOf ms year = 31536000 * 1000 ≤ ms
IsUnitOf ms month = (2592000 * 1000 ≤ ms) × (ms < 31536000 * 1000)
IsUnitOf ms day = (86400 * 1000 ≤ ms) × (ms < 2592000 * 1000)
IsUnitOf ms hour = (3600 * 1000 ≤ ms) × (ms < 86400 * 1000)
IsUnitOf ms minute = (60 * 1000 ≤ ms) × (ms < 3600 * 1000)
IsUnitOf ms second = ms < 60 * 1000

unit_of_lem : (ms : ℕ) → IsUnitOf ms (unit_of ms)
unfolding unit_of
unit_of_lem ms = ground arith

-- The number is the nearest one: it is off by at most half a unit.
abbrev pub IsClose : ℕ → ℕ → ℕ → Type 0
IsClose ms n k = (2 * ms ≤ 2 * (k * n) + n) × (2 * (k * n) ≤ 2 * ms + n)

rounded-IsClose :
    (ahead : Bool) (ms : ℕ) (u : TimeUnit)
    → IsClose ms (seconds_in u * 1000) (rounded ahead ms (seconds_in u * 1000))
unfolding rounded
rounded-IsClose true ms year = (omega arith, omega arith)
rounded-IsClose true ms month = (omega arith, omega arith)
rounded-IsClose true ms day = (omega arith, omega arith)
rounded-IsClose true ms hour = (omega arith, omega arith)
rounded-IsClose true ms minute = (omega arith, omega arith)
rounded-IsClose true ms second = (omega arith, omega arith)
rounded-IsClose false ms year = (omega arith, omega arith)
rounded-IsClose false ms month = (omega arith, omega arith)
rounded-IsClose false ms day = (omega arith, omega arith)
rounded-IsClose false ms hour = (omega arith, omega arith)
rounded-IsClose false ms minute = (omega arith, omega arith)
rounded-IsClose false ms second = (omega arith, omega arith)

at_least_one :
    (ahead : Bool) (ms : ℕ) (u : TimeUnit)
    → IsUnitOf ms u
    → u ≢ second
    → 1 ≤ rounded ahead ms (seconds_in u * 1000)
at_least_one ahead ms year h n = omega (arith, (rounded-IsClose ahead ms year).0, h)
at_least_one ahead ms month h n = omega (arith, (rounded-IsClose ahead ms month).0, h.0)
at_least_one ahead ms day h n = omega (arith, (rounded-IsClose ahead ms day).0, h.0)
at_least_one ahead ms hour h n = omega (arith, (rounded-IsClose ahead ms hour).0, h.0)
at_least_one ahead ms minute h n = omega (arith, (rounded-IsClose ahead ms minute).0, h.0)
at_least_one ahead ms second h n = absurd (n refl)

-- A time that cannot be read is shown as it is. Any other is given to the formatter in the longest
-- unit that fits into it (seconds below a minute), with its direction and a number of units that is
-- off by at most half a unit, and that is at least 1 unless the unit is a second.
pub relative_time_lem :
    (since_now : Text → Option Span) (format : Bool → ℕ → TimeUnit → Text) (iso : Text)
    → (since_now iso ≡ none → relative_time since_now format iso ≡ iso)
      × ((d : Span)
          → since_now iso ≡ some d
          → (u : TimeUnit) × (k : ℕ) × (relative_time since_now format iso ≡ format d.ahead k u)
            × IsUnitOf d.ms u
            × IsClose d.ms (seconds_in u * 1000) k
            × (u ≢ second → 1 ≤ k))
unfolding relative_time
relative_time_lem since_now format iso = (
  (λ h. rw (h, relative_time) refl),
  (λ d h. (
    unit_of d.ms,
    rounded d.ahead d.ms (seconds_in (unit_of d.ms) * 1000),
    rw (h, relative_time) refl,
    unit_of_lem d.ms,
    rounded-IsClose d.ahead d.ms (unit_of d.ms),
    at_least_one d.ahead d.ms (unit_of d.ms) (unit_of_lem d.ms),
  )),
)
