-- ===== src/Api/Socket/Backoff.antt =====
-- The delays between the attempts of frontend/src/api.ts to connect.
use native.Mathlib.Nat.{pow-suc}
use mirraura.Base.{ℕ, suc, zero, ◌*◌, ◌^◌, ◌≤◌, ◌≡◌, min, arith}
use mirraura.Api.Socket.{next_backoff_ms, initial_backoff_ms, max_backoff_ms}

-- The delay after `n` closes in a row.
abbrev pub delay_after : ℕ → ℕ
delay_after zero = initial_backoff_ms
delay_after (suc n) = next_backoff_ms (delay_after n)

-- After `n` closes in a row with no connection between them the delay is the first one doubled `n`
-- times, and at most 30 seconds; it never falls.
pub delay_after_lem :
    (n : ℕ)
    → (delay_after n ≡ min (initial_backoff_ms * 2 ^ n) max_backoff_ms)
      × (delay_after n ≤ delay_after (suc n))
      × (initial_backoff_ms ≤ delay_after n)
unfolding next_backoff_ms
delay_after_lem zero = omega arith
delay_after_lem (suc n) = omega (arith, delay_after_lem n, pow-suc 2 n)
