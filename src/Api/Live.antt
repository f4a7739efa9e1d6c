-- ===== src/Api/Live.antt =====
-- frontend/src/api.ts, lines 193 to 216: the messages of the live socket and the event buffers.
pub mod Buffer
use mirraura.Base.{ℕ, ◌-◌, Bool, true, false, List, [], ◌∷◌, ◌++◌, length, drop}
use mirraura.Types.{MirraEvent, Verdict}

pub data Source : Type 0 where
  sample monitor : Source

pub data LiveMessage : Type 0 where
  event : Source → MirraEvent → LiveMessage
  verdict : Source → Verdict → LiveMessage
  isolated : LiveMessage
  reconnected : LiveMessage

abbrev pub max_events : ℕ
max_events = 500

-- `[...events, e].slice(-n)`
unfoldable pub push_last {ℓ} : {A : Type ℓ} → ℕ → List A → A → List A
push_last n events e = let all = events ++ e ∷ [] in drop (length all - n) all

unfoldable pub apply_live_event : List MirraEvent → LiveMessage → List MirraEvent
unfolding push_last
apply_live_event events (event sample data') = push_last max_events events data'
apply_live_event events _ = events

unfoldable pub apply_monitor_event : List MirraEvent → LiveMessage → List MirraEvent
unfolding push_last
apply_monitor_event events (event monitor data') = push_last max_events events data'
apply_monitor_event events _ = events

unfoldable pub should_update_sample_verdict : LiveMessage → Bool
should_update_sample_verdict (verdict sample _) = true
should_update_sample_verdict _ = false
