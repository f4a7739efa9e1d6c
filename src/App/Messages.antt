-- ===== src/App/Messages.antt =====
-- What the live messages make of the state of frontend/src/App.tsx.
use mirraura.Base.{ℕ, suc, ◌+◌, ◌≡◌, Bool, true, false, List, [], ◌∷◌, Option, some, arith, refl}
use mirraura.Types.{Verdict}
use mirraura.Api.Live.{
  LiveMessage, event, reconnected, sample, monitor, apply_live_event, apply_monitor_event,
}
use mirraura.Api.Live.Buffer.{fold_messages}
use mirraura.App.{App, handle_message}

abbrev pub handle_messages : List LiveMessage → App → App
handle_messages [] a = a
handle_messages (m ∷ ms) a = handle_messages ms (handle_message m a)

-- The number of verdicts, the last verdict of a sample, and the last word on the isolation.
abbrev pub verdict_count : List LiveMessage → ℕ
verdict_count [] = 0
verdict_count (LiveMessage.verdict s v ∷ ms) = suc (verdict_count ms)
verdict_count (_ ∷ ms) = verdict_count ms

abbrev pub last_verdict : Option Verdict → List LiveMessage → Option Verdict
last_verdict o [] = o
last_verdict o (LiveMessage.verdict sample v ∷ ms) = last_verdict (some v) ms
last_verdict o (_ ∷ ms) = last_verdict o ms

abbrev pub last_isolation : Bool → List LiveMessage → Bool
last_isolation b [] = b
last_isolation b (LiveMessage.isolated ∷ ms) = last_isolation true ms
last_isolation b (reconnected ∷ ms) = last_isolation false ms
last_isolation b (_ ∷ ms) = last_isolation b ms

pub record IsTold (a : App) (ms : List LiveMessage) (b : App) : Type 0 where
  pub samples : b.sample_events ≡ fold_messages apply_live_event a.sample_events ms
  pub monitors : b.monitor_events ≡ fold_messages apply_monitor_event a.monitor_events ms
  pub refreshes : b.refresh_key ≡ a.refresh_key + verdict_count ms
  pub latest : b.verdict ≡ last_verdict a.verdict ms
  pub isolation : b.isolated ≡ last_isolation a.isolated ms
  pub same_user : b.user ≡ a.user
  pub same_tab : b.bottom_tab ≡ a.bottom_tab

message_tells :
    (m : LiveMessage) (ms : List LiveMessage) (a b : App)
    → IsTold (handle_message m a) ms b
    → IsTold a (m ∷ ms) b
unfolding handle_message
message_tells (event s e) ms a b r = record {
  samples = r.samples;
  monitors = r.monitors;
  refreshes = omega (arith, r.refreshes);
  latest = r.latest;
  isolation = r.isolation;
  same_user = r.same_user;
  same_tab = r.same_tab;
}
message_tells (LiveMessage.verdict sample v) ms a b r = record {
  samples = r.samples;
  monitors = r.monitors;
  refreshes = omega (arith, r.refreshes);
  latest = r.latest;
  isolation = r.isolation;
  same_user = r.same_user;
  same_tab = r.same_tab;
}
message_tells (LiveMessage.verdict monitor v) ms a b r = record {
  samples = r.samples;
  monitors = r.monitors;
  refreshes = omega (arith, r.refreshes);
  latest = r.latest;
  isolation = r.isolation;
  same_user = r.same_user;
  same_tab = r.same_tab;
}
message_tells LiveMessage.isolated ms a b r = record {
  samples = r.samples;
  monitors = r.monitors;
  refreshes = omega (arith, r.refreshes);
  latest = r.latest;
  isolation = r.isolation;
  same_user = r.same_user;
  same_tab = r.same_tab;
}
message_tells reconnected ms a b r = record {
  samples = r.samples;
  monitors = r.monitors;
  refreshes = omega (arith, r.refreshes);
  latest = r.latest;
  isolation = r.isolation;
  same_user = r.same_user;
  same_tab = r.same_tab;
}

-- After any messages: each buffer of events is what its own function makes of them, the refresh key
-- has grown by the number of verdicts, the verdict that is shown is the last one of a sample (or the
-- one before), the endpoint counts as isolated as the last message about it says (or as before), and
-- the user and the tab are the same.
pub messages_lem : (ms : List LiveMessage) (a : App) → IsTold a ms (handle_messages ms a)
messages_lem [] a = record {
  samples = refl;
  monitors = refl;
  refreshes = omega arith;
  latest = refl;
  isolation = refl;
  same_user = refl;
  same_tab = refl;
}
messages_lem (m ∷ ms) a =
    message_tells m ms a (handle_messages ms (handle_message m a))
      (messages_lem ms (handle_message m a))
