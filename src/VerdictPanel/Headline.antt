-- ===== src/VerdictPanel/Headline.antt =====
-- The verdict that frontend/src/App.tsx shows by frontend/src/components/VerdictPanel.tsx.
use mirraura.Base.{ℕ, ◌≡◌, refl, List, Option, none, some, map_some}
use mirraura.Types.{Double, Verdict}
use mirraura.Api.Live.{LiveMessage}
use mirraura.App.{App}
use mirraura.App.Messages.{handle_messages, last_verdict, messages_lem}
use mirraura.Presentation.{verdict_tone, verdict_badge}
use mirraura.VerdictPanel.{View, view}

-- The panel shows the badge, the hash and the tone of a verdict, or nothing without one.
abbrev pub Shows : Option View → Option Verdict → Type 0
Shows q o =
    (map_some (λ (x : View). x.badge) q ≡ map_some (λ (v : Verdict). verdict_badge v.verdict) o)
    × (map_some (λ (x : View). x.sample_hash) q ≡ map_some (λ (v : Verdict). v.sample_hash) o)
    × (map_some (λ (x : View). x.tone) q ≡ map_some (λ (v : Verdict). verdict_tone v.verdict) o)

view-Shows : (percent : Double → ℕ) (o : Option Verdict) → Shows (view percent o) o
unfolding view
view-Shows percent none = (refl, refl, refl)
view-Shows percent (some v) = (refl, refl, refl)

-- After any messages the panel shows the last verdict of a sample, or the one that it showed before.
pub handle_messages-Shows :
    (percent : Double → ℕ) (ms : List LiveMessage) (a : App)
    → Shows (view percent (handle_messages ms a).verdict) (last_verdict a.verdict ms)
handle_messages-Shows percent ms a =
    rw (messages_lem ms a).latest (view-Shows percent (last_verdict a.verdict ms))
