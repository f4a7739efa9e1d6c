-- ===== src/App.antt =====
-- frontend/src/App.tsx: the state of the page, what the messages and answers do to it, and which
-- tabs and panels are there.
pub mod Messages
pub mod Panels
pub mod Connected
pub mod Dashboard
pub mod Events
pub mod LogMount
pub mod Together
pub mod Screen
pub mod Detonation
mod Tests
use mirraura.Base.{
  ℕ, suc, ltb, Bool, true, false, List, [], ◌∷◌, ◌++◌, Text, text, text_eq, filter, length, Option,
  none, some, map_some, if◌then◌else◌,
}
use mirraura.Types.{MirraEvent, Verdict, Role, admin, analyst}
use mirraura.Api.Request.{Outcome, fulfilled, rejected, message_or}
use mirraura.Api.Endpoints.{
  Session, HashEntry, CorpusEntry, QuarantineEntry, ChainStatus, MonitorStatus, is_pending,
}
use mirraura.Api.Live.{
  monitor, LiveMessage, event, verdict, isolated, reconnected, apply_live_event,
  apply_monitor_event, sample,
}
use mirraura.Api.Socket.{ConnectionState, connecting}
use mirraura.AuditLog.{AuditRow}
use mirraura.Presentation.{label_text}
use mirraura.Tabs.{TabItem, panel_shown}

-- `undefined` until the session is known, and `null` without one.
pub data UserState : Type 0 where
  unknown signed_out : UserState
  signed_in : Session → UserState

pub record App : Type 0 where
  pub user : UserState
  pub session_expired : Bool
  pub sample_events : List MirraEvent
  pub monitor_events : List MirraEvent
  pub verdict : Option Verdict
  pub refresh_key : ℕ
  pub isolated : Bool
  pub conn_state : ConnectionState
  pub monitor_error : Option Text
  pub bottom_tab : Text
  pub live_announcement : Text
  pub verdicts : Option (List AuditRow)
  pub hashes : Option (List HashEntry)
  pub quarantine : Option (List QuarantineEntry)
  pub corpus : Option (List CorpusEntry)
  pub chain_status : Option ChainStatus

abbrev pub start : App
start = record {
  user = unknown;
  session_expired = false;
  sample_events = [];
  monitor_events = [];
  verdict = none;
  refresh_key = 0;
  isolated = false;
  conn_state = connecting;
  monitor_error = none;
  bottom_tab = text "audit";
  live_announcement = [];
  verdicts = none;
  hashes = none;
  quarantine = none;
  corpus = none;
  chain_status = none;
}

unfoldable pub me_answered : Outcome Session → App → App
me_answered (fulfilled u) a = record a { user = signed_in u }
me_answered (rejected e) a = record a { user = signed_out }

unfoldable pub monitor_status_answered : Outcome MonitorStatus → App → App
monitor_status_answered (fulfilled s) a = record a { isolated = s.isolated; monitor_error = none }
monitor_status_answered (rejected e) a = record a {
  monitor_error = some (message_or (text "failed to load monitor status") e);
}

abbrev new_verdict : Verdict → Text
new_verdict v =
    text "New verdict: " ++ (label_text v.verdict ++ (text " for " ++ v.sample_filename))

-- What a message does beyond the buffers of events.
abbrev announce : LiveMessage → App → App
announce (event s e) a = a
announce (LiveMessage.verdict sample v) a = record a {
  verdict = some v;
  live_announcement = new_verdict v;
  refresh_key = suc a.refresh_key;
}
announce (LiveMessage.verdict monitor v) a = record a { refresh_key = suc a.refresh_key }
announce LiveMessage.isolated a = record a {
  isolated = true;
  live_announcement = text "Monitored endpoint isolated after a compromised verdict.";
}
announce reconnected a = record a {
  isolated = false;
  live_announcement = text "Monitored endpoint reconnected.";
}

unfoldable pub handle_message : LiveMessage → App → App
unfolding apply_live_event apply_monitor_event
handle_message m a = announce m (record a {
  sample_events = apply_live_event a.sample_events m;
  monitor_events = apply_monitor_event a.monitor_events m;
})

unfoldable pub handle_upload : Verdict → App → App
handle_upload v a = record a { verdict = some v; refresh_key = suc a.refresh_key }

unfoldable pub upload_started : App → App
upload_started a = record a { sample_events = [] }

-- Whatever the answer of the server is.
unfoldable pub handle_logout : Outcome (Unit {0}) → App → App
handle_logout answer a = record a { user = signed_out }

unfoldable pub handle_session_expired : App → App
handle_session_expired a = record a { session_expired = true; user = signed_out }

unfoldable pub handle_login : Session → App → App
handle_login u a = record a { session_expired = false; user = signed_in u }

unfoldable pub on_decision : App → App
on_decision a = record a { refresh_key = suc a.refresh_key }

unfoldable pub on_reconnected : App → App
on_reconnected a = record a { isolated = false }

unfoldable pub change_tab : Text → App → App
change_tab id a = record a { bottom_tab = id }

unfoldable pub role_of : Session → Role
role_of u = if text_eq u.role (text "admin") then admin else analyst

abbrev pub count_of {ℓ} : {A : Type ℓ} → Option (List A) → ℕ
count_of none = 0
count_of (some xs) = length xs

unfoldable pub pending_count : App → ℕ
pending_count a = count_of (map_some (filter (λ (h : HashEntry). is_pending h.status)) a.hashes)

abbrev badge_of : ℕ → Option ℕ
badge_of n = if ltb 0 n then some n else none

abbrev users_tab : Role → List TabItem
users_tab admin = record { id = text "users"; label = text "Users"; badge = none } ∷ []
users_tab analyst = []

unfoldable pub tabs : Role → App → List TabItem
unfolding pending_count
tabs role a =
    record { id = text "audit"; label = text "Audit log"; badge = none }
    ∷ record {
      id = text "hashes";
      label = text "Hash approvals";
      badge = badge_of (pending_count a);
    }
    ∷ record { id = text "corpus"; label = text "Corpus"; badge = badge_of (count_of a.corpus) }
    ∷ record {
      id = text "quarantine";
      label = text "Quarantine";
      badge = badge_of (count_of a.quarantine);
    }
    ∷ users_tab role

abbrev pub panel_ids : List Text
panel_ids = text "audit" ∷ text "hashes" ∷ text "corpus" ∷ text "quarantine" ∷ text "users" ∷ []

-- The panels that are rendered under the tabs.
unfoldable pub panels : App → List Text
unfolding panel_shown
panels a = filter (λ id. panel_shown id a.bottom_tab) panel_ids

pub data Page : Type 0 where
  nothing : Page
  sign_in : (expired : Bool) → Page
  dashboard : Session → Role → Page

unfoldable pub page : App → Page
unfolding role_of
page a = elim a.user [
  | unknown ↦ nothing
  | signed_out ↦ sign_in a.session_expired
  | signed_in u ↦ dashboard u (role_of u)
]

-- `setConnState`, and the setters that the panels call with what they have fetched.
unfoldable pub connection_changed : ConnectionState → App → App
connection_changed state a = record a { conn_state = state }

unfoldable pub verdicts_changed : List AuditRow → App → App
verdicts_changed rows a = record a { verdicts = some rows }

unfoldable pub chain_status_changed : Option ChainStatus → App → App
chain_status_changed status a = record a { chain_status = status }

unfoldable pub hashes_changed : List HashEntry → App → App
hashes_changed entries a = record a { hashes = some entries }

unfoldable pub corpus_changed : List CorpusEntry → App → App
corpus_changed entries a = record a { corpus = some entries }

unfoldable pub quarantine_changed : List QuarantineEntry → App → App
quarantine_changed entries a = record a { quarantine = some entries }
