-- ===== src/App/Together/Told.antt =====
-- What the messages, the uploads and the answers about the monitor tell the page of frontend/src/App.tsx: a
-- description of its live state without the page.
use mirraura.Base.{Bool, true, false, List, [], ◌∷◌, ◌++◌, Option, none, some, ◌≡◌}
use mirraura.Types.{MirraEvent, Verdict}
use mirraura.Api.Request.{fulfilled}
use mirraura.Api.Live.{LiveMessage, event, reconnected, sample, monitor, max_events}
use mirraura.Api.Live.Buffer.{last}
use mirraura.Api.Socket.{ConnectionState, connecting}
use mirraura.App.{App}
use mirraura.App.Events.{
  PageEvent, monitor_status, hears, connection, upload_starts, uploads, reconnects,
}
use mirraura.App.Together.{Event, page}

-- All events of the sandbox since the last upload began, all events of the monitor, the last verdict on
-- a sample, the last word on the isolation, and the last state of the connection.
pub record Seen : Type 0 where
  pub sandbox : List MirraEvent
  pub monitored : List MirraEvent
  pub latest : Option Verdict
  pub is_isolated : Bool
  pub conn : ConnectionState

abbrev pub unseen : Seen
unseen = record {
  sandbox = [];
  monitored = [];
  latest = none;
  is_isolated = false;
  conn = connecting;
}

abbrev pub see_message : LiveMessage → Seen → Seen
see_message (event sample e) s = record s { sandbox = s.sandbox ++ e ∷ [] }
see_message (event monitor e) s = record s { monitored = s.monitored ++ e ∷ [] }
see_message (LiveMessage.verdict sample v) s = record s { latest = some v }
see_message (LiveMessage.verdict monitor v) s = s
see_message LiveMessage.isolated s = record s { is_isolated = true }
see_message reconnected s = record s { is_isolated = false }

abbrev pub see_page : PageEvent → Seen → Seen
see_page (hears m) s = see_message m s
see_page upload_starts s = record s { sandbox = [] }
see_page (uploads v) s = record s { latest = some v }
see_page (monitor_status (fulfilled status)) s = record s { is_isolated = status.isolated }
see_page reconnects s = record s { is_isolated = false }
see_page (connection state) s = record s { conn = state }
see_page _ s = s

abbrev pub see : Event → Seen → Seen
see (page e) s = see_page e s
see _ s = s

abbrev pub see_all : List Event → Seen → Seen
see_all [] s = s
see_all (e ∷ es) s = see_all es (see e s)

-- The buffers are the last 500 events of what has been seen; all else is as it has been seen.
pub record Shows (s : Seen) (a : App) : Type 0 where
  pub samples : a.sample_events ≡ last max_events s.sandbox
  pub monitors : a.monitor_events ≡ last max_events s.monitored
  pub shown : a.verdict ≡ s.latest
  pub isolation : a.isolated ≡ s.is_isolated
  pub state : a.conn_state ≡ s.conn
