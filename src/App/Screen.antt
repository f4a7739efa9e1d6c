-- ===== src/App/Screen.antt =====
-- What frontend/src/App.tsx renders, lines 101 to 225, from the state of the page, of its panels, and of
-- the components that keep a state of their own. What the browser formats is a record of parameters.
pub mod Selected
mod Tests
use mirraura.Base.{
  ℕ, Bool, true, false, List, [], ◌∷◌, map, filter, Text, text, Option, none, some, map_some,
  if◌then◌else◌,
}
use mirraura.Types.{Double, Role}
use mirraura.Api.Endpoints.{Session, HashEntry, ChainStatus}
use mirraura.AuditLog.{AuditRow}
use mirraura.AuditLog.Screen as LogScreen
use mirraura.Hashes
use mirraura.Corpus
use mirraura.Quarantine
use mirraura.Users
use mirraura.Users.{Users}
use mirraura.Login
use mirraura.Login.{LoginPage}
use mirraura.Theme
use mirraura.Theme.{Header, header_view}
use mirraura.Monitor
use mirraura.Monitor.{Banner}
use mirraura.Upload
use mirraura.Upload.{Upload}
use mirraura.Feed
use mirraura.Feed.{EventFeed, LocalTime, FeedView, feed_view}
use mirraura.VerdictPanel
use mirraura.Stats.{StatStrip}
use mirraura.Stats.Rows.{row_strip, row_overview}
use mirraura.Tabs.{TabButton, buttons, panel_shown}
use mirraura.App.{App, Page, nothing, sign_in, dashboard, page, tabs}
use mirraura.App.Together.{Whole}

pub record Formats : Type 0 where
  pub percent : Double → ℕ
  pub local_time : Text → Option LocalTime
  pub lower : Text → Text
  pub relative : Text → Text
  pub to_fixed_2 : Double → Text
  pub to_iso : ℕ → Text

-- The components beside the panels of the log zone.
pub record Components : Type 0 where
  pub login : LoginPage
  pub header : Header
  pub banner : Banner
  pub upload : Upload
  pub feed : EventFeed
  pub users : Users

-- `none` stands for a log that throws when it is rendered.
pub data PanelView : Type 0 where
  log_view : Option LogScreen.View → PanelView
  hashes_view : Hashes.View → PanelView
  corpus_view : Corpus.View → PanelView
  quarantine_view : Quarantine.View → PanelView
  users_view : Users.View → PanelView

pub record DashboardView : Type 0 where
  pub announcement : Text
  pub header : Theme.View
  pub error : Option Text
  -- The statistics and the overview, or else a skeleton.
  pub statistics : Option (StatStrip × List (Text × ℕ))
  pub banner : Option Monitor.View
  pub upload : Upload.View
  pub verdict : Option VerdictPanel.View
  pub feed : FeedView
  pub tab_buttons : List TabButton
  -- What is rendered under the tabs, with the id of each panel.
  pub panels : List (Text × PanelView)

pub data Screen : Type 0 where
  blank : Screen
  sign_in_page : (expired : Option Text) → Login.View → Screen
  dashboard_page : DashboardView → Screen

abbrev pub expired_text : Bool → Option Text
expired_text true = some (text "Your session expired. Please sign in again.")
expired_text false = none

-- `chainStatus?.intact ?? null`
abbrev pub intact_of : Option ChainStatus → Option Bool
intact_of status = map_some (λ (s : ChainStatus). s.intact) status

abbrev pub statistics_of :
    Option (List AuditRow)
    → Option (List HashEntry)
    → Option Bool
    → Option (StatStrip × List (Text × ℕ))
statistics_of (some rows) (some hashes) intact =
    some (row_strip rows hashes intact, row_overview rows)
statistics_of (some rows) none intact = none
statistics_of none hashes intact = none

module _ (f : Formats) where
  -- The five panels, of which those are rendered whose tab is active.
  unfoldable pub all_panels : Role → Whole → Components → List (Text × PanelView)
  all_panels role w c =
      (
        text "audit",
        log_view (LogScreen.view f.lower f.relative f.to_fixed_2 f.to_iso role w.log.log),
      )
      ∷ (text "hashes", hashes_view (Hashes.view role w.hashes.panel))
      ∷ (text "corpus", corpus_view (Corpus.view role w.corpus.panel))
      ∷ (text "quarantine", quarantine_view (Quarantine.view role w.quarantine.panel))
      ∷ (text "users", users_view (Users.view c.users))
      ∷ []

  unfoldable pub dashboard_view : Session → Role → Whole → Components → DashboardView
  unfolding all_panels panel_shown buttons tabs
  dashboard_view u role w c =
      let a = w.app in
      record {
        announcement = a.live_announcement;
        header = header_view u.username u.role a.conn_state a.isolated c.header;
        error = a.monitor_error;
        statistics = statistics_of a.verdicts a.hashes (intact_of a.chain_status);
        banner = Monitor.view a.isolated role c.banner;
        upload = Upload.view c.upload;
        verdict = VerdictPanel.view f.percent a.verdict;
        feed = feed_view f.local_time a.sample_events a.monitor_events c.feed;
        tab_buttons = buttons (tabs role a) a.bottom_tab;
        panels =
            filter (λ (p : Text × PanelView). panel_shown p.0 a.bottom_tab) (all_panels role w c);
      }

  abbrev pub rendered : Page → Whole → Components → Screen
  rendered nothing w c = blank
  rendered (sign_in expired) w c = sign_in_page (expired_text expired) (Login.view c.login)
  rendered (dashboard u role) w c = dashboard_page (dashboard_view u role w c)

  unfoldable pub screen : Whole → Components → Screen
  unfolding page dashboard_view
  screen w c = rendered (page w.app) w c
