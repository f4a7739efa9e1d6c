-- ===== src/App/Screen/Tests.antt =====
-- What frontend/src/App.tsx renders at concrete inputs.
use mirraura.Base.{elem, text_eq, List, [], ◌∷◌, text, none, some, true, ◌≡◌, refl, ◌⊎◌}
use mirraura.Types.{analyst}
use mirraura.Api.Request.{fulfilled}
use mirraura.Api.Endpoints.{Session}
use mirraura.Users
use mirraura.Login
use mirraura.Theme
use mirraura.Monitor
use mirraura.Upload
use mirraura.Feed
use mirraura.App.{
  signed_in, role_of, handle_login, handle_session_expired, verdicts_changed, tabs, change_tab,
}
use mirraura.AuditLog.{verdicts_answered}
use mirraura.App.Events.{logs_in, expires, moves, clicks}
use mirraura.App.Together.{Whole, Event, page, log_verdicts, run, begin, handle}
use mirraura.App.Screen.{
  Formats, Components, blank, sign_in_page, dashboard_page, screen, dashboard_view, statistics_of,
  intact_of,
}
use mirraura.App.Screen.Selected.{selected, ids, screen_lem}

abbrev plain_formats : Formats
plain_formats = record {
  percent = λ d. 0;
  local_time = λ s. none;
  lower = λ s. s;
  relative = λ s. s;
  to_fixed_2 = λ d. [];
  to_iso = λ n. [];
}

abbrev idle_components : Components
idle_components = record {
  login = Login.start;
  header = Theme.mount none (record { available = true; item = none });
  banner = Monitor.start;
  upload = Upload.start;
  feed = Feed.start_feed [];
  users = Users.start;
}

abbrev ada : Session
ada = record { username = text "ada"; role = text "admin" }

-- An admin reads the audit log and opens the tab of the users.
abbrev opens : List Event
opens = page (logs_in ada) ∷ log_verdicts 1 (fulfilled []) ∷ page (moves (clicks 4)) ∷ []

abbrev opened : Whole
opened = run (λ s. s) opens begin

at_first : screen plain_formats begin idle_components ≡ blank
unfolding screen
at_first = refl

after_expiry :
    screen plain_formats (run (λ s. s) (page expires ∷ []) begin) idle_components
    ≡ sign_in_page
        (some (text "Your session expired. Please sign in again."))
        (Login.view Login.start)
unfolding screen handle handle_session_expired
after_expiry = refl

opened-signed_in : opened.app.user ≡ signed_in ada
unfolding handle handle_login elem text_eq verdicts_answered verdicts_changed tabs role_of
    change_tab
opened-signed_in = refl

screen_lem_example :
    let d = dashboard_view plain_formats ada (role_of ada) opened idle_components in
    (screen plain_formats opened idle_components ≡ dashboard_page d)
    × (ids d.panels ≡ opened.app.bottom_tab ∷ [])
    × ((selected d.tab_buttons ≡ opened.app.bottom_tab ∷ [])
        ⊎ ((role_of ada ≡ analyst)
            × (opened.app.bottom_tab ≡ text "users")
            × (selected d.tab_buttons ≡ [])))
    × ((opened.log.log.rows ≡ [])
        ⊎ (d.statistics
            ≡ statistics_of
                (some opened.log.log.rows)
                opened.app.hashes
                (intact_of opened.app.chain_status)))
screen_lem_example = screen_lem plain_formats opens idle_components ada opened-signed_in
