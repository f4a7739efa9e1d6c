-- ===== src/App/Events.antt =====
-- What happens to the page of frontend/src/App.tsx outside the panels of its log zone, as one type.
use mirraura.Base.{ℕ, List, Option, none, some, get_elem?}
use mirraura.Types.{Verdict}
use mirraura.Api.Request.{Outcome}
use mirraura.Api.Endpoints.{Session, MonitorStatus}
use mirraura.Api.Live.{LiveMessage}
use mirraura.Api.Socket.{ConnectionState}
use mirraura.Tabs.{TabItem, Key, handle_key_down}
use mirraura.App.{
  App, UserState, unknown, signed_out, signed_in, me_answered, monitor_status_answered,
  handle_message, connection_changed, handle_upload, upload_started, handle_login, handle_logout,
  handle_session_expired, on_reconnected, change_tab, role_of, tabs,
}

-- A click on the tab at a position, or a key while it has the focus.
pub data TabEvent : Type 0 where
  clicks : ℕ → TabEvent
  presses : Key → ℕ → TabEvent

abbrev pub target : TabEvent → List TabItem → Option TabItem
target (clicks i) items = get_elem? items i
target (presses key i) items = handle_key_down key i items

abbrev pub change_to : Option TabItem → App → App
change_to none a = a
change_to (some item) a = change_tab item.id a

-- The tabs are there for a signed-in user.
abbrev pub tab_chosen : UserState → TabEvent → App → App
tab_chosen unknown e a = a
tab_chosen signed_out e a = a
tab_chosen (signed_in u) e a = change_to (target e (tabs (role_of u) a)) a

unfoldable pub choose_tab : TabEvent → App → App
choose_tab e a = tab_chosen a.user e a

-- What happens to the page outside the panels of the log zone; the panel of the users and the upload
-- reach it by `expires`, the banner by `reconnects`.
pub data PageEvent : Type 0 where
  knows : Outcome Session → PageEvent
  monitor_status : Outcome MonitorStatus → PageEvent
  hears : LiveMessage → PageEvent
  connection : ConnectionState → PageEvent
  upload_starts : PageEvent
  uploads : Verdict → PageEvent
  logs_in : Session → PageEvent
  logs_out : Outcome (Unit {0}) → PageEvent
  expires reconnects : PageEvent
  moves : TabEvent → PageEvent

unfoldable pub page_event : PageEvent → App → App
unfolding choose_tab
page_event (knows answer) a = me_answered answer a
page_event (monitor_status answer) a = monitor_status_answered answer a
page_event (hears m) a = handle_message m a
page_event (connection state) a = connection_changed state a
page_event upload_starts a = upload_started a
page_event (uploads v) a = handle_upload v a
page_event (logs_in u) a = handle_login u a
page_event (logs_out answer) a = handle_logout answer a
page_event expires a = handle_session_expired a
page_event reconnects a = on_reconnected a
page_event (moves e) a = choose_tab e a
