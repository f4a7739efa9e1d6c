-- ===== src/App/Together/Leftover.antt =====
-- What the tab of frontend/src/App.tsx that one session leaves does to the next: `bottomTab` is set by the
-- tabs alone.
use mirraura.Base.{false, List, [], ◌∷◌, All, Text, text, text_eq, ◌≡◌, refl, ap}
use mirraura.Types.{analyst}
use mirraura.Api.Request.{fulfilled, rejected}
use mirraura.Api.Endpoints.{Session}
use mirraura.Api.Live
use mirraura.Api.Live.{LiveMessage}
use mirraura.Tabs.{TabButton, buttons, panel_shown}
use mirraura.App.{
  App, me_answered, monitor_status_answered, handle_message, connection_changed, handle_upload,
  upload_started, handle_login, handle_logout, handle_session_expired, on_reconnected, on_decision,
  verdicts_changed, chain_status_changed, hashes_changed, corpus_changed, quarantine_changed,
  role_of, tabs, panels, dashboard,
}
use mirraura.App as Root
use mirraura.App.Events.{
  PageEvent, knows, monitor_status, hears, connection, upload_starts, uploads, logs_in, logs_out,
  expires, reconnects, moves, page_event,
}
use mirraura.App.Together.{Whole, Event, page, handle, run, settle_all}
use mirraura.App.Together.Callbacks.{Survives, AfterPage, handle_survives}

-- No tab is chosen.
abbrev pub Stays : Event → Type 0
Stays (page (moves e)) = ⊥
Stays _ = Unit

module _ (tab : Text) where
  HasTab : App → Type 0
  HasTab a = a.bottom_tab ≡ tab

  tab-survives : Survives HasTab
  unfolding HasTab handle_session_expired on_decision hashes_changed corpus_changed
      quarantine_changed verdicts_changed chain_status_changed
  tab-survives = record {
    expires = λ a h. h;
    decides = λ a h. h;
    hashes = λ es a h. h;
    corpus = λ es a h. h;
    quarantine = λ es a h. h;
    verdicts = λ rows a h. h;
    chain = λ status a h. h;
  }

  message-HasTab : (m : LiveMessage) (a : App) → HasTab a → HasTab (handle_message m a)
  unfolding HasTab handle_message
  message-HasTab (Live.event s e) a h = h
  message-HasTab (Live.verdict Live.sample v) a h = h
  message-HasTab (Live.verdict Live.monitor v) a h = h
  message-HasTab Live.isolated a h = h
  message-HasTab Live.reconnected a h = h

  page-HasTab : (e : PageEvent) (a : App) → Stays (page e) → HasTab a → HasTab (page_event e a)
  unfolding HasTab page_event me_answered monitor_status_answered connection_changed handle_upload
      upload_started handle_login handle_logout handle_session_expired on_reconnected
  page-HasTab (knows (fulfilled u)) a v h = h
  page-HasTab (knows (rejected e)) a v h = h
  page-HasTab (monitor_status (fulfilled s)) a v h = h
  page-HasTab (monitor_status (rejected e)) a v h = h
  page-HasTab (hears m) a v h = message-HasTab m a h
  page-HasTab (connection state) a v h = h
  page-HasTab upload_starts a v h = h
  page-HasTab (uploads w) a v h = h
  page-HasTab (logs_in u) a v h = h
  page-HasTab (logs_out answer) a v h = h
  page-HasTab expires a v h = h
  page-HasTab reconnects a v h = h
  page-HasTab (moves e) a v h = absurd v

  after-HasTab : (e : Event) (a : App) → Stays e → HasTab a → AfterPage HasTab e a
  after-HasTab (page e) a v h = page-HasTab e a v h
  after-HasTab _ a v h = tt

  run-HasTab :
      (lower : Text → Text) (es : List Event) (w : Whole)
      → All Stays es
      → HasTab w.app
      → HasTab (run lower es w).app
  run-HasTab lower [] w v h = h
  run-HasTab lower (e ∷ es) w (v, vs) h =
      run-HasTab lower es (handle lower e w) vs
        (handle_survives tab-survives lower e w (after-HasTab e w.app v h) h)

-- From a page on the tab of the users, through any events in which no tab is chosen, sign-outs, expiries
-- and sign-ins among them: if then someone who is no admin signs in, the dashboard has the panel of the
-- users, and it alone, and none of the tabs is selected.
pub users_panel_kept :
    (lower : Text → Text) (es : List Event) (w : Whole) (u : Session)
    → w.app.bottom_tab ≡ text "users"
    → All Stays es
    → role_of u ≡ analyst
    → let b = (handle lower (page (logs_in u)) (run lower es w)).app in
      (Root.page b ≡ dashboard u analyst)
      × (panels b ≡ text "users" ∷ [])
      × All (λ (t : TabButton). t.selected ≡ false) (buttons (tabs analyst b) b.bottom_tab)
unfolding HasTab handle settle_all handle_login Root.page panels panel_shown tabs buttons text
    text_eq
users_panel_kept lower es w u e stays r =
    let kept = run-HasTab (text "users") lower es w stays e in
    (ap (dashboard u) r, rw kept refl, rw kept (refl, (refl, (refl, (refl, tt)))))
