-- ===== src/App/Together/Kept.antt =====
-- The tab of frontend/src/App.tsx stays one of a list of ids through every event of the page, if the tabs
-- of every session that may begin are among them.
use mirraura.Base.{List, [], ◌∷◌, Option, none, some, All, Text, ◌≡◌, refl}
use mirraura.Api.Request.{fulfilled, rejected}
use mirraura.Api.Endpoints.{Session}
use mirraura.Api.Live
use mirraura.Api.Live.{LiveMessage}
use mirraura.Tabs.{TabItem}
use mirraura.App.{
  App, UserState, unknown, signed_out, signed_in, me_answered, monitor_status_answered,
  handle_message, connection_changed, handle_upload, upload_started, handle_login, handle_logout,
  handle_session_expired, on_reconnected, on_decision, change_tab, verdicts_changed,
  chain_status_changed, role_of, tabs, hashes_changed, corpus_changed, quarantine_changed,
}
use mirraura.App.Events.{
  PageEvent, knows, monitor_status, hears, connection, upload_starts, uploads, logs_in, logs_out,
  expires, reconnects, moves, page_event, TabEvent, tab_chosen, target, change_to, choose_tab,
}
use mirraura.App.Together.{Whole, Event, page, handle, run, begin}
use mirraura.App.Together.Chosen.{OneOf, IfUser, Admits, target-All}
use mirraura.App.Together.Callbacks.{Survives, AfterPage, handle_survives}

module _ (ids : List Text) (Allowed : Session → Type 0)
    (covers : (u : Session) (a : App)
      → Allowed u
      → All (λ (t : TabItem). OneOf t.id ids) (tabs (role_of u) a)) where
  record Keeps (a : App) : Type 0 where
    pub tab : OneOf a.bottom_tab ids
    pub user : IfUser Allowed a.user

  chosen-Keeps :
      (o : Option TabItem) (a : App)
      → ((t : TabItem) → o ≡ some t → OneOf t.id ids)
      → Keeps a
      → Keeps (change_to o a)
  unfolding change_tab
  chosen-Keeps none a from h = h
  chosen-Keeps (some t) a from h = record { tab = from t refl; user = h.user }

  tab_chosen-Keeps :
      (state : UserState) (e : TabEvent) (a : App)
      → IfUser Allowed state
      → Keeps a
      → Keeps (tab_chosen state e a)
  tab_chosen-Keeps unknown e a _ h = h
  tab_chosen-Keeps signed_out e a _ h = h
  tab_chosen-Keeps (signed_in u) e a allowed h =
      let items = tabs (role_of u) a in
      chosen-Keeps (target e items) a
        (λ t chosen.
          target-All (λ (t : TabItem). OneOf t.id ids) e items t (covers u a allowed) chosen)
        h

  page_event-Keeps :
      (e : PageEvent) (a : App) → Admits Allowed (page e) → Keeps a → Keeps (page_event e a)
  unfolding page_event choose_tab Admits me_answered monitor_status_answered handle_message
      connection_changed handle_upload upload_started handle_login handle_logout
      handle_session_expired on_reconnected
  page_event-Keeps (knows (fulfilled u)) a v h = record { tab = h.tab; user = v }
  page_event-Keeps (knows (rejected e)) a v h = record { tab = h.tab; user = tt }
  page_event-Keeps (monitor_status (fulfilled s)) a v h = record { tab = h.tab; user = h.user }
  page_event-Keeps (monitor_status (rejected e)) a v h = record { tab = h.tab; user = h.user }
  page_event-Keeps (hears m) a v h = heard m
    where
      heard : (m : LiveMessage) → Keeps (handle_message m a)
      heard (Live.event s e) = record { tab = h.tab; user = h.user }
      heard (Live.verdict Live.sample v) = record { tab = h.tab; user = h.user }
      heard (Live.verdict Live.monitor v) = record { tab = h.tab; user = h.user }
      heard Live.isolated = record { tab = h.tab; user = h.user }
      heard Live.reconnected = record { tab = h.tab; user = h.user }
  page_event-Keeps (connection state) a v h = record { tab = h.tab; user = h.user }
  page_event-Keeps upload_starts a v h = record { tab = h.tab; user = h.user }
  page_event-Keeps (uploads w) a v h = record { tab = h.tab; user = h.user }
  page_event-Keeps (logs_in u) a v h = record { tab = h.tab; user = v }
  page_event-Keeps (logs_out answer) a v h = record { tab = h.tab; user = tt }
  page_event-Keeps expires a v h = record { tab = h.tab; user = tt }
  page_event-Keeps reconnects a v h = record { tab = h.tab; user = h.user }
  page_event-Keeps (moves e) a v h = tab_chosen-Keeps a.user e a h.user h

  tab_survives : Survives Keeps
  unfolding handle_session_expired on_decision hashes_changed corpus_changed quarantine_changed
      verdicts_changed chain_status_changed
  tab_survives = record {
    expires = λ a h. record { tab = h.tab; user = tt };
    decides = λ a h. record { tab = h.tab; user = h.user };
    hashes = λ es a h. record { tab = h.tab; user = h.user };
    corpus = λ es a h. record { tab = h.tab; user = h.user };
    quarantine = λ es a h. record { tab = h.tab; user = h.user };
    verdicts = λ rows a h. record { tab = h.tab; user = h.user };
    chain = λ status a h. record { tab = h.tab; user = h.user };
  }

  admitted_page : (e : Event) (a : App) → Admits Allowed e → Keeps a → AfterPage Keeps e a
  admitted_page (page e) a v h = page_event-Keeps e a v h
  admitted_page _ a v h = tt

  module _ (lower : Text → Text) where
    run-Keeps :
        (es : List Event) (w : Whole)
        → All (Admits Allowed) es
        → Keeps w.app
        → Keeps (run lower es w).app
    run-Keeps [] w v h = h
    run-Keeps (e ∷ es) w (v, vs) h =
        run-Keeps es (handle lower e w) vs
          (handle_survives tab_survives lower e w (admitted_page e w.app v h) h)

    pub run-OneOf :
        (es : List Event)
        → All (Admits Allowed) es
        → OneOf begin.app.bottom_tab ids
        → OneOf (run lower es begin).app.bottom_tab ids
    run-OneOf es v first = (run-Keeps es begin v (record { tab = first; user = tt })).tab
