-- ===== src/App/Together/Seen.antt =====
-- What the detonation zone and the header of frontend/src/App.tsx show after any events, described without
-- the page: by the messages, the uploads and the answers about the monitor alone.
use mirraura.Base.{List, [], ◌∷◌, Option, none, some, ◌≡◌, refl, ◌∙◌, Text}
use mirraura.Api.Request.{fulfilled, rejected}
use mirraura.Api.Live.{
  LiveMessage, event, reconnected, sample, monitor, max_events, apply_live_event,
  apply_monitor_event,
}
use mirraura.Api.Live.Buffer.{push_last-last}
use mirraura.Tabs.{TabItem}
use mirraura.App.{
  App, UserState, unknown, signed_out, signed_in, me_answered, monitor_status_answered,
  handle_message, connection_changed, handle_upload, upload_started, handle_login, handle_logout,
  handle_session_expired, on_reconnected, on_decision, change_tab, verdicts_changed,
  chain_status_changed, role_of, tabs, hashes_changed, corpus_changed, quarantine_changed,
}
use mirraura.App.Events.{
  PageEvent, knows, monitor_status, hears, connection, upload_starts, uploads, logs_in, logs_out,
  expires, reconnects, moves, page_event, TabEvent, tab_chosen, target, change_to, choose_tab,
}
use mirraura.App.Together.{
  Whole, Event, page, log_poll, log_acts, log_verdicts, log_chain, hashes_load, hashes_call,
  corpus_load, corpus_call, quarantine_load, quarantine_call, handle, run, begin, settle_all,
}
use mirraura.App.Together.Callbacks.{Survives, handle_survives}
use mirraura.App.Together.Told.{Seen, unseen, see_message, see_page, see, see_all, Shows}

same-Shows :
    {s : Seen} (a b : App)
    → b.sample_events ≡ a.sample_events
    → b.monitor_events ≡ a.monitor_events
    → b.verdict ≡ a.verdict
    → b.isolated ≡ a.isolated
    → b.conn_state ≡ a.conn_state
    → Shows s a
    → Shows s b
same-Shows a b se me v i c h = record {
  samples = se ∙ h.samples;
  monitors = me ∙ h.monitors;
  shown = v ∙ h.shown;
  isolation = i ∙ h.isolation;
  state = c ∙ h.state;
}

Shows-survives : (s : Seen) → Survives (Shows s)
unfolding handle_session_expired on_decision hashes_changed corpus_changed quarantine_changed
    verdicts_changed chain_status_changed
Shows-survives s = record {
  expires = λ a h. same-Shows a (handle_session_expired a) refl refl refl refl refl h;
  decides = λ a h. same-Shows a (on_decision a) refl refl refl refl refl h;
  hashes = λ es a h. same-Shows a (hashes_changed es a) refl refl refl refl refl h;
  corpus = λ es a h. same-Shows a (corpus_changed es a) refl refl refl refl refl h;
  quarantine = λ es a h. same-Shows a (quarantine_changed es a) refl refl refl refl refl h;
  verdicts = λ rows a h. same-Shows a (verdicts_changed rows a) refl refl refl refl refl h;
  chain = λ status a h. same-Shows a (chain_status_changed status a) refl refl refl refl refl h;
}

message-Shows :
    (m : LiveMessage) (s : Seen) (a : App)
    → Shows s a
    → Shows (see_message m s) (handle_message m a)
unfolding handle_message apply_live_event apply_monitor_event
message-Shows (event sample e) s a h = record {
  samples = rw h.samples (push_last-last max_events s.sandbox e);
  monitors = h.monitors;
  shown = h.shown;
  isolation = h.isolation;
  state = h.state;
}
message-Shows (event monitor e) s a h = record {
  samples = h.samples;
  monitors = rw h.monitors (push_last-last max_events s.monitored e);
  shown = h.shown;
  isolation = h.isolation;
  state = h.state;
}
message-Shows (LiveMessage.verdict sample v) s a h = record {
  samples = h.samples;
  monitors = h.monitors;
  shown = refl;
  isolation = h.isolation;
  state = h.state;
}
message-Shows (LiveMessage.verdict monitor v) s a h =
    same-Shows a (handle_message (LiveMessage.verdict monitor v) a) refl refl refl refl refl h
message-Shows LiveMessage.isolated s a h = record {
  samples = h.samples;
  monitors = h.monitors;
  shown = h.shown;
  isolation = refl;
  state = h.state;
}
message-Shows reconnected s a h = record {
  samples = h.samples;
  monitors = h.monitors;
  shown = h.shown;
  isolation = refl;
  state = h.state;
}

change_to-Shows : (o : Option TabItem) (s : Seen) (a : App) → Shows s a → Shows s (change_to o a)
unfolding change_tab
change_to-Shows none s a h = h
change_to-Shows (some t) s a h = same-Shows a (change_tab t.id a) refl refl refl refl refl h

tab-Shows :
    (u : UserState) (e : TabEvent) (s : Seen) (a : App) → Shows s a → Shows s (tab_chosen u e a)
tab-Shows unknown e s a h = h
tab-Shows signed_out e s a h = h
tab-Shows (signed_in u) e s a h = change_to-Shows (target e (tabs (role_of u) a)) s a h

page-Shows :
    (e : PageEvent) (s : Seen) (a : App) → Shows s a → Shows (see_page e s) (page_event e a)
unfolding page_event choose_tab me_answered monitor_status_answered connection_changed handle_upload
    upload_started handle_login handle_logout handle_session_expired on_reconnected
page-Shows (knows (fulfilled u)) s a h =
    same-Shows a (me_answered (fulfilled u) a) refl refl refl refl refl h
page-Shows (knows (rejected e)) s a h =
    same-Shows a (me_answered (rejected e) a) refl refl refl refl refl h
page-Shows (monitor_status (fulfilled status)) s a h = record {
  samples = h.samples;
  monitors = h.monitors;
  shown = h.shown;
  isolation = refl;
  state = h.state;
}
page-Shows (monitor_status (rejected e)) s a h =
    same-Shows a (monitor_status_answered (rejected e) a) refl refl refl refl refl h
page-Shows (hears m) s a h = message-Shows m s a h
page-Shows (connection c) s a h = record {
  samples = h.samples;
  monitors = h.monitors;
  shown = h.shown;
  isolation = h.isolation;
  state = refl;
}
page-Shows upload_starts s a h = record {
  samples = refl;
  monitors = h.monitors;
  shown = h.shown;
  isolation = h.isolation;
  state = h.state;
}
page-Shows (uploads v) s a h = record {
  samples = h.samples;
  monitors = h.monitors;
  shown = refl;
  isolation = h.isolation;
  state = h.state;
}
page-Shows (logs_in u) s a h = same-Shows a (handle_login u a) refl refl refl refl refl h
page-Shows (logs_out answer) s a h =
    same-Shows a (handle_logout answer a) refl refl refl refl refl h
page-Shows expires s a h = same-Shows a (handle_session_expired a) refl refl refl refl refl h
page-Shows reconnects s a h = record {
  samples = h.samples;
  monitors = h.monitors;
  shown = h.shown;
  isolation = refl;
  state = h.state;
}
page-Shows (moves e) s a h = tab-Shows a.user e s a h

module _ (lower : Text → Text) where
  handle-Shows :
      (e : Event) (s : Seen) (w : Whole) → Shows s w.app → Shows (see e s) (handle lower e w).app
  unfolding handle settle_all
  handle-Shows (page e) s w h = page-Shows e s w.app h
  handle-Shows log_poll s w h = handle_survives (Shows-survives s) lower log_poll w tt h
  handle-Shows (log_acts act) s w h = handle_survives (Shows-survives s) lower (log_acts act) w tt h
  handle-Shows (log_verdicts k answer) s w h =
      handle_survives (Shows-survives s) lower (log_verdicts k answer) w tt h
  handle-Shows (log_chain k now answer) s w h =
      handle_survives (Shows-survives s) lower (log_chain k now answer) w tt h
  handle-Shows (hashes_load k answer) s w h =
      handle_survives (Shows-survives s) lower (hashes_load k answer) w tt h
  handle-Shows (hashes_call k c answer) s w h =
      handle_survives (Shows-survives s) lower (hashes_call k c answer) w tt h
  handle-Shows (corpus_load k answer) s w h =
      handle_survives (Shows-survives s) lower (corpus_load k answer) w tt h
  handle-Shows (corpus_call k c answer) s w h =
      handle_survives (Shows-survives s) lower (corpus_call k c answer) w tt h
  handle-Shows (quarantine_load k answer) s w h =
      handle_survives (Shows-survives s) lower (quarantine_load k answer) w tt h
  handle-Shows (quarantine_call k answer) s w h =
      handle_survives (Shows-survives s) lower (quarantine_call k answer) w tt h

  run-Shows :
      (es : List Event) (s : Seen) (w : Whole)
      → Shows s w.app
      → Shows (see_all es s) (run lower es w).app
  run-Shows [] s w h = h
  run-Shows (e ∷ es) s w h = run-Shows es (see e s) (handle lower e w) (handle-Shows e s w h)

  -- After any events, in any order, and whatever the panels and the sessions do in between: the feed of
  -- the sample is the last 500 events of the sandbox since the last upload began, that of the monitor
  -- the last 500 events of the monitor, the verdict is the last one on a sample, by a message or by the
  -- answer to an upload, the endpoint counts as isolated as the last message, answer or reconnection
  -- says, and the connection is the one last told.
  pub run_seen : (es : List Event) → Shows (see_all es unseen) (run lower es begin).app
  run_seen es =
      run-Shows es unseen begin
        (record { samples = refl; monitors = refl; shown = refl; isolation = refl; state = refl })
