-- ===== src/App/Together/SeenTests.antt =====
-- What frontend/src/App.tsx shows at concrete events.
use mirraura.Base.{List, [], ◌∷◌, none, text, Text, ◌≡◌, false, All, text_eq, refl}
use mirraura.Types.{MirraEvent, process_spawn, analyst}
use mirraura.Api.Request.{fulfilled, rejected}
use mirraura.Api.Live.{event, sample, monitor, isolated}
use mirraura.App.Events.{hears, uploads, upload_starts, logs_in, logs_out, moves, clicks}
use mirraura.App.Together.{Event, page, hashes_load, run, begin, false, Whole, handle, log_poll}
use mirraura.App.Together.Tests.{bob, ada, expired, upload_verdict}
use mirraura.App.Together.Seen.{run_seen}
use mirraura.App.Together.Told.{Shows, see_all, unseen}
use mirraura.App.{handle_login, tabs, role_of, change_tab, dashboard, panels}
use mirraura.App as Root
use mirraura.App.Together.Leftover.{users_panel_kept}
use mirraura.Tabs.{TabButton, buttons}

abbrev spawned : Text → MirraEvent
spawned at = record {
  event_id = at;
  device_id = text "sandbox";
  event_type = process_spawn;
  process_ref = none;
  network_ref = none;
  file_ref = none;
  timestamp = at;
  baseline_deviation_score = record { negative = false; mantissa = 0; scale = 0 };
}

-- Two uploads, of which the second has been answered, and a new session.
abbrev detonates : List Event
detonates =
    page (logs_in bob)
    ∷ page upload_starts
    ∷ page (hears (event sample (spawned (text "1"))))
    ∷ page upload_starts
    ∷ page (hears (event sample (spawned (text "2"))))
    ∷ page (hears (event monitor (spawned (text "3"))))
    ∷ hashes_load 1 (rejected expired)
    ∷ page (uploads upload_verdict)
    ∷ page (hears isolated)
    ∷ page (logs_out (fulfilled tt))
    ∷ page (logs_in ada)
    ∷ []

run_seen_example : Shows (see_all detonates unseen) (run (λ s. s) detonates begin).app
run_seen_example = run_seen (λ s. s) detonates

detonates_lem : (run (λ s. s) detonates begin).app.sample_events ≡ spawned (text "2") ∷ []
detonates_lem = (run_seen (λ s. s) detonates).samples

-- Ada reads the users, signs out, and bob signs in.
abbrev on_users : Whole
on_users = run (λ s. s) (page (logs_in ada) ∷ page (moves (clicks 4)) ∷ []) begin

abbrev leaves : List Event
leaves = page (logs_out (fulfilled tt)) ∷ log_poll ∷ []

on_users_lem : on_users.app.bottom_tab ≡ text "users"
unfolding handle handle_login tabs role_of text_eq text change_tab
on_users_lem = refl

bob_is_analyst : role_of bob ≡ analyst
unfolding role_of text text_eq
bob_is_analyst = refl

users_panel_kept_example :
    let b = (handle (λ s. s) (page (logs_in bob)) (run (λ s. s) leaves on_users)).app in
    (Root.page b ≡ dashboard bob analyst)
    × (panels b ≡ text "users" ∷ [])
    × All (λ (t : TabButton). t.selected ≡ false) (buttons (tabs analyst b) b.bottom_tab)
users_panel_kept_example =
    users_panel_kept (λ s. s) leaves on_users bob on_users_lem (tt, (tt, tt)) bob_is_analyst
