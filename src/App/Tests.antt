-- ===== src/App/Tests.antt =====
-- frontend/src/App.tsx at concrete inputs.
use mirraura.Hashes.{refetch_answered, Hashes, view}
use mirraura.Review.{decision_answered}
use mirraura.App.Dashboard.{
  uploads, Page as DashboardPage, Event, log_loads, clicks_tab, load_answer, call_answer, run,
  start_page, handle, settle, is_mounted,
}
use mirraura.App.{
  handle_upload, monitor_status_answered, handle_message, start, handle_login, handle_logout, List,
  text_eq, none, connection_changed, some, verdicts_changed, change_tab, true, pending_count,
  hashes_changed,
}
use mirraura.App.Dashboard.Slots.{hashes_slot, FormCall, decision}
use mirraura.App.Dashboard.Strip.{strip_shown, visited, strip_waits_for_visit, Avoids, Elsewhere}
use mirraura.Api.Request.{rejected, no_error, fulfilled}
use mirraura.Api.Endpoints.{CorpusEntry, Session, HashEntry, EntrySource}
use mirraura.Base.{◌≡◌, refl, false, [], ◌∷◌, text, List, text_eq, none, some, true, elem}
use mirraura.Types.{Verdict, compromised, analyst, ReviewStatus}
use mirraura.Api.Live.{LiveMessage}
use mirraura.Api.Socket.{Connection, close, open_, opened, connect_live, connect, on_open}
use mirraura.App.Connected.Served.{IsConnected, Reach-IsConnected}
use mirraura.App.Connected.{
  World, Reach, begin, begin_world, next, logs_in, logs_out, hears, told, user_changed, user_effect,
  cleanup,
}

abbrev a_verdict : Verdict
a_verdict = record {
  verdict_id = text "1";
  sample_hash = text "ab";
  sample_filename = text "a";
  verdict = compromised;
  confidence = record { negative = false; mantissa = 5; scale = 1 };
  causal_chain = [];
  timestamp = text "now";
  prev_log_hash = text "00";
  detection_method = text "dynamic";
  source = text "sample";
}

abbrev ada : Session
ada = record { username = text "ada"; role = text "admin" }

abbrev bob : Session
bob = record { username = text "bob"; role = text "analyst" }

-- The session of bob has ended, ada has signed in, and the socket of her session opens.
abbrev handed_over : World
handed_over =
    let a = user_changed (handle_login bob start) begin_world in
    let b = user_changed (handle_logout (fulfilled tt) a.app) a in
    user_changed (handle_login ada b.app) b

abbrev ada_opened : Connection
ada_opened = on_open (record connect_live { ws = some open_ })

abbrev heard : World
heard = record handed_over {
  app = told connect_live ada_opened handed_over.app;
  connection = some ada_opened;
}

heard_reached : Reach (λ frame. none) heard
unfolding user_changed user_effect cleanup handle_login handle_logout connect_live connect on_open
    connection_changed close
heard_reached =
    next
      (next (next (next begin (logs_in bob refl)) (logs_out (fulfilled tt) refl))
        (logs_in ada refl))
      (hears connect_live ada_opened (opened refl refl) tt refl refl)

Reach-IsConnected_example : IsConnected (λ frame. none) heard
Reach-IsConnected_example = Reach-IsConnected (λ frame. none) heard_reached

abbrev a_hash : HashEntry
a_hash = record {
  hash = text "ab";
  label = text "a";
  status = ReviewStatus.pending;
  source = EntrySource.manual;
  proposed_at = text "now";
  reviewed_at = none;
}

abbrev HashEvents : Type 0
HashEvents = List (Event HashEntry FormCall)

-- A session that has read the audit log and looked at the corpus.
abbrev elsewhere : HashEvents
elsewhere = Event.logs_in ada ∷ log_loads [] ∷ clicks_tab (text "corpus") ∷ []

abbrev page_after : HashEvents → DashboardPage Hashes
page_after es = run hashes_slot es (start_page hashes_slot)

strip_waits_for_visit_example :
    (strip_shown (page_after elsewhere).app ≡ false)
    × (pending_count (page_after elsewhere).app ≡ 0)
    × (strip_shown (visited hashes_slot (a_hash ∷ []) (page_after elsewhere)).app ≡ true)
    × (pending_count (visited hashes_slot (a_hash ∷ []) (page_after elsewhere)).app ≡ 1)
unfolding Avoids Elsewhere handle settle is_mounted handle_login verdicts_changed change_tab text_eq
    text
strip_waits_for_visit_example =
    strip_waits_for_visit elsewhere ada [] (a_hash ∷ []) (tt, (tt, (refl, tt))) refl refl

-- The table of the hashes has its answer, and a decision is refused; the corpus is still loading.
abbrev visits : HashEvents
visits =
    Event.logs_in ada
    ∷ clicks_tab (text "hashes")
    ∷ load_answer 1 (fulfilled (a_hash ∷ []))
    ∷ call_answer 1 decision (rejected no_error)
    ∷ []

abbrev corpus_visits : List (Event CorpusEntry FormCall)
corpus_visits = Event.logs_in ada ∷ clicks_tab (text "corpus") ∷ []

visits_counts :
    (pending_count (page_after visits).app ≡ 1)
    × ((view analyst (page_after visits).panel).count ≡ 1)
unfolding handle settle is_mounted handle_login change_tab text_eq text view pending_count
    hashes_changed elem refetch_answered decision_answered
visits_counts = (refl, refl)

-- The tab is opened, left and opened again; the second panel has its answer, none, before the first.
abbrev overtaken : HashEvents
overtaken =
    Event.logs_in ada
    ∷ clicks_tab (text "hashes")
    ∷ clicks_tab (text "corpus")
    ∷ clicks_tab (text "hashes")
    ∷ load_answer 2 (fulfilled [])
    ∷ load_answer 1 (fulfilled (a_hash ∷ []))
    ∷ []

overtaken_counts :
    (pending_count (page_after overtaken).app ≡ 1)
    × ((view analyst (page_after overtaken).panel).count ≡ 0)
unfolding handle settle is_mounted handle_login change_tab text_eq text view pending_count
    hashes_changed elem refetch_answered
overtaken_counts = (refl, refl)

-- A verdict refreshes the panel while its first load is on the way; the first load is answered last.
abbrev reordered : HashEvents
reordered =
    Event.logs_in ada
    ∷ clicks_tab (text "hashes")
    ∷ uploads a_verdict
    ∷ load_answer 1 (fulfilled [])
    ∷ load_answer 1 (fulfilled (a_hash ∷ []))
    ∷ []

reordered_counts :
    (pending_count (page_after reordered).app ≡ 1)
    × ((view analyst (page_after reordered).panel).count ≡ 1)
unfolding handle settle is_mounted handle_login handle_upload change_tab text_eq text view
    pending_count hashes_changed elem refetch_answered
reordered_counts = (refl, refl)

-- The status that was asked for at the start comes after the message that the endpoint is isolated.
stale_status :
    (monitor_status_answered
      (fulfilled (record { isolated = false }))
      (handle_message LiveMessage.isolated start)).isolated
    ≡ false
unfolding monitor_status_answered handle_message
stale_status = refl
