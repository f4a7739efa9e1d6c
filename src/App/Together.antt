-- ===== src/App/Together.antt =====
-- frontend/src/App.tsx with the panels of the log zone together: AuditLogTable.tsx,
-- PendingHashApprovals.tsx, CorpusReview.tsx and QuarantineReview.tsx of frontend/src/components share
-- one page, are mounted with their tabs, and their callbacks reach one another through it.
pub mod Lists
pub mod Flag
pub mod Log
pub mod Others
pub mod Agreement
pub mod Badges
pub mod Chosen
pub mod Callbacks
pub mod Kept
pub mod OneTab
pub mod Expiry
pub mod Leftover
pub mod Awaits
pub mod LogAwaits
pub mod Loadings
pub mod Skeletons
pub mod Asks
pub mod Keys
pub mod KeyMoves
pub mod Refresh
pub mod Told
pub mod Seen
mod Tests
mod SeenTests
use mirraura.Base.{
  ℕ, suc, ◌==◌, Bool, true, false, not, ◌&&◌, List, [], ◌∷◌, Text, text, elem, Option, none, some,
  get_elem?, if◌then◌else◌,
}
use mirraura.Types.{Verdict}
use mirraura.Api.Request.{Outcome}
use mirraura.Api.Endpoints.{
  Session, HashEntry, CorpusEntry, QuarantineEntry, ChainStatus, MonitorStatus,
}
use mirraura.Api.Live.{LiveMessage}
use mirraura.Api.Socket.{ConnectionState}
use mirraura.Review.{Review}
use mirraura.Hashes.{Hashes}
use mirraura.Corpus.{Corpus}
use mirraura.AuditLog.{
  AuditLog, AuditRow, verdicts_answered, chain_answered, Effect, handle_query_change,
  toggle_sort_order, click_next, click_previous,
}
use mirraura.AuditLog
use mirraura.Tabs.{TabItem, Key, handle_key_down, panel_shown}
use mirraura.App.{
  App, unknown, signed_out, signed_in, start, me_answered, monitor_status_answered, handle_message,
  connection_changed, handle_upload, upload_started, handle_login, handle_logout,
  handle_session_expired, on_reconnected, change_tab, role_of, tabs, verdicts_changed,
  chain_status_changed,
}
use mirraura.App.Connected.{is_signed_in}
use mirraura.App.Dashboard.{Slot, Page, settle, load_answer_event, call_answer_event, remove_one}
use mirraura.App.Dashboard.Slots.{FormCall, hashes_slot, corpus_slot, quarantine_slot}
use mirraura.App.LogMount.{LogMount, log_settled, cancelled, obey_log, log_polls, is_kept}
use mirraura.App.Events.{PageEvent, page_event}

-- A review panel: what the record `Page` has of it.
pub record Mounted (P : Type 0) : Type 0 where
  pub panel : P
  pub mount : ℕ
  pub loads : List ℕ

pub record Whole : Type 0 where
  pub app : App
  pub log : LogMount
  pub hashes : Mounted Hashes
  pub corpus : Mounted Corpus
  pub quarantine : Mounted (Review ℕ QuarantineEntry)

module _ {P : Type 0} where
  abbrev pub on_page : App → Mounted P → Page P
  on_page a m = record { app = a; panel = m.panel; mount = m.mount; loads = m.loads }

  abbrev pub mounted : Page P → Mounted P
  mounted p = record { panel = p.panel; mount = p.mount; loads = p.loads }

-- A review panel after the page has changed from `a` to `b`.
abbrev pub settled : {P E C : Type 0} → Slot P E C → App → App → Mounted P → Mounted P
settled slot a b m = mounted (settle slot (on_page a m) b)

-- What changes the audit log alone.
pub data LogAct : Type 0 where
  searches : Text → LogAct
  sorts forward back : LogAct

pub data Event : Type 0 where
  page : PageEvent → Event
  log_poll : Event
  log_acts : LogAct → Event
  log_verdicts : ℕ → Outcome (List AuditRow) → Event
  log_chain : ℕ → (now : ℕ) → Outcome ChainStatus → Event
  hashes_load : ℕ → Outcome (List HashEntry) → Event
  hashes_call : ℕ → FormCall → Outcome (Unit {0}) → Event
  corpus_load : ℕ → Outcome (List CorpusEntry) → Event
  corpus_call : ℕ → FormCall → Outcome (Unit {0}) → Event
  quarantine_load : ℕ → Outcome (List QuarantineEntry) → Event
  quarantine_call : ℕ → Outcome (Unit {0}) → Event

-- Every panel after the page has become `b`.
unfoldable pub settle_all : App → Whole → Whole
unfolding log_settled settle
settle_all b w = record {
  app = b;
  log = log_settled w.app b w.log;
  hashes = settled hashes_slot w.app b w.hashes;
  corpus = settled corpus_slot w.app b w.corpus;
  quarantine = settled quarantine_slot w.app b w.quarantine;
}

-- An answer to one of the review panels, and the other panels after it.
unfoldable pub hashes_become : Page Hashes → Whole → Whole
unfolding settle_all
hashes_become p w = let v = settle_all p.app w in record v { hashes = mounted p }

unfoldable pub corpus_become : Page Corpus → Whole → Whole
unfolding settle_all
corpus_become p w = let v = settle_all p.app w in record v { corpus = mounted p }

unfoldable pub quarantine_become : Page (Review ℕ QuarantineEntry) → Whole → Whole
unfolding settle_all
quarantine_become p w = let v = settle_all p.app w in record v { quarantine = mounted p }

-- An answer to the effect `k` of the log.
unfoldable pub log_becomes : ℕ → AuditLog × List Effect → LogMount → Whole → Whole
unfolding settle_all is_kept
log_becomes k (log, effects) m w =
    let kept = if is_kept k w.app m then log else m.log in
    settle_all (obey_log effects w.app) (record w { log = record m { log = kept } })

unfoldable pub log_verdicts_event : ℕ → Outcome (List AuditRow) → Whole → Whole
unfolding log_becomes cancelled
log_verdicts_event k answer w =
    let m = w.log in
    if elem k m.verdict_loads
    then log_becomes k (verdicts_answered (cancelled k w.app m) answer m.log)
        (record m { verdict_loads = remove_one k m.verdict_loads }) w
    else w

unfoldable pub log_chain_event : ℕ → ℕ → Outcome ChainStatus → Whole → Whole
unfolding log_becomes cancelled
log_chain_event k now answer w =
    let m = w.log in
    if elem k m.chain_loads
    then log_becomes k (chain_answered (cancelled k w.app m) now answer m.log)
        (record m { chain_loads = remove_one k m.chain_loads }) w
    else w

module _ (lower : Text → Text) where
  unfoldable pub log_act : LogAct → AuditLog → AuditLog
  unfolding handle_query_change toggle_sort_order click_next click_previous
  log_act (searches value) s = handle_query_change value s
  log_act sorts s = toggle_sort_order s
  log_act forward s = click_next lower s
  log_act back s = click_previous lower s

  unfoldable pub handle : Event → Whole → Whole
  unfolding page_event settle_all hashes_become corpus_become quarantine_become log_act log_polls
      log_verdicts_event log_chain_event
  handle (page e) w = settle_all (page_event e w.app) w
  handle log_poll w = record w { log = log_polls w.app w.log }
  handle (log_acts act) w = record w { log = let m = w.log in record m { log = log_act act m.log } }
  handle (log_verdicts k answer) w = log_verdicts_event k answer w
  handle (log_chain k now answer) w = log_chain_event k now answer w
  handle (hashes_load k answer) w =
      hashes_become (load_answer_event hashes_slot k answer (on_page w.app w.hashes)) w
  handle (hashes_call k c answer) w =
      hashes_become (call_answer_event hashes_slot k c answer (on_page w.app w.hashes)) w
  handle (corpus_load k answer) w =
      corpus_become (load_answer_event corpus_slot k answer (on_page w.app w.corpus)) w
  handle (corpus_call k c answer) w =
      corpus_become (call_answer_event corpus_slot k c answer (on_page w.app w.corpus)) w
  handle (quarantine_load k answer) w =
      quarantine_become (load_answer_event quarantine_slot k answer (on_page w.app w.quarantine)) w
  handle (quarantine_call k answer) w =
      quarantine_become (call_answer_event quarantine_slot k tt answer (on_page w.app w.quarantine))
        w

  abbrev pub run : List Event → Whole → Whole
  run [] w = w
  run (e ∷ es) w = run es (handle e w)

abbrev pub nowhere : {P E C : Type 0} → Slot P E C → Mounted P
nowhere slot = record { panel = slot.start_panel; mount = 0; loads = [] }

abbrev pub begin : Whole
begin = record {
  app = start;
  log = record {
    log = AuditLog.start;
    first = 0;
    effect = 0;
    verdict_loads = [];
    chain_loads = [];
  };
  hashes = nowhere hashes_slot;
  corpus = nowhere corpus_slot;
  quarantine = nowhere quarantine_slot;
}
