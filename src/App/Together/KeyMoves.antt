-- ===== src/App/Together/KeyMoves.antt =====
-- Which events of the page of frontend/src/App.tsx change its refresh key.
use mirraura.Base.{
  ℕ, suc, true, false, List, ◌∷◌, Text, elem, ◌≡◌, refl, inl, inr, Bool-cases, [], Option, Bool,
  none, some, ◌&&◌, if◌then◌else◌,
}
use mirraura.Api.Request.{Outcome, fulfilled, rejected}
use mirraura.Api.Endpoints.{ChainStatus}
use mirraura.AuditLog.{AuditRow, verdicts_answered, chain_answered, Effect as LogEffect}
use mirraura.AuditLog
use mirraura.App.{
  App, handle_session_expired, verdicts_changed, chain_status_changed, UserState, unknown,
  signed_out, signed_in, me_answered, monitor_status_answered, handle_message, connection_changed,
  handle_upload, upload_started, handle_login, handle_logout, on_reconnected, change_tab, role_of,
  tabs,
}
use mirraura.App.Events.{
  page_event, PageEvent, knows, monitor_status, hears, connection, upload_starts, uploads, logs_in,
  logs_out, expires, reconnects, moves, TabEvent, tab_chosen, target, change_to, choose_tab,
}
use mirraura.App.LogMount.{obey_log, cancelled}
use mirraura.App.Dashboard.{has_been}
use mirraura.App.Dashboard.Slots.{hashes_slot, corpus_slot, quarantine_slot}
use mirraura.App.Together.{
  Whole, Event, page, log_poll, log_acts, log_verdicts, log_chain, hashes_load, hashes_call,
  corpus_load, corpus_call, quarantine_load, quarantine_call, settle_all, hashes_become,
  corpus_become, quarantine_become, log_becomes, log_verdicts_event, log_chain_event, handle,
  on_page,
}
use mirraura.Api.Live
use mirraura.Api.Live.{LiveMessage}
use mirraura.Tabs.{TabItem}
use mirraura.App.Together.Keys.{
  is_done, is_decided, load_event-refresh_key, call_event-refresh_key, hashes-Keyed, corpus-Keyed,
  quarantine-Keyed,
}

-- The answers to the loads of the log leave the refresh key alone.
obey_log-refresh_key : (es : List LogEffect) (a : App) → (obey_log es a).refresh_key ≡ a.refresh_key
unfolding handle_session_expired verdicts_changed chain_status_changed
obey_log-refresh_key [] a = refl
obey_log-refresh_key (AuditLog.session_expired ∷ es) a = obey_log-refresh_key es _
obey_log-refresh_key (AuditLog.pushed message tone ∷ es) a = obey_log-refresh_key es a
obey_log-refresh_key (AuditLog.verdicts_changed rows ∷ es) a = obey_log-refresh_key es _
obey_log-refresh_key (AuditLog.chain_changed status ∷ es) a = obey_log-refresh_key es _

pub log_verdicts-refresh_key :
    (k : ℕ) (answer : Outcome (List AuditRow)) (w : Whole)
    → (log_verdicts_event k answer w).app.refresh_key ≡ w.app.refresh_key
unfolding log_verdicts_event log_becomes settle_all
log_verdicts-refresh_key k answer w = elim (Bool-cases (elem k w.log.verdict_loads)) [
  | inr f ↦ rw f refl
  | inl t ↦
      rw t (
        obey_log-refresh_key (verdicts_answered (cancelled k w.app w.log) answer w.log.log).1 w.app)
]

pub log_chain-refresh_key :
    (k now : ℕ) (answer : Outcome ChainStatus) (w : Whole)
    → (log_chain_event k now answer w).app.refresh_key ≡ w.app.refresh_key
unfolding log_chain_event log_becomes settle_all
log_chain-refresh_key k now answer w = elim (Bool-cases (elem k w.log.chain_loads)) [
  | inr f ↦ rw f refl
  | inl t ↦
      rw t (
        obey_log-refresh_key (chain_answered (cancelled k w.app w.log) now answer w.log.log).1
          w.app)
]

abbrev pub is_verdict : LiveMessage → Bool
is_verdict (Live.verdict s v) = true
is_verdict _ = false

-- The events that are to refresh the panels: a verdict, by a message or by an upload, and a decision, of
-- a panel that there has been, that the server has carried out.
abbrev pub refreshes : Event → Whole → Bool
refreshes (page (hears m)) w = is_verdict m
refreshes (page (uploads v)) w = true
refreshes (hashes_call k c answer) w = has_been k (on_page w.app w.hashes) && is_decided c answer
refreshes (corpus_call k c answer) w = has_been k (on_page w.app w.corpus) && is_decided c answer
refreshes (quarantine_call k answer) w = has_been k (on_page w.app w.quarantine) && is_done answer
refreshes _ w = false

module _ (lower : Text → Text) where
  message-refresh_key :
      (m : LiveMessage) (a : App)
      → (handle_message m a).refresh_key
        ≡ (if is_verdict m then suc a.refresh_key else a.refresh_key)
  unfolding handle_message
  message-refresh_key (Live.event s e) a = refl
  message-refresh_key (Live.verdict Live.sample v) a = refl
  message-refresh_key (Live.verdict Live.monitor v) a = refl
  message-refresh_key Live.isolated a = refl
  message-refresh_key Live.reconnected a = refl

  chosen-refresh_key : (o : Option TabItem) (a : App) → (change_to o a).refresh_key ≡ a.refresh_key
  unfolding change_tab
  chosen-refresh_key none a = refl
  chosen-refresh_key (some t) a = refl

  tab-refresh_key :
      (u : UserState) (e : TabEvent) (a : App) → (tab_chosen u e a).refresh_key ≡ a.refresh_key
  tab-refresh_key unknown e a = refl
  tab-refresh_key signed_out e a = refl
  tab-refresh_key (signed_in u) e a = chosen-refresh_key (target e (tabs (role_of u) a)) a

  page-refresh_key :
      (e : PageEvent) (w : Whole)
      → (page_event e w.app).refresh_key
        ≡ (if refreshes (page e) w then suc w.app.refresh_key else w.app.refresh_key)
  unfolding page_event choose_tab me_answered monitor_status_answered connection_changed
      handle_upload upload_started handle_login handle_logout handle_session_expired on_reconnected
  page-refresh_key (knows (fulfilled u)) w = refl
  page-refresh_key (knows (rejected e)) w = refl
  page-refresh_key (monitor_status (fulfilled s)) w = refl
  page-refresh_key (monitor_status (rejected e)) w = refl
  page-refresh_key (hears m) w = message-refresh_key m w.app
  page-refresh_key (connection state) w = refl
  page-refresh_key upload_starts w = refl
  page-refresh_key (uploads v) w = refl
  page-refresh_key (logs_in u) w = refl
  page-refresh_key (logs_out answer) w = refl
  page-refresh_key expires w = refl
  page-refresh_key reconnects w = refl
  page-refresh_key (moves e) w = tab-refresh_key w.app.user e w.app

  pub handle-refresh_key :
      (e : Event) (w : Whole)
      → (handle lower e w).app.refresh_key
        ≡ (if refreshes e w then suc w.app.refresh_key else w.app.refresh_key)
  unfolding handle hashes_become corpus_become quarantine_become settle_all
  handle-refresh_key (page e) w = page-refresh_key e w
  handle-refresh_key log_poll w = refl
  handle-refresh_key (log_acts act) w = refl
  handle-refresh_key (log_verdicts k answer) w = log_verdicts-refresh_key k answer w
  handle-refresh_key (log_chain k now answer) w = log_chain-refresh_key k now answer w
  handle-refresh_key (hashes_load k answer) w =
      load_event-refresh_key hashes_slot hashes-Keyed k answer (on_page w.app w.hashes)
  handle-refresh_key (hashes_call k c answer) w =
      call_event-refresh_key hashes_slot hashes-Keyed k c answer (on_page w.app w.hashes)
  handle-refresh_key (corpus_load k answer) w =
      load_event-refresh_key corpus_slot corpus-Keyed k answer (on_page w.app w.corpus)
  handle-refresh_key (corpus_call k c answer) w =
      call_event-refresh_key corpus_slot corpus-Keyed k c answer (on_page w.app w.corpus)
  handle-refresh_key (quarantine_load k answer) w =
      load_event-refresh_key quarantine_slot quarantine-Keyed k answer (on_page w.app w.quarantine)
  handle-refresh_key (quarantine_call k answer) w =
      call_event-refresh_key quarantine_slot quarantine-Keyed k tt answer
        (on_page w.app w.quarantine)
