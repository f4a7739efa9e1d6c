-- ===== src/App/Together/Callbacks.antt =====
-- What the panels of frontend/src/App.tsx, lines 183 to 218, do to the state of the page: nothing but what
-- their callbacks do.
use mirraura.Base.{ℕ, List, [], ◌∷◌, elem, inl, inr, Bool-cases, Text, Option}
use mirraura.Api.Request.{Outcome}
use mirraura.Api.Endpoints.{ChainStatus, HashEntry, CorpusEntry, QuarantineEntry}
use mirraura.Review.{Effect}
use mirraura.AuditLog.{AuditRow, verdicts_answered, chain_answered}
use mirraura.AuditLog
use mirraura.App.{
  App, handle_session_expired, on_decision, hashes_changed, corpus_changed, quarantine_changed,
  verdicts_changed, chain_status_changed, Option,
}
use mirraura.App.Events.{page_event}
use mirraura.App.LogMount.{obey_log, cancelled}
use mirraura.App.Dashboard.{Slot, Page, obey_all, load_answer_event, call_answer_event}
use mirraura.App.Dashboard.Slots.{hashes_slot, corpus_slot, quarantine_slot}
use mirraura.App.Dashboard.Moves.{load_answer_event-app, call_answer_event-app}
use mirraura.App.Together.{
  Whole, Event, page, log_poll, log_acts, log_verdicts, log_chain, hashes_load, hashes_call,
  corpus_load, corpus_call, quarantine_load, quarantine_call, settle_all, hashes_become,
  corpus_become, quarantine_become, log_becomes, log_verdicts_event, log_chain_event, handle,
  on_page,
}

-- `Q` holds after each callback that the page gives to a panel.
pub record Survives (Q : App → Type 0) : Type 0 where
  pub expires : (a : App) → Q a → Q (handle_session_expired a)
  pub decides : (a : App) → Q a → Q (on_decision a)
  pub hashes : (es : List HashEntry) (a : App) → Q a → Q (hashes_changed es a)
  pub corpus : (es : List CorpusEntry) (a : App) → Q a → Q (corpus_changed es a)
  pub quarantine : (es : List QuarantineEntry) (a : App) → Q a → Q (quarantine_changed es a)
  pub verdicts : (rows : List AuditRow) (a : App) → Q a → Q (verdicts_changed rows a)
  pub chain : (status : Option ChainStatus) (a : App) → Q a → Q (chain_status_changed status a)

-- `Q` holds of the page after the event, if that is one of the page.
abbrev pub AfterPage : (App → Type 0) → Event → App → Type 0
AfterPage Q (page e) a = Q (page_event e a)
AfterPage Q _ a = Unit

module _ {Q : App → Type 0} (s : Survives Q) where
  obey_log-survives : (es : List AuditLog.Effect) (a : App) → Q a → Q (obey_log es a)
  obey_log-survives [] a h = h
  obey_log-survives (AuditLog.session_expired ∷ es) a h = obey_log-survives es _ (s.expires a h)
  obey_log-survives (AuditLog.pushed message tone ∷ es) a h = obey_log-survives es a h
  obey_log-survives (AuditLog.verdicts_changed rows ∷ es) a h =
      obey_log-survives es _ (s.verdicts rows a h)
  obey_log-survives (AuditLog.chain_changed status ∷ es) a h =
      obey_log-survives es _ (s.chain status a h)

  module _ {P E C : Type 0} (slot : Slot P E C)
      (hands : (es : List E) (a : App) → Q a → Q (slot.hand es a)) where
    obey_all-survives : (es : List (Effect E)) (a : App) → Q a → Q (obey_all slot es a)
    obey_all-survives [] a h = h
    obey_all-survives (Effect.session_expired ∷ es) a h = obey_all-survives es _ (s.expires a h)
    obey_all-survives (Effect.decided ∷ es) a h = obey_all-survives es _ (s.decides a h)
    obey_all-survives (Effect.changed entries ∷ es) a h = obey_all-survives es _ (hands entries a h)
    obey_all-survives (Effect.pushed message tone ∷ es) a h = obey_all-survives es a h
    obey_all-survives (Effect.calls c ∷ es) a h = obey_all-survives es a h

    load_survives :
        (k : ℕ) (answer : Outcome (List E)) (p : Page P)
        → Q p.app
        → Q (load_answer_event slot k answer p).app
    load_survives k answer p h =
        load_answer_event-app slot Q k answer p h (λ es. obey_all-survives es p.app h)

    call_survives :
        (k : ℕ) (c : C) (answer : Outcome (Unit {0})) (p : Page P)
        → Q p.app
        → Q (call_answer_event slot k c answer p).app
    call_survives k c answer p h =
        call_answer_event-app slot Q k c answer p h (λ es. obey_all-survives es p.app h)

  log_verdicts_survives :
      (k : ℕ) (answer : Outcome (List AuditRow)) (w : Whole)
      → Q w.app
      → Q (log_verdicts_event k answer w).app
  unfolding log_verdicts_event log_becomes settle_all
  log_verdicts_survives k answer w h = elim (Bool-cases (elem k w.log.verdict_loads)) [
    | inr f ↦ rw f h
    | inl t ↦
        let effects = (verdicts_answered (cancelled k w.app w.log) answer w.log.log).1 in
        rw t (obey_log-survives effects w.app h)
  ]

  log_chain_survives :
      (k now : ℕ) (answer : Outcome ChainStatus) (w : Whole)
      → Q w.app
      → Q (log_chain_event k now answer w).app
  unfolding log_chain_event log_becomes settle_all
  log_chain_survives k now answer w h = elim (Bool-cases (elem k w.log.chain_loads)) [
    | inr f ↦ rw f h
    | inl t ↦
        let effects = (chain_answered (cancelled k w.app w.log) now answer w.log.log).1 in
        rw t (obey_log-survives effects w.app h)
  ]

  -- Every event that is not the page's own keeps `Q`.
  pub handle_survives :
      (lower : Text → Text) (e : Event) (w : Whole)
      → AfterPage Q e w.app
      → Q w.app
      → Q (handle lower e w).app
  unfolding handle settle_all hashes_become corpus_become quarantine_become
  handle_survives lower (page e) w v h = v
  handle_survives lower log_poll w v h = h
  handle_survives lower (log_acts act) w v h = h
  handle_survives lower (log_verdicts k answer) w v h = log_verdicts_survives k answer w h
  handle_survives lower (log_chain k now answer) w v h = log_chain_survives k now answer w h
  handle_survives lower (hashes_load k answer) w v h =
      load_survives hashes_slot s.hashes k answer (on_page w.app w.hashes) h
  handle_survives lower (hashes_call k c answer) w v h =
      call_survives hashes_slot s.hashes k c answer (on_page w.app w.hashes) h
  handle_survives lower (corpus_load k answer) w v h =
      load_survives corpus_slot s.corpus k answer (on_page w.app w.corpus) h
  handle_survives lower (corpus_call k c answer) w v h =
      call_survives corpus_slot s.corpus k c answer (on_page w.app w.corpus) h
  handle_survives lower (quarantine_load k answer) w v h =
      load_survives quarantine_slot s.quarantine k answer (on_page w.app w.quarantine) h
  handle_survives lower (quarantine_call k answer) w v h =
      call_survives quarantine_slot s.quarantine k tt answer (on_page w.app w.quarantine) h
