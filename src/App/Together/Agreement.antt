-- ===== src/App/Together/Agreement.antt =====
-- The three review panels of frontend/src/App.tsx, lines 192 to 218, on one page: each lists what the page
-- has of it, whatever the others do.
use mirraura.Base.{ℕ, List, [], ◌∷◌, Text, Bool-cases, if◌then◌else◌, elem, inr, inl}
use mirraura.Api.Endpoints.{ChainStatus}
use mirraura.App.Dashboard.{load_answer_event, call_answer_event, remove_one}
use mirraura.App.Dashboard.Slots.{
  hashes_slot, hashes-Laws, corpus_slot, corpus-Laws, quarantine_slot, quarantine-Laws,
}
use mirraura.App.Dashboard.Agreement.{start-Agree, load_answer-Agree, call_answer-Agree}
use mirraura.App.Together.Lists.{
  page_event-SameData, obey_log-SameLists, load_answer-handed, call_answer-handed,
}
use mirraura.App.LogMount.{LogMount, obey_log, is_kept, cancelled}
use mirraura.App.Events.{page_event}
use mirraura.Api.Request.{Outcome}
use mirraura.AuditLog.{AuditLog, AuditRow, Effect, verdicts_answered, chain_answered}
use mirraura.App.Together.{
  Whole, Event, page, log_poll, log_acts, log_verdicts, log_chain, hashes_load, hashes_call,
  corpus_load, corpus_call, quarantine_load, quarantine_call, log_becomes, log_verdicts_event,
  log_chain_event, handle, run, on_page, begin, elem, verdicts_answered, chain_answered,
}
use mirraura.App.Together.Others.{
  OnTime, Prompt, hashes-corpus, hashes-quarantine, corpus-hashes, corpus-quarantine,
  quarantine-hashes, quarantine-corpus, AllAgree, settle_all-AllAgree, hashes-AllAgree,
  corpus-AllAgree, quarantine-AllAgree,
}

with_log-AllAgree : (m : LogMount) (w : Whole) → AllAgree w → AllAgree (record w { log = m })
with_log-AllAgree m w h = record { hashes = h.hashes; corpus = h.corpus; quarantine = h.quarantine }

log_becomes-AllAgree :
    (k : ℕ) (answered : AuditLog × List Effect) (m : LogMount) (w : Whole)
    → AllAgree w
    → AllAgree (log_becomes k answered m w)
unfolding log_becomes
log_becomes-AllAgree k (log, effects) m w h =
    let n = record m { log = if is_kept k w.app m then log else m.log } in
    settle_all-AllAgree (obey_log effects w.app) (record w { log = n }) (with_log-AllAgree n w h)
      (obey_log-SameLists effects w.app)

log_verdicts-AllAgree :
    (k : ℕ) (answer : Outcome (List AuditRow)) (w : Whole)
    → AllAgree w
    → AllAgree (log_verdicts_event k answer w)
unfolding log_verdicts_event
log_verdicts-AllAgree k answer w h = elim (Bool-cases (elem k w.log.verdict_loads)) [
  | inr f ↦ rw f h
  | inl t ↦
      let m = w.log in
      rw t (
        log_becomes-AllAgree k (verdicts_answered (cancelled k w.app m) answer m.log)
          (record m { verdict_loads = remove_one k m.verdict_loads }) w h)
]

log_chain-AllAgree :
    (k now : ℕ) (answer : Outcome ChainStatus) (w : Whole)
    → AllAgree w
    → AllAgree (log_chain_event k now answer w)
unfolding log_chain_event
log_chain-AllAgree k now answer w h = elim (Bool-cases (elem k w.log.chain_loads)) [
  | inr f ↦ rw f h
  | inl t ↦
      let m = w.log in
      rw t (
        log_becomes-AllAgree k (chain_answered (cancelled k w.app m) now answer m.log)
          (record m { chain_loads = remove_one k m.chain_loads }) w h)
]

module _ (lower : Text → Text) where
  handle-AllAgree : (e : Event) (w : Whole) → OnTime e w → AllAgree w → AllAgree (handle lower e w)
  unfolding handle OnTime
  handle-AllAgree (page e) w _ h =
      settle_all-AllAgree (page_event e w.app) w h (page_event-SameData e w.app).0
  handle-AllAgree log_poll w _ h = with_log-AllAgree _ w h
  handle-AllAgree (log_acts act) w _ h = with_log-AllAgree _ w h
  handle-AllAgree (log_verdicts k answer) w _ h = log_verdicts-AllAgree k answer w h
  handle-AllAgree (log_chain k now answer) w _ h = log_chain-AllAgree k now answer w h
  handle-AllAgree (hashes_load k answer) w t h =
      let p = on_page w.app w.hashes in
      hashes-AllAgree (load_answer_event hashes_slot k answer p) w h
        (load_answer-Agree hashes_slot hashes-Laws k answer p t h.hashes)
        (load_answer-handed corpus_slot corpus-Laws hashes_slot corpus-hashes k answer p)
        (load_answer-handed quarantine_slot quarantine-Laws hashes_slot quarantine-hashes k answer
          p)
  handle-AllAgree (hashes_call k c answer) w _ h =
      let p = on_page w.app w.hashes in
      hashes-AllAgree (call_answer_event hashes_slot k c answer p) w h
        (call_answer-Agree hashes_slot hashes-Laws k c answer p h.hashes)
        (call_answer-handed corpus_slot corpus-Laws hashes_slot corpus-hashes k c answer p)
        (call_answer-handed quarantine_slot quarantine-Laws hashes_slot quarantine-hashes k c answer
          p)
  handle-AllAgree (corpus_load k answer) w t h =
      let p = on_page w.app w.corpus in
      corpus-AllAgree (load_answer_event corpus_slot k answer p) w h
        (load_answer-Agree corpus_slot corpus-Laws k answer p t h.corpus)
        (load_answer-handed hashes_slot hashes-Laws corpus_slot hashes-corpus k answer p)
        (load_answer-handed quarantine_slot quarantine-Laws corpus_slot quarantine-corpus k answer
          p)
  handle-AllAgree (corpus_call k c answer) w _ h =
      let p = on_page w.app w.corpus in
      corpus-AllAgree (call_answer_event corpus_slot k c answer p) w h
        (call_answer-Agree corpus_slot corpus-Laws k c answer p h.corpus)
        (call_answer-handed hashes_slot hashes-Laws corpus_slot hashes-corpus k c answer p)
        (call_answer-handed quarantine_slot quarantine-Laws corpus_slot quarantine-corpus k c answer
          p)
  handle-AllAgree (quarantine_load k answer) w t h =
      let p = on_page w.app w.quarantine in
      quarantine-AllAgree (load_answer_event quarantine_slot k answer p) w h
        (load_answer-Agree quarantine_slot quarantine-Laws k answer p t h.quarantine)
        (load_answer-handed hashes_slot hashes-Laws quarantine_slot hashes-quarantine k answer p)
        (load_answer-handed corpus_slot corpus-Laws quarantine_slot corpus-quarantine k answer p)
  handle-AllAgree (quarantine_call k answer) w _ h =
      let p = on_page w.app w.quarantine in
      quarantine-AllAgree (call_answer_event quarantine_slot k tt answer p) w h
        (call_answer-Agree quarantine_slot quarantine-Laws k tt answer p h.quarantine)
        (call_answer-handed hashes_slot hashes-Laws quarantine_slot hashes-quarantine k tt answer p)
        (call_answer-handed corpus_slot corpus-Laws quarantine_slot corpus-quarantine k tt answer p)

  pub run-AllAgree :
      (es : List Event) (w : Whole) → Prompt lower es w → AllAgree w → AllAgree (run lower es w)
  unfolding Prompt
  run-AllAgree [] w _ h = h
  run-AllAgree (e ∷ es) w (t, ts) h =
      run-AllAgree es (handle lower e w) ts (handle-AllAgree e w t h)

pub begin-AllAgree : AllAgree begin
begin-AllAgree = record {
  hashes = start-Agree hashes_slot hashes-Laws;
  corpus = start-Agree corpus_slot corpus-Laws;
  quarantine = start-Agree quarantine_slot quarantine-Laws;
}
