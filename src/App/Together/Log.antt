-- ===== src/App/Together/Log.antt =====
-- The audit log of frontend/src/components/AuditLogTable.tsx and the page of frontend/src/App.tsx: each
-- keeps the rows and the status of the chain, and the flag of the effect keeps them the same.
use mirraura.Base.{
  ℕ, List, [], ◌∷◌, elem, none, some, ◌≡◌, ◌⊎◌, inl, inr, Bool-cases, Text, arith, if◌then◌else◌,
}
use mirraura.Api.Request.{Outcome}
use mirraura.Api.Endpoints.{ChainStatus}
use mirraura.AuditLog.{
  AuditLog, AuditRow, verdicts_answered, chain_answered, handle_query_change, toggle_sort_order,
  click_next, click_previous, next_disabled, previous_disabled,
}
use mirraura.App.{App}
use mirraura.App.LogMount.{obey_log, cancelled, is_kept}
use mirraura.App.Together.Lists.{
  SameLog, page_event-SameData, load_answer-SameLog, call_answer-SameLog, hashes-LogApart,
  corpus-LogApart, quarantine-LogApart,
}
use mirraura.App.Together.{
  Whole, Event, page, log_poll, log_acts, log_verdicts, log_chain, hashes_load, hashes_call,
  corpus_load, corpus_call, quarantine_load, quarantine_call, LogAct, searches, sorts, forward,
  back, log_act, settle_all, log_verdicts_event, log_chain_event, log_becomes, handle,
  hashes_become, corpus_become, quarantine_become, run, on_page, begin,
}
use mirraura.App.Dashboard.{remove_one, load_answer_event, call_answer_event}
use mirraura.App.Dashboard.Slots.{hashes_slot, corpus_slot, quarantine_slot}
use mirraura.App.Events.{page_event}
use mirraura.App.Together.Flag.{
  Matches, IsSound, same-Matches, fresh-Matches, verdicts_kept, chain_kept, log_settled-IsSound,
  log_polls-IsSound,
}

module _ (lower : Text → Text) where
  log_act-Matches :
      (act : LogAct) (s : AuditLog) (a : App) → Matches s a → Matches (log_act lower act s) a
  unfolding log_act handle_query_change toggle_sort_order click_next click_previous
  log_act-Matches (searches value) s a h = record { rows = h.rows; chain = h.chain }
  log_act-Matches sorts s a h = record { rows = h.rows; chain = h.chain }
  log_act-Matches forward s a h = elim (Bool-cases (next_disabled lower s)) [
    | inl t ↦ rw t h
    | inr f ↦ rw f (record { rows = h.rows; chain = h.chain })
  ]
  log_act-Matches back s a h = elim (Bool-cases (previous_disabled lower s)) [
    | inl t ↦ rw t h
    | inr f ↦ rw f (record { rows = h.rows; chain = h.chain })
  ]

-- A step of the page after which its rows and its chain are as before.
moved-IsSound :
    (b : App) (w : Whole) → SameLog b w.app → IsSound w.log w.app → IsSound (settle_all b w).log b
unfolding settle_all
moved-IsSound b w same h =
    log_settled-IsSound w.app b w.log
      (record { shown = same-Matches w.log.log w.app b same h.shown; begun = h.begun })

log_verdicts-IsSound :
    (k : ℕ) (answer : Outcome (List AuditRow)) (w : Whole)
    → IsSound w.log w.app
    → let v = log_verdicts_event k answer w in IsSound v.log v.app
unfolding log_verdicts_event log_becomes settle_all
log_verdicts-IsSound k answer w h = elim (Bool-cases (elem k w.log.verdict_loads)) [
  | inr f ↦ rw f h
  | inl t ↦
      let m = w.log in
      let (s, effects) = verdicts_answered (cancelled k w.app m) answer m.log in
      let kept = if is_kept k w.app m then s else m.log in
      rw t (
        log_settled-IsSound w.app (obey_log effects w.app)
          (record m { log = kept; verdict_loads = remove_one k m.verdict_loads })
          (record { shown = verdicts_kept k m answer w.app h; begun = h.begun }))
]

log_chain-IsSound :
    (k now : ℕ) (answer : Outcome ChainStatus) (w : Whole)
    → IsSound w.log w.app
    → let v = log_chain_event k now answer w in IsSound v.log v.app
unfolding log_chain_event log_becomes settle_all
log_chain-IsSound k now answer w h = elim (Bool-cases (elem k w.log.chain_loads)) [
  | inr f ↦ rw f h
  | inl t ↦
      let m = w.log in
      let (s, effects) = chain_answered (cancelled k w.app m) now answer m.log in
      let kept = if is_kept k w.app m then s else m.log in
      rw t (
        log_settled-IsSound w.app (obey_log effects w.app)
          (record m { log = kept; chain_loads = remove_one k m.chain_loads })
          (record { shown = chain_kept k now m answer w.app h; begun = h.begun }))
]

module _ (lower : Text → Text) where
  handle-IsSound :
      (e : Event) (w : Whole)
      → IsSound w.log w.app
      → let v = handle lower e w in IsSound v.log v.app
  unfolding handle hashes_become corpus_become quarantine_become settle_all
  handle-IsSound (page e) w h =
      moved-IsSound (page_event e w.app) w (page_event-SameData e w.app).1 h
  handle-IsSound log_poll w h = log_polls-IsSound w.app w.log h
  handle-IsSound (log_acts act) w h = record {
    shown = log_act-Matches lower act w.log.log w.app h.shown;
    begun = h.begun;
  }
  handle-IsSound (log_verdicts k answer) w h = log_verdicts-IsSound k answer w h
  handle-IsSound (log_chain k now answer) w h = log_chain-IsSound k now answer w h
  handle-IsSound (hashes_load k answer) w h =
      let p = on_page w.app w.hashes in
      moved-IsSound (load_answer_event hashes_slot k answer p).app w
        (load_answer-SameLog hashes_slot hashes-LogApart k answer p) h
  handle-IsSound (hashes_call k c answer) w h =
      let p = on_page w.app w.hashes in
      moved-IsSound (call_answer_event hashes_slot k c answer p).app w
        (call_answer-SameLog hashes_slot hashes-LogApart k c answer p) h
  handle-IsSound (corpus_load k answer) w h =
      let p = on_page w.app w.corpus in
      moved-IsSound (load_answer_event corpus_slot k answer p).app w
        (load_answer-SameLog corpus_slot corpus-LogApart k answer p) h
  handle-IsSound (corpus_call k c answer) w h =
      let p = on_page w.app w.corpus in
      moved-IsSound (call_answer_event corpus_slot k c answer p).app w
        (call_answer-SameLog corpus_slot corpus-LogApart k c answer p) h
  handle-IsSound (quarantine_load k answer) w h =
      let p = on_page w.app w.quarantine in
      moved-IsSound (load_answer_event quarantine_slot k answer p).app w
        (load_answer-SameLog quarantine_slot quarantine-LogApart k answer p) h
  handle-IsSound (quarantine_call k answer) w h =
      let p = on_page w.app w.quarantine in
      moved-IsSound (call_answer_event quarantine_slot k tt answer p).app w
        (call_answer-SameLog quarantine_slot quarantine-LogApart k tt answer p) h

  pub run-IsSound :
      (es : List Event) (w : Whole)
      → IsSound w.log w.app
      → let v = run lower es w in IsSound v.log v.app
  run-IsSound [] w h = h
  run-IsSound (e ∷ es) w h = run-IsSound es (handle lower e w) (handle-IsSound e w h)

  -- After any events, with the answers in any order: the audit log has no rows, or exactly those that the
  -- page was handed, which its statistics count; and it has no status of the chain, or exactly the one
  -- that the statistics show.
  pub log_agrees :
      (es : List Event)
      → let w = run lower es begin in
        ((w.log.log.rows ≡ []) ⊎ (w.app.verdicts ≡ some w.log.log.rows))
        × ((w.log.log.chain_status ≡ none) ⊎ (w.app.chain_status ≡ w.log.log.chain_status))
  log_agrees es =
      let h =
        run-IsSound es begin (record { shown = fresh-Matches begin.app; begun = omega arith }) in
      (h.shown.rows, h.shown.chain)
