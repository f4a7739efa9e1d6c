-- ===== src/App/Together/LogAwaits.antt =====
-- The skeleton of the audit log of frontend/src/components/AuditLogTable.tsx under the page of
-- frontend/src/App.tsx: it is shown only while a load of the current effect is on its way.
use mirraura.Base.{
  ℕ, suc, ◌≤◌, ◌==◌, Bool, true, false, List, Text, elem, ◌≡◌, refl, inl, inr, ◌∙◌, sym, Bool-cases,
  if◌then◌else◌, arith, elem-first, ◌⊎◌,
}
use mirraura.Api.Request.{Outcome, fulfilled, rejected}
use mirraura.Api.Endpoints.{ChainStatus}
use mirraura.AuditLog.{
  AuditLog, AuditRow, Effect, verdicts_answered, chain_answered, handle_query_change,
  toggle_sort_order, click_next, click_previous,
}
use mirraura.App.{App}
use mirraura.App.LogMount.{
  LogMount, log_settled, log_polls, cancelled, is_kept, log_mounted, obey_log,
}
use mirraura.App.Dashboard.{remove_one}
use mirraura.App.Together.{
  Whole, LogAct, searches, sorts, forward, back, log_act, log_becomes, log_verdicts_event,
  log_chain_event, settle_all,
}
use mirraura.App.Together.Awaits.{elem-remove_one}

-- A log that is rendered with its skeleton waits for a load of the current effect, which is one of its
-- mount.
pub record LogAwaits (a : App) (m : LogMount) : Type 0 where
  pub waits : log_mounted a ≡ true → m.log.loading ≡ true → elem m.effect m.verdict_loads ≡ true
  pub begun : m.first ≤ m.effect

pub log_settled-LogAwaits :
    (a b : App) (m : LogMount) → LogAwaits a m → LogAwaits b (log_settled a b m)
unfolding log_settled
log_settled-LogAwaits a b m h = elim (Bool-cases (log_mounted b)) [
  | inr f ↦ rw f (record { waits = λ t _. absurd (cc); begun = h.begun })
  | inl t ↦ elim (Bool-cases (log_mounted a)) [
    | inr f ↦
        rw (t, f)
          (record { waits = λ _ _. elem-first (suc m.effect) m.verdict_loads; begun = omega arith })
    | inl t' ↦ elim (Bool-cases (b.refresh_key == a.refresh_key)) [
      | inl e ↦ rw (t, t', e) (record { waits = λ _ s. h.waits t' s; begun = h.begun })
      | inr e ↦
          rw (t, t', e)
            (record {
              waits = λ _ _. elem-first (suc m.effect) m.verdict_loads;
              begun = omega (arith, h.begun);
            })
    ]
  ]
]

pub log_polls-LogAwaits : (a : App) (m : LogMount) → LogAwaits a m → LogAwaits a (log_polls a m)
unfolding log_polls
log_polls-LogAwaits a m h = elim (Bool-cases (log_mounted a)) [
  | inl t ↦ rw t (record { waits = λ _ _. elem-first m.effect m.verdict_loads; begun = h.begun })
  | inr f ↦ rw f h
]

-- The flag and the mount of the current effect.
current_kept :
    (a : App) (m : LogMount)
    → m.first ≤ m.effect
    → log_mounted a ≡ true
    → (cancelled m.effect a m ≡ false) × (is_kept m.effect a m ≡ true)
unfolding cancelled is_kept
current_kept a m h t = ground arith

verdicts_end :
    (answer : Outcome (List AuditRow)) (s : AuditLog)
    → (verdicts_answered false answer s).0.loading ≡ false
unfolding verdicts_answered
verdicts_end (fulfilled rows) s = refl
verdicts_end (rejected e) s = ground arith

chain_keeps :
    (gone : Bool) (now : ℕ) (answer : Outcome ChainStatus) (s : AuditLog)
    → (chain_answered gone now answer s).0.loading ≡ s.loading
unfolding chain_answered
chain_keeps true now answer s = refl
chain_keeps false now (fulfilled status) s = refl
chain_keeps false now (rejected e) s = refl

-- The log after an answer to a load of the effect `k`.
abbrev answered_log : ℕ → App → LogMount → (Bool → AuditLog × List Effect) → AuditLog
answered_log k a m answered = if is_kept k a m then (answered (cancelled k a m)).0 else m.log

-- An answer to the current effect ends the loading, and any other leaves it as it was.
current_ends :
    (a : App) (m : LogMount) (answer : Outcome (List AuditRow))
    → m.first ≤ m.effect
    → log_mounted a ≡ true
    → (answered_log m.effect a m (λ gone. verdicts_answered gone answer m.log)).loading ≡ false
current_ends a m answer h t =
    let (there, kept) = current_kept a m h t in rw (there, kept) (verdicts_end answer m.log)

other_keeps :
    (k : ℕ) (a : App) (m : LogMount) (answer : Outcome (List AuditRow))
    → k == m.effect ≡ false
    → (answered_log k a m (λ gone. verdicts_answered gone answer m.log)).loading ≡ m.log.loading
unfolding cancelled verdicts_answered
other_keeps k a m answer d = elim (Bool-cases (is_kept k a m)) [
  | inl t ↦ rw (t, d) refl
  | inr f ↦ rw f refl
]

verdicts-LogAwaits :
    (k : ℕ) (a : App) (m : LogMount) (answer : Outcome (List AuditRow))
    → LogAwaits a m
    → LogAwaits a (record m {
      log = answered_log k a m (λ gone. verdicts_answered gone answer m.log);
      verdict_loads = remove_one k m.verdict_loads;
    })
verdicts-LogAwaits k a m answer h = elim (Bool-cases (k == m.effect)) [
  | inl t ↦
      let same : k ≡ m.effect = ground arith in
      rw same (record {
        waits = λ mounted s. let e = current_ends a m answer h.begun mounted in absurd (cc);
        begun = h.begun;
      })
  | inr f ↦ record {
    waits = λ mounted s.
        elem-remove_one m.effect k m.verdict_loads f
          (h.waits mounted (sym (other_keeps k a m answer f) ∙ s));
    begun = h.begun;
  }
]

pub log_verdicts-LogAwaits :
    (k : ℕ) (answer : Outcome (List AuditRow)) (w : Whole)
    → LogAwaits w.app w.log
    → let v = log_verdicts_event k answer w in LogAwaits v.app v.log
unfolding log_verdicts_event log_becomes settle_all
log_verdicts-LogAwaits k answer w h = elim (Bool-cases (elem k w.log.verdict_loads)) [
  | inr f ↦ rw f h
  | inl t ↦ rw t (log_settled-LogAwaits w.app _ _ (verdicts-LogAwaits k w.app w.log answer h))
]

kept_loading :
    (b : Bool) (s t : AuditLog) → s.loading ≡ t.loading → (if b then s else t).loading ≡ t.loading
kept_loading true s t e = e
kept_loading false s t e = refl

pub log_chain-LogAwaits :
    (k now : ℕ) (answer : Outcome ChainStatus) (w : Whole)
    → LogAwaits w.app w.log
    → let v = log_chain_event k now answer w in LogAwaits v.app v.log
unfolding log_chain_event log_becomes settle_all
log_chain-LogAwaits k now answer w h = elim (Bool-cases (elem k w.log.chain_loads)) [
  | inr f ↦ rw f h
  | inl t ↦
      let m = w.log in
      let s = (chain_answered (cancelled k w.app m) now answer m.log).0 in
      let same =
        kept_loading (is_kept k w.app m) s m.log
          (chain_keeps (cancelled k w.app m) now answer m.log) in
      rw t (
        log_settled-LogAwaits w.app _ _
          (record { waits = λ mounted l. h.waits mounted (sym same ∙ l); begun = h.begun }))
]

module _ (lower : Text → Text) where
  act_keeps : (act : LogAct) (s : AuditLog) → (log_act lower act s).loading ≡ s.loading
  unfolding log_act handle_query_change toggle_sort_order click_next click_previous
  act_keeps (searches value) s = refl
  act_keeps sorts s = refl
  act_keeps forward s = ground arith
  act_keeps back s = ground arith

  pub log_act-LogAwaits :
      (act : LogAct) (a : App) (m : LogMount)
      → LogAwaits a m
      → LogAwaits a (record m { log = log_act lower act m.log })
  log_act-LogAwaits act a m h = record {
    waits = λ mounted l. h.waits mounted (sym (act_keeps act m.log) ∙ l);
    begun = h.begun;
  }

log_settled-loading :
    (a b : App) (m : LogMount)
    → log_mounted a ≡ true
    → (log_settled a b m).log.loading ≡ m.log.loading
unfolding log_settled
log_settled-loading a b m t = elim (Bool-cases (log_mounted b)) [
  | inr f ↦ rw f refl
  | inl t' ↦ elim (Bool-cases (b.refresh_key == a.refresh_key)) [
    | inl e ↦ rw (t', t, e) refl
    | inr e ↦ rw (t', t, e) refl
  ]
]

log_answer_ends :
    (answer : Outcome (List AuditRow)) (w : Whole)
    → LogAwaits w.app w.log
    → log_mounted w.app ≡ true
    → elem w.log.effect w.log.verdict_loads ≡ true
    → (log_verdicts_event w.log.effect answer w).log.log.loading ≡ false
unfolding log_verdicts_event log_becomes settle_all
log_answer_ends answer w h t e =
    let m = w.log in
    let (s, effects) = verdicts_answered (cancelled m.effect w.app m) answer m.log in
    let n = record m {
      log = if is_kept m.effect w.app m then s else m.log;
      verdict_loads = remove_one m.effect m.verdict_loads;
    } in
    rw e (
      log_settled-loading w.app (obey_log effects w.app) n t
      ∙ current_ends w.app m answer h.begun t)

-- The log is not rendered, or shows no skeleton, or a load of the current effect is on its way and ends
-- it, whatever the answer is.
abbrev pub LogSkeletonEnds : Whole → Type 0
LogSkeletonEnds w =
    (log_mounted w.app ≡ false)
    ⊎ ((w.log.log.loading ≡ false)
        ⊎ ((elem w.log.effect w.log.verdict_loads ≡ true)
            × ((answer : Outcome (List AuditRow))
                → (log_verdicts_event w.log.effect answer w).log.log.loading ≡ false)))

pub LogAwaits-LogSkeletonEnds : (w : Whole) → LogAwaits w.app w.log → LogSkeletonEnds w
LogAwaits-LogSkeletonEnds w h = elim (Bool-cases (log_mounted w.app)) [
  | inr f ↦ inl f
  | inl t ↦ elim (Bool-cases w.log.log.loading) [
    | inr f ↦ inr (inl f)
    | inl s ↦ let e = h.waits t s in inr (inr (e, λ answer. log_answer_ends answer w h t e))
  ]
]
