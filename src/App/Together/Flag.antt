-- ===== src/App/Together/Flag.antt =====
-- The answers to the loads of the audit log in frontend/src/components/AuditLogTable.tsx, lines 182 to 227:
-- the flag of the effect keeps the log and the page the same.
use mirraura.Base.{
  ℕ, Bool, true, false, List, [], none, some, ◌≡◌, refl, ◌⊎◌, inl, inr, Bool-cases, arith, ◌==◌,
  ◌≤◌, if◌then◌else◌,
}
use mirraura.Api.Request.{Outcome, fulfilled, rejected, has_status}
use mirraura.Api.Endpoints.{ChainStatus}
use mirraura.AuditLog.{
  AuditLog, AuditRow, verdicts_answered, chain_answered, Effect, handle_query_change,
  toggle_sort_order, click_next, click_previous, next_disabled, previous_disabled,
}
use mirraura.AuditLog
use mirraura.App.{App, handle_session_expired, verdicts_changed, chain_status_changed}
use mirraura.App.LogMount.{
  LogMount, obey_log, log_settled, log_polls, cancelled, is_kept, log_mounted,
}
use mirraura.App.Together.Lists.{SameLog}

-- The log has nothing yet, or what the page has.
pub record Matches (s : AuditLog) (a : App) : Type 0 where
  pub rows : (s.rows ≡ []) ⊎ (a.verdicts ≡ some s.rows)
  pub chain : (s.chain_status ≡ none) ⊎ (a.chain_status ≡ s.chain_status)

-- And the current effect is one of the mount.
pub record IsSound (m : LogMount) (a : App) : Type 0 where
  pub shown : Matches m.log a
  pub begun : m.first ≤ m.effect

pub same-Matches : (s : AuditLog) (a b : App) → SameLog b a → Matches s a → Matches s b
same-Matches s a b (v, c) h = ground arith

pub fresh-Matches : (a : App) → Matches AuditLog.start a
fresh-Matches a = record { rows = inl refl; chain = inl refl }

verdicts_answered-Matches :
    (gone : Bool) (answer : Outcome (List AuditRow)) (s : AuditLog) (a : App)
    → Matches s a
    → let (t, effects) = verdicts_answered gone answer s in Matches t (obey_log effects a)
unfolding verdicts_answered handle_session_expired verdicts_changed
verdicts_answered-Matches true answer s a h = h
verdicts_answered-Matches false (fulfilled rows) s a h = record { rows = inr refl; chain = h.chain }
verdicts_answered-Matches false (rejected e) s a h = elim (Bool-cases (has_status 401 e)) [
  | inl t ↦ rw t (record { rows = h.rows; chain = h.chain })
  | inr f ↦ elim (Bool-cases (has_status 403 e)) [
    | inl t ↦ rw (f, t) (record { rows = h.rows; chain = h.chain })
    | inr f' ↦ rw (f, f') (record { rows = h.rows; chain = h.chain })
  ]
]

chain_answered-Matches :
    (gone : Bool) (now : ℕ) (answer : Outcome ChainStatus) (s : AuditLog) (a : App)
    → Matches s a
    → let (t, effects) = chain_answered gone now answer s in Matches t (obey_log effects a)
unfolding chain_answered chain_status_changed
chain_answered-Matches true now answer s a h = h
chain_answered-Matches false now (fulfilled status) s a h = record {
  rows = h.rows;
  chain = inr refl;
}
chain_answered-Matches false now (rejected e) s a h = record { rows = h.rows; chain = inl refl }

-- What an effect that has not been cleaned up sets is not lost, and one that has been sets nothing.
kept_either :
    (k : ℕ) (a : App) (m : LogMount)
    → m.first ≤ m.effect
    → (cancelled k a m ≡ true) ⊎ ((cancelled k a m ≡ false) × (is_kept k a m ≡ true))
unfolding cancelled is_kept
kept_either k a m h = ground arith

either-Matches : (b : Bool) (s : AuditLog) (a : App) → Matches s a → Matches (if b then s else s) a
either-Matches true s a h = h
either-Matches false s a h = h

kept-Matches :
    (k : ℕ) (m : LogMount) (a b : App) (s : AuditLog)
    → is_kept k a m ≡ true
    → Matches s b
    → Matches (if is_kept k a m then s else m.log) b
kept-Matches k m a b s t h = rw t h

-- `answered` is what an answer does, with the flag of its effect.
answered-Matches :
    (k : ℕ) (m : LogMount) (a : App) (answered : Bool → AuditLog × List Effect)
    → IsSound m a
    → answered true ≡ (m.log, [])
    → Matches (answered false).0 (obey_log (answered false).1 a)
    → let (s, effects) = answered (cancelled k a m) in
      Matches (if is_kept k a m then s else m.log) (obey_log effects a)
answered-Matches k m a answered h idle sets = elim (kept_either k a m h.begun) [
  | inl gone ↦ rw (gone, idle) (either-Matches (is_kept k a m) m.log a h.shown)
  | inr (there, kept) ↦
      let (s, effects) = answered false in
      rw there (kept-Matches k m a (obey_log effects a) s kept sets)
]

pub verdicts_kept :
    (k : ℕ) (m : LogMount) (answer : Outcome (List AuditRow)) (a : App)
    → IsSound m a
    → let (s, effects) = verdicts_answered (cancelled k a m) answer m.log in
      Matches (if is_kept k a m then s else m.log) (obey_log effects a)
unfolding verdicts_answered
verdicts_kept k m answer a h =
    answered-Matches k m a (λ gone. verdicts_answered gone answer m.log) h refl
      (verdicts_answered-Matches false answer m.log a h.shown)

pub chain_kept :
    (k now : ℕ) (m : LogMount) (answer : Outcome ChainStatus) (a : App)
    → IsSound m a
    → let (s, effects) = chain_answered (cancelled k a m) now answer m.log in
      Matches (if is_kept k a m then s else m.log) (obey_log effects a)
unfolding chain_answered
chain_kept k now m answer a h =
    answered-Matches k m a (λ gone. chain_answered gone now answer m.log) h refl
      (chain_answered-Matches false now answer m.log a h.shown)

pub log_settled-IsSound : (a b : App) (m : LogMount) → IsSound m b → IsSound (log_settled a b m) b
unfolding log_settled
log_settled-IsSound a b m h = elim (Bool-cases (log_mounted b)) [
  | inr f ↦ rw f h
  | inl t ↦ elim (Bool-cases (log_mounted a)) [
    | inr f ↦ rw (t, f) (record { shown = fresh-Matches b; begun = omega arith })
    | inl t' ↦ elim (Bool-cases (b.refresh_key == a.refresh_key)) [
      | inl e ↦ rw (t, t', e) h
      | inr e ↦ rw (t, t', e) (record { shown = h.shown; begun = omega (arith, h.begun) })
    ]
  ]
]

pub log_polls-IsSound : (a : App) (m : LogMount) → IsSound m a → IsSound (log_polls a m) a
unfolding log_polls
log_polls-IsSound a m h = elim (Bool-cases (log_mounted a)) [
  | inl t ↦ rw t (record { shown = h.shown; begun = h.begun })
  | inr f ↦ rw f h
]
