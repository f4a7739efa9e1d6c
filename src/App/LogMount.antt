-- ===== src/App/LogMount.antt =====
-- The audit log of frontend/src/components/AuditLogTable.tsx under the page of frontend/src/App.tsx,
-- lines 183 to 191: it is mounted with its tab, its effect loads and polls, and its answers reach the
-- page unless the effect has been cleaned up.
use mirraura.Base.{ℕ, suc, ◌==◌, Bool, not, ◌&&◌, List, [], ◌∷◌, text, if◌then◌else◌, leb}
use mirraura.AuditLog.{
  AuditLog, AuditRow, verdicts_answered, chain_answered, Effect, handle_query_change,
  toggle_sort_order, click_next, click_previous,
}
use mirraura.AuditLog
use mirraura.Tabs.{panel_shown}
use mirraura.App.{App, handle_session_expired, verdicts_changed, chain_status_changed}
use mirraura.App.Connected.{is_signed_in}

-- The audit log of the current mount, the number of the mount's first effect and of its current one,
-- and the effects whose loads are on their way.
pub record LogMount : Type 0 where
  pub log : AuditLog
  pub first : ℕ
  pub effect : ℕ
  pub verdict_loads : List ℕ
  pub chain_loads : List ℕ

unfoldable pub log_mounted : App → Bool
unfolding panel_shown text
log_mounted a = is_signed_in a.user && panel_shown (text "audit") a.bottom_tab

-- `load`, called by the effect `k`.
abbrev log_loads : ℕ → LogMount → LogMount
log_loads k m = record {
  log = m.log;
  first = m.first;
  effect = k;
  verdict_loads = k ∷ m.verdict_loads;
  chain_loads = k ∷ m.chain_loads;
}

-- The log after the page has changed: a new mount, and a new refresh key, run the effect anew.
unfoldable pub log_settled : App → App → LogMount → LogMount
unfolding log_mounted
log_settled a b m =
    if log_mounted b
    then if log_mounted a
      then if b.refresh_key == a.refresh_key then m else log_loads (suc m.effect) m
      else log_loads (suc m.effect) (record m { log = AuditLog.start; first = suc m.effect })
    else m

-- The interval of the effect runs while it is mounted.
unfoldable pub log_polls : App → LogMount → LogMount
unfolding log_mounted
log_polls a m = if log_mounted a then log_loads m.effect m else m

-- The flag of the effect `k`: its cleanup has run, for the next effect or for the unmount.
unfoldable pub cancelled : ℕ → App → LogMount → Bool
unfolding log_mounted
cancelled k a m = not (k == m.effect && log_mounted a)

-- The effect `k` was one of the mount that is there: what an earlier mount sets is lost.
unfoldable pub is_kept : ℕ → App → LogMount → Bool
unfolding log_mounted
is_kept k a m = leb m.first k && log_mounted a

-- The callbacks that the page has given to the log; a toast is no matter of the page.
abbrev pub obey_log : List Effect → App → App
obey_log [] a = a
obey_log (Effect.session_expired ∷ es) a = obey_log es (handle_session_expired a)
obey_log (Effect.pushed message tone ∷ es) a = obey_log es a
obey_log (Effect.verdicts_changed rows ∷ es) a = obey_log es (verdicts_changed rows a)
obey_log (Effect.chain_changed status ∷ es) a = obey_log es (chain_status_changed status a)
