-- ===== src/AuditLog/Loads.antt =====
-- The loading of frontend/src/components/AuditLogTable.tsx, lines 182 to 227: an effect loads, polls,
-- and is cancelled by the next one, while answers come in any order.
use mirraura.Base.{
  ℕ, suc, ◌≡◌, ◌↔◌, ◌==◌, true, false, not, List, [], ◌∷◌, ◌++◌, Text, elem, elem-append, elem-cons,
  none, arith, refl, elem-first,
}
use mirraura.Api.Request.{Outcome, fulfilled, rejected}
use mirraura.Api.Endpoints.{ChainStatus}
use mirraura.AuditLog.{
  AuditRow, AuditLog, start, verdicts_answered, chain_answered, handle_query_change,
  toggle_sort_order, click_next, click_previous,
}

-- The log, the number of the current effect, and the effects of the loads that are on their way.
pub record World : Type 0 where
  pub log : AuditLog
  pub effect : ℕ
  pub verdict_loads : List ℕ
  pub chain_loads : List ℕ

module _ (lower : Text → Text) where
  pub data Step (w v : World) : Type 0 where
    polls :
        v ≡ record w {
          verdict_loads = w.effect ∷ w.verdict_loads;
          chain_loads = w.effect ∷ w.chain_loads;
        }
        → Step w v
    refreshes :
        v ≡ record w {
          effect = suc w.effect;
          verdict_loads = suc w.effect ∷ w.verdict_loads;
          chain_loads = suc w.effect ∷ w.chain_loads;
        }
        → Step w v
    verdicts :
        (before : List ℕ) (k : ℕ) (after : List ℕ) (answer : Outcome (List AuditRow))
        → w.verdict_loads ≡ before ++ k ∷ after
        → v ≡ record w {
          log = (verdicts_answered (not (k == w.effect)) answer w.log).0;
          verdict_loads = before ++ after;
        }
        → Step w v
    chain :
        (before : List ℕ) (k : ℕ) (after : List ℕ) (now : ℕ) (answer : Outcome ChainStatus)
        → w.chain_loads ≡ before ++ k ∷ after
        → v ≡ record w {
          log = (chain_answered (not (k == w.effect)) now answer w.log).0;
          chain_loads = before ++ after;
        }
        → Step w v
    searches : (value : Text) → v ≡ record w { log = handle_query_change value w.log } → Step w v
    sorts : v ≡ record w { log = toggle_sort_order w.log } → Step w v
    forward : v ≡ record w { log = click_next lower w.log } → Step w v
    back : v ≡ record w { log = click_previous lower w.log } → Step w v

  pub data Reach : World → Type 0 where
    begin : Reach (record { log = start; effect = 0; verdict_loads = 0 ∷ []; chain_loads = 0 ∷ [] })
    next : {w v : World} → Reach w → Step w v → Reach v

pub record IsAwaited (w : World) : Type 0 where
  -- A log that loads has a load of the current effect on its way, which will end that.
  pub awaited : w.log.loading ≡ true → elem w.effect w.verdict_loads ≡ true
  pub checked : (w.log.chain_status ≡ none) ↔ (w.log.chain_checked_at ≡ none)

answer_ends :
    (answer : Outcome (List AuditRow)) (s : AuditLog)
    → (verdicts_answered false answer s).0.loading ≡ false
unfolding verdicts_answered
answer_ends (fulfilled rows) s = refl
answer_ends (rejected e) s = ground arith

elem-between :
    (n k : ℕ) (before after : List ℕ)
    → elem n (before ++ k ∷ after) ≡ true
    → n == k ≡ false
    → elem n (before ++ after) ≡ true
elem-between n k before after h d =
    ground
      (arith, elem-append n before (k ∷ after), elem-append n before after, elem-cons n k after)

module _ (lower : Text → Text) where
  Step-IsAwaited : {w v : World} → Step lower w v → IsAwaited w → IsAwaited v
  unfolding verdicts_answered chain_answered handle_query_change toggle_sort_order click_next
      click_previous
  Step-IsAwaited {w} (polls e) s = ground (arith, elem-first w.effect w.verdict_loads)
  Step-IsAwaited {w} (refreshes e) s = ground (arith, elem-first (suc w.effect) w.verdict_loads)
  Step-IsAwaited {w} (verdicts before k after (fulfilled rows) m e) s =
      ground (arith, elem-between w.effect k before after)
  Step-IsAwaited {w} (verdicts before k after (rejected f) m e) s =
      ground (arith, elem-between w.effect k before after)
  Step-IsAwaited (chain before k after now (fulfilled c) m e) s = ground arith
  Step-IsAwaited (chain before k after now (rejected f) m e) s = ground arith
  Step-IsAwaited (searches value e) s = ground arith
  Step-IsAwaited (sorts e) s = ground arith
  Step-IsAwaited (forward e) s = ground arith
  Step-IsAwaited (back e) s = ground arith

  -- After any polls, refreshes, clicks and answers, in any order: a log that is still loading has a load
  -- of the current effect on its way, whose answer ends the loading whatever it is, and the time of the
  -- last check is there exactly with the status of the chain.
  pub Reach-IsAwaited :
      {w : World}
      → Reach lower w
      → IsAwaited w
        × ((answer : Outcome (List AuditRow))
            → (verdicts_answered false answer w.log).0.loading ≡ false)
  Reach-IsAwaited {w} r = (awaited r, (λ answer. answer_ends answer w.log))
    where
      awaited : {v : World} → Reach lower v → IsAwaited v
      awaited begin = ground (arith, elem-first 0 [])
      awaited (next q s) = Step-IsAwaited s (awaited q)
