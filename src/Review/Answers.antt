-- ===== src/Review/Answers.antt =====
-- How a review panel of frontend/src/components takes the answers to its calls.
use mirraura.Base.{◌≡◌, ◌↔◌, true, false, [], ◌∷◌, Text, text, none, some, arith, ◌⊎◌}
use mirraura.Api.Request.{
  rejected, Failure, api_error, other_error, no_error, Call, has_status, message_or,
}
use mirraura.Review.{
  session_expired, calls, PendingAction, Review, admins_only, load_answered, decision_answered,
  confirm,
}

module _ {ℓ κ} {K : Type ℓ} {E : Type κ} (fallback : Text) (reload : Call) (r : Review K E) where
  -- A load and a decision that fail are treated alike: the session expires exactly on status 401, the
  -- only toast is the one of status 403, and without either the message of the error, or the fallback, is
  -- shown; with one of them what is shown as an error stays as it was. The entries stay, the load is over, and the decision leaves nothing busy or asked.
  pub rejected_answers :
      (e : Failure)
      → let l = load_answered fallback (rejected e) r in
        let d = decision_answered reload (rejected e) r in
        (l.1 ≡ d.1)
        × ((l.1 ≡ session_expired ∷ []) ↔ (has_status 401 e ≡ true))
        × ((l.1 ≡ admins_only ∷ []) ↔ (has_status 403 e ≡ true))
        × (has_status 401 e ≡ false
            → has_status 403 e ≡ false
            → (l.1 ≡ [])
              × (l.0.error ≡ some (message_or fallback e))
              × (d.0.error ≡ some (message_or (text "action failed") e)))
        × (((l.0.error ≡ r.error) × (d.0.error ≡ r.error))
            ⊎ ((has_status 401 e ≡ false) × (has_status 403 e ≡ false)))
        × (l.0.entries ≡ r.entries)
        × (d.0.entries ≡ r.entries)
        × (l.0.loading ≡ false)
        × (d.0.busy ≡ none)
        × (d.0.pending_action ≡ none)
  unfolding load_answered decision_answered
  rejected_answers (api_error m s) = ground arith
  rejected_answers (other_error m) = ground arith
  rejected_answers no_error = ground arith

module _ {ℓ κ} {K : Type ℓ} {E : Type κ} (r : Review K E) where
  -- While a question is open, confirming it again makes the same call again, whether or not the first
  -- one has been answered: the dialog's button is not disabled by the entry being busy.
  pub confirm_again :
      (action : PendingAction K)
      → r.pending_action ≡ some action
      → ((confirm r).1 ≡ calls (action.decide action.target) ∷ [])
        × ((confirm (confirm r).0).1 ≡ (confirm r).1)
        × ((confirm r).0.busy ≡ some action.target)
  unfolding confirm
  confirm_again action h = ground arith
