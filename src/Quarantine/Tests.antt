-- ===== src/Quarantine/Tests.antt =====
-- The review panels of frontend/src/components at concrete inputs, by QuarantineReview.tsx.
use mirraura.Base.{
  ◌≡◌, refl, [], ◌∷◌, text, false, List, ℕ, some, arith, none, here, ◌↔◌, inl, true, ◌⊎◌,
}
use mirraura.Types.{admin, pending}
use mirraura.Api.Request.{Outcome, fulfilled, rejected, Failure, api_error, has_status, message_or}
use mirraura.Api.Endpoints.{QuarantineEntry, approve_quarantine, fetch_quarantine_pending}
use mirraura.Review.{
  Review, load_answered, decision_answered, confirm, ask, session_expired, admins_only, row_buttons,
}
use mirraura.Review.Protocol.{
  World, Reach, begin, next, loaded, asks, confirms, IsGuarded, Reach-IsGuarded,
}
use mirraura.Review.Answers.{rejected_answers}
use mirraura.Quarantine.{panel, ask_approve, row_buttons}

abbrev entry : QuarantineEntry
entry = record {
  id = 7;
  original_path = text "/tmp/a";
  filename = text "a";
  sample_hash = text "ab";
  verdict_label = text "Suspicious";
  confidence = record { negative = false; mantissa = 5; scale = 1 };
  status = pending;
  created_at = text "now";
}

abbrev one_entry : Outcome (List QuarantineEntry)
one_entry = fulfilled (entry ∷ [])

abbrev listed : Review ℕ QuarantineEntry
listed = record {
  entries = entry ∷ [];
  busy = none;
  error = none;
  pending_action = none;
  loading = false;
}

abbrev asked : Review ℕ QuarantineEntry
asked = record listed { pending_action = some (ask_approve entry) }

abbrev decided_world : World panel admin
decided_world = record {
  review = record asked { busy = some 7 };
  loads = 0;
  deciding = approve_quarantine 7 ∷ [];
  made = approve_quarantine 7 ∷ [];
  listed = entry ∷ [];
}

decided_reached : Reach panel admin decided_world
unfolding load_answered ask confirm row_buttons
decided_reached =
    next
      (next (next begin (loaded one_entry (omega arith) refl))
        (asks entry (ask_approve entry) refl here refl (inl refl) refl))
      (confirms (ask_approve entry) refl refl)

Reach-IsGuarded_example : IsGuarded panel admin decided_world
Reach-IsGuarded_example = Reach-IsGuarded panel admin decided_reached

abbrev refused : Failure
refused = api_error (text "no") 403

rejected_answers_example :
    let e = refused in
    let l = load_answered (text "failed") (rejected e) asked in
    let d = decision_answered fetch_quarantine_pending (rejected e) asked in
    (l.1 ≡ d.1)
    × ((l.1 ≡ session_expired ∷ []) ↔ (has_status 401 e ≡ true))
    × ((l.1 ≡ admins_only ∷ []) ↔ (has_status 403 e ≡ true))
    × (has_status 401 e ≡ false
        → has_status 403 e ≡ false
        → (l.1 ≡ [])
          × (l.0.error ≡ some (message_or (text "failed") e))
          × (d.0.error ≡ some (message_or (text "action failed") e)))
    × (((l.0.error ≡ asked.error) × (d.0.error ≡ asked.error))
        ⊎ ((has_status 401 e ≡ false) × (has_status 403 e ≡ false)))
    × (l.0.entries ≡ asked.entries)
    × (d.0.entries ≡ asked.entries)
    × (l.0.loading ≡ false)
    × (d.0.busy ≡ none)
    × (d.0.pending_action ≡ none)
rejected_answers_example = rejected_answers (text "failed") fetch_quarantine_pending asked refused
