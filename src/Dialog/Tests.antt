-- ===== src/Dialog/Tests.antt =====
-- The dialog at a concrete input.
use mirraura.Base.{ℕ, some, text, []}
use mirraura.Review.{Review, PendingAction}
use mirraura.Review
use mirraura.Api.Endpoints.{QuarantineEntry, approve_quarantine}

abbrev action : PendingAction ℕ
action = record {
  target = 7;
  label = text "a";
  preview = [];
  decide = approve_quarantine;
  verb = text "Approve";
}

abbrev asking : Review ℕ QuarantineEntry
asking = record Review.start { pending_action = some action }
