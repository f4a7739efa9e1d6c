-- ===== src/Quarantine.antt =====
-- frontend/src/components/QuarantineReview.tsx
pub mod Screen
mod Tests
use mirraura.Base.{
  ℕ, Bool, true, false, List, [], ◌∷◌, ◌++◌, Text, text, map, length, ◌==◌, Option, none, some,
  is_some, map_some, get_or_else, if◌then◌else◌, text_eq,
}
use mirraura.Types.{Role, Double}
use mirraura.Api.Request.{Outcome, Call}
use mirraura.Api.Endpoints.{
  QuarantineEntry, fetch_quarantine_pending, approve_quarantine, reject_quarantine,
}
use mirraura.Review.{Effect, calls, PendingAction, Review, Body, load_answered, body, row_buttons}
use mirraura.Review.Protocol.{Panel}

unfoldable pub refetch : List (Effect QuarantineEntry)
refetch = calls fetch_quarantine_pending ∷ []

unfoldable pub refetch_answered :
    Outcome (List QuarantineEntry)
    → Review ℕ QuarantineEntry
    → Review ℕ QuarantineEntry × List (Effect QuarantineEntry)
unfolding load_answered
refetch_answered answer r = load_answered (text "failed to load quarantined files") answer r

abbrev pub ask_approve : QuarantineEntry → PendingAction ℕ
ask_approve q = record {
  target = q.id;
  label = q.filename;
  preview = [];
  decide = approve_quarantine;
  verb = text "Approve";
}

abbrev pub ask_reject : QuarantineEntry → PendingAction ℕ
ask_reject q = record {
  target = q.id;
  label = q.filename;
  preview = [];
  decide = reject_quarantine;
  verb = text "Reject";
}

abbrev pub is_busy : Option ℕ → ℕ → Bool
is_busy none id = false
is_busy (some busy) id = busy == id

abbrev pub panel : Panel ℕ QuarantineEntry
panel = record {
  reload = fetch_quarantine_pending;
  load_fallback = text "failed to load quarantined files";
  shown = λ q. true;
  is_busy = λ busy (q : QuarantineEntry). is_busy busy q.id;
  ask_approve = ask_approve;
  ask_reject = ask_reject;
}

-- What is rendered; `confidence` is shown with two digits.
pub record Row : Type 0 where
  pub id : ℕ
  pub filename : Text
  pub sample_hash : Text
  pub verdict_label : Text
  pub confidence : Double
  pub original_path : Text
  pub created_at : Text
  pub buttons : Option Bool

pub record View : Type 0 where
  pub count : ℕ
  pub error : Option Text
  pub rows : Body Row
  pub dialog_open : Bool
  pub dialog_title : Text
  pub dialog_description : List Text
  pub confirm_label : Text

abbrev verb_of : Option (PendingAction ℕ) → Option Text
verb_of = map_some (λ (a : PendingAction ℕ). a.verb)

abbrev describe : PendingAction ℕ → List Text
describe a =
    a.label
    ∷ (if text_eq a.verb (text "Approve")
        then text "It will be released back to its original location."
        else text "It stays quarantined and will not be released.")
    ∷ []

unfoldable pub row : Role → Review ℕ QuarantineEntry → QuarantineEntry → Row
unfolding row_buttons
row role r q = record {
  id = q.id;
  filename = q.filename;
  sample_hash = q.sample_hash;
  verdict_label = q.verdict_label;
  confidence = q.confidence;
  original_path = q.original_path;
  created_at = q.created_at;
  buttons = row_buttons role (is_busy r.busy q.id);
}

unfoldable pub view : Role → Review ℕ QuarantineEntry → View
unfolding row body
view role r = record {
  count = length r.entries;
  error = r.error;
  rows = body r.loading (map (row role r) r.entries);
  dialog_open = is_some r.pending_action;
  dialog_title = get_or_else (verb_of r.pending_action) [] ++ text " this file?";
  dialog_description = get_or_else (map_some describe r.pending_action) [];
  confirm_label = get_or_else (verb_of r.pending_action) (text "Confirm");
}
