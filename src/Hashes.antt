-- ===== src/Hashes.antt =====
-- frontend/src/components/PendingHashApprovals.tsx
pub mod Submit
pub mod Screen
mod Tests
use mirraura.Base.{
  ℕ, Bool, true, false, List, [], ◌∷◌, ◌++◌, Text, text, map, filter, length, trim, Option, none,
  some, is_some, map_some, get_or_else, if◌then◌else◌, text_eq, refl,
}
use mirraura.Types.{Role, pending, approved}
use mirraura.Api.Request.{Outcome, fulfilled, rejected, Call}
use mirraura.Api.Hex.{is_valid_sha256}
use mirraura.Api.Endpoints.{
  HashEntry, fetch_hashes, submit_hash, approve_hash, reject_hash, is_pending, EntrySource,
}
use mirraura.Review.{
  Effect, calls, PendingAction, Review, Body, failed, load_answered, decision_answered, body,
  row_buttons, label_or_none,
}
use mirraura.Review
use mirraura.Review.Protocol.{Panel}
use mathlib.Core.Bool.{true}
use mathlib.Core.List.{◌++◌}

pub record Hashes : Type 0 where
  pub review : Review Text HashEntry
  pub open review use *
  pub hash_input : Text
  pub label_input : Text
  pub hash_error : Option Text

abbrev pub start : Hashes
start = record { review = Review.start; hash_input = []; label_input = []; hash_error = none }

unfoldable pub refetch : List (Effect HashEntry)
refetch = calls fetch_hashes ∷ []

unfoldable pub refetch_answered :
    Outcome (List HashEntry) → Hashes → Hashes × List (Effect HashEntry)
unfolding load_answered
refetch_answered answer c =
    let (r, effects) = load_answered (text "failed to load pending hashes") answer c.review in
    (record c { review = r }, effects)

-- The entries that the table lists.
unfoldable pub pending_entries : Hashes → List HashEntry
pending_entries c = filter (λ (e : HashEntry). is_pending e.status) c.entries

abbrev pub ask_approve : HashEntry → PendingAction Text
ask_approve e = record {
  target = e.hash;
  label = e.label;
  preview = [];
  decide = approve_hash;
  verb = text "Approve";
}

abbrev pub ask_reject : HashEntry → PendingAction Text
ask_reject e = record {
  target = e.hash;
  label = e.label;
  preview = [];
  decide = reject_hash;
  verb = text "Reject";
}

-- The state is set before the call; `none` is a submission that is refused.
unfoldable pub handle_submit : Hashes → Hashes × List (Effect HashEntry)
handle_submit c =
    let hash = trim c.hash_input in
    if is_valid_sha256 hash
    then (
      record c { review = record (c.review) { error = none }; hash_error = none },
      calls (submit_hash hash (trim c.label_input)) ∷ [],
    )
    else (
      record c {
        review = record (c.review) { error = none };
        hash_error = some (text "Must be 64 lowercase hex characters (a SHA-256 hash).");
      },
      [],
    )

unfoldable pub submit_answered : Outcome (Unit {0}) → Hashes → Hashes × List (Effect HashEntry)
unfolding failed refetch
submit_answered (fulfilled _) c = (record c { hash_input = []; label_input = [] }, refetch)
submit_answered (rejected e) c =
    let (r, effects) = failed (text "submit failed") e c.review in
    (record c { review = r }, effects)

unfoldable pub change_hash_input : Text → Hashes → Hashes
change_hash_input value c = record c { hash_input = value; hash_error = none }

unfoldable pub change_label_input : Text → Hashes → Hashes
change_label_input value c = record c { label_input = value }

abbrev pub is_busy : Option Text → Text → Bool
is_busy none hash = false
is_busy (some busy) hash = text_eq busy hash

abbrev pub panel : Panel Text HashEntry
panel = record {
  reload = fetch_hashes;
  load_fallback = text "failed to load pending hashes";
  shown = λ (e : HashEntry). is_pending e.status;
  is_busy = λ busy (e : HashEntry). is_busy busy e.hash;
  ask_approve = ask_approve;
  ask_reject = ask_reject;
}

-- What is rendered.
pub record Row : Type 0 where
  pub hash : Text
  pub label : Text
  pub source : EntrySource
  pub proposed_at : Text
  pub buttons : Option Bool

pub record Dialog : Type 0 where
  pub is_open : Bool
  pub title : Text
  pub description : List Text
  pub confirm_label : Text

pub record View : Type 0 where
  pub count : ℕ
  pub error : Option Text
  pub rows : Body Row
  pub hash_error : Option Text
  pub dialog : Dialog

-- `busyHash === e.hash`
abbrev verb_of : Option (PendingAction Text) → Option Text
verb_of = map_some (λ (a : PendingAction Text). a.verb)

abbrev describe : PendingAction Text → List Text
describe a = a.target ∷ label_or_none a.label ∷ []

unfoldable pub row : Role → Hashes → HashEntry → Row
unfolding row_buttons
row role c e = record {
  hash = e.hash;
  label = e.label;
  source = e.source;
  proposed_at = e.proposed_at;
  buttons = row_buttons role (is_busy c.busy e.hash);
}

unfoldable pub view : Role → Hashes → View
unfolding row pending_entries body
view role c = record {
  count = length (pending_entries c);
  error = c.error;
  rows = body c.loading (map (row role c) (pending_entries c));
  hash_error = c.hash_error;
  dialog = record {
    is_open = is_some c.pending_action;
    title = get_or_else (verb_of c.pending_action) [] ++ text " this hash?";
    description = get_or_else (map_some describe c.pending_action) [];
    confirm_label = get_or_else (verb_of c.pending_action) (text "Confirm");
  };
}
