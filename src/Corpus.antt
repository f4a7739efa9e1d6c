-- ===== src/Corpus.antt =====
-- frontend/src/components/CorpusReview.tsx
pub mod Submit
pub mod Screen
mod Tests
use mirraura.Base.{
  ℕ, suc, ◌/◌, Bool, true, false, ◌||◌, List, [], ◌∷◌, ◌++◌, Text, text, map, length, trim, ltb,
  ◌==◌, decimal, Option, none, some, is_some, map_some, get_or_else, if◌then◌else◌, text_eq,
}
use mirraura.Types.{Role}
use mirraura.Api.Request.{Outcome, fulfilled, rejected, Call, File}
use mirraura.Api.Endpoints.{
  CorpusEntry, corpus_call, submit_corpus_sample, approve_corpus_entry, reject_corpus_entry,
  max_corpus_sample_bytes,
}
use mirraura.Review.{
  Effect, calls, PendingAction, Review, Body, failed, load_answered, body, row_buttons,
  label_or_none,
}
use mirraura.Review
use mirraura.Review.Protocol.{Panel}

pub record Corpus : Type 0 where
  pub review : Review Text CorpusEntry
  pub open review use *
  pub file_input : Option File
  pub label_input : Text
  pub file_error : Option Text
  pub form_key : ℕ

abbrev pub start : Corpus
start = record {
  review = Review.start;
  file_input = none;
  label_input = [];
  file_error = none;
  form_key = 0;
}

unfoldable pub refetch : List (Effect CorpusEntry)
refetch = calls corpus_call ∷ []

unfoldable pub refetch_answered :
    Outcome (List CorpusEntry) → Corpus → Corpus × List (Effect CorpusEntry)
unfolding load_answered
refetch_answered answer c =
    let (r, effects) =
      load_answered (text "failed to load pending corpus samples") answer c.review in
    (record c { review = r }, effects)

abbrev pub ask_approve : CorpusEntry → PendingAction Text
ask_approve e = record {
  target = e.content_hash;
  label = e.label;
  preview = e.preview;
  decide = approve_corpus_entry;
  verb = text "Approve";
}

abbrev pub ask_reject : CorpusEntry → PendingAction Text
ask_reject e = record {
  target = e.content_hash;
  label = e.label;
  preview = e.preview;
  decide = reject_corpus_entry;
  verb = text "Reject";
}

abbrev pub refuse : Text → Corpus → Corpus
refuse message c = record c {
  review = record (c.review) { error = none };
  file_error = some message;
}

abbrev size_message : Text
size_message =
    text "Sample must be between 1 byte and "
    ++ (decimal (max_corpus_sample_bytes / 1024) ++ text " KB.")

-- `none` if the form refuses, and else the call, or the failure to read the file, which then is the
-- answer that `submit_answered` gets.
unfoldable pub handle_submit : Corpus → Corpus × Option (Outcome Call)
handle_submit c = elim c.file_input [
  | none ↦ (refuse (text "Choose a sample file.") c, none)
  | some file ↦
      if file.size == 0 || ltb max_corpus_sample_bytes file.size
      then (refuse size_message c, none)
      else (
        record c { review = record (c.review) { error = none }; file_error = none },
        some (submit_corpus_sample file (trim c.label_input)),
      )
]

unfoldable pub submit_answered : Outcome (Unit {0}) → Corpus → Corpus × List (Effect CorpusEntry)
unfolding failed refetch
submit_answered (fulfilled _) c =
    (record c { file_input = none; label_input = []; form_key = suc c.form_key }, refetch)
submit_answered (rejected e) c =
    let (r, effects) = failed (text "submit failed") e c.review in
    (record c { review = r }, effects)

unfoldable pub change_file_input : Option File → Corpus → Corpus
change_file_input file c = record c { file_input = file; file_error = none }

unfoldable pub change_label_input : Text → Corpus → Corpus
change_label_input value c = record c { label_input = value }

abbrev pub is_busy : Option Text → Text → Bool
is_busy none hash = false
is_busy (some busy) hash = text_eq busy hash

abbrev pub panel : Panel Text CorpusEntry
panel = record {
  reload = corpus_call;
  load_fallback = text "failed to load pending corpus samples";
  shown = λ e. true;
  is_busy = λ busy (e : CorpusEntry). is_busy busy e.content_hash;
  ask_approve = ask_approve;
  ask_reject = ask_reject;
}

-- What is rendered.
pub record Row : Type 0 where
  pub content_hash : Text
  pub label : Text
  pub preview : Text
  pub size : Text
  pub proposed_at : Text
  pub buttons : Option Bool

pub record View : Type 0 where
  pub count : ℕ
  pub error : Option Text
  pub rows : Body Row
  pub file_error : Option Text
  pub dialog_open : Bool
  pub dialog_title : Text
  pub dialog_description : List Text
  pub confirm_label : Text

abbrev verb_of : Option (PendingAction Text) → Option Text
verb_of = map_some (λ (a : PendingAction Text). a.verb)

abbrev describe : PendingAction Text → List Text
describe a =
    a.target
    ∷ label_or_none a.label
    ∷ a.preview
    ∷ (if text_eq a.verb (text "Approve")
        then text
            "Uploads at least 85% similar to this will be marked Compromised without detonation."
        else text "It will not be used for similarity matching.")
    ∷ []

unfoldable pub row : Role → Corpus → CorpusEntry → Row
unfolding row_buttons
row role c e = record {
  content_hash = e.content_hash;
  label = e.label;
  preview = e.preview;
  size = decimal e.size ++ text " B";
  proposed_at = e.proposed_at;
  buttons = row_buttons role (is_busy c.busy e.content_hash);
}

unfoldable pub view : Role → Corpus → View
unfolding row body
view role c = record {
  count = length c.entries;
  error = c.error;
  rows = body c.loading (map (row role c) c.entries);
  file_error = c.file_error;
  dialog_open = is_some c.pending_action;
  dialog_title = get_or_else (verb_of c.pending_action) [] ++ text " this sample?";
  dialog_description = get_or_else (map_some describe c.pending_action) [];
  confirm_label = get_or_else (verb_of c.pending_action) (text "Confirm");
}
