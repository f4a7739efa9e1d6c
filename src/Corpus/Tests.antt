-- ===== src/Corpus/Tests.antt =====
-- frontend/src/components/CorpusReview.tsx at concrete inputs.
use mirraura.Base.{◌≡◌, ◌≢◌, [], ◌∷◌, text, some, none, false, ◌↔◌}
use mirraura.Types.{pending}
use mirraura.Api.Request.{File, fulfilled}
use mirraura.Api.Endpoints.{CorpusEntry, EntrySource}
use mirraura.Review.{rows_of}
use mirraura.Review
use mirraura.Corpus.{Corpus, start, handle_submit}
use mirraura.Corpus.Submit.{IsAllowed, corpus_submit_iff}

abbrev small : File
small = record { name = text "a.bin"; size = 2; content = fulfilled (77 ∷ 255 ∷ []) }

abbrev chosen : Corpus
chosen = record start { file_input = some small; label_input = text "dropper" }

corpus_submit_iff_example :
    (((handle_submit chosen).1 ≢ none) ↔ IsAllowed chosen.file_input)
    × (((handle_submit chosen).1 ≡ none) ↔ ((handle_submit chosen).0.file_error ≢ none))
    × ((handle_submit chosen).0.file_input ≡ chosen.file_input)
    × ((handle_submit chosen).0.entries ≡ chosen.entries)
corpus_submit_iff_example = corpus_submit_iff chosen

abbrev sample : CorpusEntry
sample = record {
  content_hash = text "ab";
  label = [];
  status = pending;
  source = EntrySource.manual;
  proposed_at = text "now";
  reviewed_at = none;
  size = 2;
  preview = text "M";
}

abbrev listed : Corpus
listed = record start { review = record Review.start { entries = sample ∷ []; loading = false } }
