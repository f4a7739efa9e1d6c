-- ===== src/Corpus/Submit.antt =====
-- Submitting a sample in frontend/src/components/CorpusReview.tsx.
use mirraura.Base.{
  ℕ, ◌≤◌, ◌<◌, ◌≡◌, ◌≢◌, ◌↔◌, refl, List, [], ◌∷◌, Text, text, trim, Option, none, some, All, arith,
  suc,
}
use mirraura.Api.Request.{fulfilled, File, post, json}
use mirraura.Api.Base64.{content_b64, atob, atob-content_b64}
use mirraura.Api.Endpoints.{submit_corpus_sample, max_corpus_sample_bytes}
use mirraura.Corpus.{Corpus, handle_submit, submit_answered}

abbrev pub IsAllowed : Option File → Type 0
IsAllowed none = ⊥
IsAllowed (some file) = (1 ≤ file.size) × (file.size ≤ max_corpus_sample_bytes)

-- The form lets a file through exactly if it has between 1 and 65536 bytes; without a file, or with
-- another size, it shows an error and makes no call, and in every case it keeps the file and the
-- entries until the answer.
pub corpus_submit_iff :
    (c : Corpus)
    → (((handle_submit c).1 ≢ none) ↔ IsAllowed c.file_input)
      × (((handle_submit c).1 ≡ none) ↔ ((handle_submit c).0.file_error ≢ none))
      × ((handle_submit c).0.file_input ≡ c.file_input)
      × ((handle_submit c).0.entries ≡ c.entries)
unfolding handle_submit
corpus_submit_iff c = ground arith

-- For a readable file of an allowed size the call posts to the corpus a text that decodes to exactly
-- the bytes of the file, with the trimmed label, and success clears the file and remounts the input.
pub submit_bytes :
    (c : Corpus) (file : File) (bytes : List ℕ)
    → c.file_input ≡ some file
    → 1 ≤ file.size
    → file.size ≤ max_corpus_sample_bytes
    → file.content ≡ fulfilled bytes
    → All (λ b. b < 256) bytes
    → (sent : Text) × ((handle_submit c).1
        ≡ some (
            fulfilled (record {
              path = text "/api/corpus";
              method = post;
              body = json ((text "content_b64", sent) ∷ (text "label", trim c.label_input) ∷ []);
            })))
      × (atob sent ≡ bytes)
      × ((submit_answered (fulfilled tt) c).0.file_input ≡ none)
      × ((submit_answered (fulfilled tt) c).0.form_key ≡ suc c.form_key)
unfolding handle_submit submit_answered submit_corpus_sample
submit_bytes c file bytes e lo hi r h =
    (content_b64 bytes, ground arith, atob-content_b64 bytes h, refl, refl)
