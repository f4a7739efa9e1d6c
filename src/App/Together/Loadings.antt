-- ===== src/App/Together/Loadings.antt =====
-- When the review panels of frontend/src/components show their skeletons, `loading`: until the first answer
-- to a load.
use mirraura.Base.{ℕ, false, List, Text, ◌≡◌, refl, text, arith, Bool}
use mirraura.Api.Request.{Outcome, fulfilled, rejected, Failure, Call}
use mirraura.Api.Endpoints.{
  QuarantineEntry, HashEntry, CorpusEntry, fetch_hashes, ChainStatus, fetch_quarantine_pending,
}
use mirraura.Api.Endpoints
use mirraura.Review.{Review, failed, load_answered, decision_answered}
use mirraura.Hashes.{Hashes}
use mirraura.Hashes
use mirraura.Corpus.{Corpus}
use mirraura.Corpus
use mirraura.Quarantine
use mirraura.App.{text, Bool}
use mirraura.App.Dashboard.Slots.{
  hashes_slot, corpus_slot, quarantine_slot, FormCall, decision, submission,
}
use mirraura.App.Together.Awaits.{Loading}

module _ {K E : Type 0} where
  pub failed-loading :
      (fallback : Text) (e : Failure) (r : Review K E) → (failed fallback e r).0.loading ≡ r.loading
  unfolding failed
  failed-loading fallback e r = ground arith

  pub load-loading :
      (fallback : Text) (answer : Outcome (List E)) (r : Review K E)
      → (load_answered fallback answer r).0.loading ≡ false
  unfolding load_answered
  load-loading fallback (fulfilled es) r = refl
  load-loading fallback (rejected e) r = refl

  pub decision-loading :
      (reload : Call) (answer : Outcome (Unit {0})) (r : Review K E)
      → (decision_answered reload answer r).0.loading ≡ r.loading
  unfolding decision_answered
  decision-loading reload (fulfilled _) r = refl
  decision-loading reload (rejected e) r = failed-loading (text "action failed") e r

-- The hashes panel shows its skeleton.
abbrev pub hashes_skeleton : Hashes → Bool
hashes_skeleton p = p.review.loading

pub hashes_slot-Loading : Loading hashes_slot hashes_skeleton
unfolding Hashes.refetch_answered Hashes.submit_answered Hashes.refetch
hashes_slot-Loading = record {
  ends = λ answer p. load-loading (text "failed to load pending hashes") answer p.review;
  keeps = keeps;
}
  where
    keeps :
        (c : FormCall) (answer : Outcome (Unit {0})) (p : Hashes)
        → (hashes_slot.call_answered c answer p).0.review.loading ≡ p.review.loading
    keeps decision answer p = decision-loading fetch_hashes answer p.review
    keeps submission (fulfilled _) p = refl
    keeps submission (rejected e) p = failed-loading (text "submit failed") e p.review

-- The corpus panel shows its skeleton.
abbrev pub corpus_skeleton : Corpus → Bool
corpus_skeleton p = p.review.loading

pub corpus_slot-Loading : Loading corpus_slot corpus_skeleton
unfolding Corpus.refetch_answered Corpus.submit_answered Corpus.refetch
corpus_slot-Loading = record {
  ends = λ answer p. load-loading (text "failed to load pending corpus samples") answer p.review;
  keeps = keeps;
}
  where
    keeps :
        (c : FormCall) (answer : Outcome (Unit {0})) (p : Corpus)
        → (corpus_slot.call_answered c answer p).0.review.loading ≡ p.review.loading
    keeps decision answer p = decision-loading Endpoints.corpus_call answer p.review
    keeps submission (fulfilled _) p = refl
    keeps submission (rejected e) p = failed-loading (text "submit failed") e p.review

-- The quarantine panel shows its skeleton.
abbrev pub quarantine_skeleton : Review ℕ QuarantineEntry → Bool
quarantine_skeleton p = p.loading

pub quarantine_slot-Loading : Loading quarantine_slot quarantine_skeleton
unfolding Quarantine.refetch_answered
quarantine_slot-Loading = record {
  ends = λ answer p. load-loading (text "failed to load quarantined files") answer p;
  keeps = λ c answer p. decision-loading fetch_quarantine_pending answer p;
}
