-- ===== src/App/Dashboard/Slots.antt =====
-- The panels of frontend/src/App.tsx, lines 192 to 218, and that each of them is what the page relies
-- on.
use mirraura.Base.{ℕ, List, ◌≡◌, refl, Text, text, arith}
use mirraura.Api.Request.{Outcome, fulfilled, rejected, Failure, Call}
use mirraura.Api.Endpoints.{
  HashEntry, CorpusEntry, QuarantineEntry, fetch_hashes, corpus_call, fetch_quarantine_pending,
}
use mirraura.Review.{Effect, Review, failed, load_answered, decision_answered}
use mirraura.Review
use mirraura.Hashes.{Hashes}
use mirraura.Hashes
use mirraura.Corpus.{Corpus}
use mirraura.Corpus
use mirraura.Quarantine
use mirraura.App.{App, hashes_changed, corpus_changed, quarantine_changed}
use mirraura.App.Dashboard.{Slot, Laws, IsHarmless}

-- The calls of a panel with a form, besides its loads.
pub data FormCall : Type 0 where
  decision submission : FormCall

abbrev hashes_call : FormCall → Outcome (Unit {0}) → Hashes → Hashes × List (Effect HashEntry)
hashes_call decision answer c =
    let (r, effects) = decision_answered fetch_hashes answer c.review in
    (record c { review = r }, effects)
hashes_call submission answer c = Hashes.submit_answered answer c

abbrev pub hashes_slot : Slot Hashes HashEntry FormCall
hashes_slot = record {
  tab = text "hashes";
  start_panel = Hashes.start;
  entries = λ (c : Hashes). c.entries;
  load_answered = Hashes.refetch_answered;
  call_answered = hashes_call;
  hand = hashes_changed;
  handed = λ (a : App). a.hashes;
}

abbrev corpus_answer : FormCall → Outcome (Unit {0}) → Corpus → Corpus × List (Effect CorpusEntry)
corpus_answer decision answer c =
    let (r, effects) = decision_answered corpus_call answer c.review in
    (record c { review = r }, effects)
corpus_answer submission answer c = Corpus.submit_answered answer c

abbrev pub corpus_slot : Slot Corpus CorpusEntry FormCall
corpus_slot = record {
  tab = text "corpus";
  start_panel = Corpus.start;
  entries = λ (c : Corpus). c.entries;
  load_answered = Corpus.refetch_answered;
  call_answered = corpus_answer;
  hand = corpus_changed;
  handed = λ (a : App). a.corpus;
}

-- Its only calls are decisions.
abbrev quarantine_answer :
    Unit {0}
    → Outcome (Unit {0})
    → Review ℕ QuarantineEntry
    → Review ℕ QuarantineEntry × List (Effect QuarantineEntry)
quarantine_answer call answer r = decision_answered fetch_quarantine_pending answer r

abbrev pub quarantine_slot : Slot (Review ℕ QuarantineEntry) QuarantineEntry (Unit {0})
quarantine_slot = record {
  tab = text "quarantine";
  start_panel = Review.start;
  entries = λ (r : Review ℕ QuarantineEntry). r.entries;
  load_answered = Quarantine.refetch_answered;
  call_answered = quarantine_answer;
  hand = quarantine_changed;
  handed = λ (a : App). a.quarantine;
}

module _ {K E : Type 0} where
  failed_lem :
      (fallback : Text) (e : Failure) (r : Review K E)
      → ((failed fallback e r).0.entries ≡ r.entries) × IsHarmless (failed fallback e r).1
  unfolding failed
  failed_lem fallback e r = ground arith

  decision_lem :
      (reload : Call) (answer : Outcome (Unit {0})) (r : Review K E)
      → ((decision_answered reload answer r).0.entries ≡ r.entries)
        × IsHarmless (decision_answered reload answer r).1
  unfolding decision_answered
  decision_lem reload (fulfilled _) r = (refl, tt)
  decision_lem reload (rejected e) r = failed_lem (text "action failed") e r

  load_rejected_lem :
      (fallback : Text) (e : Failure) (r : Review K E)
      → ((load_answered fallback (rejected e) r).0.entries ≡ r.entries)
        × IsHarmless (load_answered fallback (rejected e) r).1
  unfolding load_answered
  load_rejected_lem fallback e r = failed_lem fallback e r

pub hashes-Laws : Laws hashes_slot
unfolding Hashes.refetch_answered load_answered Hashes.submit_answered Hashes.refetch hashes_changed
hashes-Laws = record {
  starts = refl;
  receives = λ es p. (refl, refl);
  keeps = λ e p. failed_lem (text "failed to load pending hashes") e p.review;
  answers = answers;
  hands = λ es a. refl;
  apart = λ a b h c q. h;
}
  where
    answers :
        (c : FormCall) (answer : Outcome (Unit {0})) (p : Hashes)
        → ((hashes_call c answer p).0.entries ≡ p.entries) × IsHarmless (hashes_call c answer p).1
    answers decision answer p = decision_lem fetch_hashes answer p.review
    answers submission (fulfilled _) p = (refl, tt)
    answers submission (rejected e) p = failed_lem (text "submit failed") e p.review

pub corpus-Laws : Laws corpus_slot
unfolding Corpus.refetch_answered load_answered Corpus.submit_answered Corpus.refetch corpus_changed
corpus-Laws = record {
  starts = refl;
  receives = λ es p. (refl, refl);
  keeps = λ e p. failed_lem (text "failed to load pending corpus samples") e p.review;
  answers = answers;
  hands = λ es a. refl;
  apart = λ a b h c q. c;
}
  where
    answers :
        (c : FormCall) (answer : Outcome (Unit {0})) (p : Corpus)
        → ((corpus_answer c answer p).0.entries ≡ p.entries)
          × IsHarmless (corpus_answer c answer p).1
    answers decision answer p = decision_lem corpus_call answer p.review
    answers submission (fulfilled _) p = (refl, tt)
    answers submission (rejected e) p = failed_lem (text "submit failed") e p.review

pub quarantine-Laws : Laws quarantine_slot
unfolding Quarantine.refetch_answered load_answered quarantine_changed
quarantine-Laws = record {
  starts = refl;
  receives = λ es p. (refl, refl);
  keeps = λ e p. failed_lem (text "failed to load quarantined files") e p;
  answers = λ c answer p. decision_lem fetch_quarantine_pending answer p;
  hands = λ es a. refl;
  apart = λ a b h c q. q;
}
