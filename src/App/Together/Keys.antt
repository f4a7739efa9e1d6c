-- ===== src/App/Together/Keys.antt =====
-- What the panels of frontend/src/App.tsx do to its refresh key: a decision that has been made adds one to it.
use mirraura.Base.{
  ℕ, suc, ◌+◌, Bool, true, false, ◌&&◌, List, [], ◌∷◌, Text, text, elem, ◌≡◌, refl, ap, ◌∙◌, inl,
  inr, Bool-cases, arith, if◌then◌else◌,
}
use mirraura.Api.Request.{Outcome, fulfilled, rejected, Failure, Call}
use mirraura.Api.Endpoints.{
  HashEntry, CorpusEntry, QuarantineEntry, fetch_hashes, fetch_quarantine_pending,
}
use mirraura.Api.Endpoints
use mirraura.Review.{Effect, Review, failed, load_answered, decision_answered}
use mirraura.Hashes.{Hashes}
use mirraura.Hashes
use mirraura.Corpus.{Corpus}
use mirraura.Corpus
use mirraura.Quarantine
use mirraura.App.{
  App, handle_session_expired, on_decision, hashes_changed, corpus_changed, quarantine_changed,
}
use mirraura.App.Dashboard.{
  Slot, Page, obey_all, load_answer_event, call_answer_event, has_been, remove_one,
}
use mirraura.App.Dashboard.Slots.{
  hashes_slot, corpus_slot, quarantine_slot, FormCall, decision, submission,
}
use mirraura.App.Dashboard.Moves.{answered-app}

-- How many decisions a handler tells the page.
abbrev pub decisions : {E : Type 0} → List (Effect E) → ℕ
decisions [] = 0
decisions (Effect.decided ∷ es) = suc (decisions es)
decisions (_ ∷ es) = decisions es

-- What a panel tells the page: nothing at a load, and a decision after the calls that `decides` names.
pub record Keyed {P E C : Type 0} (slot : Slot P E C) (decides : C → Outcome (Unit {0}) → Bool)
    : Type 0 where
  pub hands : (es : List E) (a : App) → (slot.hand es a).refresh_key ≡ a.refresh_key
  pub loads : (answer : Outcome (List E)) (p : P) → decisions (slot.load_answered answer p).1 ≡ 0
  pub calls :
      (c : C) (answer : Outcome (Unit {0})) (p : P)
      → decisions (slot.call_answered c answer p).1 ≡ (if decides c answer then 1 else 0)

module _ {P E C : Type 0} (slot : Slot P E C) {decides : C → Outcome (Unit {0}) → Bool}
    (keyed : Keyed slot decides) where
  obey_all-refresh_key :
      (es : List (Effect E)) (a : App)
      → (obey_all slot es a).refresh_key ≡ decisions es + a.refresh_key
  unfolding handle_session_expired on_decision
  obey_all-refresh_key [] a = omega arith
  obey_all-refresh_key (Effect.session_expired ∷ es) a =
      obey_all-refresh_key es (handle_session_expired a)
  obey_all-refresh_key (Effect.decided ∷ es) a =
      omega (arith, obey_all-refresh_key es (on_decision a))
  obey_all-refresh_key (Effect.changed entries ∷ es) a =
      obey_all-refresh_key es (slot.hand entries a)
      ∙ ap (λ n. decisions es + n) (keyed.hands entries a)
  obey_all-refresh_key (Effect.pushed message tone ∷ es) a = obey_all-refresh_key es a
  obey_all-refresh_key (Effect.calls c ∷ es) a = obey_all-refresh_key es a

  pub load_event-refresh_key :
      (k : ℕ) (answer : Outcome (List E)) (p : Page P)
      → (load_answer_event slot k answer p).app.refresh_key ≡ p.app.refresh_key
  unfolding load_answer_event
  load_event-refresh_key k answer p = elim (Bool-cases (elem k p.loads)) [
    | inr f ↦ rw f refl
    | inl t ↦
        let (panel, effects) = slot.load_answered answer p.panel in
        let q : Page P = record p { loads = remove_one k p.loads } in
        rw t (
          ap (λ (a : App). a.refresh_key) (answered-app slot k panel effects q)
          ∙ obey_all-refresh_key effects p.app
          ∙ (let none_told = keyed.loads answer p.panel in omega arith))
  ]

  pub call_event-refresh_key :
      (k : ℕ) (c : C) (answer : Outcome (Unit {0})) (p : Page P)
      → (call_answer_event slot k c answer p).app.refresh_key
        ≡ (if has_been k p && decides c answer then suc p.app.refresh_key else p.app.refresh_key)
  unfolding call_answer_event
  call_event-refresh_key k c answer p = elim (Bool-cases (has_been k p)) [
    | inr f ↦ rw f refl
    | inl t ↦
        let (panel, effects) = slot.call_answered c answer p.panel in
        let moved = obey_all-refresh_key effects p.app in
        let told = keyed.calls c answer p.panel in
        rw t (ap (λ (a : App). a.refresh_key) (answered-app slot k panel effects p) ∙ ground arith)
  ]

module _ {K E : Type 0} where
  failed_decisions :
      (fallback : Text) (e : Failure) (r : Review K E) → decisions (failed fallback e r).1 ≡ 0
  unfolding failed
  failed_decisions fallback e r = ground arith

  load_decisions :
      (fallback : Text) (answer : Outcome (List E)) (r : Review K E)
      → decisions (load_answered fallback answer r).1 ≡ 0
  unfolding load_answered
  load_decisions fallback (fulfilled es) r = refl
  load_decisions fallback (rejected e) r = failed_decisions fallback e r

-- The answer is that the server has done what it was asked for.
abbrev pub is_done : Outcome (Unit {0}) → Bool
is_done (fulfilled _) = true
is_done (rejected e) = false

abbrev pub is_decided : FormCall → Outcome (Unit {0}) → Bool
is_decided decision answer = is_done answer
is_decided submission answer = false

decision_told :
    {K E : Type 0} (reload : Call) (answer : Outcome (Unit {0})) (r : Review K E)
    → decisions (decision_answered reload answer r).1 ≡ (if is_done answer then 1 else 0)
unfolding decision_answered
decision_told reload (fulfilled _) r = refl
decision_told reload (rejected e) r = failed_decisions (text "action failed") e r

pub hashes-Keyed : Keyed hashes_slot is_decided
unfolding hashes_changed Hashes.refetch_answered Hashes.submit_answered Hashes.refetch
hashes-Keyed = record {
  hands = λ es a. refl;
  loads = λ answer p. load_decisions (text "failed to load pending hashes") answer p.review;
  calls = told;
}
  where
    told :
        (c : FormCall) (answer : Outcome (Unit {0})) (p : Hashes)
        → decisions (hashes_slot.call_answered c answer p).1
          ≡ (if is_decided c answer then 1 else 0)
    told decision answer p = decision_told fetch_hashes answer p.review
    told submission (fulfilled _) p = refl
    told submission (rejected e) p = failed_decisions (text "submit failed") e p.review

pub corpus-Keyed : Keyed corpus_slot is_decided
unfolding corpus_changed Corpus.refetch_answered Corpus.submit_answered Corpus.refetch
corpus-Keyed = record {
  hands = λ es a. refl;
  loads = λ answer p. load_decisions (text "failed to load pending corpus samples") answer p.review;
  calls = told;
}
  where
    told :
        (c : FormCall) (answer : Outcome (Unit {0})) (p : Corpus)
        → decisions (corpus_slot.call_answered c answer p).1
          ≡ (if is_decided c answer then 1 else 0)
    told decision answer p = decision_told Endpoints.corpus_call answer p.review
    told submission (fulfilled _) p = refl
    told submission (rejected e) p = failed_decisions (text "submit failed") e p.review

pub quarantine-Keyed : Keyed quarantine_slot (λ c answer. is_done answer)
unfolding quarantine_changed Quarantine.refetch_answered
quarantine-Keyed = record {
  hands = λ es a. refl;
  loads = λ answer p. load_decisions (text "failed to load quarantined files") answer p;
  calls = λ c answer p. decision_told fetch_quarantine_pending answer p;
}
