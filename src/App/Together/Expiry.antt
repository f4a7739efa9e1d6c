-- ===== src/App/Together/Expiry.antt =====
-- Who is signed out by an answer that says that the session has expired: in
-- frontend/src/components/PendingHashApprovals.tsx, CorpusReview.tsx and QuarantineReview.tsx `refetch` has
-- no flag for a panel that is gone, and in AuditLogTable.tsx `load` has one.
use mirraura.Base.{ℕ, true, List, [], ◌∷◌, Text, elem, ◌≡◌, refl, ◌∙◌, ap, Bool-cases, inl, inr}
use mirraura.Api.Request.{Failure, rejected, has_status}
use mirraura.Review.{session_expired, failed, load_answered}
use mirraura.Hashes
use mirraura.Corpus
use mirraura.Quarantine
use mirraura.AuditLog.{verdicts_answered}
use mirraura.App.{App, signed_out, handle_session_expired, sign_in, page}
use mirraura.App.LogMount.{cancelled}
use mirraura.App.Dashboard.{Slot, Page, obey_all, load_answer_event, remove_one}
use mirraura.App.Dashboard.Slots.{hashes_slot, corpus_slot, quarantine_slot}
use mirraura.App.Dashboard.Moves.{answered-app}
use mirraura.App.Together.{
  Whole, Event, hashes_load, corpus_load, quarantine_load, log_verdicts, on_page, handle,
  settle_all, hashes_become, corpus_become, quarantine_become, log_verdicts_event, log_becomes,
}

pub data ReviewPanel : Type 0 where
  of_hashes of_corpus of_quarantine : ReviewPanel

-- The loads of a panel that are on their way, and a failed answer to one of them.
abbrev pub loads_of : ReviewPanel → Whole → List ℕ
loads_of of_hashes w = w.hashes.loads
loads_of of_corpus w = w.corpus.loads
loads_of of_quarantine w = w.quarantine.loads

abbrev pub failed_load : ReviewPanel → ℕ → Failure → Event
failed_load of_hashes k e = hashes_load k (rejected e)
failed_load of_corpus k e = corpus_load k (rejected e)
failed_load of_quarantine k e = quarantine_load k (rejected e)

module _ {P E C : Type 0} (slot : Slot P E C) where
  -- A panel whose load says so tells the page that the session has expired.
  abbrev Tells : Type 0
  Tells =
      (e : Failure) (p : P)
      → has_status 401 e ≡ true
      → (slot.load_answered (rejected e) p).1 ≡ session_expired ∷ []

  expired-app :
      (tells : Tells) (k : ℕ) (e : Failure) (p : Page P)
      → has_status 401 e ≡ true
      → elem k p.loads ≡ true
      → (load_answer_event slot k (rejected e) p).app ≡ handle_session_expired p.app
  unfolding load_answer_event
  expired-app tells k e p h asked =
      let (panel, effects) = slot.load_answered (rejected e) p.panel in
      rw asked (
        answered-app slot k panel effects (record p { loads = remove_one k p.loads })
        ∙ ap (λ fs. obey_all slot fs p.app) (tells e p.panel h))

hashes_tell : Tells hashes_slot
unfolding Hashes.refetch_answered load_answered failed
hashes_tell e p h = rw h refl

corpus_tells : Tells corpus_slot
unfolding Corpus.refetch_answered load_answered failed
corpus_tells e p h = rw h refl

quarantine_tells : Tells quarantine_slot
unfolding Quarantine.refetch_answered load_answered failed
quarantine_tells e p h = rw h refl

module _ (lower : Text → Text) where
  failed_load-app :
      (which : ReviewPanel) (k : ℕ) (e : Failure) (w : Whole)
      → has_status 401 e ≡ true
      → elem k (loads_of which w) ≡ true
      → (handle lower (failed_load which k e) w).app ≡ handle_session_expired w.app
  unfolding handle settle_all hashes_become corpus_become quarantine_become
  failed_load-app of_hashes k e w h asked =
      expired-app hashes_slot hashes_tell k e (on_page w.app w.hashes) h asked
  failed_load-app of_corpus k e w h asked =
      expired-app corpus_slot corpus_tells k e (on_page w.app w.corpus) h asked
  failed_load-app of_quarantine k e w h asked =
      expired-app quarantine_slot quarantine_tells k e (on_page w.app w.quarantine) h asked

  cancelled-app :
      (k : ℕ) (e : Failure) (w : Whole)
      → cancelled k w.app w.log ≡ true
      → (handle lower (log_verdicts k (rejected e)) w).app ≡ w.app
  unfolding handle log_verdicts_event log_becomes settle_all verdicts_answered
  cancelled-app k e w gone = elim (Bool-cases (elem k w.log.verdict_loads)) [
    | inr f ↦ rw f refl
    | inl t ↦ rw (t, gone) refl
  ]

  -- Whenever a load of a review panel, of whatever session and mount, is answered with status 401, the
  -- page signs out whoever is signed in then, and says that their session has expired. A load of the audit
  -- log whose effect has been cleaned up changes nothing of the page by such an answer.
  pub expired_answers :
      (which : ReviewPanel) (k j : ℕ) (e : Failure) (w : Whole)
      → has_status 401 e ≡ true
      → elem k (loads_of which w) ≡ true
      → cancelled j w.app w.log ≡ true
      → let a = (handle lower (failed_load which k e) w).app in
        (a.user ≡ signed_out)
        × (page a ≡ sign_in true)
        × ((handle lower (log_verdicts j (rejected e)) w).app ≡ w.app)
  unfolding handle_session_expired page
  expired_answers which k j e w h asked gone =
      let same = failed_load-app which k e w h asked in
      (ap (λ (a : App). a.user) same, ap page same, cancelled-app j e w gone)
