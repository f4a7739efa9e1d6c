-- ===== src/App/Dashboard/Badge.antt =====
-- The badges of frontend/src/App.tsx, lines 119 to 121, and the tables of the panels under them: each
-- counts the entries of a list of its own.
use mirraura.Hashes
use mirraura.Hashes.{Hashes}
use mirraura.Corpus
use mirraura.Corpus.{Corpus}
use mirraura.Quarantine
use mirraura.Review.{Review}
use mirraura.App.{count_of, pending_count, App, Role, HashEntry}
use mirraura.App.Dashboard.Slots.{
  corpus_slot, corpus-Laws, quarantine_slot, quarantine-Laws, hashes_slot, hashes-Laws, FormCall,
}
use mirraura.Base.{ℕ, List, ◌≡◌, refl, ◌⊎◌, inl, inr}
use mirraura.App.Dashboard.{Event, run, start_page}
use mirraura.Types.{Role}
use mirraura.Api.Endpoints.{HashEntry, CorpusEntry, QuarantineEntry}
use mirraura.App.Dashboard.Agreement.{Agree, Prompt, run-Agree, start-Agree}

pub hashes_badge :
    (role : Role) (panel : Hashes) (a : App)
    → Agree hashes_slot panel a
    → ((Hashes.view role panel).count ≡ 0) ⊎ (pending_count a ≡ (Hashes.view role panel).count)
unfolding Agree Hashes.view Hashes.pending_entries pending_count
hashes_badge role panel a (inl none) = inl (rw none refl)
hashes_badge role panel a (inr same) = inr (rw same refl)

pub corpus_badge :
    (role : Role) (panel : Corpus) (a : App)
    → Agree corpus_slot panel a
    → ((Corpus.view role panel).count ≡ 0) ⊎ (count_of a.corpus ≡ (Corpus.view role panel).count)
unfolding Agree Corpus.view
corpus_badge role panel a (inl none) = inl (rw none refl)
corpus_badge role panel a (inr same) = inr (rw same refl)

pub quarantine_badge :
    (role : Role) (panel : Review ℕ QuarantineEntry) (a : App)
    → Agree quarantine_slot panel a
    → ((Quarantine.view role panel).count ≡ 0)
      ⊎ (count_of a.quarantine ≡ (Quarantine.view role panel).count)
unfolding Agree Quarantine.view
quarantine_badge role panel a (inl none) = inl (rw none refl)
quarantine_badge role panel a (inr same) = inr (rw same refl)

-- As long as each answer to a load comes while the panel that asked for it is rendered: a panel of
-- hashes, of samples or of quarantined files that counts any entry in its title counts as many as the
-- badge of its tab.
pub badges-count :
    (role : Role) (hs : List (Event HashEntry FormCall)) (cs : List (Event CorpusEntry FormCall))
    (qs : List (Event QuarantineEntry (Unit {0})))
    → Prompt hashes_slot hs (start_page hashes_slot)
    → Prompt corpus_slot cs (start_page corpus_slot)
    → Prompt quarantine_slot qs (start_page quarantine_slot)
    → let h = run hashes_slot hs (start_page hashes_slot) in
      let c = run corpus_slot cs (start_page corpus_slot) in
      let q = run quarantine_slot qs (start_page quarantine_slot) in
      (((Hashes.view role h.panel).count ≡ 0)
        ⊎ (pending_count h.app ≡ (Hashes.view role h.panel).count))
      × (((Corpus.view role c.panel).count ≡ 0)
          ⊎ (count_of c.app.corpus ≡ (Corpus.view role c.panel).count))
      × (((Quarantine.view role q.panel).count ≡ 0)
          ⊎ (count_of q.app.quarantine ≡ (Quarantine.view role q.panel).count))
badges-count role hs cs qs ph pc pq =
    let h = run hashes_slot hs (start_page hashes_slot) in
    let c = run corpus_slot cs (start_page corpus_slot) in
    let q = run quarantine_slot qs (start_page quarantine_slot) in
    (
      hashes_badge role h.panel h.app (
          run-Agree hashes_slot hashes-Laws hs (start_page hashes_slot) ph
            (start-Agree hashes_slot hashes-Laws)),
      corpus_badge role c.panel c.app (
          run-Agree corpus_slot corpus-Laws cs (start_page corpus_slot) pc
            (start-Agree corpus_slot corpus-Laws)),
      quarantine_badge role q.panel q.app (
          run-Agree quarantine_slot quarantine-Laws qs (start_page quarantine_slot) pq
            (start-Agree quarantine_slot quarantine-Laws)),
    )
