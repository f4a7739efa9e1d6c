-- ===== src/App/Together/Badges.antt =====
-- The badges of frontend/src/App.tsx, lines 119 to 179, and the review panels under them, on one page.
use mirraura.Base.{List, ◌≡◌, ◌⊎◌, Text}
use mirraura.Types.{Role}
use mirraura.Hashes
use mirraura.Corpus
use mirraura.Quarantine
use mirraura.App.{count_of, pending_count}
use mirraura.App.Dashboard.Badge.{hashes_badge, corpus_badge, quarantine_badge}
use mirraura.App.Together.{Event, run, begin}
use mirraura.App.Together.Others.{Prompt}
use mirraura.App.Together.Agreement.{run-AllAgree, begin-AllAgree}

-- As long as each answer to a load of a review panel comes while the panel that asked for it is rendered,
-- on one page with all its panels, its audit log and whatever else happens: a panel of hashes, of samples
-- or of quarantined files that counts any entry in its title counts as many as the badge of its tab.
pub badges_agree :
    (lower : Text → Text) (role : Role) (es : List Event)
    → Prompt lower es begin
    → let w = run lower es begin in
      (((Hashes.view role w.hashes.panel).count ≡ 0)
        ⊎ (pending_count w.app ≡ (Hashes.view role w.hashes.panel).count))
      × (((Corpus.view role w.corpus.panel).count ≡ 0)
          ⊎ (count_of w.app.corpus ≡ (Corpus.view role w.corpus.panel).count))
      × (((Quarantine.view role w.quarantine.panel).count ≡ 0)
          ⊎ (count_of w.app.quarantine ≡ (Quarantine.view role w.quarantine.panel).count))
badges_agree lower role es prompt =
    let w = run lower es begin in
    let h = run-AllAgree lower es begin prompt begin-AllAgree in
    (
      hashes_badge role w.hashes.panel w.app h.hashes,
      corpus_badge role w.corpus.panel w.app h.corpus,
      quarantine_badge role w.quarantine.panel w.app h.quarantine,
    )
