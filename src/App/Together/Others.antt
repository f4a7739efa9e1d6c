-- ===== src/App/Together/Others.antt =====
-- The three review panels of frontend/src/App.tsx, lines 192 to 218, on one page: what one of them does
-- leaves the list of each other panel, and of the page for it, alone.
use mirraura.Base.{ℕ, true, List, [], ◌∷◌, ◌≡◌, refl, subst, Text}
use mirraura.Api.Endpoints.{QuarantineEntry}
use mirraura.Review.{Review}
use mirraura.Hashes
use mirraura.Corpus
use mirraura.App.{App, hashes_changed, corpus_changed, quarantine_changed}
use mirraura.App.Dashboard.{Slot, Laws, Page, is_current}
use mirraura.App.Dashboard.Slots.{
  hashes_slot, hashes-Laws, corpus_slot, corpus-Laws, quarantine_slot, quarantine-Laws,
}
use mirraura.App.Dashboard.Moves.{SameLists, settle-app}
use mirraura.App.Dashboard.Agreement.{Agree, same-Agree, settle-Agree}
use mirraura.App.Together.Lists.{Apart}
use mirraura.App.Together.{
  Whole, Mounted, Event, hashes_load, corpus_load, quarantine_load, settled, settle_all,
  hashes_become, corpus_become, quarantine_become, handle, on_page,
}

-- An answer to a load of a review panel comes while the panel that asked for it is rendered.
unfoldable pub OnTime : Event → Whole → Type 0
OnTime (hashes_load k answer) w = is_current hashes_slot k (on_page w.app w.hashes) ≡ true
OnTime (corpus_load k answer) w = is_current corpus_slot k (on_page w.app w.corpus) ≡ true
OnTime (quarantine_load k answer) w =
    is_current quarantine_slot k (on_page w.app w.quarantine) ≡ true
OnTime _ w = Unit

module _ (lower : Text → Text) where
  unfoldable pub Prompt : List Event → Whole → Type 0
  unfolding OnTime
  Prompt [] w = Unit
  Prompt (e ∷ es) w = OnTime e w × Prompt es (handle lower e w)

module _ {P E C : Type 0} (slot : Slot P E C) (laws : Laws slot) where
  -- The page has become `b`, and the list of this panel is as it was in `a`.
  pub other-Agree :
      (a b : App) (m : Mounted P)
      → slot.handed b ≡ slot.handed a
      → Agree slot m.panel a
      → Agree slot (settled slot a b m).panel b
  other-Agree a b m same g =
      subst (Agree slot (settled slot a b m).panel) (settle-app slot (on_page a m) b)
        (settle-Agree slot laws (on_page a m) b (same-Agree slot m.panel m.panel b a refl same g))

pub hashes-corpus : Apart hashes_slot corpus_slot
unfolding corpus_changed
hashes-corpus = record { hands_elsewhere = λ fs a. refl }

pub hashes-quarantine : Apart hashes_slot quarantine_slot
unfolding quarantine_changed
hashes-quarantine = record { hands_elsewhere = λ fs a. refl }

pub corpus-hashes : Apart corpus_slot hashes_slot
unfolding hashes_changed
corpus-hashes = record { hands_elsewhere = λ fs a. refl }

pub corpus-quarantine : Apart corpus_slot quarantine_slot
unfolding quarantine_changed
corpus-quarantine = record { hands_elsewhere = λ fs a. refl }

pub quarantine-hashes : Apart quarantine_slot hashes_slot
unfolding hashes_changed
quarantine-hashes = record { hands_elsewhere = λ fs a. refl }

pub quarantine-corpus : Apart quarantine_slot corpus_slot
unfolding corpus_changed
quarantine-corpus = record { hands_elsewhere = λ fs a. refl }

-- Each review panel lists nothing yet, or what the page has of it.
pub record AllAgree (w : Whole) : Type 0 where
  pub hashes : Agree hashes_slot w.hashes.panel w.app
  pub corpus : Agree corpus_slot w.corpus.panel w.app
  pub quarantine : Agree quarantine_slot w.quarantine.panel w.app

-- The panels of `w` after the page has become `b`, with the list of each as it was.
module _ (b : App) (w : Whole) (h : AllAgree w) where
  pub hashes_settled :
      b.hashes ≡ w.app.hashes → Agree hashes_slot (settled hashes_slot w.app b w.hashes).panel b
  hashes_settled same = other-Agree hashes_slot hashes-Laws w.app b w.hashes same h.hashes

  pub corpus_settled :
      b.corpus ≡ w.app.corpus → Agree corpus_slot (settled corpus_slot w.app b w.corpus).panel b
  corpus_settled same = other-Agree corpus_slot corpus-Laws w.app b w.corpus same h.corpus

  pub quarantine_settled :
      b.quarantine ≡ w.app.quarantine
      → Agree quarantine_slot (settled quarantine_slot w.app b w.quarantine).panel b
  quarantine_settled same =
      other-Agree quarantine_slot quarantine-Laws w.app b w.quarantine same h.quarantine

  pub settle_all-AllAgree : SameLists b w.app → AllAgree (settle_all b w)
  unfolding settle_all
  settle_all-AllAgree (hs, cs, qs) = record {
    hashes = hashes_settled hs;
    corpus = corpus_settled cs;
    quarantine = quarantine_settled qs;
  }

pub hashes-AllAgree :
    (q : Page Hashes.Hashes) (w : Whole)
    → AllAgree w
    → Agree hashes_slot q.panel q.app
    → q.app.corpus ≡ w.app.corpus
    → q.app.quarantine ≡ w.app.quarantine
    → AllAgree (hashes_become q w)
unfolding hashes_become settle_all
hashes-AllAgree q w h own cs qs = record {
  hashes = own;
  corpus = corpus_settled q.app w h cs;
  quarantine = quarantine_settled q.app w h qs;
}

pub corpus-AllAgree :
    (q : Page Corpus.Corpus) (w : Whole)
    → AllAgree w
    → Agree corpus_slot q.panel q.app
    → q.app.hashes ≡ w.app.hashes
    → q.app.quarantine ≡ w.app.quarantine
    → AllAgree (corpus_become q w)
unfolding corpus_become settle_all
corpus-AllAgree q w h own hs qs = record {
  hashes = hashes_settled q.app w h hs;
  corpus = own;
  quarantine = quarantine_settled q.app w h qs;
}

pub quarantine-AllAgree :
    (q : Page (Review ℕ QuarantineEntry)) (w : Whole)
    → AllAgree w
    → Agree quarantine_slot q.panel q.app
    → q.app.hashes ≡ w.app.hashes
    → q.app.corpus ≡ w.app.corpus
    → AllAgree (quarantine_become q w)
unfolding quarantine_become settle_all
quarantine-AllAgree q w h own hs cs = record {
  hashes = hashes_settled q.app w h hs;
  corpus = corpus_settled q.app w h cs;
  quarantine = own;
}
