-- ===== src/App/Dashboard.antt =====
-- frontend/src/App.tsx together with one of the panels PendingHashApprovals.tsx, CorpusReview.tsx and
-- QuarantineReview.tsx of frontend/src/components: the panel is mounted while its tab is active, loads
-- when it is mounted and when the refresh key changes, and hands what it has loaded to the page.
pub mod Moves
pub mod Slots
pub mod Agreement
pub mod Badge
pub mod Strip
use mirraura.Base.{
  ℕ, suc, ltb, leb, ◌==◌, ◌≡◌, Bool, ◌&&◌, List, [], ◌∷◌, Text, elem, Option, some, if◌then◌else◌,
}
use mirraura.Api.Request.{Outcome, fulfilled, rejected, Failure}
use mirraura.Api.Endpoints.{Session}
use mirraura.Api.Live.{LiveMessage}
use mirraura.Types.{Verdict}
use mirraura.Review.{Effect, session_expired, decided, pushed, changed, calls}
use mirraura.AuditLog.{AuditRow}
use mirraura.Tabs.{panel_shown}
use mirraura.App.{
  App, handle_message, handle_upload, handle_logout, handle_session_expired, handle_login,
  on_decision, change_tab, verdicts_changed, me_answered, start,
}
use mirraura.App.Connected.{is_signed_in}

-- A panel of the page: its state `P`, its entries `E` and the calls `C` that it makes besides its
-- loads. `hand` is the page's setter for the entries, and `handed` what it has set.
pub record Slot (P E C : Type 0) : Type 0 where
  pub tab : Text
  pub start_panel : P
  pub entries : P → List E
  pub load_answered : Outcome (List E) → P → P × List (Effect E)
  pub call_answered : C → Outcome (Unit {0}) → P → P × List (Effect E)
  pub hand : List E → App → App
  pub handed : App → Option (List E)

-- No list is handed to the page.
abbrev pub IsHarmless : {E : Type 0} → List (Effect E) → Type 0
IsHarmless [] = Unit
IsHarmless (changed es ∷ effects) = ⊥
IsHarmless (_ ∷ effects) = IsHarmless effects

-- What the page relies on.
pub record Laws {P E C : Type 0} (slot : Slot P E C) : Type 0 where
  pub starts : slot.entries slot.start_panel ≡ []
  pub receives :
      (es : List E) (p : P)
      → (slot.entries (slot.load_answered (fulfilled es) p).0 ≡ es)
        × ((slot.load_answered (fulfilled es) p).1 ≡ changed es ∷ [])
  pub keeps :
      (e : Failure) (p : P)
      → (slot.entries (slot.load_answered (rejected e) p).0 ≡ slot.entries p)
        × IsHarmless (slot.load_answered (rejected e) p).1
  pub answers :
      (c : C) (answer : Outcome (Unit {0})) (p : P)
      → (slot.entries (slot.call_answered c answer p).0 ≡ slot.entries p)
        × IsHarmless (slot.call_answered c answer p).1
  pub hands : (es : List E) (a : App) → slot.handed (slot.hand es a) ≡ some es
  -- The list stands in one of three fields of the page.
  pub apart :
      (a b : App)
      → a.hashes ≡ b.hashes
      → a.corpus ≡ b.corpus
      → a.quarantine ≡ b.quarantine
      → slot.handed a ≡ slot.handed b

-- The page, the panel of the current mount, the number of mounts, and the mounts whose loads are on
-- their way.
pub record Page (P : Type 0) : Type 0 where
  pub app : App
  pub panel : P
  pub mount : ℕ
  pub loads : List ℕ

pub data Event (E C : Type 0) : Type 0 where
  knows : Outcome Session → Event E C
  clicks_tab : Text → Event E C
  hears : LiveMessage → Event E C
  log_loads : List AuditRow → Event E C
  uploads : Verdict → Event E C
  logs_in : Session → Event E C
  logs_out : Outcome (Unit {0}) → Event E C
  expires : Event E C
  -- The answers to a load and to another call of a mount.
  load_answer : ℕ → Outcome (List E) → Event E C
  call_answer : ℕ → C → Outcome (Unit {0}) → Event E C

-- The only calls after an answer are loads.
abbrev pub add_loads : {E : Type 0} → ℕ → List (Effect E) → List ℕ → List ℕ
add_loads k [] loads = loads
add_loads k (calls c ∷ es) loads = k ∷ add_loads k es loads
add_loads k (_ ∷ es) loads = add_loads k es loads

abbrev pub remove_one : ℕ → List ℕ → List ℕ
remove_one k [] = []
remove_one k (n ∷ ns) = if k == n then ns else n ∷ remove_one k ns

-- There has been such a mount.
abbrev pub has_been : {P : Type 0} → ℕ → Page P → Bool
has_been k p = ltb 0 k && leb k p.mount

module _ {P E C : Type 0} (slot : Slot P E C) where
  -- The panel is rendered.
  unfoldable pub is_mounted : App → Bool
  unfolding panel_shown
  is_mounted a = is_signed_in a.user && panel_shown slot.tab a.bottom_tab

  -- What the panel's effect does after the page has changed: a new mount loads, and so does the panel
  -- whose refresh key has changed.
  unfoldable pub settle : Page P → App → Page P
  unfolding is_mounted
  settle p a =
      if is_mounted a
      then if is_mounted p.app
        then record p {
          app = a;
          loads = if a.refresh_key == p.app.refresh_key then p.loads else p.mount ∷ p.loads;
        }
        else record {
          app = a;
          panel = slot.start_panel;
          mount = suc p.mount;
          loads = suc p.mount ∷ p.loads;
        }
      else record p { app = a }

  -- The callbacks that the page has given to the panel; a toast is no matter of the page.
  abbrev pub obey : Effect E → App → App
  obey session_expired a = handle_session_expired a
  obey decided a = on_decision a
  obey (changed entries) a = slot.hand entries a
  obey (pushed message tone) a = a
  obey (calls c) a = a

  abbrev pub obey_all : List (Effect E) → App → App
  obey_all [] a = a
  obey_all (e ∷ es) a = obey_all es (obey e a)

  -- The panel of a mount is rendered now.
  unfoldable pub is_current : ℕ → Page P → Bool
  unfolding is_mounted
  is_current k p = k == p.mount && is_mounted p.app

  -- An answer to the panel of a mount: a panel that is no longer there keeps calling the page back.
  unfoldable pub answered : ℕ → P → List (Effect E) → Page P → Page P
  unfolding settle is_current
  answered k panel effects p =
      settle
        (record p {
          panel = if is_current k p then panel else p.panel;
          loads = add_loads k effects p.loads;
        })
        (obey_all effects p.app)

  unfoldable pub load_answer_event : ℕ → Outcome (List E) → Page P → Page P
  unfolding answered
  load_answer_event k answer p =
      let (panel, effects) = slot.load_answered answer p.panel in
      if elem k p.loads
      then answered k panel effects (record p { loads = remove_one k p.loads })
      else p

  unfoldable pub call_answer_event : ℕ → C → Outcome (Unit {0}) → Page P → Page P
  unfolding answered
  call_answer_event k c answer p =
      let (panel, effects) = slot.call_answered c answer p.panel in
      if has_been k p then answered k panel effects p else p

  unfoldable pub handle : Event E C → Page P → Page P
  unfolding settle load_answer_event call_answer_event
  handle (knows answer) p = settle p (me_answered answer p.app)
  handle (clicks_tab id) p = settle p (change_tab id p.app)
  handle (hears m) p = settle p (handle_message m p.app)
  handle (log_loads rows) p = settle p (verdicts_changed rows p.app)
  handle (uploads v) p = settle p (handle_upload v p.app)
  handle (logs_in u) p = settle p (handle_login u p.app)
  handle (logs_out answer) p = settle p (handle_logout answer p.app)
  handle expires p = settle p (handle_session_expired p.app)
  handle (load_answer k answer) p = load_answer_event k answer p
  handle (call_answer k c answer) p = call_answer_event k c answer p

  abbrev pub run : List (Event E C) → Page P → Page P
  run [] p = p
  run (e ∷ es) p = run es (handle e p)

  abbrev pub start_page : Page P
  start_page = record { app = start; panel = slot.start_panel; mount = 0; loads = [] }
