-- ===== src/App/Dashboard/Moves.antt =====
-- What the page of frontend/src/App.tsx does with its tabs and lists outside the panels' answers.
use mirraura.Base.{
  Bool, true, false, ◌&&◌, List, [], ◌∷◌, ◌≡◌, refl, inl, inr, Bool-cases, text_eq, suc, ℕ,
  if◌then◌else◌, elem, subst, sym,
}
use mirraura.Api.Live.{LiveMessage}
use mirraura.Api.Live
use mirraura.Api.Request.{Outcome, fulfilled, rejected}
use mirraura.Api.Endpoints.{Session}
use mirraura.Review.{Effect}
use mirraura.App.{App, handle_message, me_answered, handle_session_expired, on_decision, ℕ}
use mirraura.App.Connected.{is_signed_in}
use mirraura.App.Dashboard.{
  Slot, Page, IsHarmless, settle, is_mounted, obey_all, answered, load_answer_event,
  call_answer_event, elem, has_been, is_current, remove_one, add_loads,
}
use mirraura.Tabs.{panel_shown}

-- The same lists in the page.
abbrev pub SameLists : App → App → Type 0
SameLists a b = (a.hashes ≡ b.hashes) × (a.corpus ≡ b.corpus) × (a.quarantine ≡ b.quarantine)

pub handle_message-SameLists : (m : LiveMessage) (a : App) → SameLists (handle_message m a) a
unfolding handle_message
handle_message-SameLists (Live.event s e) a = (refl, refl, refl)
handle_message-SameLists (Live.verdict Live.sample v) a = (refl, refl, refl)
handle_message-SameLists (Live.verdict Live.monitor v) a = (refl, refl, refl)
handle_message-SameLists Live.isolated a = (refl, refl, refl)
handle_message-SameLists Live.reconnected a = (refl, refl, refl)

pub handle_message-bottom_tab :
    (m : LiveMessage) (a : App) → (handle_message m a).bottom_tab ≡ a.bottom_tab
unfolding handle_message
handle_message-bottom_tab (Live.event s e) a = refl
handle_message-bottom_tab (Live.verdict Live.sample v) a = refl
handle_message-bottom_tab (Live.verdict Live.monitor v) a = refl
handle_message-bottom_tab Live.isolated a = refl
handle_message-bottom_tab Live.reconnected a = refl

pub me_answered-SameLists :
    (answer : Outcome Session) (a : App) → SameLists (me_answered answer a) a
unfolding me_answered
me_answered-SameLists (fulfilled u) a = (refl, refl, refl)
me_answered-SameLists (rejected e) a = (refl, refl, refl)

pub me_answered-bottom_tab :
    (answer : Outcome Session) (a : App) → (me_answered answer a).bottom_tab ≡ a.bottom_tab
unfolding me_answered
me_answered-bottom_tab (fulfilled u) a = refl
me_answered-bottom_tab (rejected e) a = refl

pub and_false : (b : Bool) → (b && false) ≡ false
and_false true = refl
and_false false = refl

module _ {P E C : Type 0} (slot : Slot P E C) where
  pub obey_all-SameLists :
      (effects : List (Effect E)) (a : App)
      → IsHarmless effects
      → SameLists (obey_all slot effects a) a
  unfolding handle_session_expired on_decision
  obey_all-SameLists [] a h = (refl, refl, refl)
  obey_all-SameLists (Effect.session_expired ∷ es) a h = obey_all-SameLists es _ h
  obey_all-SameLists (Effect.decided ∷ es) a h = obey_all-SameLists es _ h
  obey_all-SameLists (Effect.changed entries ∷ es) a h = elim h [ ]
  obey_all-SameLists (Effect.pushed message tone ∷ es) a h = obey_all-SameLists es a h
  obey_all-SameLists (Effect.calls c ∷ es) a h = obey_all-SameLists es a h

  -- The panel is not rendered while another tab is active.
  pub hidden : (a : App) → text_eq slot.tab a.bottom_tab ≡ false → is_mounted slot a ≡ false
  unfolding is_mounted panel_shown
  hidden a b = rw b (and_false (is_signed_in a.user))

  pub settle_hidden :
      (p : Page P) (a : App) → is_mounted slot a ≡ false → settle slot p a ≡ record p { app = a }
  unfolding settle
  settle_hidden p a h = rw h refl

  pub settle_mounts :
      (p : Page P) (a : App)
      → is_mounted slot p.app ≡ false
      → is_mounted slot a ≡ true
      → settle slot p a ≡ record {
        app = a;
        panel = slot.start_panel;
        mount = suc p.mount;
        loads = suc p.mount ∷ p.loads;
      }
  unfolding settle
  settle_mounts p a h h' = rw (h, h') refl

  pub settle-app : (p : Page P) (a : App) → (settle slot p a).app ≡ a
  unfolding settle
  settle-app p a = elim (Bool-cases (is_mounted slot a)) [
    | inr f ↦ rw f refl
    | inl t ↦ elim (Bool-cases (is_mounted slot p.app)) [
      | inl t' ↦ rw (t, t') refl
      | inr f ↦ rw (t, f) refl
    ]
  ]

  pub answered-app :
      (k : ℕ) (panel : P) (effects : List (Effect E)) (p : Page P)
      → (answered slot k panel effects p).app ≡ obey_all slot effects p.app
  unfolding answered
  answered-app k panel effects p =
      settle-app
        (record p {
          panel = if is_current slot k p then panel else p.panel;
          loads = add_loads k effects p.loads;
        })
        (obey_all slot effects p.app)

  -- What holds of the page and after any callbacks holds after an answer.
  pub load_answer_event-app :
      (Q : App → Type 0) (k : ℕ) (answer : Outcome (List E)) (p : Page P)
      → Q p.app
      → ((effects : List (Effect E)) → Q (obey_all slot effects p.app))
      → Q (load_answer_event slot k answer p).app
  unfolding load_answer_event
  load_answer_event-app Q k answer p now after = elim (Bool-cases (elem k p.loads)) [
    | inr f ↦ rw f now
    | inl t ↦
        let (panel, effects) = slot.load_answered answer p.panel in
        let q = record p { loads = remove_one k p.loads } in
        rw t (subst Q (sym (answered-app k panel effects q)) (after effects))
  ]

  pub call_answer_event-app :
      (Q : App → Type 0) (k : ℕ) (c : C) (answer : Outcome (Unit {0})) (p : Page P)
      → Q p.app
      → ((effects : List (Effect E)) → Q (obey_all slot effects p.app))
      → Q (call_answer_event slot k c answer p).app
  unfolding call_answer_event
  call_answer_event-app Q k c answer p now after = elim (Bool-cases (has_been k p)) [
    | inr f ↦ rw f now
    | inl t ↦
        let (panel, effects) = slot.call_answered c answer p.panel in
        rw t (subst Q (sym (answered-app k panel effects p)) (after effects))
  ]
