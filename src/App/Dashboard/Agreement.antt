-- ===== src/App/Dashboard/Agreement.antt =====
-- A panel of frontend/src/App.tsx and the page: each keeps the entries in a list of its own, and both
-- are set by the answer to a load.
use mirraura.Review.{Effect, changed}
use mirraura.App.{
  App, start, change_tab, verdicts_changed, handle_upload, handle_login, handle_logout,
  handle_session_expired, handle_message, me_answered,
}
use mirraura.Base.{
  ℕ, ◌<◌, Bool, true, false, List, [], ◌∷◌, some, ◌≡◌, refl, ◌⊎◌, inl, inr, Bool-cases,
  if◌then◌else◌, elem, ap, sym, ◌∙◌, arith, length,
}
use mirraura.Api.Request.{Outcome, fulfilled, rejected}
use mirraura.App.Dashboard.{
  Slot, Laws, IsHarmless, Page, Event, knows, clicks_tab, hears, log_loads, uploads, logs_in,
  logs_out, expires, load_answer, call_answer, settle, is_mounted, is_current, answered, add_loads,
  remove_one, obey_all, has_been, load_answer_event, call_answer_event, handle, run, start_page,
}
use mirraura.App.Dashboard.Moves.{
  SameLists, handle_message-SameLists, me_answered-SameLists, obey_all-SameLists,
}

module _ {P E C : Type 0} (slot : Slot P E C) where
  -- An answer to a load comes while the panel that asked for it is rendered.
  unfoldable pub OnTime : Event E C → Page P → Type 0
  OnTime (load_answer k answer) p = is_current slot k p ≡ true
  OnTime _ p = Unit

  unfoldable pub Prompt : List (Event E C) → Page P → Type 0
  Prompt [] p = Unit
  Prompt (e ∷ es) p = OnTime e p × Prompt es (handle slot e p)

  -- The panel lists nothing yet, or what the page has.
  unfoldable pub Agree : P → App → Type 0
  Agree panel a = (slot.entries panel ≡ []) ⊎ (slot.handed a ≡ some (slot.entries panel))

  pub same-Agree :
      (panel panel' : P) (a a' : App)
      → slot.entries panel ≡ slot.entries panel'
      → slot.handed a ≡ slot.handed a'
      → Agree panel' a'
      → Agree panel a
  unfolding Agree
  same-Agree panel panel' a a' e h (inl none) = inl (e ∙ none)
  same-Agree panel panel' a a' e h (inr same) = inr (h ∙ same ∙ ap some (sym e))

  either-entries :
      (b : Bool) (panel panel' : P)
      → slot.entries panel ≡ slot.entries panel'
      → slot.entries (if b then panel else panel') ≡ slot.entries panel'
  either-entries true panel panel' e = e
  either-entries false panel panel' e = refl

module _ {P E C : Type 0} (slot : Slot P E C) (laws : Laws slot) where
  pub settle-Agree :
      (p : Page P) (a : App)
      → Agree slot p.panel a
      → Agree slot (settle slot p a).panel (settle slot p a).app
  unfolding settle Agree
  settle-Agree p a g = elim (Bool-cases (is_mounted slot a)) [
    | inr f ↦ rw f g
    | inl t ↦ elim (Bool-cases (is_mounted slot p.app)) [
      | inl t' ↦ rw (t, t') g
      | inr f ↦ rw (t, f) (inl laws.starts)
    ]
  ]

  moved-Agree :
      (p : Page P) (a : App)
      → SameLists a p.app
      → Agree slot p.panel p.app
      → Agree slot (settle slot p a).panel (settle slot p a).app
  moved-Agree p a (h, c, q) g =
      settle-Agree p a (same-Agree slot p.panel p.panel a p.app refl (laws.apart a p.app h c q) g)

  -- An answer that leaves the lists alone, and one that hands a list to the page.
  answered-Agree :
      (k : ℕ) (panel : P) (effects : List (Effect E)) (p : Page P)
      → Agree slot p.panel p.app
      → slot.entries panel ≡ slot.entries p.panel
      → IsHarmless effects
      → Agree slot (answered slot k panel effects p).panel (answered slot k panel effects p).app
  unfolding answered
  answered-Agree k panel effects p g e h =
      let chosen = if is_current slot k p then panel else p.panel in
      let (hashes, corpus, quarantine) = obey_all-SameLists slot effects p.app h in
      settle-Agree (record p { panel = chosen; loads = add_loads k effects p.loads })
        (obey_all slot effects p.app)
        (same-Agree slot chosen p.panel (obey_all slot effects p.app) p.app
          (either-entries slot (is_current slot k p) panel p.panel e)
          (laws.apart (obey_all slot effects p.app) p.app hashes corpus quarantine) g)

  received-Agree :
      (k : ℕ) (es : List E) (panel : P) (p : Page P)
      → slot.entries panel ≡ es
      → is_current slot k p ≡ true
      → Agree slot
          (answered slot k panel (changed es ∷ []) p).panel
          (answered slot k panel (changed es ∷ []) p).app
  unfolding answered Agree
  received-Agree k es panel p e c =
      let chosen = if is_current slot k p then panel else p.panel in
      let same : slot.entries chosen ≡ es = rw c e in
      settle-Agree (record p { panel = chosen; loads = p.loads }) (slot.hand es p.app)
        (inr (laws.hands es p.app ∙ ap some (sym same)))

  loaded-Agree :
      (k : ℕ) (answer : Outcome (List E)) (p : Page P)
      → is_current slot k p ≡ true
      → Agree slot p.panel p.app
      → let (panel, effects) = slot.load_answered answer p.panel in
        Agree slot (answered slot k panel effects p).panel (answered slot k panel effects p).app
  loaded-Agree k (fulfilled es) p c g =
      let (panel, effects) = slot.load_answered (fulfilled es) p.panel in
      let (e, h) = laws.receives es p.panel in rw h (received-Agree k es panel p e c)
  loaded-Agree k (rejected e) p c g =
      let (panel, effects) = slot.load_answered (rejected e) p.panel in
      let (same, h) = laws.keeps e p.panel in answered-Agree k panel effects p g same h

  pub load_answer-Agree :
      (k : ℕ) (answer : Outcome (List E)) (p : Page P)
      → is_current slot k p ≡ true
      → Agree slot p.panel p.app
      → Agree slot (load_answer_event slot k answer p).panel (load_answer_event slot k answer p).app
  unfolding load_answer_event is_current
  load_answer-Agree k answer p c g = elim (Bool-cases (elem k p.loads)) [
    | inr f ↦ rw f g
    | inl t ↦ rw t (loaded-Agree k answer (record p { loads = remove_one k p.loads }) c g)
  ]

  pub call_answer-Agree :
      (k : ℕ) (c : C) (answer : Outcome (Unit {0})) (p : Page P)
      → Agree slot p.panel p.app
      → Agree slot
          (call_answer_event slot k c answer p).panel
          (call_answer_event slot k c answer p).app
  unfolding call_answer_event
  call_answer-Agree k c answer p g = elim (Bool-cases (has_been k p)) [
    | inr f ↦ rw f g
    | inl t ↦
        let (panel, effects) = slot.call_answered c answer p.panel in
        let (same, h) = laws.answers c answer p.panel in
        rw t (answered-Agree k panel effects p g same h)
  ]

  handle-Agree :
      (e : Event E C) (p : Page P)
      → OnTime slot e p
      → Agree slot p.panel p.app
      → Agree slot (handle slot e p).panel (handle slot e p).app
  unfolding handle OnTime change_tab verdicts_changed handle_upload handle_login handle_logout
      handle_session_expired
  handle-Agree (knows answer) p _ g =
      moved-Agree p (me_answered answer p.app) (me_answered-SameLists answer p.app) g
  handle-Agree (clicks_tab id) p v g = moved-Agree p (change_tab id p.app) (refl, refl, refl) g
  handle-Agree (hears c) p _ g =
      moved-Agree p (handle_message c p.app) (handle_message-SameLists c p.app) g
  handle-Agree (log_loads rows) p _ g =
      moved-Agree p (verdicts_changed rows p.app) (refl, refl, refl) g
  handle-Agree (uploads v) p _ g = moved-Agree p (handle_upload v p.app) (refl, refl, refl) g
  handle-Agree (logs_in u) p _ g = moved-Agree p (handle_login u p.app) (refl, refl, refl) g
  handle-Agree (logs_out answer) p _ g =
      moved-Agree p (handle_logout answer p.app) (refl, refl, refl) g
  handle-Agree expires p _ g = moved-Agree p (handle_session_expired p.app) (refl, refl, refl) g
  handle-Agree (load_answer k answer) p c g = load_answer-Agree k answer p c g
  handle-Agree (call_answer k c answer) p _ g = call_answer-Agree k c answer p g

  pub run-Agree :
      (es : List (Event E C)) (p : Page P)
      → Prompt slot es p
      → Agree slot p.panel p.app
      → Agree slot (run slot es p).panel (run slot es p).app
  unfolding Prompt
  run-Agree [] p _ g = g
  run-Agree (e ∷ es) p (t, ts) g = run-Agree es (handle slot e p) ts (handle-Agree e p t g)

  pub start-Agree : Agree slot slot.start_panel start
  unfolding Agree
  start-Agree = inl laws.starts

  -- As long as each answer to a load comes while the panel that asked for it is rendered, a panel that
  -- lists any entry lists exactly the entries that the page has been handed.
  pub listed-handed :
      (es : List (Event E C))
      → Prompt slot es (start_page slot)
      → 0 < length (slot.entries (run slot es (start_page slot)).panel)
      → slot.handed (run slot es (start_page slot)).app
        ≡ some (slot.entries (run slot es (start_page slot)).panel)
  unfolding Agree
  listed-handed es prompt l = elim (run-Agree es (start_page slot) prompt start-Agree) [
    | inl none ↦
        let z : length (slot.entries (run slot es (start_page slot)).panel) ≡ 0 = rw none refl in
        absurd (omega arith)
    | inr same ↦ same
  ]
