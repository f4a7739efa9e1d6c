-- ===== src/App/Together/Asks.antt =====
-- The refresh key of frontend/src/App.tsx: a review panel that is rendered loads anew when it changes.
use mirraura.Base.{
  ℕ, suc, ◌==◌, true, false, List, elem, elem-first, ◌≡◌, ◌⊎◌, inl, inr, ◌∙◌, sym, ap, Bool-cases,
  arith, subst, if◌then◌else◌,
}
use mirraura.Api.Request.{Outcome}
use mirraura.Review.{Effect}
use mirraura.App.{App}
use mirraura.App.Dashboard.{
  Slot, Page, settle, is_mounted, answered, load_answer_event, call_answer_event, has_been,
  remove_one, is_current, add_loads, obey_all,
}
use mirraura.App.Dashboard.Moves.{settle-app}
use mirraura.App.Together.{Mounted, settled, on_page}

-- The refresh key of the page has changed.
abbrev pub Refreshed : App → App → Type 0
Refreshed a b = b.refresh_key == a.refresh_key ≡ false

pub not_refreshed : {Q : Type 0} (a : App) → Refreshed a a → Q
not_refreshed a r = let same : a.refresh_key == a.refresh_key ≡ true = ground arith in absurd (cc)

module _ {P E C : Type 0} (slot : Slot P E C) where
  -- A panel that is rendered has a load of its mount on its way.
  abbrev pub Asks : Page P → Type 0
  Asks p = (is_mounted slot p.app ≡ false) ⊎ (elem p.mount p.loads ≡ true)

  pub settle-Asks : (p : Page P) (a : App) → Refreshed p.app a → Asks (settle slot p a)
  unfolding settle
  settle-Asks p a r = elim (Bool-cases (is_mounted slot a)) [
    | inr f ↦ rw f (inl f)
    | inl t ↦ elim (Bool-cases (is_mounted slot p.app)) [
      | inl t' ↦ rw (t, t', r) (inr (elem-first p.mount p.loads))
      | inr f ↦ rw (t, f) (inr (elem-first (suc p.mount) p.loads))
    ]
  ]

  pub settled-Asks :
      (a b : App) (m : Mounted P) → Refreshed a b → Asks (on_page b (settled slot a b m))
  settled-Asks a b m r = elim (settle-Asks (on_page a m) b r) [
    | inl f ↦ inl (sym (ap (is_mounted slot) (settle-app slot (on_page a m) b)) ∙ f)
    | inr e ↦ inr e
  ]

  pub answered-Asks :
      (k : ℕ) (panel : P) (effects : List (Effect E)) (p : Page P)
      → Refreshed p.app (answered slot k panel effects p).app
      → Asks (answered slot k panel effects p)
  unfolding answered
  answered-Asks k panel effects p r =
      let q : Page P = record p {
        panel = if is_current slot k p then panel else p.panel;
        loads = add_loads k effects p.loads;
      } in
      let a = obey_all slot effects p.app in
      settle-Asks q a (subst (λ b. Refreshed p.app b) (settle-app slot q a) r)

  pub load-Asks :
      (k : ℕ) (answer : Outcome (List E)) (p : Page P)
      → Refreshed p.app (load_answer_event slot k answer p).app
      → Asks (load_answer_event slot k answer p)
  unfolding load_answer_event
  load-Asks k answer p r = elim (Bool-cases (elem k p.loads)) [
    | inr f ↦ let same : Refreshed p.app p.app = rw f at r in not_refreshed p.app same
    | inl t ↦
        let (panel, effects) = slot.load_answered answer p.panel in
        let q : Page P = record p { loads = remove_one k p.loads } in
        let r' : Refreshed q.app (answered slot k panel effects q).app = rw t at r in
        rw t (answered-Asks k panel effects q r')
  ]

  pub call-Asks :
      (k : ℕ) (c : C) (answer : Outcome (Unit {0})) (p : Page P)
      → Refreshed p.app (call_answer_event slot k c answer p).app
      → Asks (call_answer_event slot k c answer p)
  unfolding call_answer_event
  call-Asks k c answer p r = elim (Bool-cases (has_been k p)) [
    | inr f ↦ let same : Refreshed p.app p.app = rw f at r in not_refreshed p.app same
    | inl t ↦
        let (panel, effects) = slot.call_answered c answer p.panel in
        let r' : Refreshed p.app (answered slot k panel effects p).app = rw t at r in
        rw t (answered-Asks k panel effects p r')
  ]
