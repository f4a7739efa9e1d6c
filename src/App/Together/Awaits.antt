-- ===== src/App/Together/Awaits.antt =====
-- The skeleton that the review panels of frontend/src/components show while they load, under the page of
-- frontend/src/App.tsx: it is shown only while a load of the mount is on its way.
use mirraura.Base.{
  ℕ, suc, ◌==◌, Bool, true, false, List, [], ◌∷◌, elem, elem-cons, ◌≡◌, inl, inr, Bool-cases,
  if◌then◌else◌, arith, refl, sym, ◌∙◌, ap, ◌⊎◌, elem-first,
}
use mirraura.Api.Request.{Outcome}
use mirraura.Review.{Effect}
use mirraura.App.{App}
use mirraura.App.Dashboard.{
  Slot, Page, settle, is_mounted, is_current, answered, add_loads, remove_one, obey_all,
  load_answer_event, call_answer_event, has_been,
}

-- What a panel does with its skeleton.
pub record Loading {P E C : Type 0} (slot : Slot P E C) (loading : P → Bool) : Type 0 where
  pub ends : (answer : Outcome (List E)) (p : P) → loading (slot.load_answered answer p).0 ≡ false
  pub keeps :
      (c : C) (answer : Outcome (Unit {0})) (p : P)
      → loading (slot.call_answered c answer p).0 ≡ loading p

elem-later : (k n : ℕ) (ns : List ℕ) → elem k ns ≡ true → elem k (n ∷ ns) ≡ true
elem-later k n ns h = ground (arith, elem-cons k n ns)

elem-add_loads :
    {E : Type 0} (k n : ℕ) (effects : List (Effect E)) (loads : List ℕ)
    → elem k loads ≡ true
    → elem k (add_loads n effects loads) ≡ true
elem-add_loads k n [] loads h = h
elem-add_loads k n (Effect.calls c ∷ es) loads h =
    elem-later k n (add_loads n es loads) (elem-add_loads k n es loads h)
elem-add_loads k n (Effect.session_expired ∷ es) loads h = elem-add_loads k n es loads h
elem-add_loads k n (Effect.decided ∷ es) loads h = elem-add_loads k n es loads h
elem-add_loads k n (Effect.changed entries ∷ es) loads h = elem-add_loads k n es loads h
elem-add_loads k n (Effect.pushed message tone ∷ es) loads h = elem-add_loads k n es loads h

pub elem-remove_one :
    (k n : ℕ) (ns : List ℕ) → n == k ≡ false → elem k ns ≡ true → elem k (remove_one n ns) ≡ true
elem-remove_one k n [] d h = h
elem-remove_one k n (m ∷ ns) d h =
    ground (arith, elem-cons k m ns, elem-cons k m (remove_one n ns), elem-remove_one k n ns d)

module _ {P E C : Type 0} (slot : Slot P E C) (loading : P → Bool) where
  -- A panel that is rendered with its skeleton waits for a load of its mount.
  abbrev pub Awaits : Page P → Type 0
  Awaits p = is_mounted slot p.app ≡ true → loading p.panel ≡ true → elem p.mount p.loads ≡ true

  -- The panel is not rendered, or shows no skeleton, or a load of its mount is on its way and ends it,
  -- whatever the answer is.
  abbrev pub SkeletonEnds : Page P → Type 0
  SkeletonEnds p =
      (is_mounted slot p.app ≡ false)
      ⊎ ((loading p.panel ≡ false)
          ⊎ ((elem p.mount p.loads ≡ true)
              × ((answer : Outcome (List E))
                  → loading (load_answer_event slot p.mount answer p).panel ≡ false)))

module _ {P E C : Type 0} (slot : Slot P E C) {loading : P → Bool} (l : Loading slot loading) where
  pub settle-Awaits :
      (p : Page P) (a : App) → Awaits slot loading p → Awaits slot loading (settle slot p a)
  unfolding settle
  settle-Awaits p a h = elim (Bool-cases (is_mounted slot a)) [
    | inr f ↦ rw f (λ m _. cc)
    | inl t ↦ elim (Bool-cases (is_mounted slot p.app)) [
      | inr f ↦ rw (t, f) (λ _ _. elem-first (suc p.mount) p.loads)
      | inl t' ↦ elim (Bool-cases (a.refresh_key == p.app.refresh_key)) [
        | inl e ↦ rw (t, t', e) (λ _ s. h t' s)
        | inr e ↦ rw (t, t', e) (λ _ s. elem-first p.mount p.loads)
      ]
    ]
  ]

  answered-Awaits :
      (k : ℕ) (panel : P) (effects : List (Effect E)) (p : Page P)
      → Awaits slot loading (record p {
        panel = if is_current slot k p then panel else p.panel;
        loads = add_loads k effects p.loads;
      })
      → Awaits slot loading (answered slot k panel effects p)
  unfolding answered
  answered-Awaits k panel effects p h =
      settle-Awaits
        (record p {
          panel = if is_current slot k p then panel else p.panel;
          loads = add_loads k effects p.loads;
        })
        (obey_all slot effects p.app) h

  -- The answer to a load ends the loading of the current mount, and takes no load of it otherwise.
  load_waits :
      (k : ℕ) (answer : Outcome (List E)) (p : Page P)
      → Awaits slot loading p
      → is_mounted slot p.app ≡ true
      → loading (if is_current slot k p then (slot.load_answered answer p.panel).0 else p.panel)
        ≡ true
      → elem p.mount (remove_one k p.loads) ≡ true
  unfolding is_current
  load_waits k answer p h m s = elim (Bool-cases (k == p.mount)) [
    | inl t ↦
        let ended = l.ends answer p.panel in
        let going : loading (slot.load_answered answer p.panel).0 ≡ true = rw (t, m) at s in
        absurd (cc)
    | inr f ↦
        let going : loading p.panel ≡ true = rw f at s in
        elem-remove_one p.mount k p.loads f (h m going)
  ]

  pub load-Awaits :
      (k : ℕ) (answer : Outcome (List E)) (p : Page P)
      → Awaits slot loading p
      → Awaits slot loading (load_answer_event slot k answer p)
  unfolding load_answer_event
  load-Awaits k answer p h = elim (Bool-cases (elem k p.loads)) [
    | inr f ↦ rw f h
    | inl t ↦
        let (panel, effects) = slot.load_answered answer p.panel in
        let left = remove_one k p.loads in
        rw t (
          answered-Awaits k panel effects (record p { loads = left })
            (λ m s. elem-add_loads p.mount k effects left (load_waits k answer p h m s)))
  ]

  call_keeps :
      (b : Bool) (c : C) (answer : Outcome (Unit {0})) (p : P)
      → loading (if b then (slot.call_answered c answer p).0 else p) ≡ loading p
  call_keeps true c answer p = l.keeps c answer p
  call_keeps false c answer p = refl

  pub call-Awaits :
      (k : ℕ) (c : C) (answer : Outcome (Unit {0})) (p : Page P)
      → Awaits slot loading p
      → Awaits slot loading (call_answer_event slot k c answer p)
  unfolding call_answer_event
  call-Awaits k c answer p h = elim (Bool-cases (has_been k p)) [
    | inr f ↦ rw f h
    | inl t ↦
        let (panel, effects) = slot.call_answered c answer p.panel in
        rw t (
          answered-Awaits k panel effects p (λ m s.
            elem-add_loads p.mount k effects p.loads
              (h m (sym (call_keeps (is_current slot k p) c answer p.panel) ∙ s))))
  ]

  -- A panel that is rendered is not mounted anew by the page's change.
  settle-panel :
      (p : Page P) (a : App) → is_mounted slot p.app ≡ true → (settle slot p a).panel ≡ p.panel
  unfolding settle
  settle-panel p a m = elim (Bool-cases (is_mounted slot a)) [
    | inr f ↦ rw f refl
    | inl t ↦ rw (t, m) refl
  ]

  answered-panel :
      (k : ℕ) (panel : P) (effects : List (Effect E)) (p : Page P)
      → is_mounted slot p.app ≡ true
      → (answered slot k panel effects p).panel ≡ (if is_current slot k p then panel else p.panel)
  unfolding answered
  answered-panel k panel effects p m =
      settle-panel
        (record p {
          panel = if is_current slot k p then panel else p.panel;
          loads = add_loads k effects p.loads;
        })
        (obey_all slot effects p.app) m

  current_self : (p : Page P) → is_mounted slot p.app ≡ true → is_current slot p.mount p ≡ true
  unfolding is_current
  current_self p m = let same : p.mount == p.mount ≡ true = ground arith in rw (same, m) refl

  chosen_ends :
      (b : Bool) (answer : Outcome (List E)) (p : P)
      → b ≡ true
      → loading (if b then (slot.load_answered answer p).0 else p) ≡ false
  chosen_ends b answer p e = rw e (l.ends answer p)

  answer_ends :
      (answer : Outcome (List E)) (p : Page P)
      → is_mounted slot p.app ≡ true
      → elem p.mount p.loads ≡ true
      → loading (load_answer_event slot p.mount answer p).panel ≡ false
  unfolding load_answer_event
  answer_ends answer p m e =
      let (panel, effects) = slot.load_answered answer p.panel in
      let q : Page P = record p { loads = remove_one p.mount p.loads } in
      rw e (
        ap loading (answered-panel p.mount panel effects q m)
        ∙ chosen_ends (is_current slot p.mount q) answer p.panel (current_self q m))

  pub Awaits-SkeletonEnds : (p : Page P) → Awaits slot loading p → SkeletonEnds slot loading p
  Awaits-SkeletonEnds p h = elim (Bool-cases (is_mounted slot p.app)) [
    | inr f ↦ inl f
    | inl m ↦ elim (Bool-cases (loading p.panel)) [
      | inr f ↦ inr (inl f)
      | inl s ↦ let e = h m s in inr (inr (e, λ answer. answer_ends answer p m e))
    ]
  ]
