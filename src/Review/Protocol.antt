-- ===== src/Review/Protocol.antt =====
-- The life of a review panel of frontend/src/components: which events can come, with the calls that
-- are on their way, and what holds after any of them.
use mirraura.Base.{
  length, ◌+◌, false, Option, ℕ, suc, ◌-◌, ◌<◌, ◌≡◌, ◌≢◌, ◌⊎◌, Bool, true, List, [], ◌∷◌, ◌++◌,
  Text, none, some, In, arith, refl, All, In-append_right, subst, In-append_left, All-mono, sym,
  ◌∙◌,
}
use mirraura.Types.{Role, analyst}
use mirraura.Api.Request.{Outcome, fulfilled, rejected, Call}
use mirraura.Review.{
  Effect, session_expired, decided, pushed, changed, calls, PendingAction, Review, admins_only,
  failed, load_answered, run_decision, decision_answered, ask, confirm, cancel, row_buttons,
}
use mirraura.Review

append-ne-nil {ℓ} : {A : Type ℓ} (xs : List A) (y : A) (ys : List A) → xs ++ y ∷ ys ≢ []
append-ne-nil [] y ys = λ e. cc
append-ne-nil (x ∷ xs) y ys = λ e. cc

-- What differs between the panels.
pub record Panel {ℓ κ} (K : Type ℓ) (E : Type κ) : Type (ℓ ⊔ κ) where
  pub reload : Call
  pub load_fallback : Text
  pub shown : E → Bool
  pub is_busy : Option K → E → Bool
  pub ask_approve : E → PendingAction K
  pub ask_reject : E → PendingAction K

-- The calls among the effects of a handler.
abbrev pub calls_of {ℓ} : {E : Type ℓ} → List (Effect E) → List Call
calls_of [] = []
calls_of (calls c ∷ es) = c ∷ calls_of es
calls_of (_ ∷ es) = calls_of es

module _ {ℓ κ} {K : Type ℓ} {E : Type κ} (p : Panel K E) (role : Role) where
  -- The panel, its loads and the calls of its decisions that are on their way, all such calls, the
  -- latest first, and all entries that it has listed.
  pub record World : Type (ℓ ⊔ κ) where
    pub review : Review K E
    pub loads : ℕ
    pub deciding : List Call
    pub made : List Call
    pub listed : List E

  pub data Step (w v : World) : Type (ℓ ⊔ κ) where
    loaded :
        (answer : Outcome (List E))
        → 0 < w.loads
        → (let (r, effects) = load_answered p.load_fallback answer w.review in
            v ≡ record {
              review = r;
              loads = length (calls_of effects) + (w.loads - 1);
              deciding = w.deciding;
              made = w.made;
              listed = r.entries ++ w.listed;
            })
        → Step w v
    refreshed : v ≡ record w { loads = suc w.loads } → Step w v
    -- A row has buttons as `row_buttons` says, and a disabled one is not clicked.
    asks :
        (e : E) (action : PendingAction K)
        → row_buttons role (p.is_busy w.review.busy e) ≡ some false
        → In e w.review.entries
        → p.shown e ≡ true
        → (action ≡ p.ask_approve e) ⊎ (action ≡ p.ask_reject e)
        → v ≡ record w { review = ask action w.review }
        → Step w v
    cancels : v ≡ record w { review = cancel w.review } → Step w v
    -- The dialog is open only with a question.
    confirms :
        (action : PendingAction K)
        → w.review.pending_action ≡ some action
        → (let (r, effects) = confirm w.review in
            v ≡ record {
              review = r;
              loads = w.loads;
              deciding = calls_of effects ++ w.deciding;
              made = calls_of effects ++ w.made;
              listed = w.listed;
            })
        → Step w v
    answered :
        (before : List Call) (call : Call) (after : List Call) (answer : Outcome (Unit {0}))
        → w.deciding ≡ before ++ call ∷ after
        → (let (r, effects) = decision_answered p.reload answer w.review in
            v ≡ record {
              review = r;
              loads = length (calls_of effects) + w.loads;
              deciding = before ++ after;
              made = w.made;
              listed = w.listed;
            })
        → Step w v

  abbrev pub begin_world : World
  begin_world = record { review = Review.start; loads = 1; deciding = []; made = []; listed = [] }

  pub data Reach : World → Type (ℓ ⊔ κ) where
    begin : Reach begin_world
    next : {w v : World} → Reach w → Step w v → Reach v

  -- A question that a row asks of one of the entries.
  abbrev pub IsAsked : List E → PendingAction K → Type (ℓ ⊔ κ)
  IsAsked es a =
      (e : E) × In e es × (p.shown e ≡ true) × ((a ≡ p.ask_approve e) ⊎ (a ≡ p.ask_reject e))

  abbrev pub IsDecision : List E → Call → Type (ℓ ⊔ κ)
  IsDecision es c = (a : PendingAction K) × IsAsked es a × (c ≡ a.decide a.target)

  confirm-calls :
      (r : Review K E) (a : PendingAction K)
      → r.pending_action ≡ some a
      → calls_of (confirm r).1 ≡ a.decide a.target ∷ []
  unfolding confirm run_decision
  confirm-calls r a h = rw h refl

  pub record IsOrderly (w : World) : Type (ℓ ⊔ κ) where
    pub waits : w.review.loading ≡ true → 0 < w.loads
    pub busy_decides : w.review.busy ≢ none → w.deciding ≢ []
    pub analyst_asks : role ≡ analyst → w.review.pending_action ≡ none
    pub analyst_decides : role ≡ analyst → (w.deciding ≡ []) × (w.made ≡ [])

  Step-IsOrderly : {w v : World} → Step w v → IsOrderly w → IsOrderly v
  unfolding load_answered decision_answered ask confirm cancel row_buttons
  Step-IsOrderly (loaded (fulfilled es) n e) s = ground arith
  Step-IsOrderly (loaded (rejected f) n e) s = ground arith
  Step-IsOrderly (refreshed e) s = ground arith
  Step-IsOrderly (asks x action r i h o q) s = ground arith
  Step-IsOrderly (cancels e) s = ground arith
  Step-IsOrderly {w} (confirms action h e) s = ground (arith, confirm-calls w.review action h)
  Step-IsOrderly (answered before call after answer d e) s =
      ground (arith, append-ne-nil before call after)

  pub record IsGuarded (w : World) : Type (ℓ ⊔ κ) where
    pub orderly : IsOrderly w
    pub entries_listed : (e : E) → In e w.review.entries → In e w.listed
    pub asked : (a : PendingAction K) → w.review.pending_action ≡ some a → IsAsked w.listed a
    pub decisions : All (IsDecision w.listed) w.made

  -- What has been asked of an entry is asked of it still when more entries are listed.
  module _ (more es : List E) where
    more-IsAsked : (a : PendingAction K) → IsAsked es a → IsAsked (more ++ es) a
    more-IsAsked a (e, i, s, o) = (e, In-append_right more es i, s, o)

    more_decisions : (cs : List Call) → All (IsDecision es) cs → All (IsDecision (more ++ es)) cs
    more_decisions cs =
        All-mono (IsDecision es) (IsDecision (more ++ es)) cs
          (λ c d. (d.0, more-IsAsked d.0 d.1, d.2))

  load-pending_action :
      (answer : Outcome (List E)) (r : Review K E)
      → (load_answered p.load_fallback answer r).0.pending_action ≡ r.pending_action
  unfolding load_answered
  load-pending_action (fulfilled es) r = refl
  load-pending_action (rejected f) r = ground arith

  decision-entries :
      (answer : Outcome (Unit {0})) (r : Review K E)
      → let r' = (decision_answered p.reload answer r).0 in
        (r'.entries ≡ r.entries) × (r'.pending_action ≡ none)
  unfolding decision_answered
  decision-entries (fulfilled _) r = (refl, refl)
  decision-entries (rejected f) r = ground arith

  confirm-entries :
      (r : Review K E)
      → ((confirm r).0.entries ≡ r.entries) × ((confirm r).0.pending_action ≡ r.pending_action)
  unfolding confirm run_decision
  confirm-entries r = ground arith

  -- What changes neither the entries nor the calls nor what has been listed.
  same-IsGuarded :
      (w v : World)
      → IsOrderly v
      → v.review.entries ≡ w.review.entries
      → v.listed ≡ w.listed
      → v.made ≡ w.made
      → ((a : PendingAction K) → v.review.pending_action ≡ some a → IsAsked w.listed a)
      → IsGuarded w
      → IsGuarded v
  same-IsGuarded w v o es ls ms asked s = record {
    orderly = o;
    entries_listed = λ e i. rw ls (s.entries_listed e (subst (In e) es i));
    asked = λ a h. rw ls (asked a h);
    decisions = rw (ls, ms) s.decisions;
  }

  Step-IsGuarded : {w v : World} → Step w v → IsGuarded w → IsGuarded v
  unfolding ask cancel
  Step-IsGuarded {w} {v} (loaded answer n e) s =
      let o = Step-IsOrderly (loaded answer n e) s.orderly in
      let r = (load_answered p.load_fallback answer w.review).0 in
      let kept = load-pending_action answer w.review in
      record {
        orderly = o;
        entries_listed = rw e (λ x i. In-append_left r.entries w.listed i);
        asked = rw e (λ a h. more-IsAsked r.entries w.listed a (s.asked a (sym kept ∙ h)));
        decisions = rw e (more_decisions r.entries w.listed w.made s.decisions);
      }
  Step-IsGuarded {w} {v} (refreshed e) s =
      same-IsGuarded w v (Step-IsOrderly (refreshed e) s.orderly) (cc) (cc) (cc) (rw e s.asked) s
  Step-IsGuarded {w} {v} (asks x action r i h o q) s =
      same-IsGuarded w v (Step-IsOrderly (asks x action r i h o q) s.orderly) (rw q refl)
        (rw q refl) (rw q refl)
        (rw q (λ a k.
          let same : action ≡ a = ground arith in rw (← same) (x, s.entries_listed x i, h, o)))
        s
  Step-IsGuarded {w} {v} (cancels e) s =
      same-IsGuarded w v (Step-IsOrderly (cancels e) s.orderly) (rw e refl) (rw e refl) (rw e refl)
        (rw e (λ a h. cc)) s
  Step-IsGuarded {w} {v} (confirms action h e) s =
      let (same, open_still) = confirm-entries w.review in
      record {
        orderly = Step-IsOrderly (confirms action h e) s.orderly;
        entries_listed = rw e (λ x i. s.entries_listed x (subst (In x) same i));
        asked = rw e (λ a k. s.asked a (sym open_still ∙ k));
        decisions =
            rw (e, confirm-calls w.review action h) ((action, s.asked action h, refl), s.decisions);
      }
  Step-IsGuarded {w} {v} (answered before call after answer d e) s =
      let (same, closed) = decision-entries answer w.review in
      same-IsGuarded w v (Step-IsOrderly (answered before call after answer d e) s.orderly)
        (rw e same) (rw e refl) (rw e refl) (rw e (λ a k. cc)) s

  -- After any loads, refreshes, clicks and answers, in any order: the panel shows that it loads only
  -- while a load is on its way, and an entry as busy only while the call of a decision is; the dialog
  -- asks only what the row of a shown entry, one that the panel has listed, asks, every call that a
  -- decision has made is the one of such a row's button for its own entry, and for an analyst there is
  -- no question, decision or call at all.
  pub Reach-IsGuarded : {w : World} → Reach w → IsGuarded w
  Reach-IsGuarded begin = record {
    orderly = ground arith;
    entries_listed = λ e i. i;
    asked = λ a h. cc;
    decisions = tt;
  }
  Reach-IsGuarded (next r s) = Step-IsGuarded s (Reach-IsGuarded r)
