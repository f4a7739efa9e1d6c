-- ===== src/Review.antt =====
-- What PendingHashApprovals.tsx, CorpusReview.tsx and QuarantineReview.tsx of
-- frontend/src/components have in common: the list of entries, the decision on one of them behind a
-- dialog, and what becomes of an answer. `K` names an entry and `E` is its type.
pub mod Protocol
pub mod Answers
use mirraura.Base.{
  ℕ, Bool, true, false, List, [], ◌∷◌, Text, text, Option, none, some, if◌then◌else◌, ◌≡◌, ◌++◌,
  refl,
}
use mirraura.Types.{Role, admin, analyst}
use mirraura.Api.Request.{Failure, Outcome, fulfilled, rejected, message_or, has_status, Call}
use mirraura.Toast.{ToastTone}
use mathlib.Core.Bool.{true}
use mathlib.Core.List.{◌++◌}

-- What a handler does besides setting the state, in order.
pub data Effect {ℓ} (E : Type ℓ) : Type ℓ where
  session_expired decided : Effect E
  pushed : Text → ToastTone → Effect E
  changed : List E → Effect E
  calls : Call → Effect E

pub record PendingAction {ℓ} (K : Type ℓ) : Type ℓ where
  pub target : K
  -- What the dialog shows of the entry, as far as the panel has it.
  pub label : Text
  pub preview : Text
  pub decide : K → Call
  pub verb : Text

pub record Review {ℓ κ} (K : Type ℓ) (E : Type κ) : Type (ℓ ⊔ κ) where
  pub entries : List E
  pub busy : Option K
  pub error : Option Text
  pub pending_action : Option (PendingAction K)
  pub loading : Bool

-- `label || "(no label)"`
abbrev pub label_or_none : Text → Text
label_or_none [] = text "(no label)"
label_or_none (c ∷ s) = c ∷ s

abbrev pub admins_only {ℓ} : {E : Type ℓ} → Effect E
admins_only = pushed (text "Admins only") ToastTone.error

module _ {ℓ κ} {K : Type ℓ} {E : Type κ} where
  -- The `catch` clauses: an expired session, a refusal, or a message.
  unfoldable pub failed : Text → Failure → Review K E → Review K E × List (Effect E)
  failed fallback e r =
      if has_status 401 e
      then (r, session_expired ∷ [])
      else if has_status 403 e
      then (r, admins_only ∷ [])
      else (record r { error = some (message_or fallback e) }, [])

  unfoldable pub load_answered : Text → Outcome (List E) → Review K E → Review K E × List (Effect E)
  unfolding failed
  load_answered fallback (fulfilled entries) r =
      (record r { entries = entries; error = none; loading = false }, changed entries ∷ [])
  load_answered fallback (rejected e) r =
      let (r', effects) = failed fallback e r in (record r' { loading = false }, effects)

  unfoldable pub run_decision : K → (K → Call) → Review K E → Review K E × List (Effect E)
  run_decision target decide r =
      (record r { busy = some target; error = none }, calls (decide target) ∷ [])

  -- `reload` is the call that fetches the entries anew.
  unfoldable pub decision_answered :
      Call → Outcome (Unit {0}) → Review K E → Review K E × List (Effect E)
  unfolding failed
  decision_answered reload (fulfilled _) r =
      (record r { busy = none; pending_action = none }, calls reload ∷ decided ∷ [])
  decision_answered reload (rejected e) r =
      let (r', effects) = failed (text "action failed") e r in
      (record r' { busy = none; pending_action = none }, effects)

  unfoldable pub ask : PendingAction K → Review K E → Review K E
  ask action r = record r { pending_action = some action }

  -- The dialog's `onConfirm` and `onCancel`.
  unfoldable pub confirm : Review K E → Review K E × List (Effect E)
  unfolding run_decision
  confirm r = elim r.pending_action [
    | none ↦ (r, [])
    | some action ↦ run_decision action.target action.decide r
  ]

  unfoldable pub cancel : Review K E → Review K E
  cancel r = record r { pending_action = none }

  abbrev pub start : Review K E
  start = record { entries = []; busy = none; error = none; pending_action = none; loading = true }

-- What stands in the place of the table.
pub data Body {ℓ} (Row : Type ℓ) : Type ℓ where
  skeleton empty : Body Row
  table : List Row → Body Row

unfoldable pub body {ℓ} : {Row : Type ℓ} → Bool → List Row → Body Row
body true rows = skeleton
body false [] = empty
body false (row ∷ rows) = table (row ∷ rows)

-- The buttons of a row, there for an admin: whether they are disabled.
unfoldable pub row_buttons : Role → Bool → Option Bool
row_buttons admin busy = some busy
row_buttons analyst busy = none

pub rows_of {ℓ} : {Row : Type ℓ} → Body Row → List Row
rows_of skeleton = []
rows_of empty = []
rows_of (table rows) = rows

pub rows_of-body {ℓ} : {Row : Type ℓ} (rows : List Row) → rows_of (body false rows) ≡ rows
unfolding rows_of body
rows_of-body [] = refl
rows_of-body (row ∷ rows) = refl

pub rows_of-body_loading {ℓ} : {Row : Type ℓ} (rows : List Row) → rows_of (body true rows) ≡ []
unfolding rows_of body
rows_of-body_loading rows = refl
