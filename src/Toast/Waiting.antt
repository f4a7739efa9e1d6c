-- ===== src/Toast/Waiting.antt =====
-- What the timers of frontend/src/components/Toast.tsx do while time passes.
use mirraura.Base.{
  ℕ, suc, ◌+◌, ◌≤◌, ◌<◌, ◌≡◌, refl, sym, ◌∙◌, Bool, false, not, ◌==◌, List, [], ◌∷◌, ◌++◌, map,
  filter, length, elem, elem-cons, elem-nil, arith,
}
use mirraura.Toast.{ToastItem, Bus, dismiss}
use mirraura.Toast.Shown.{
  Entry, is_shown, close_entry, fire_all, is_due, ids_of, timer_of, is_running, IsNumbered,
}

abbrev off : List ℕ → ToastItem → Bool
off ids t = not (elem t.id ids)

off_none : (ts : List ToastItem) → filter (off []) ts ≡ ts
off_none [] = refl
off_none (t ∷ ts) = ground (arith, elem-nil t.id, off_none ts)

off_more :
    (id : ℕ) (ids : List ℕ) (ts : List ToastItem)
    → filter (off ids) (filter (λ (t : ToastItem). not (t.id == id)) ts)
      ≡ filter (off (id ∷ ids)) ts
off_more id ids [] = refl
off_more id ids (t ∷ ts) = ground (arith, elem-cons t.id id ids, off_more id ids ts)

pub fire_all-toasts :
    (ids : List ℕ) (b : Bus)
    → ((fire_all ids b).toasts ≡ filter (off ids) b.toasts) × ((fire_all ids b).next_id ≡ b.next_id)
unfolding dismiss
fire_all-toasts [] b = (sym (off_none b.toasts), refl)
fire_all-toasts (id ∷ ids) b =
    let (toasts, next) = fire_all-toasts ids (dismiss id b) in
    (toasts ∙ off_more id ids b.toasts, next)

-- The timers that are due at a later time.
abbrev pub due_ids : ℕ → ℕ → List Entry → List ℕ
due_ids now later es = ids_of (filter (is_due later) (map timer_of (filter (is_running now) es)))

due_ids-above :
    (now later j i : ℕ) (es : List Entry)
    → j < i
    → IsNumbered i es
    → elem j (due_ids now later es) ≡ false
due_ids-above now later j i [] h n = elem-nil j
due_ids-above now later j i (e ∷ es) h n = ground (
  arith,
  due_ids-above now later j (suc i) es (omega arith) n.1,
  elem-cons j e.item.id (due_ids now later es),
)

-- An id below those of the toasts takes none of them away.
off_below :
    (now i j : ℕ) (ids : List ℕ) (es : List Entry)
    → j < i
    → IsNumbered i es
    → filter (off (j ∷ ids)) (map (λ (e : Entry). e.item) (filter (is_shown now) es))
      ≡ filter (off ids) (map (λ (e : Entry). e.item) (filter (is_shown now) es))
off_below now i j ids [] h n = refl
off_below now i j ids (e ∷ es) h n =
    ground (arith, off_below now (suc i) j ids es (omega arith) n.1, elem-cons e.item.id j ids)

pub waits_toasts :
    (now later i : ℕ) (es : List Entry)
    → now ≤ later
    → IsNumbered i es
    → filter (off (due_ids now later es)) (map (λ (e : Entry). e.item) (filter (is_shown now) es))
      ≡ map (λ (e : Entry). e.item) (filter (is_shown later) es)
waits_toasts now later i [] h n = refl
waits_toasts now later i (e ∷ es) h n = ground (
  arith,
  waits_toasts now later (suc i) es h n.1,
  due_ids-above now later e.item.id (suc i) es (omega (arith, n.0)) n.1,
  off_below now (suc i) e.item.id (due_ids now later es) es (omega (arith, n.0)) n.1,
  elem-cons e.item.id e.item.id (due_ids now later es),
)

pub waits_timers :
    (now later : ℕ) (es : List Entry)
    → now ≤ later
    → filter (λ t. not (is_due later t)) (map timer_of (filter (is_running now) es))
      ≡ map timer_of (filter (is_running later) es)
waits_timers now later [] h = refl
waits_timers now later (e ∷ es) h = ground (arith, waits_timers now later es h)

pub closes_toasts :
    (now id : ℕ) (es : List Entry)
    → filter
        (λ (t : ToastItem). not (t.id == id))
        (map (λ (e : Entry). e.item) (filter (is_shown now) es))
      ≡ map (λ (e : Entry). e.item) (filter (is_shown now) (map (close_entry id) es))
closes_toasts now id [] = refl
closes_toasts now id (e ∷ es) = ground (arith, closes_toasts now id es)

pub closes_timers :
    (now id : ℕ) (es : List Entry)
    → map timer_of (filter (is_running now) (map (close_entry id) es))
      ≡ map timer_of (filter (is_running now) es)
closes_timers now id [] = refl
closes_timers now id (e ∷ es) = ground (arith, closes_timers now id es)

pub closes-IsNumbered :
    (id i : ℕ) (es : List Entry) → IsNumbered i es → IsNumbered i (map (close_entry id) es)
closes-IsNumbered id i [] h = tt
closes-IsNumbered id i (e ∷ es) h = (ground arith, closes-IsNumbered id (suc i) es h.1)

pub IsNumbered-append :
    (i : ℕ) (es : List Entry) (e : Entry)
    → e.item.id ≡ i + length es
    → IsNumbered i es
    → IsNumbered i (es ++ e ∷ [])
IsNumbered-append i [] e h n = (omega arith, tt)
IsNumbered-append i (x ∷ es) e h n = (n.0, IsNumbered-append (suc i) es e (omega arith) n.1)
