-- ===== src/Tabs/Keys.antt =====
-- Moving between tabs by the arrow keys in frontend/src/components/Tabs.tsx.
use native.Mathlib.Nat.{mod-eq_of_lt, mod_self, add-mod_right}
use mirraura.Base.{
  zero, [], ◌∷◌, ℕ, suc, ◌+◌, ◌-◌, ◌%◌, ◌<◌, ◌≡◌, inl, inr, refl, ap, ◌∙◌, List, length, get_elem?,
  none, some, if◌then◌else◌, arith, ◌==◌, Bool-cases, ◌∷◌, ◌≢◌,
}
use mirraura.Tabs.{TabItem, arrow_right, arrow_left, other_key, handle_key_down}

-- The right neighbour, round the end, and the left one, round the start.
abbrev pub right_of : ℕ → ℕ → ℕ
right_of i n = if suc i == n then 0 else suc i

abbrev pub left_of : ℕ → ℕ → ℕ
left_of i n = if i == 0 then n - 1 else i - 1

wrap_right : (i n : ℕ) → i < n → (i + 1 + n) % n ≡ right_of i n
wrap_right i n h = add-mod_right (i + 1) n ∙ elim (Bool-cases (suc i == n)) [
  | inl t ↦ let e : i + 1 ≡ n = ground arith in rw (t, e) (mod_self n)
  | inr f ↦ let l : i + 1 < n = ground arith in rw f (mod-eq_of_lt l ∙ omega arith)
]

wrap_left : (i n : ℕ) → i < n → (i + n - 1) % n ≡ left_of i n
wrap_left zero n h =
    let l : n - 1 < n = omega arith in
    let e : 0 + n - 1 ≡ n - 1 = omega arith in rw e (mod-eq_of_lt l)
wrap_left (suc i) n h =
    let e : suc i + n - 1 ≡ i + n = omega arith in
    let l : i < n = omega arith in
    let same : i ≡ left_of (suc i) n = ground arith in
    rw e (add-mod_right i n ∙ mod-eq_of_lt l ∙ same)

get_elem?_lt :
    {A : Type 0} (xs : List A) (i : ℕ) → i < length xs → (x : A) × (get_elem? xs i ≡ some x)
get_elem?_lt [] i h = absurd (omega arith)
get_elem?_lt (x ∷ xs) zero h = (x, refl)
get_elem?_lt (x ∷ xs) (suc i) h = get_elem?_lt xs i (omega arith)

-- From any tab, the arrow to the right leads to the next tab and from the last to the first, the
-- arrow to the left is its inverse, both lead to a tab that exists, and no other key does anything.
pub handle_key_down_lem :
    (tabs : List TabItem) (i : ℕ)
    → i < length tabs
    → let n = length tabs in
      (handle_key_down arrow_right i tabs ≡ get_elem? tabs (right_of i n))
      × (handle_key_down arrow_left i tabs ≡ get_elem? tabs (left_of i n))
      × (handle_key_down arrow_left (right_of i n) tabs ≡ get_elem? tabs i)
      × (handle_key_down arrow_right (left_of i n) tabs ≡ get_elem? tabs i)
      × (handle_key_down arrow_right i tabs ≢ none)
      × (handle_key_down arrow_left i tabs ≢ none)
      × (handle_key_down other_key i tabs ≡ none)
unfolding handle_key_down
handle_key_down_lem tabs i h =
    let n = length tabs in
    let r : right_of i n < n = ground arith in
    let l : left_of i n < n = ground arith in
    (
      rw (wrap_right i n h) refl,
      rw (wrap_left i n h) refl,
      rw (wrap_left (right_of i n) n r) (ap (get_elem? tabs) (ground arith)),
      rw (wrap_right (left_of i n) n l) (ap (get_elem? tabs) (ground arith)),
      rw (wrap_right i n h) (ground (arith, (get_elem?_lt tabs (right_of i n) r).1)),
      rw (wrap_left i n h) (ground (arith, (get_elem?_lt tabs (left_of i n) l).1)),
      refl,
    )
