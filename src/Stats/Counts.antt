-- ===== src/Stats/Counts.antt =====
-- What the counts of frontend/src/components/DetectionsOverview.tsx say.
use mirraura.Base.{
  ℕ, suc, ◌+◌, ◌≡◌, refl, false, List, [], ◌∷◌, filter, length, Text, text_eq, text_eq_iff, All,
  arith, if◌then◌else◌,
}
use mirraura.Stats.{increment, count_from, count_by}

-- The number that stands at a key, and 0 without one.
abbrev pub count_at : Text → List (Text × ℕ) → ℕ
count_at key [] = 0
count_at key ((k, n) ∷ counts) = if text_eq k key then n else count_at key counts

abbrev pub total : List (Text × ℕ) → ℕ
total [] = 0
total ((k, n) ∷ counts) = n + total counts

abbrev pub IsDistinct : List (Text × ℕ) → Type 0
IsDistinct [] = Unit {0}
IsDistinct ((k, n) ∷ counts) =
    All (λ (c : Text × ℕ). text_eq k c.0 ≡ false) counts × IsDistinct counts

-- The rows with a key.
abbrev pub with_key : {A : Type 0} → (A → Text) → Text → List A → List A
with_key key k rows = filter (λ r. text_eq (key r) k) rows

count_at-increment :
    (key k : Text) (counts : List (Text × ℕ))
    → count_at k (increment key counts)
      ≡ (if text_eq key k then suc (count_at k counts) else count_at k counts)
unfolding increment
count_at-increment key k [] = ground arith
count_at-increment key k ((j, n) ∷ counts) =
    ground (
      arith,
      count_at-increment key k counts,
      text_eq_iff j key,
      text_eq_iff j k,
      text_eq_iff key k,
    )

total-increment :
    (key : Text) (counts : List (Text × ℕ)) → total (increment key counts) ≡ suc (total counts)
unfolding increment
total-increment key [] = refl
total-increment key ((j, n) ∷ counts) = ground (arith, total-increment key counts)

others-increment :
    (j key : Text) (counts : List (Text × ℕ))
    → text_eq j key ≡ false
    → All (λ (c : Text × ℕ). text_eq j c.0 ≡ false) counts
    → All (λ (c : Text × ℕ). text_eq j c.0 ≡ false) (increment key counts)
unfolding increment
others-increment j key [] e h = (e, tt)
others-increment j key ((k, n) ∷ counts) e h = ground (arith, others-increment j key counts e h.1)

IsDistinct-increment :
    (key : Text) (counts : List (Text × ℕ)) → IsDistinct counts → IsDistinct (increment key counts)
unfolding increment
IsDistinct-increment key [] h = (tt, tt)
IsDistinct-increment key ((j, n) ∷ counts) h =
    ground (arith, IsDistinct-increment key counts h.1, others-increment j key counts)

counted :
    {A : Type 0} (key : A → Text) (k : Text) (verdicts : List A) (counts : List (Text × ℕ))
    → IsDistinct counts
    → (count_at k (count_from key counts verdicts)
        ≡ count_at k counts + length (with_key key k verdicts))
      × (total (count_from key counts verdicts) ≡ total counts + length verdicts)
      × IsDistinct (count_from key counts verdicts)
counted key k [] counts d = (omega arith, omega arith, d)
counted key k (v ∷ verdicts) counts d =
    let rest =
      counted key k verdicts (increment (key v) counts) (IsDistinct-increment (key v) counts d) in
    (
      ground (arith, rest.0, count_at-increment (key v) k counts),
      omega (arith, rest.1, total-increment (key v) counts),
      rest.2,
    )

-- Whatever is counted: the count of every key is the number of items that have it, no key comes up
-- twice, and the counts add up to the number of items.
pub count_by_lem :
    {A : Type 0} (key : A → Text) (k : Text) (verdicts : List A)
    → (count_at k (count_by key verdicts) ≡ length (with_key key k verdicts))
      × (total (count_by key verdicts) ≡ length verdicts)
      × IsDistinct (count_by key verdicts)
unfolding count_by
count_by_lem key k verdicts =
    let (a, b, d) = counted key k verdicts [] tt in (omega (arith, a), omega (arith, b), d)
