-- ===== src/CopyHash/Truncation.antt =====
-- How frontend/src/components/CopyHash.tsx shortens a text.
use mirraura.Base.{
  ℕ, ◌+◌, ◌-◌, ◌*◌, ◌≤◌, ◌<◌, ◌≡◌, sym, ap, ◌∙◌, ◌++◌, take, drop, length, Text, take-append-drop,
  drop-drop, length-take, length-drop, length-append, arith,
}
use mirraura.CopyHash.{truncate_middle, slice_last, ellipsis}

-- A text of at most `2 * keep` units is shown whole. A longer one is shown, if `keep` is not 0, by its
-- first `keep` units, an ellipsis and its last `keep` units, and at least one unit between these is
-- left out; the result has `2 * keep + 1` units, so that it is never longer than the text.
pub truncate_middle_lem :
    (s : Text) (keep : ℕ)
    → (length s ≤ keep * 2 → truncate_middle s keep ≡ s)
      × (1 ≤ keep
          → keep * 2 < length s
          → (first middle last : Text) × (s ≡ first ++ (middle ++ last))
            × (truncate_middle s keep ≡ first ++ (ellipsis ++ last))
            × (length first ≡ keep)
            × (length last ≡ keep)
            × (1 ≤ length middle)
            × (length (truncate_middle s keep) ≡ keep * 2 + 1)
            × (length (truncate_middle s keep) ≤ length s))
unfolding truncate_middle slice_last
truncate_middle_lem s keep = (
  (λ h. ground arith),
  (λ k h.
      let first = take keep s in
      let tail = drop keep s in
      let middle = take (length s - keep * 2) tail in
      let last = drop (length s - keep) s in
      let split : s ≡ first ++ (middle ++ last) =
        sym (take-append-drop keep s)
        ∙ ap (◌++◌ first) (
            sym (take-append-drop (length s - keep * 2) tail)
            ∙ ap (◌++◌ middle)
                (drop-drop (length s - keep * 2) keep s ∙ ap (λ n. drop n s) (omega arith))) in
      let shown : truncate_middle s keep ≡ first ++ (ellipsis ++ last) = ground arith in
      let lf : length first ≡ keep = omega (arith, length-take keep s) in
      let ll : length last ≡ keep = omega (arith, length-drop (length s - keep) s) in
      let lm : 1 ≤ length middle =
        omega (arith, length-take (length s - keep * 2) tail, length-drop keep s) in
      let size : length (truncate_middle s keep) ≡ keep * 2 + 1 =
        rw shown (omega (arith, length-append first (ellipsis ++ last), lf, ll)) in
      (first, middle, last, split, shown, lf, ll, lm, size, omega (arith, size, h))),
)
