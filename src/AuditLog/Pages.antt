-- ===== src/AuditLog/Pages.antt =====
-- The pages of frontend/src/components/AuditLogTable.tsx.
use mirraura.Base.{
  ℕ, zero, suc, ◌+◌, ◌-◌, ◌*◌, ◌≤◌, ◌<◌, ◌≡◌, ap, refl, sym, ◌∙◌, Bool, true, false, List, [], ◌∷◌,
  ◌++◌, map, flatten, Text, length, drop, drop-drop, length-take, length-drop, take-append-drop,
  arith, if◌then◌else◌,
}
use mirraura.AuditLog.{
  AuditLog, filtered, page_size, page_count, current_page, page_slice, previous_disabled,
  next_disabled, click_previous, click_next,
}

-- `n` numbers from `i` on.
abbrev pub count_from : ℕ → ℕ → List ℕ
count_from i zero = []
count_from i (suc n) = i ∷ count_from (suc i) n

drop_all {ℓ} : {A : Type ℓ} (n : ℕ) (xs : List A) → length xs ≤ n → drop n xs ≡ []
drop_all zero [] h = refl
drop_all zero (x ∷ xs) h = absurd (omega arith)
drop_all (suc n) [] h = refl
drop_all (suc n) (x ∷ xs) h = drop_all n xs (omega arith)

module _ {ℓ} {A : Type ℓ} (xs : List A) where
  pages_from :
      (i k : ℕ)
      → length xs ≤ (i + k) * page_size
      → flatten (map (page_slice xs) (count_from i k)) ≡ drop (i * page_size) xs
  unfolding page_slice
  pages_from i zero h = sym (drop_all (i * page_size) xs (omega arith))
  pages_from i (suc k) h =
      ap (◌++◌ (page_slice xs i)) (pages_from (suc i) k (omega arith) ∙ next_drop)
      ∙ take-append-drop page_size (drop (i * page_size) xs)
    where
      next_drop : drop (suc i * page_size) xs ≡ drop page_size (drop (i * page_size) xs)
      next_drop = sym (drop-drop page_size (i * page_size) xs ∙ ap (λ m. drop m xs) (omega arith))

  -- The pages, one after the other, are exactly the rows in their order; no page has more than 25
  -- rows, the page that is shown is one of them whatever page was asked for, and it has a row if there
  -- is any.
  pub pages_cover :
      (page : ℕ)
      → (flatten (map (page_slice xs) (count_from 0 (page_count (length xs)))) ≡ xs)
        × (length (page_slice xs page) ≤ page_size)
        × (current_page page (length xs) < page_count (length xs))
        × (0 < length xs → 0 < length (page_slice xs (current_page page (length xs))))
  unfolding page_count current_page
  pages_cover page = (
    pages_from 0 (page_count (length xs)) (omega arith),
    sizes page (omega arith),
    omega arith,
    (λ h. filled page h),
  )
    where
      filled : (p : ℕ) → 0 < length xs → 0 < length (page_slice xs (current_page p (length xs)))
      filled p h =
          let q = current_page p (length xs) in
          unfold page_slice in
          (omega (
            arith,
            length-take page_size (drop (q * page_size) xs),
            length-drop (q * page_size) xs,
          ))

      sizes : (p : ℕ) → 0 ≤ p → length (page_slice xs p) ≤ page_size
      sizes p h =
          unfold page_slice in (omega (arith, length-take page_size (drop (p * page_size) xs)))

filtered_if :
    (lower : Text → Text) (s : AuditLog) (b : Bool) (p : ℕ)
    → filtered lower (if b then s else record s { page = p }) ≡ filtered lower s
unfolding filtered
filtered_if lower s true p = refl
filtered_if lower s false p = refl

-- Moving between pages changes neither the rows nor anything but the page. While the page is one of
-- the pages, an enabled Next shows the following page and an enabled Previous the one before.
pub click_pages :
    (lower : Text → Text) (s : AuditLog)
    → let n = length (filtered lower s) in
      s.page < page_count n
      → (next_disabled lower s ≡ false
          → current_page (click_next lower s).page n ≡ suc (current_page s.page n))
        × (previous_disabled lower s ≡ false
            → suc (current_page (click_previous lower s).page n) ≡ current_page s.page n)
        × (filtered lower (click_next lower s) ≡ filtered lower s)
        × (filtered lower (click_previous lower s) ≡ filtered lower s)
unfolding click_previous click_next page_count current_page
click_pages lower s h =
    (ground arith, ground arith, filtered_if lower s _ _, filtered_if lower s _ _)

-- If the rows have shrunk below the page that was asked for, by at least one page, Previous is a click
-- that shows the same page again.
pub previous_stale :
    (lower : Text → Text) (s : AuditLog)
    → let n = length (filtered lower s) in
      page_count n ≤ s.page - 1
      → current_page (click_previous lower s).page n ≡ current_page s.page n
unfolding click_previous page_count current_page
previous_stale lower s h = ground arith
