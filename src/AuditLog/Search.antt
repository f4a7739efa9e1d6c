-- ===== src/AuditLog/Search.antt =====
-- The search and the order of frontend/src/components/AuditLogTable.tsx.
use mirraura.Base.{
  ◌≡◌, ◌↔◌, refl, Bool, true, List, [], ◌∷◌, ◌++◌, reverse, reverse-reverse, Text, starts_with,
  includes, filter, trim, is_nonempty, arith, Bool-cases, inl, inr, ap, if◌then◌else◌, sym,
}
use mirraura.AuditLog.{
  AuditRow, AuditLog, SortOrder, newest, oldest, haystack, matches_query, in_order, filtered,
  toggle_sort_order, other_order,
}

-- The second text stands somewhere in the first.
abbrev pub Occurs : Text → Text → Type 0
Occurs s q = (before after : Text) × (s ≡ before ++ (q ++ after))

starts_with_sound : (s q : Text) → starts_with s q ≡ true → (after : Text) × (s ≡ q ++ after)
unfolding starts_with
starts_with_sound s [] h = (s, refl)
starts_with_sound [] (b ∷ q) h = ground arith
starts_with_sound (a ∷ s) (b ∷ q) h =
    let (after, e) = starts_with_sound s q (ground arith) in (after, ground arith)

starts_with-append : (q after : Text) → starts_with (q ++ after) q ≡ true
unfolding starts_with
starts_with-append [] after = refl
starts_with-append (b ∷ q) after = ground (arith, starts_with-append q after)

includes_sound : (s q : Text) → includes s q ≡ true → Occurs s q
unfolding includes
includes_sound [] q h = let (after, e) = starts_with_sound [] q h in ([], after, e)
includes_sound (a ∷ s) q h = elim (Bool-cases (starts_with (a ∷ s) q)) [
  | inl t ↦ let (after, e) = starts_with_sound (a ∷ s) q t in ([], after, e)
  | inr f ↦
      let (before, after, e) = includes_sound s q (ground arith) in
      (a ∷ before, after, ap (◌∷◌ a) e)
]

includes-append : (before q after : Text) → includes (before ++ (q ++ after)) q ≡ true
unfolding includes
includes-append [] [] [] = refl
includes-append [] [] (c ∷ after) = refl
includes-append [] (b ∷ q) after = ground (arith, starts_with-append (b ∷ q) after)
includes-append (a ∷ before) q after = ground (arith, includes-append before q after)

pub includes_iff : (s q : Text) → (includes s q ≡ true) ↔ Occurs s q
includes_iff s q = (includes_sound s q, λ o. rw o.2 (includes-append o.0 q o.1))

in_every : (s : Text) → includes s [] ≡ true
unfolding includes starts_with
in_every [] = refl
in_every (a ∷ s) = refl

filter_every {ℓ} :
    {A : Type ℓ} (p : A → Bool) → ((x : A) → p x ≡ true) → (xs : List A) → filter p xs ≡ xs
filter_every p h [] = refl
filter_every p h (x ∷ xs) = ground (arith, h x, filter_every p h xs)

matches_every :
    (lower : Text → Text) (r : AuditRow) → lower [] ≡ [] → matches_query lower r [] ≡ true
unfolding matches_query
matches_every lower r empty = rw empty (in_every (lower (haystack r)))

empty_query :
    (lower : Text → Text) (q : Text) (rows : List AuditRow)
    → lower [] ≡ []
    → (if is_nonempty q then filter (λ (r : AuditRow). matches_query lower r q) rows else rows)
      ≡ filter (λ (r : AuditRow). matches_query lower r q) rows
empty_query lower [] rows empty = sym (
    filter_every (λ (r : AuditRow). matches_query lower r []) (λ r. matches_every lower r empty)
      rows)
empty_query lower (c ∷ q) rows empty = refl

in_order-other_order :
    (o : SortOrder) (base : List AuditRow)
    → in_order (other_order o) base ≡ reverse (in_order o base)
in_order-other_order newest base = sym (reverse-reverse base)
in_order-other_order oldest base = refl

-- With a case mapping that maps the empty text to itself: what is shown is the sublist of the rows
-- that match the trimmed query, latest first unless the order is changed, also for an empty query; a
-- row matches exactly if the query stands somewhere in the row's text, both case-mapped; and changing
-- the order shows the same rows in reverse, from the first page.
pub filtered_lem :
    (lower : Text → Text) (s : AuditLog)
    → lower [] ≡ []
    → (filtered lower s
        ≡ in_order s.sort_order
            (filter (λ (r : AuditRow). matches_query lower r (trim s.query)) s.rows))
      × ((r : AuditRow)
          → (matches_query lower r (trim s.query) ≡ true)
            ↔ Occurs (lower (haystack r)) (lower (trim s.query)))
      × (filtered lower (toggle_sort_order s) ≡ reverse (filtered lower s))
      × ((toggle_sort_order s).page ≡ 0)
unfolding filtered toggle_sort_order
filtered_lem lower s empty = (
  ap (in_order s.sort_order) (empty_query lower (trim s.query) s.rows empty),
  (λ r. unfold matches_query in (includes_iff (lower (haystack r)) (lower (trim s.query)))),
  in_order-other_order s.sort_order _,
  refl,
)
