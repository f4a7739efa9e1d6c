-- ===== src/Hashes/Screen.antt =====
-- What frontend/src/components/PendingHashApprovals.tsx shows.
use mirraura.Base.{
  ◌≡◌, ◌≢◌, ◌↔◌, refl, true, List, [], ◌∷◌, map, Text, All, Option, none, some, arith, text_eq_iff,
  ap, false, filter, length, length-map,
}
use mirraura.Types.{Role, admin, analyst}
use mirraura.Api.Endpoints.{HashEntry, is_pending}
use mirraura.Hashes.{Hashes, Row, row, is_busy, view, pending_entries}
use mirraura.Review.{rows_of, rows_of-body}

is_busy_iff : (o : Option Text) (hash : Text) → (is_busy o hash ≡ true) ↔ (o ≡ some hash)
is_busy_iff none hash = ground arith
is_busy_iff (some b) hash = ground (arith, text_eq_iff b hash)

-- The buttons of a row for a role: none for an analyst; for an admin disabled exactly if busy.
abbrev pub HasButtons : Role → Hashes → Row → Type 0
HasButtons analyst c r = r.buttons ≡ none
HasButtons admin c r = (r.buttons ≢ none) × ((r.buttons ≡ some true) ↔ (c.busy ≡ some r.hash))

row-HasButtons : (role : Role) (c : Hashes) (e : HashEntry) → HasButtons role c (row role c e)
unfolding row
row-HasButtons analyst c e = refl
row-HasButtons admin c e = ground (arith, is_busy_iff c.busy e.hash)

rows-HasButtons :
    (role : Role) (c : Hashes) (es : List HashEntry) → All (HasButtons role c) (map (row role c) es)
rows-HasButtons role c [] = tt
rows-HasButtons role c (e ∷ es) = (row-HasButtons role c e, rows-HasButtons role c es)

hashes-row :
    (role : Role) (c : Hashes) (es : List HashEntry)
    → map (λ (r : Row). r.hash) (map (row role c) es) ≡ map (λ (e : HashEntry). e.hash) es
unfolding row
hashes-row role c [] = refl
hashes-row role c (e ∷ es) = ap (◌∷◌ e.hash) (hashes-row role c es)

shown_rows :
    (role : Role) (c : Hashes)
    → c.loading ≡ false
    → rows_of (view role c).rows ≡ map (row role c) (pending_entries c)
unfolding view
shown_rows role c h = rw (h, rows_of-body) refl

-- Once the entries are loaded, the rows of the table are those of the pending entries, in order, and
-- the count over it is their number; an analyst has no button in any row, an admin has them in every
-- row, disabled exactly in the row whose decision is on its way; and the dialog is open exactly while
-- there is a question.
pub view-rows :
    (role : Role) (c : Hashes)
    → c.loading ≡ false
    → (map (λ (r : Row). r.hash) (rows_of (view role c).rows)
        ≡ map
            (λ (e : HashEntry). e.hash)
            (filter (λ (e : HashEntry). is_pending e.status) c.entries))
      × (length (rows_of (view role c).rows) ≡ (view role c).count)
      × All (HasButtons role c) (rows_of (view role c).rows)
      × (((view role c).dialog.is_open ≡ true) ↔ (c.pending_action ≢ none))
view-rows role c h =
    let same = shown_rows role c h in
    (
      unfold pending_entries in (rw same (hashes-row role c (pending_entries c))),
      rw same (unfold view in (length-map (row role c) (pending_entries c))),
      rw same (rows-HasButtons role c (pending_entries c)),
      unfold view in (ground arith),
    )
