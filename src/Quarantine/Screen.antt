-- ===== src/Quarantine/Screen.antt =====
-- What frontend/src/components/QuarantineReview.tsx shows.
use mirraura.Base.{
  ℕ, ◌≡◌, ◌≢◌, ◌↔◌, refl, true, false, List, [], ◌∷◌, map, All, length, length-map, Option, none,
  some, arith, ap,
}
use mirraura.Types.{Role, admin, analyst}
use mirraura.Api.Endpoints.{QuarantineEntry}
use mirraura.Review.{Review, rows_of, rows_of-body}
use mirraura.Quarantine.{Row, row, view, is_busy}

is_busy_iff : (o : Option ℕ) (id : ℕ) → (is_busy o id ≡ true) ↔ (o ≡ some id)
is_busy_iff none id = ground arith
is_busy_iff (some b) id = ground arith

-- The buttons of a row for a role: none for an analyst; for an admin disabled exactly if busy.
abbrev pub HasButtons : Role → Review ℕ QuarantineEntry → Row → Type 0
HasButtons analyst r q = q.buttons ≡ none
HasButtons admin r q = (q.buttons ≢ none) × ((q.buttons ≡ some true) ↔ (r.busy ≡ some q.id))

row-HasButtons :
    (role : Role) (r : Review ℕ QuarantineEntry) (e : QuarantineEntry)
    → HasButtons role r (row role r e)
unfolding row
row-HasButtons analyst r e = refl
row-HasButtons admin r e = ground (arith, is_busy_iff r.busy e.id)

rows-HasButtons :
    (role : Role) (r : Review ℕ QuarantineEntry) (es : List QuarantineEntry)
    → All (HasButtons role r) (map (row role r) es)
rows-HasButtons role r [] = tt
rows-HasButtons role r (e ∷ es) = (row-HasButtons role r e, rows-HasButtons role r es)

ids-row :
    (role : Role) (r : Review ℕ QuarantineEntry) (es : List QuarantineEntry)
    → map (λ (q : Row). q.id) (map (row role r) es) ≡ map (λ (e : QuarantineEntry). e.id) es
unfolding row
ids-row role r [] = refl
ids-row role r (e ∷ es) = ap (◌∷◌ e.id) (ids-row role r es)

-- Once the entries are loaded, the table has a row for each of them, in order, and the count over it
-- is their number; an analyst has no button, an admin has the buttons in every row, disabled exactly
-- in the row whose decision is on its way; and the dialog is open exactly while there is a question.
pub quarantine_rows :
    (role : Role) (r : Review ℕ QuarantineEntry)
    → r.loading ≡ false
    → (map (λ (q : Row). q.id) (rows_of (view role r).rows)
        ≡ map (λ (e : QuarantineEntry). e.id) r.entries)
      × (length (rows_of (view role r).rows) ≡ (view role r).count)
      × All (HasButtons role r) (rows_of (view role r).rows)
      × (((view role r).dialog_open ≡ true) ↔ (r.pending_action ≢ none))
quarantine_rows role r h = (
  rw same (ids-row role r r.entries),
  rw same (unfold view in (length-map (row role r) r.entries)),
  rw same (rows-HasButtons role r r.entries),
  unfold view in (ground arith),
)
  where
    same : rows_of (view role r).rows ≡ map (row role r) r.entries
    same = unfold view in (rw (h, rows_of-body) refl)
