-- ===== src/Corpus/Screen.antt =====
-- What frontend/src/components/CorpusReview.tsx shows.
use mirraura.Base.{
  ◌≡◌, ◌≢◌, ◌↔◌, refl, true, false, List, [], ◌∷◌, map, Text, All, length, length-map, Option, none,
  some, arith, ap, text_eq_iff,
}
use mirraura.Types.{Role, admin, analyst}
use mirraura.Api.Endpoints.{CorpusEntry}
use mirraura.Review.{rows_of, rows_of-body}
use mirraura.Corpus.{Corpus, Row, row, view, is_busy}

is_busy_iff : (o : Option Text) (id : Text) → (is_busy o id ≡ true) ↔ (o ≡ some id)
is_busy_iff none id = ground arith
is_busy_iff (some b) id = ground (arith, text_eq_iff b id)

-- The buttons of a row for a role: none for an analyst; for an admin disabled exactly if busy.
abbrev pub HasButtons : Role → Corpus → Row → Type 0
HasButtons analyst r q = q.buttons ≡ none
HasButtons admin r q =
    (q.buttons ≢ none) × ((q.buttons ≡ some true) ↔ (r.busy ≡ some q.content_hash))

row-HasButtons : (role : Role) (r : Corpus) (e : CorpusEntry) → HasButtons role r (row role r e)
unfolding row
row-HasButtons analyst r e = refl
row-HasButtons admin r e = ground (arith, is_busy_iff r.busy e.content_hash)

rows-HasButtons :
    (role : Role) (r : Corpus) (es : List CorpusEntry)
    → All (HasButtons role r) (map (row role r) es)
rows-HasButtons role r [] = tt
rows-HasButtons role r (e ∷ es) = (row-HasButtons role r e, rows-HasButtons role r es)

hashes-row :
    (role : Role) (r : Corpus) (es : List CorpusEntry)
    → map (λ (q : Row). q.content_hash) (map (row role r) es)
      ≡ map (λ (e : CorpusEntry). e.content_hash) es
unfolding row
hashes-row role r [] = refl
hashes-row role r (e ∷ es) = ap (◌∷◌ e.content_hash) (hashes-row role r es)

-- Once the entries are loaded, the table has a row for each of them, in order, and the count over it
-- is their number; an analyst has no button, an admin has the buttons in every row, disabled exactly
-- in the row whose decision is on its way; and the dialog is open exactly while there is a question.
pub corpus_rows :
    (role : Role) (r : Corpus)
    → r.loading ≡ false
    → (map (λ (q : Row). q.content_hash) (rows_of (view role r).rows)
        ≡ map (λ (e : CorpusEntry). e.content_hash) r.entries)
      × (length (rows_of (view role r).rows) ≡ (view role r).count)
      × All (HasButtons role r) (rows_of (view role r).rows)
      × (((view role r).dialog_open ≡ true) ↔ (r.pending_action ≢ none))
corpus_rows role r h = (
  rw same (hashes-row role r r.entries),
  rw same (unfold view in (length-map (row role r) r.entries)),
  rw same (rows-HasButtons role r r.entries),
  unfold view in (ground arith),
)
  where
    same : rows_of (view role r).rows ≡ map (row role r) r.entries
    same = unfold view in (rw (h, rows_of-body) refl)
