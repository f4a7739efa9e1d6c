-- ===== src/AuditLog/Screen.antt =====
-- frontend/src/components/AuditLogTable.tsx, lines 94 to 136 and 250 to 354: the whole table and its
-- downloads. `lower`, the relative time, `toFixed(2)` and `toISOString` are parameters.
use mirraura.Api.Json.Pretty.{Items, array, pretty}
use mirraura.Base.{
  true, subst, sym, ◌∙◌, zero, suc, take, ap, ℕ, Bool, ◌||◌, ◌==◌, List, [], ◌++◌, map, length,
  Text, text, Option, some, map_some, if◌then◌else◌, ◌≤◌, ◌≡◌, none, false, arith, ◌↔◌, All, ◌∷◌,
  refl,
}
use mirraura.Types.{Double, Role}
use mirraura.Review.{rows_of, rows_of-body, Body, body}
use mirraura.AuditLog.{
  AuditRow, AuditLog, SortOrder, newest, oldest, filtered, page_rows, can_download, page_slice,
  page_count, take, current_page, none, false, ◌∷◌, suc,
}
use mirraura.AuditLog.Rows.{
  Row, all_rows, ChainIndicator, chain_indicator, Pagination, pagination, IsWhole, AllTell,
  all_rows_lem,
}
use mirraura.AuditLog.Csv.{audit_log_csv}

-- `.replace(/[:.]/g, "-")`
abbrev pub dashed : ℕ → ℕ
dashed c = if c == b':' || c == b'.' then b'-' else c

unfoldable pub stamp : Text → Text
stamp iso = map dashed iso

-- A file that the browser is made to save.
pub record Download : Type 0 where
  pub content : Text
  pub mime : Text
  pub filename : Text

abbrev named : Text → Text → Text
named iso extension = text "mirraura-audit-log-" ++ (stamp iso ++ extension)

-- The rows are saved as they came from the server, with every field that they have.
unfoldable pub download_audit_log_json : Text → (Double → Text) → Items → Download
unfolding stamp pretty
download_audit_log_json iso number_text rows = record {
  content = pretty number_text 0 (array rows);
  mime = text "application/json";
  filename = named iso (text ".json");
}

unfoldable pub download_audit_log_csv : Text → (Double → Text) → List AuditRow → Download
unfolding stamp audit_log_csv
download_audit_log_csv iso number_text rows = record {
  content = audit_log_csv number_text rows;
  mime = text "text/csv";
  filename = named iso (text ".csv");
}

pub record View : Type 0 where
  pub chain : Option ChainIndicator
  pub error : Option Text
  pub query : Text
  pub sort_label : Text
  pub entries : ℕ
  pub downloads : Bool
  pub table : Body Row
  pub pages : Option Pagination

abbrev sort_text : SortOrder → Text
sort_text newest = text "Newest first"
sort_text oldest = text "Oldest first"

module _ (lower relative : Text → Text) (to_fixed_2 : Double → Text) (to_iso : ℕ → Text) where
  abbrev view_with : Role → AuditLog → List Row → View
  view_with role s rows = record {
    chain =
        chain_indicator s.chain_status (map_some (λ ms. relative (to_iso ms)) s.chain_checked_at);
    error = s.error;
    query = s.query;
    sort_label = sort_text s.sort_order;
    entries = length (filtered lower s);
    downloads = can_download role s;
    table = body s.loading rows;
    pages = pagination lower s;
  }

  -- While it loads, no row is rendered.
  abbrev rendered : Bool → Option (List Row) → Option (List Row)
  rendered true rows = some []
  rendered false rows = rows

  -- `none` if rendering throws.
  unfoldable pub view : Role → AuditLog → Option View
  unfolding chain_indicator body pagination can_download
  view role s =
      map_some (view_with role s)
        (rendered s.loading (all_rows relative to_fixed_2 (page_rows lower s)))

take_all {ℓ} : {A : Type ℓ} (n : ℕ) (xs : List A) → length xs ≤ n → take n xs ≡ xs
take_all zero [] h = refl
take_all zero (x ∷ xs) h = absurd (omega arith)
take_all (suc n) [] h = refl
take_all (suc n) (x ∷ xs) h = ap (◌∷◌ x) (take_all n xs (omega arith))

first_page {ℓ} :
    {A : Type ℓ} (page : ℕ) (xs : List A)
    → length xs ≤ 25
    → page_slice xs (current_page page (length xs)) ≡ xs
unfolding page_slice current_page page_count
first_page page xs h =
    let p : current_page page (length xs) ≡ 0 = omega arith in rw p (take_all 25 xs h)

pages_iff :
    (lower : Text → Text) (s : AuditLog)
    → (pagination lower s ≡ none) ↔ (length (filtered lower s) ≤ 25)
unfolding pagination page_count
pages_iff lower s = ground arith

one_page :
    (lower : Text → Text) (s : AuditLog)
    → length (filtered lower s) ≤ 25
    → page_rows lower s ≡ filtered lower s
unfolding page_rows
one_page lower s h = first_page s.page (filtered lower s) h

view_loaded :
    (lower relative : Text → Text) (to_fixed_2 : Double → Text) (to_iso : ℕ → Text) (role : Role)
    (s : AuditLog) (qs : List Row)
    → s.loading ≡ false
    → all_rows relative to_fixed_2 (page_rows lower s) ≡ some qs
    → view lower relative to_fixed_2 to_iso role s
      ≡ some (view_with lower relative to_fixed_2 to_iso role s qs)
unfolding view
view_loaded lower relative to_fixed_2 to_iso role s qs l e =
    let built = map_some (view_with lower relative to_fixed_2 to_iso role s) in
    let rows = all_rows relative to_fixed_2 (page_rows lower s) in
    ap (λ b. built (rendered lower relative to_fixed_2 to_iso b rows)) l ∙ ap built e

-- An audit log that has loaded and whose page has only records of actions and whole verdicts is
-- rendered: one row for each record of the page, in order, and the number of all the records that the
-- search keeps; there is no pagination exactly when these are at most 25, and then each of them has
-- its row, whatever page was asked for.
pub view-filtered :
    (lower relative : Text → Text) (to_fixed_2 : Double → Text) (to_iso : ℕ → Text) (role : Role)
    (s : AuditLog)
    → s.loading ≡ false
    → All IsWhole (page_rows lower s)
    → (v : View) × (view lower relative to_fixed_2 to_iso role s ≡ some v)
      × AllTell (page_rows lower s) (rows_of v.table)
      × (v.entries ≡ length (filtered lower s))
      × ((v.pages ≡ none) ↔ (v.entries ≤ 25))
      × (v.pages ≡ none → page_rows lower s ≡ filtered lower s)
view-filtered lower relative to_fixed_2 to_iso role s l h =
    let (qs, e, t) = all_rows_lem relative to_fixed_2 (page_rows lower s) h in
    let pages = pages_iff lower s in
    let table = ap (λ b. rows_of (body b qs)) l ∙ rows_of-body qs in
    (
      view_with lower relative to_fixed_2 to_iso role s qs,
      view_loaded lower relative to_fixed_2 to_iso role s qs l e,
      subst (AllTell (page_rows lower s)) (sym table) t,
      refl,
      pages,
      λ p. one_page lower s (pages.0 p),
    )
