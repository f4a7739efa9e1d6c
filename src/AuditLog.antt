-- ===== src/AuditLog.antt =====
-- frontend/src/components/AuditLogTable.tsx: the rows, the search, the pages and the loading. The
-- language's case mapping is a parameter, `lower`.
pub mod Search
pub mod Pages
pub mod Loads
pub mod Rows
pub mod Screen
pub mod Saved
pub mod Csv
pub mod Clock
mod Tests
mod SavedTests
use mirraura.Base.{
  ℕ, suc, ◌+◌, ◌-◌, ◌*◌, ◌/◌, ◌≡◌, Bool, true, false, not, List, [], ◌∷◌, ◌++◌, map, reverse, Text,
  text, join, includes, trim, is_nonempty, filter, length, take, drop, leb, ltb, ◌==◌, Option, none,
  some, min, max, if◌then◌else◌,
}
use mirraura.Types.{
  Double, VerdictLabel, normal, suspicious, compromised, inconclusive, Role, admin, analyst,
}
use mirraura.Presentation.{label_text}
use mirraura.Toast.{ToastTone}
use mirraura.Api.Request.{Outcome, fulfilled, rejected, Failure, message_or, has_status}
use mirraura.Api.Endpoints.{ChainStatus}

-- A row as it arrives: a verdict, or a record of an action, which has no verdict's fields.
pub record AuditRow : Type 0 where
  pub verdict_id : Option Text
  pub sample_hash : Option Text
  pub sample_filename : Option Text
  pub verdict : Option VerdictLabel
  pub confidence : Option Double
  pub timestamp : Text
  pub detection_method : Option Text
  pub source : Option Text
  pub action : Option Text
  pub device_id : Option Text
  pub record_id : Option Text
  pub hash : Option Text
  pub actor : Option Text

abbrev pub verdict_text : Option VerdictLabel → Option Text
verdict_text none = none
verdict_text (some label) = some (label_text label)

-- `.filter(Boolean)` on texts that may be missing.
unfoldable pub present : List (Option Text) → List Text
present [] = []
present (none ∷ os) = present os
present (some [] ∷ os) = present os
present (some (c ∷ s) ∷ os) = (c ∷ s) ∷ present os

-- The text of a row that is searched.
unfoldable pub haystack : AuditRow → Text
unfolding present
haystack row = join (text " ") (
    present (
      row.action
      ∷ verdict_text row.verdict
      ∷ row.actor
      ∷ row.sample_hash
      ∷ row.hash
      ∷ row.source
      ∷ []))

unfoldable pub matches_query : (Text → Text) → AuditRow → Text → Bool
unfolding haystack
matches_query lower row query = includes (lower (haystack row)) (lower query)

pub data SortOrder : Type 0 where
  newest oldest : SortOrder

pub record AuditLog : Type 0 where
  pub rows : List AuditRow
  pub chain_status : Option ChainStatus
  -- The time in milliseconds.
  pub chain_checked_at : Option ℕ
  pub error : Option Text
  pub query : Text
  pub page : ℕ
  pub loading : Bool
  pub sort_order : SortOrder

abbrev pub start : AuditLog
start = record {
  rows = [];
  chain_status = none;
  chain_checked_at = none;
  error = none;
  query = [];
  page = 0;
  loading = true;
  sort_order = newest;
}

pub data Effect : Type 0 where
  session_expired : Effect
  pushed : Text → ToastTone → Effect
  verdicts_changed : List AuditRow → Effect
  chain_changed : Option ChainStatus → Effect

-- `cancelled` is the flag of the effect that made the call.
unfoldable pub verdicts_answered :
    Bool → Outcome (List AuditRow) → AuditLog → AuditLog × List Effect
verdicts_answered true answer s = (s, [])
verdicts_answered false (fulfilled rows) s =
    (record s { rows = rows; error = none; loading = false }, verdicts_changed rows ∷ [])
verdicts_answered false (rejected e) s =
    if has_status 401 e
    then (record s { loading = false }, session_expired ∷ [])
    else if has_status 403 e
    then (record s { loading = false }, pushed (text "Admins only") ToastTone.error ∷ [])
    else (
      record s { error = some (message_or (text "failed to load audit log") e); loading = false },
      [],
    )

unfoldable pub chain_answered : Bool → ℕ → Outcome ChainStatus → AuditLog → AuditLog × List Effect
chain_answered true now answer s = (s, [])
chain_answered false now (fulfilled status) s = (
  record s { chain_status = some status; chain_checked_at = some now },
  chain_changed (some status) ∷ [],
)
chain_answered false now (rejected e) s =
    (record s { chain_status = none; chain_checked_at = none }, chain_changed none ∷ [])

abbrev pub in_order : SortOrder → List AuditRow → List AuditRow
in_order newest base = reverse base
in_order oldest base = base

unfoldable pub filtered : (Text → Text) → AuditLog → List AuditRow
filtered lower s =
    let query = trim s.query in
    in_order s.sort_order (
      if is_nonempty query
      then filter (λ (r : AuditRow). matches_query lower r query) s.rows
      else s.rows)

abbrev pub page_size : ℕ
page_size = 25

-- `Math.max(1, Math.ceil(n / PAGE_SIZE))`
unfoldable pub page_count : ℕ → ℕ
page_count n = max 1 ((n + 24) / page_size)

unfoldable pub current_page : ℕ → ℕ → ℕ
unfolding page_count
current_page page n = min page (page_count n - 1)

-- `xs.slice(p * PAGE_SIZE, p * PAGE_SIZE + PAGE_SIZE)`
unfoldable pub page_slice {ℓ} : {A : Type ℓ} → List A → ℕ → List A
page_slice xs p = take page_size (drop (p * page_size) xs)

unfoldable pub page_rows : (Text → Text) → AuditLog → List AuditRow
page_rows lower s =
    let rows = filtered lower s in page_slice rows (current_page s.page (length rows))

unfoldable pub handle_query_change : Text → AuditLog → AuditLog
handle_query_change value s = record s { query = value; page = 0 }

abbrev pub other_order : SortOrder → SortOrder
other_order newest = oldest
other_order oldest = newest

unfoldable pub toggle_sort_order : AuditLog → AuditLog
toggle_sort_order s = record s { sort_order = other_order s.sort_order; page = 0 }

-- The buttons under the table, there if there are several pages; a disabled one does nothing.
unfoldable pub previous_disabled : (Text → Text) → AuditLog → Bool
previous_disabled lower s = current_page s.page (length (filtered lower s)) == 0

unfoldable pub next_disabled : (Text → Text) → AuditLog → Bool
next_disabled lower s =
    let n = length (filtered lower s) in leb (page_count n - 1) (current_page s.page n)

unfoldable pub click_previous : (Text → Text) → AuditLog → AuditLog
unfolding previous_disabled
click_previous lower s = if previous_disabled lower s then s else record s { page = s.page - 1 }

unfoldable pub click_next : (Text → Text) → AuditLog → AuditLog
unfolding next_disabled
click_next lower s = if next_disabled lower s then s else record s { page = suc s.page }

-- The download buttons are there for an admin who has rows.
unfoldable pub can_download : Role → AuditLog → Bool
can_download analyst s = false
can_download admin s = ltb 0 (length s.rows)
