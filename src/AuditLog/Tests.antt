-- ===== src/AuditLog/Tests.antt =====
-- frontend/src/components/AuditLogTable.tsx at concrete inputs.
use mirraura.AuditLog.Screen.{stamp, View, view, view-filtered, download_audit_log_csv}
use mirraura.Types.{compromised, admin}
use mirraura.Base.{
  Option, Text, trim, trim_start, is_space, ◌≡◌, ◌≢◌, ◌↔◌, refl, [], ◌∷◌, text, flatten, filter,
  List, includes, length, Bool, none, map, ◌≤◌, starts_with, some, ℕ, false, ◌<◌, decimal, true,
  join, ◌*◌, reverse, inl, inr,
}
use mirraura.Review.{rows_of}
use mirraura.AuditLog.{
  AuditRow, AuditLog, start, filtered, in_order, matches_query, haystack, toggle_sort_order,
  page_slice, page_count, current_page, page_size, Text, filter, List, includes, length, Bool, none,
  map, some, trim, ℕ, false, Option, true, join, reverse, present, page_rows, admin, oldest,
}
use mirraura.AuditLog.Rows.{AllTell}
use mirraura.AuditLog.Search.{Occurs, filtered_lem}
use mirraura.AuditLog.Pages.{count_from, pages_cover}
use mirraura.AuditLog.Clock.{
  Span, TimeUnit, second, relative_time, IsUnitOf, IsClose, seconds_in, relative_time_lem,
}
use mirraura.AuditLog.Csv.{audit_log_csv, csv_columns, column_values, cell_text}
use mirraura.AuditLog.Csv.Reader.{read_csv, fresh, read_csv-audit_log_csv}

abbrev row : Text → AuditRow
row name = record {
  verdict_id = none;
  sample_hash = none;
  sample_filename = some name;
  verdict = some compromised;
  confidence = none;
  timestamp = text "now";
  detection_method = none;
  source = none;
  action = none;
  device_id = none;
  record_id = none;
  hash = none;
  actor = some (text "ada");
}

abbrev searched : AuditLog
searched = record start { rows = row (text "a") ∷ row (text "b,\"c\"") ∷ []; query = text " ada " }

filtered_lem_example :
    (filtered (λ t. t) searched
      ≡ in_order searched.sort_order
          (filter (λ (r : AuditRow). matches_query (λ t. t) r (trim searched.query)) searched.rows))
    × ((r : AuditRow)
        → (matches_query (λ t. t) r (trim searched.query) ≡ true)
          ↔ Occurs (haystack r) (trim searched.query))
    × (filtered (λ t. t) (toggle_sort_order searched) ≡ reverse (filtered (λ t. t) searched))
    × ((toggle_sort_order searched).page ≡ 0)
filtered_lem_example = filtered_lem (λ t. t) searched refl

abbrev numbers : List ℕ
numbers = count_from 0 60

pages_cover_example :
    (flatten (map (page_slice numbers) (count_from 0 (page_count (length numbers)))) ≡ numbers)
    × (length (page_slice numbers 9) ≤ page_size)
    × (current_page 9 (length numbers) < page_count (length numbers))
    × (0 < length numbers → 0 < length (page_slice numbers (current_page 9 (length numbers))))
pages_cover_example = pages_cover numbers 9

two_rows : length (filtered (λ t. t) searched) ≡ 2
unfolding filtered matches_query haystack includes starts_with join present trim trim_start is_space
    text
two_rows = refl

abbrev stale : AuditLog
stale = record start { page = 3 }

abbrev a_while_ago : Text → Option Span
a_while_ago iso = some (record { ahead = false; ms = 90000 })

abbrev format : Bool → ℕ → TimeUnit → Text
format ahead k u = decimal k

relative_time_lem_example :
    (a_while_ago (text "t") ≡ none → relative_time a_while_ago format (text "t") ≡ text "t")
    × ((d : Span)
        → a_while_ago (text "t") ≡ some d
        → (u : TimeUnit) × (k : ℕ) × (relative_time a_while_ago format (text "t")
            ≡ format d.ahead k u)
          × IsUnitOf d.ms u
          × IsClose d.ms (seconds_in u * 1000) k
          × (u ≢ second → 1 ≤ k))
relative_time_lem_example = relative_time_lem a_while_ago format (text "t")

read_csv-audit_log_csv_example :
    read_csv fresh [] [] (audit_log_csv (λ d. text "0.5") searched.rows)
    ≡ csv_columns
      ∷ map (λ (r : AuditRow). map cell_text (column_values (λ d. text "0.5") r)) searched.rows
read_csv-audit_log_csv_example = read_csv-audit_log_csv (λ d. text "0.5") searched.rows

abbrev quarantined : AuditRow
quarantined = record (row (text "c")) { action = some (text "isolate") }

abbrev whole : AuditRow
whole = record (row (text "d")) {
  confidence = some (record { negative = false; mantissa = 5; scale = 1 });
}

abbrev loaded : AuditLog
loaded = record start { rows = quarantined ∷ whole ∷ []; loading = false; sort_order = oldest }

view-filtered_example :
    (v : View) × (view (λ t. t) (λ t. t) (λ d. text "0.50") (λ ms. []) admin loaded ≡ some v)
    × AllTell (page_rows (λ t. t) loaded) (rows_of v.table)
    × (v.entries ≡ length (filtered (λ t. t) loaded))
    × ((v.pages ≡ none) ↔ (v.entries ≤ 25))
    × (v.pages ≡ none → page_rows (λ t. t) loaded ≡ filtered (λ t. t) loaded)
unfolding text page_rows page_slice current_page page_count filtered trim trim_start
view-filtered_example =
    view-filtered (λ t. t) (λ t. t) (λ d. text "0.50") (λ ms. []) admin loaded refl
      (
        inl refl,
        (inr (compromised, record { negative = false; mantissa = 5; scale = 1 }, refl, refl), tt),
      )

file_name :
    (download_audit_log_csv (text "2026-01-02T03:04:05.678Z") (λ d. []) []).filename
    ≡ text "mirraura-audit-log-2026-01-02T03-04-05-678Z.csv"
unfolding download_audit_log_csv stamp text
file_name = refl
