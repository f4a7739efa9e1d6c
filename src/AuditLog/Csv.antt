-- ===== src/AuditLog/Csv.antt =====
-- frontend/src/components/AuditLogTable.tsx, lines 112 to 136: the text of the CSV download.
pub mod Reader
use mirraura.Base.{
  Bool, ◌||◌, List, [], ◌∷◌, ◌++◌, map, any, Text, text, join, ◌==◌, Option, none, some, map_some,
  if◌then◌else◌, ℕ,
}
use mirraura.Types.{Double}
use mirraura.AuditLog.{AuditRow, verdict_text, ℕ}

-- One character of `[",\n]`.
abbrev pub is_special : ℕ → Bool
is_special c = c == b'"' || c == b',' || c == 10

-- `s.replace(/"/g, '""')`
unfoldable pub double_quotes : Text → Text
double_quotes [] = []
double_quotes (c ∷ s) = if c == b'"' then b'"' ∷ b'"' ∷ double_quotes s else c ∷ double_quotes s

unfoldable pub quote_cell : Text → Text
unfolding double_quotes
quote_cell s = if any is_special s then b'"' ∷ (double_quotes s ++ b'"' ∷ []) else s

-- A missing value is the empty text.
abbrev pub cell_text : Option Text → Text
cell_text none = []
cell_text (some s) = s

unfoldable pub csv_cell : Option Text → Text
unfolding quote_cell
csv_cell value = quote_cell (cell_text value)

abbrev pub csv_columns : List Text
csv_columns =
    text "timestamp"
    ∷ text "sample_filename"
    ∷ text "sample_hash"
    ∷ text "hash"
    ∷ text "source"
    ∷ text "verdict"
    ∷ text "action"
    ∷ text "actor"
    ∷ text "confidence"
    ∷ []

-- `CSV_COLUMNS.map((c) => r[c])`; `number_text` is `String` of a number.
abbrev pub column_values : (Double → Text) → AuditRow → List (Option Text)
column_values number_text r =
    some r.timestamp
    ∷ r.sample_filename
    ∷ r.sample_hash
    ∷ r.hash
    ∷ r.source
    ∷ verdict_text r.verdict
    ∷ r.action
    ∷ r.actor
    ∷ map_some number_text r.confidence
    ∷ []

-- The content that is handed to the download.
unfoldable pub audit_log_csv : (Double → Text) → List AuditRow → Text
audit_log_csv number_text rows = join (10 ∷ []) (
    join (text ",") csv_columns
    ∷ map (λ (r : AuditRow). join (text ",") (map csv_cell (column_values number_text r))) rows)
