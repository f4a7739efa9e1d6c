-- ===== src/AuditLog/Csv/Reader.antt =====
-- A reader of comma-separated text with quoted cells, and that it reads what the download of
-- frontend/src/components/AuditLogTable.tsx holds.
use mirraura.Base.{
  ℕ, ◌≡◌, refl, ◌∙◌, true, false, ◌||◌, List, [], ◌∷◌, ◌++◌, map, any, Text, join, ◌==◌,
  append_assoc, append-nil, Option, arith, if◌then◌else◌, Bool-cases, inl, inr, text, some, ap, sym,
  map_some,
}
use mirraura.AuditLog.Csv.{
  is_special, double_quotes, quote_cell, csv_cell, cell_text, Double, text, audit_log_csv, AuditRow,
  some, column_values, csv_columns, map_some,
}
use mirraura.Types.{Double}
use mirraura.AuditLog.{AuditRow, verdict_text}

-- At the start of a cell, in a plain one, inside quotes, or behind a quote inside quotes.
pub data Mode : Type 0 where
  fresh plain quoted closing : Mode

-- The rows of a text, from the cell and the row that are being read. A line ends at a line feed.
pub read_csv : Mode → Text → List Text → Text → List (List Text)
read_csv m cell row [] = (row ++ cell ∷ []) ∷ []
read_csv quoted cell row (c ∷ s) =
    let closes = read_csv closing cell row s in
    let goes_on = read_csv quoted (cell ++ c ∷ []) row s in if c == b'"' then closes else goes_on
read_csv fresh cell row (c ∷ s) =
    let opens = read_csv quoted cell row s in
    let next_cell = read_csv fresh [] (row ++ cell ∷ []) s in
    let next_row = (row ++ cell ∷ []) ∷ read_csv fresh [] [] s in
    let goes_on = read_csv plain (cell ++ c ∷ []) row s in
    if c == b'"'
    then opens
    else if c == b','
    then next_cell
    else if c == 10
    then next_row
    else goes_on
read_csv plain cell row (c ∷ s) =
    let next_cell = read_csv fresh [] (row ++ cell ∷ []) s in
    let next_row = (row ++ cell ∷ []) ∷ read_csv fresh [] [] s in
    let goes_on = read_csv plain (cell ++ c ∷ []) row s in
    if c == b',' then next_cell else if c == 10 then next_row else goes_on
read_csv closing cell row (c ∷ s) =
    let quote = read_csv quoted (cell ++ c ∷ []) row s in
    let next_cell = read_csv fresh [] (row ++ cell ∷ []) s in
    let next_row = (row ++ cell ∷ []) ∷ read_csv fresh [] [] s in
    let goes_on = read_csv plain (cell ++ c ∷ []) row s in
    if c == b'"'
    then quote
    else if c == b','
    then next_cell
    else if c == 10
    then next_row
    else goes_on

-- What may stand behind a cell.
abbrev IsEnd : Text → Type 0
IsEnd [] = Unit
IsEnd (c ∷ s) = (c == b',' || c == 10) ≡ true

-- Behind a whole cell, the reader goes on as from a plain one.
closing_end :
    (cell : Text) (row : List Text) (rest : Text)
    → IsEnd rest
    → read_csv closing cell row rest ≡ read_csv plain cell row rest
unfolding read_csv
closing_end cell row [] h = refl
closing_end cell row (c ∷ s) h = ground arith

read_quoted :
    (v cell : Text) (row : List Text) (rest : Text)
    → read_csv quoted cell row (double_quotes v ++ b'"' ∷ rest)
      ≡ read_csv closing (cell ++ v) row rest
unfolding read_csv double_quotes
read_quoted [] cell row rest = rw (append-nil cell) refl
read_quoted (c ∷ v) cell row rest =
    ground (arith, read_quoted v (cell ++ c ∷ []) row rest, append_assoc cell (c ∷ []) v)

read_plain :
    (v cell : Text) (row : List Text) (rest : Text)
    → any is_special v ≡ false
    → read_csv plain cell row (v ++ rest) ≡ read_csv plain (cell ++ v) row rest
unfolding read_csv
read_plain [] cell row rest h = rw (append-nil cell) refl
read_plain (c ∷ v) cell row rest h =
    ground (arith, read_plain v (cell ++ c ∷ []) row rest, append_assoc cell (c ∷ []) v)

fresh_end :
    (row : List Text) (rest : Text)
    → IsEnd rest
    → read_csv fresh [] row rest ≡ read_csv plain [] row rest
unfolding read_csv
fresh_end row [] h = refl
fresh_end row (c ∷ s) h = ground arith

fresh_plain :
    (c : ℕ) (s : Text) (row : List Text)
    → is_special c ≡ false
    → read_csv fresh [] row (c ∷ s) ≡ read_csv plain [] row (c ∷ s)
unfolding read_csv
fresh_plain c s row h = ground arith

read_fresh :
    (v : Text) (row : List Text) (rest : Text)
    → IsEnd rest
    → any is_special v ≡ false
    → read_csv fresh [] row (v ++ rest) ≡ read_csv plain v row rest
read_fresh [] row rest e h = fresh_end row rest e
read_fresh (c ∷ v) row rest e h =
    fresh_plain c (v ++ rest) row (ground arith) ∙ read_plain (c ∷ v) [] row rest h

fresh_quote :
    (row : List Text) (s : Text) → read_csv fresh [] row (b'"' ∷ s) ≡ read_csv quoted [] row s
unfolding read_csv
fresh_quote row s = refl

read_cell :
    (v : Text) (row : List Text) (rest : Text)
    → IsEnd rest
    → read_csv fresh [] row (quote_cell v ++ rest) ≡ read_csv plain v row rest
unfolding quote_cell
read_cell v row rest e = elim (Bool-cases (any is_special v)) [
  | inl special ↦
      rw
        (
          special,
          append_assoc (double_quotes v) (b'"' ∷ []) rest,
          fresh_quote row (double_quotes v ++ b'"' ∷ rest),
          read_quoted v [] row rest,
        )
        (closing_end v row rest e)
  | inr none_special ↦ rw none_special (read_fresh v row rest e none_special)
]

-- What may stand behind a row.
abbrev IsLineEnd : Text → Type 0
IsLineEnd [] = Unit
IsLineEnd (c ∷ s) = c ≡ 10

abbrev rows_from : List Text → Text → List (List Text)
rows_from row [] = row ∷ []
rows_from row (c ∷ s) = row ∷ read_csv fresh [] [] s

rest-IsEnd : (rest : Text) → IsLineEnd rest → IsEnd rest
rest-IsEnd [] h = h
rest-IsEnd (c ∷ s) h = rw h refl

end_row :
    (v : Text) (row : List Text) (rest : Text)
    → IsLineEnd rest
    → read_csv plain v row rest ≡ rows_from (row ++ v ∷ []) rest
unfolding read_csv
end_row v row [] h = refl
end_row v row (c ∷ s) h = rw h refl

next_cell :
    (v : Text) (row : List Text) (s : Text)
    → read_csv plain v row (b',' ∷ s) ≡ read_csv fresh [] (row ++ v ∷ []) s
unfolding read_csv
next_cell v row s = refl

abbrev comma : Text
comma = b',' ∷ []

read_row :
    (v : Option Text) (vs : List (Option Text)) (row : List Text) (rest : Text)
    → IsLineEnd rest
    → read_csv fresh [] row (join comma (map csv_cell (v ∷ vs)) ++ rest)
      ≡ rows_from (row ++ map cell_text (v ∷ vs)) rest
unfolding join csv_cell
read_row v [] row rest h =
    read_cell (cell_text v) row rest (rest-IsEnd rest h) ∙ end_row (cell_text v) row rest h
read_row v (w ∷ vs) row rest h =
    rw
      (
        append_assoc (quote_cell (cell_text v)) (comma ++ join comma (map csv_cell (w ∷ vs))) rest,
        read_cell (cell_text v) row (comma ++ join comma (map csv_cell (w ∷ vs)) ++ rest) refl,
        next_cell (cell_text v) row (join comma (map csv_cell (w ∷ vs)) ++ rest),
        read_row w vs (row ++ cell_text v ∷ []) rest h,
        append_assoc row (cell_text v ∷ []) (map cell_text (w ∷ vs)),
      )
      refl

abbrev row_text : (Double → Text) → AuditRow → Text
row_text number_text r = join comma (map csv_cell (column_values number_text r))

abbrev row_cells : (Double → Text) → AuditRow → List Text
row_cells number_text r = map cell_text (column_values number_text r)

read_lines :
    (number_text : Double → Text) (v : Option Text) (vs : List (Option Text)) (rows : List AuditRow)
    → read_csv fresh [] []
        (join (10 ∷ []) (join comma (map csv_cell (v ∷ vs)) ∷ map (row_text number_text) rows))
      ≡ map cell_text (v ∷ vs) ∷ map (row_cells number_text) rows
unfolding join
read_lines number_text v vs [] =
    ap (read_csv fresh [] []) (sym (append-nil (join comma (map csv_cell (v ∷ vs)))))
    ∙ read_row v vs [] [] tt
read_lines number_text v vs (r ∷ rows) =
    read_row v vs [] (10 ∷ join (10 ∷ []) (map (row_text number_text) (r ∷ rows))) refl
    ∙ ap (λ t. map cell_text (v ∷ vs) ∷ t)
        (read_lines number_text (some r.timestamp)
          (r.sample_filename
            ∷ r.sample_hash
            ∷ r.hash
            ∷ r.source
            ∷ verdict_text r.verdict
            ∷ r.action
            ∷ r.actor
            ∷ map_some number_text r.confidence
            ∷ [])
          rows)

comma_text : text "," ≡ comma
unfolding text
comma_text = refl

header_text : join comma (map csv_cell (map some csv_columns)) ≡ join comma csv_columns
unfolding text csv_cell
header_text = refl

-- For every list of rows and every way to print a number, a reader of comma-separated text (a
-- quoted cell may hold commas, line feeds and doubled quotes) gets from the downloaded text the
-- line of the column names and then, for each row in order, exactly the values of its nine
-- columns, with the empty text for a missing value.
pub read_csv-audit_log_csv :
    (number_text : Double → Text) (rows : List AuditRow)
    → read_csv fresh [] [] (audit_log_csv number_text rows)
      ≡ csv_columns ∷ map (λ (r : AuditRow). map cell_text (column_values number_text r)) rows
unfolding audit_log_csv
read_csv-audit_log_csv number_text rows =
    rw (comma_text, sym header_text)
      (read_lines number_text (some (text "timestamp"))
        (map some (
          text "sample_filename"
          ∷ text "sample_hash"
          ∷ text "hash"
          ∷ text "source"
          ∷ text "verdict"
          ∷ text "action"
          ∷ text "actor"
          ∷ text "confidence"
          ∷ []))
        rows)
