-- ===== src/Reports/Csv.antt =====
-- csv-writer.ts. A text is the list of its UTF-16 code units. The spelling of an instant and of a
-- number is a parameter.
use Prim.Native.Char.{code}
use timetrack.Prelude.{
  ℕ, Bool, ◌||◌, ◌==◌, Option, none, some, List, [], ◌∷◌, ◌++◌, map, any, or_else, if◌then◌else◌,
  String,
}

abbrev pub Text : Type 0
Text = List ℕ

abbrev pub codes : String → Text
codes String.[] = []
codes (String.◌∷◌ c s) = code c ∷ codes s

-- CSV_COLUMNS
abbrev pub csv_columns : List Text
csv_columns = map codes (
    "entryId" ∷ "user" ∷ "project" ∷ "task" ∷ "startTime" ∷ "endTime" ∷ "durationSeconds" ∷ "source"
    ∷ "note" ∷ "subproject" ∷ [])

abbrev pub crlf : Text
crlf = 13 ∷ 10 ∷ []

pub record CsvEntryRow : Type 0 where
  pub entry_id : Text
  pub user : Text
  pub project : Option Text
  pub task : Option Text
  pub start_time : ℕ
  pub end_time : Option ℕ
  pub duration_seconds : ℕ
  pub source : Text
  pub note : Option Text
  pub subproject : Option Text

-- '=' '+' '-' '@' TAB CR
abbrev pub is_trigger : ℕ → Bool
is_trigger c = (c == 61) || (c == 43) || (c == 45) || (c == 64) || (c == 9) || (c == 13)

unfoldable pub neutralize_field : Text → Text
neutralize_field [] = []
neutralize_field (c ∷ value) = if is_trigger c then 39 ∷ c ∷ value else c ∷ value

-- /[",\r\n]/
abbrev pub is_special : ℕ → Bool
is_special c = (c == 34) || (c == 44) || (c == 13) || (c == 10)

-- value.replace(/"/g, '""')
unfoldable pub double_quotes : Text → Text
double_quotes [] = []
double_quotes (c ∷ value) =
    let rest = double_quotes value in if c == 34 then 34 ∷ 34 ∷ rest else c ∷ rest

unfoldable pub escape_field : Text → Text
unfolding double_quotes
escape_field value = if any is_special value then 34 ∷ (double_quotes value ++ (34 ∷ [])) else value

abbrev pub text_cell : Option Text → Text
text_cell value = escape_field (neutralize_field (or_else value []))

-- fields.join(',')
unfoldable pub join : List Text → Text
join [] = []
join (f ∷ []) = f
join (f ∷ g ∷ fields) = f ++ (44 ∷ join (g ∷ fields))

abbrev pub csv_header_line : Text
csv_header_line = join csv_columns ++ crlf

module _ (to_iso_string : ℕ → Text) (to_string : ℕ → Text) where
  unfoldable pub fields_of : CsvEntryRow → List Text
  fields_of row =
      row.entry_id
      ∷ text_cell (some row.user)
      ∷ text_cell row.project
      ∷ text_cell row.task
      ∷ to_iso_string row.start_time
      ∷ elim row.end_time [ none ↦ [] | some t ↦ to_iso_string t ]
      ∷ to_string row.duration_seconds
      ∷ row.source
      ∷ text_cell row.note
      ∷ text_cell row.subproject
      ∷ []

  unfoldable pub format_csv_row : CsvEntryRow → Text
  unfolding fields_of join
  format_csv_row row = join (fields_of row) ++ crlf

  unfoldable pub csv_rows : List CsvEntryRow → Text
  unfolding format_csv_row
  csv_rows [] = []
  csv_rows (row ∷ rows) = format_csv_row row ++ csv_rows rows

  -- generateCsv: the lines that it yields, one after the other
  unfoldable pub generate_csv : List CsvEntryRow → Text
  unfolding csv_rows join
  generate_csv rows = csv_header_line ++ csv_rows rows
