-- ===== src/Reports/Tests.antt =====
-- An export of two rows.
use timetrack.Prelude.{ℕ, ◌≡◌, refl, ◌+◌, false, none, some, [], ◌∷◌, map, any, arith}
use timetrack.Reports.Csv.{
  Text, codes, csv_columns, CsvEntryRow, is_special, generate_csv, format_csv_row, escape_field,
  neutralize_field,
}
use timetrack.Reports.Reader.{read_table}
use timetrack.Reports.Export.{cells_of, read_table-generate_csv}

abbrev spelled : ℕ → Text
spelled n = (48 + n) ∷ []

spelled-plain : (n : ℕ) → any is_special (spelled n) ≡ false
spelled-plain n = ground arith

abbrev closed_row : CsvEntryRow
closed_row = record {
  entry_id = codes "e1";
  user = codes "Lee, Ann";
  project = some (codes "=1+2");
  task = none;
  start_time = 1;
  end_time = some 5;
  duration_seconds = 4;
  source = codes "AUTO";
  note = some (codes "say \"hi\"");
  subproject = none;
}

abbrev open_row : CsvEntryRow
open_row = record closed_row { entry_id = codes "e2"; end_time = none }

test_row :
    format_csv_row spelled spelled closed_row
    ≡ codes "e1,\"Lee, Ann\",'=1+2,,1,5,4,AUTO,\"say \"\"hi\"\"\",\r\n"
unfolding format_csv_row escape_field neutralize_field
test_row = refl

read_table-generate_csv_example :
    read_table (generate_csv spelled spelled (closed_row ∷ open_row ∷ []))
    ≡ some (csv_columns ∷ map (cells_of spelled spelled) (closed_row ∷ open_row ∷ []))
read_table-generate_csv_example =
    read_table-generate_csv spelled spelled spelled-plain spelled-plain (closed_row ∷ open_row ∷ [])
      ((refl, refl), ((refl, refl), tt))
