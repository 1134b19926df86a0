-- ===== src/Reports/Export.antt =====
-- An exported table, read back.
use timetrack.Prelude.{
  ℕ, ◌≡◌, refl, sym, ap, ◌∙◌, subst, false, ◌==◌, ==→eq, Option, none, some, List, [], ◌∷◌, ◌++◌,
  map, any, All, arith, inl, inr, or_else, Bool-cases,
}
use timetrack.Reports.Csv.{
  Text, csv_columns, crlf, CsvEntryRow, is_special, neutralize_field, double_quotes, escape_field,
  join, fields_of, format_csv_row, csv_rows, generate_csv,
}
use timetrack.Reports.Reader.{
  Mode, fresh, bare, quoted, closing, return, Reader, step, read, read_table,
}

append_assoc : {A : Type 0} (xs ys zs : List A) → (xs ++ ys) ++ zs ≡ xs ++ (ys ++ zs)
append_assoc [] ys zs = refl
append_assoc (x ∷ xs) ys zs = ap (λ l. x ∷ l) (append_assoc xs ys zs)

append_nil : {A : Type 0} (xs : List A) → xs ++ [] ≡ xs
append_nil [] = refl
append_nil (x ∷ xs) = ap (λ l. x ∷ l) (append_nil xs)

-- A reader in a mode, with its field, its row and its table so far.
abbrev at_mode : Mode → Text → List Text → List (List Text) → Reader
at_mode m f row rows = record { mode = m; field = f; row = row; rows = rows }

abbrev Plain : Text → Type 0
Plain v = any is_special v ≡ false

read-bare :
    (v rest f : Text) (row : List Text) (rows : List (List Text))
    → Plain v
    → read (v ++ rest) (at_mode bare f row rows) ≡ read rest (at_mode bare (f ++ v) row rows)
unfolding read
read-bare [] rest f row rows h = ap (λ g. read rest (at_mode bare g row rows)) (sym (append_nil f))
read-bare (c ∷ v) rest f row rows h =
    ground (arith, h, read-bare v rest (f ++ (c ∷ [])) row rows, append_assoc f (c ∷ []) v)

read-cons :
    (k : ℕ) (rest : Text) (r : Reader) {out : Reader}
    → step k r ≡ some out
    → read (k ∷ rest) r ≡ read rest out
unfolding read
read-cons k rest r {out = out} h = rw (h, read) refl

read-quoted :
    (v rest f : Text) (row : List Text) (rows : List (List Text))
    → read (double_quotes v ++ rest) (at_mode quoted f row rows)
      ≡ read rest (at_mode quoted (f ++ v) row rows)
unfolding read double_quotes
read-quoted [] rest f row rows =
    ap (λ g. read rest (at_mode quoted g row rows)) (sym (append_nil f))
read-quoted (c ∷ v) rest f row rows = elim (Bool-cases (c == 34)) [
  | inl quote ↦
      subst
        (λ x.
          read (double_quotes (x ∷ v) ++ rest) (at_mode quoted f row rows)
          ≡ read rest (at_mode quoted (f ++ (x ∷ v)) row rows))
        (sym (==→eq c 34 quote))
        (read-quoted v rest (f ++ (34 ∷ [])) row rows
          ∙ ap (λ g. read rest (at_mode quoted g row rows)) (append_assoc f (34 ∷ []) v))
  | inr other ↦
      rw (other, double_quotes)
        (read-cons c (double_quotes v ++ rest) (at_mode quoted f row rows)
            {out = at_mode quoted (f ++ (c ∷ [])) row rows} (ground (arith, other))
          ∙ read-quoted v rest (f ++ (c ∷ [])) row rows
          ∙ ap (λ g. read rest (at_mode quoted g row rows)) (append_assoc f (c ∷ []) v))
]

-- A field, up to the character that ends it in every mode alike.
module _ (k : ℕ) (rest v : Text) (row : List Text) (rows : List (List Text)) (out : Reader)
    (from_fresh : step k (at_mode fresh v row rows) ≡ some out)
    (from_bare : step k (at_mode bare v row rows) ≡ some out)
    (from_closing : step k (at_mode closing v row rows) ≡ some out) where
  read-special :
      read (34 ∷ ((double_quotes v ++ (34 ∷ [])) ++ (k ∷ rest))) (at_mode fresh [] row rows)
      ≡ read rest out
  unfolding read
  read-special =
      ap (λ g. read g (at_mode quoted [] row rows))
        (append_assoc (double_quotes v) (34 ∷ []) (k ∷ rest))
      ∙ read-quoted v (34 ∷ k ∷ rest) [] row rows
      ∙ read-cons k rest (at_mode closing v row rows) {out = out} from_closing

read-Plain :
    (k : ℕ) (rest v : Text) (row : List Text) (rows : List (List Text)) (out : Reader)
    → step k (at_mode fresh v row rows) ≡ some out
    → step k (at_mode bare v row rows) ≡ some out
    → Plain v
    → read (v ++ (k ∷ rest)) (at_mode fresh [] row rows) ≡ read rest out
unfolding read
read-Plain k rest [] row rows out p q h = read-cons k rest (at_mode fresh [] row rows) {out = out} p
read-Plain k rest (c ∷ v) row rows out p q h =
    read-cons c (v ++ (k ∷ rest)) (at_mode fresh [] row rows) {out = at_mode bare (c ∷ []) row rows}
      (ground (arith, h))
    ∙ read-bare v (k ∷ rest) (c ∷ []) row rows (ground (arith, h))
    ∙ read-cons k rest (at_mode bare (c ∷ v) row rows) {out = out} q

read-field :
    (k : ℕ) (rest v : Text) (row : List Text) (rows : List (List Text)) (out : Reader)
    → step k (at_mode fresh v row rows) ≡ some out
    → step k (at_mode bare v row rows) ≡ some out
    → step k (at_mode closing v row rows) ≡ some out
    → read (escape_field v ++ (k ∷ rest)) (at_mode fresh [] row rows) ≡ read rest out
unfolding escape_field
read-field k rest v row rows out p q s = elim (Bool-cases (any is_special v)) [
  | inl special ↦ rw (special, escape_field) (read-special k rest v row rows out p q s)
  | inr plain ↦ rw (plain, escape_field) (read-Plain k rest v row rows out p q plain)
]

-- A line of escaped fields is one row of the table.
read-line :
    (v : Text) (vs : List Text) (rest : Text) (row : List Text) (rows : List (List Text))
    → read (join (map escape_field (v ∷ vs)) ++ (13 ∷ 10 ∷ rest)) (at_mode fresh [] row rows)
      ≡ read rest (at_mode fresh [] [] (rows ++ ((row ++ (v ∷ vs)) ∷ [])))
unfolding join read step
read-line v [] rest row rows =
    read-field 13 (10 ∷ rest) v row rows (at_mode return v row rows) refl refl refl
read-line v (w ∷ vs) rest row rows =
    ap (λ g. read g (at_mode fresh [] row rows))
      (append_assoc (escape_field v) (44 ∷ join (map escape_field (w ∷ vs))) (13 ∷ 10 ∷ rest))
    ∙ read-field 44 (join (map escape_field (w ∷ vs)) ++ (13 ∷ 10 ∷ rest)) v row rows
        (at_mode fresh [] (row ++ (v ∷ [])) rows) refl refl refl
    ∙ read-line w vs rest (row ++ (v ∷ [])) rows
    ∙ ap (λ g. read rest (at_mode fresh [] [] (rows ++ (g ∷ []))))
        (append_assoc row (v ∷ []) (w ∷ vs))

escape-Plain : (v : Text) → Plain v → escape_field v ≡ v
unfolding escape_field
escape-Plain v h = rw (h, escape_field) refl

-- The cells of a row: the texts made harmless, the rest as they are.
abbrev pub cell : Option Text → Text
cell value = neutralize_field (or_else value [])

abbrev pub cells_of : (to_iso_string to_string : ℕ → Text) → CsvEntryRow → List Text
cells_of iso str row =
    row.entry_id
    ∷ cell (some row.user)
    ∷ cell row.project
    ∷ cell row.task
    ∷ iso row.start_time
    ∷ elim row.end_time [ none ↦ [] | some t ↦ iso t ]
    ∷ str row.duration_seconds
    ∷ row.source
    ∷ cell row.note
    ∷ cell row.subproject
    ∷ []

abbrev pub IsPlainRow : CsvEntryRow → Type 0
IsPlainRow row = Plain row.entry_id × Plain row.source

module _ (iso str : ℕ → Text) (iso-Plain : (t : ℕ) → Plain (iso t))
    (str-Plain : (n : ℕ) → Plain (str n)) where
  end-Plain : (t : Option ℕ) → Plain (elim t [ none ↦ [] | some u ↦ iso u ])
  end-Plain none = refl
  end-Plain (some t) = iso-Plain t

  fields-cells :
      (row : CsvEntryRow)
      → IsPlainRow row
      → fields_of iso str row ≡ map escape_field (cells_of iso str row)
  unfolding fields_of
  fields-cells row (p, q) =
      let e =
        escape-Plain (elim row.end_time [ none ↦ [] | some t ↦ iso t ]) (end-Plain row.end_time) in
      rw
        (
          escape-Plain row.entry_id p,
          escape-Plain row.source q,
          escape-Plain (iso row.start_time) (iso-Plain row.start_time),
          e,
          escape-Plain (str row.duration_seconds) (str-Plain row.duration_seconds),
        )
        refl

  read-rows :
      (table : List CsvEntryRow) (rows : List (List Text))
      → All IsPlainRow table
      → read (csv_rows iso str table) (at_mode fresh [] [] rows)
        ≡ some (rows ++ map (cells_of iso str) table)
  unfolding csv_rows format_csv_row read
  read-rows [] rows h = ap (λ x. some x) (sym (append_nil rows))
  read-rows (row ∷ table) rows h =
      ap (λ g. read (g ++ csv_rows iso str table) (at_mode fresh [] [] rows))
        (ap (λ fs. join fs ++ crlf) (fields-cells row h.0))
      ∙ ap (λ g. read g (at_mode fresh [] [] rows))
          (append_assoc (join (map escape_field (cells_of iso str row))) crlf
            (csv_rows iso str table))
      ∙ read-line row.entry_id
          (cell (some row.user)
            ∷ cell row.project
            ∷ cell row.task
            ∷ iso row.start_time
            ∷ elim row.end_time [ none ↦ [] | some t ↦ iso t ]
            ∷ str row.duration_seconds
            ∷ row.source
            ∷ cell row.note
            ∷ cell row.subproject
            ∷ [])
          (csv_rows iso str table) [] rows
      ∙ read-rows table (rows ++ (cells_of iso str row ∷ [])) h.1
      ∙ ap (λ x. some x)
          (append_assoc rows (cells_of iso str row ∷ []) (map (cells_of iso str) table))

  -- An exported table is read back as its header and, for each row, the ten cells: the texts as the
  -- guard against formulas leaves them, and the rest as spelled. Ids, sources and the spellings of
  -- instants and numbers hold no comma, quote, return or line feed.
  pub read_table-generate_csv :
      (table : List CsvEntryRow)
      → All IsPlainRow table
      → read_table (generate_csv iso str table) ≡ some (csv_columns ∷ map (cells_of iso str) table)
  unfolding generate_csv join read step
  read_table-generate_csv table h = read-rows table (csv_columns ∷ []) h
