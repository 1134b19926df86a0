-- ===== src/Reports/Reader.antt =====
-- A reader of RFC 4180 tables, character by character.
use timetrack.Prelude.{ℕ, ◌==◌, ◌||◌, Option, none, some, List, [], ◌∷◌, ◌++◌, if◌then◌else◌}
use timetrack.Reports.Csv.{Text}

-- At the start of a field, in a bare field, in a quoted one, after a quote in it, after a return.
pub data Mode : Type 0 where
  fresh : Mode
  bare : Mode
  quoted : Mode
  closing : Mode
  return : Mode

pub record Reader : Type 0 where
  pub mode : Mode
  pub field : Text
  pub row : List Text
  pub rows : List (List Text)

abbrev pub take_char : ℕ → Mode → Reader → Reader
take_char c m r = record r { mode = m; field = r.field ++ (c ∷ []) }

abbrev pub end_field : Reader → Reader
end_field r = record r { mode = fresh; field = []; row = r.row ++ (r.field ∷ []) }

abbrev pub end_row : Reader → Reader
end_row r = record {
  mode = fresh;
  field = [];
  row = [];
  rows = r.rows ++ ((r.row ++ (r.field ∷ [])) ∷ []);
}

abbrev pub in_bare : ℕ → Reader → Option Reader
in_bare c r =
    if c == 44
    then some (end_field r)
    else if c == 13
    then some (record r { mode = return })
    else if (c == 34) || (c == 10)
    then none
    else some (take_char c bare r)

unfoldable pub step : ℕ → Reader → Option Reader
step c r = elim r.mode [
  | fresh ↦ if c == 34 then some (record r { mode = quoted }) else in_bare c r
  | bare ↦ in_bare c r
  | quoted ↦ if c == 34 then some (record r { mode = closing }) else some (take_char c quoted r)
  | closing ↦
      if c == 34
      then some (take_char 34 quoted r)
      else if c == 44
      then some (end_field r)
      else if c == 13
      then some (record r { mode = return })
      else none
  | return ↦ if c == 10 then some (end_row r) else none
]

unfoldable pub read : Text → Reader → Option (List (List Text))
unfolding step
read [] r = elim r.mode [
  | fresh ↦ some r.rows
  | bare ↦ none
  | quoted ↦ none
  | closing ↦ none
  | return ↦ none
]
read (c ∷ text) r = elim (step c r) [ none ↦ none | some s ↦ read text s ]

abbrev pub at_start : Reader
at_start = record { mode = fresh; field = []; row = []; rows = [] }

abbrev pub read_table : Text → Option (List (List Text))
read_table text = read text at_start
