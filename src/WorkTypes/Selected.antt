-- ===== src/WorkTypes/Selected.antt =====
-- The work types that a team has after its selection is replaced.
use timetrack.Prelude.{
  ℕ, ◌≡◌, refl, ap, ◌∙◌, Bool, ◌&&◌, ◌||◌, not, List, [], ◌∷◌, ◌++◌, map, filter, any, arith, ◌==◌,
  if◌then◌else◌, Bool-cases, inl, inr,
}
use timetrack.WorkTypes.Model.{WorkType, TeamWorkType, Catalog}
use timetrack.WorkTypes.Apply.{is_in, distinct}
use timetrack.WorkTypes.Edits.{
  insert_id, sort_ids, is_archived, selected_ids, next_selection, add_selections,
  replaced_selection,
}
use timetrack.WorkTypes.Reached.{is_in-append, is_in-distinct}

-- Has the team the work type?
abbrev pub is_selected : (team_id work_type_id : ℕ) → List TeamWorkType → Bool
is_selected t w rows = any (λ s. (s.team_id == t) && (s.work_type_id == w)) rows

is_in-insert :
    (x : ℕ) (ids : List ℕ) (i : ℕ) → is_in (insert_id x ids) i ≡ ((x == i) || is_in ids i)
unfolding insert_id
is_in-insert x [] i = refl
is_in-insert x (j ∷ ids) i = ground (arith, is_in-insert x ids i)

is_in-sort : (ids : List ℕ) (i : ℕ) → is_in (sort_ids ids) i ≡ is_in ids i
unfolding sort_ids
is_in-sort [] i = refl
is_in-sort (x ∷ ids) i =
    is_in-insert x (sort_ids ids) i ∙ ap (λ b. (x == i) || b) (is_in-sort ids i)

is_archived-eq :
    (types : List WorkType) (v w : ℕ) → v ≡ w → is_archived types v ≡ is_archived types w
is_archived-eq types v w h = ap (is_archived types) h

is_in-kept :
    (types : List WorkType) (t w : ℕ) (rows : List TeamWorkType)
    → is_in
        (filter (is_archived types) (map (λ s. s.work_type_id) (filter (λ s. s.team_id == t) rows)))
        w
      ≡ (is_archived types w && is_selected t w rows)
is_in-kept types t w [] = ground arith
is_in-kept types t w (s ∷ rows) =
    ground (arith, is_in-kept types t w rows, is_archived-eq types s.work_type_id w)

pub is_in-next :
    (cat : Catalog) (t : ℕ) (ids : List ℕ) (w : ℕ)
    → is_in (next_selection cat t ids) w
      ≡ (is_in ids w || (is_archived cat.work_types w && is_selected t w cat.team_work_types))
unfolding next_selection
is_in-next cat t ids w =
    let kept = filter (is_archived cat.work_types) (selected_ids cat t) in
    is_in-sort (distinct [] (ids ++ kept)) w
    ∙ is_in-distinct [] (ids ++ kept) w
    ∙ is_in-append ids kept w
    ∙ ap (λ b. is_in ids w || b) (is_in-kept cat.work_types t w cat.team_work_types)

is_selected-add :
    (t : ℕ) (ids : List ℕ) (rows : List TeamWorkType) (u w : ℕ)
    → is_selected u w (add_selections t ids rows)
      ≡ (is_selected u w rows || ((t == u) && is_in ids w))
unfolding add_selections
is_selected-add t [] rows u w = ground arith
is_selected-add t (x ∷ ids) rows u w = elim (Bool-cases (is_selected t x rows)) [
  | inl there ↦
      rw (there, is_selected-add t ids rows u w)
        (ground (
          arith,
          there,
          λ (a : t ≡ u) (b : x ≡ w).
              ap (λ i. is_selected i x rows) a ∙ ap (λ i. is_selected u i rows) b,
        ))
  | inr new ↦
      rw (new, is_selected-add t ids (record { team_id = t; work_type_id = x } ∷ rows) u w)
        (ground arith)
]

is_selected-filter :
    (t : ℕ) (next : List ℕ) (rows : List TeamWorkType) (u w : ℕ)
    → is_selected u w (filter (λ s. not ((s.team_id == t) && not (is_in next s.work_type_id))) rows)
      ≡ (is_selected u w rows && (not (u == t) || is_in next w))
is_selected-filter t next [] u w = refl
is_selected-filter t next (s ∷ rows) u w =
    ground
      (arith, is_selected-filter t next rows u w, λ (b : s.work_type_id ≡ w). ap (is_in next) b)

pub is_selected-replaced :
    (cat : Catalog) (t : ℕ) (ids : List ℕ) (u w : ℕ)
    → is_selected u w (replaced_selection cat t ids) ≡ (
        if u == t
        then is_in ids w || (is_archived cat.work_types w && is_selected t w cat.team_work_types)
        else is_selected u w cat.team_work_types)
unfolding replaced_selection
is_selected-replaced cat t ids u w =
    let next = next_selection cat t ids in
    let rows = cat.team_work_types in
    is_selected-add t ids
      (filter (λ s. not ((s.team_id == t) && not (is_in next s.work_type_id))) rows) u w
    ∙ ap (λ b. b || ((t == u) && is_in ids w)) (is_selected-filter t next rows u w)
    ∙ ground (arith, is_in-next cat t ids w, λ (a : u ≡ t). ap (λ i. is_selected i w rows) a)
