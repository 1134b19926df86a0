-- ===== src/WorkTypes/Edits.antt =====
-- work-types.repository.ts: the edits of the catalog and of a team's selection, each one
-- transaction that reconciles. A conflict of the reconcile rolls the whole edit back.
use timetrack.Prelude.{
  ℕ, Bool, ◌&&◌, not, Option, none, some, List, [], ◌∷◌, ◌++◌, map, filter, any, leb, ◌==◌,
  if◌then◌else◌, or_else,
}
use timetrack.Errors.{Result, ok, err, throw_if, ◌>>=◌, ◌>>◌, concurrent_change, name_in_use}
use timetrack.WorkTypes.Model.{
  WorkType, TeamWorkType, ReconcileCounts, Catalog, work_types_set, updated,
}
use timetrack.WorkTypes.Apply.{is_in, distinct, reconcile}

-- linkedProjectIds
unfoldable pub linked_project_ids : Catalog → (team_ids : List ℕ) → List ℕ
unfolding distinct
linked_project_ids cat team_ids = distinct [] (
    map (λ l. l.project_id) (filter (λ l. is_in team_ids l.team_id) cat.project_teams)
    ++ map (λ p. p.id) (filter (λ p. is_in team_ids p.team_id) cat.projects))

-- sort()
unfoldable pub insert_id : ℕ → List ℕ → List ℕ
insert_id i [] = i ∷ []
insert_id i (j ∷ ids) = if leb i j then i ∷ j ∷ ids else j ∷ insert_id i ids

unfoldable pub sort_ids : List ℕ → List ℕ
unfolding insert_id
sort_ids [] = []
sort_ids (i ∷ ids) = insert_id i (sort_ids ids)

abbrev pub is_archived : List WorkType → (id : ℕ) → Bool
is_archived types id = any (λ w. (w.id == id) && w.archived) types

abbrev pub selected_ids : Catalog → (team_id : ℕ) → List ℕ
selected_ids cat t = map (λ s. s.work_type_id) (filter (λ s. s.team_id == t) cat.team_work_types)

-- next: the new selection and what is kept of the old one
unfoldable pub next_selection : Catalog → (team_id : ℕ) → (work_type_ids : List ℕ) → List ℕ
unfolding sort_ids distinct
next_selection cat t ids =
    sort_ids (distinct [] (ids ++ filter (is_archived cat.work_types) (selected_ids cat t)))

-- createMany with skipDuplicates, by the primary key
unfoldable pub add_selections :
    (team_id : ℕ) → (work_type_ids : List ℕ) → List TeamWorkType → List TeamWorkType
add_selections t [] rows = rows
add_selections t (w ∷ ids) rows = add_selections t ids (
    if any (λ s. (s.team_id == t) && (s.work_type_id == w)) rows
    then rows
    else record { team_id = t; work_type_id = w } ∷ rows)

-- The deletion and the insertion of setTeamSelection.
unfoldable pub replaced_selection :
    Catalog → (team_id : ℕ) → (work_type_ids : List ℕ) → List TeamWorkType
unfolding add_selections next_selection
replaced_selection cat t ids = add_selections t ids (
    filter (λ s. not ((s.team_id == t) && not (is_in (next_selection cat t ids) s.work_type_id)))
      cat.team_work_types)

abbrev pub with_selection : Catalog → (team_id : ℕ) → (work_type_ids : List ℕ) → Catalog
with_selection cat t ids = record cat {
  team_work_types = replaced_selection cat t ids;
  audit = work_types_set t (sort_ids (selected_ids cat t)) (next_selection cat t ids) ∷ cat.audit;
}

unfoldable pub find_type : (id : ℕ) → List WorkType → Option WorkType
find_type id [] = none
find_type id (w ∷ types) = if w.id == id then some w else find_type id types

abbrev pub changed : (name : Option ℕ) → (archived : Option Bool) → WorkType → WorkType
changed name archived w = record w {
  name = or_else name w.name;
  archived = or_else archived w.archived;
}

-- Would the update violate work_types_name_ci_unique?
abbrev pub clashes : (name_key : ℕ → ℕ) → WorkType → List WorkType → Bool
clashes name_key w types =
    any (λ x. not (x.id == w.id) && (name_key x.name == name_key w.name)) types

abbrev pub with_type : (after before : WorkType) → Catalog → Catalog
with_type w before cat = record cat {
  work_types = map (λ x. if x.id == w.id then w else x) cat.work_types;
  audit = updated before w ∷ cat.audit;
}

abbrev pub teams_with : (work_type_id : ℕ) → Catalog → List ℕ
teams_with id cat = map (λ s. s.team_id) (filter (λ s. s.work_type_id == id) cat.team_work_types)

module _ (name_key : ℕ → ℕ) (mint : (project_id work_type_id : ℕ) → ℕ) where
  abbrev pub reconcile_or_conflict :
      (project_ids : List ℕ) → Catalog → Result (ReconcileCounts × Catalog)
  reconcile_or_conflict project_ids cat = elim (reconcile name_key mint project_ids cat) [
    | none ↦ err concurrent_change
    | some r ↦ ok r
  ]

  unfoldable pub set_team_selection :
      (team_id : ℕ) → (work_type_ids : List ℕ) → Catalog → Result (List ℕ × Catalog)
  set_team_selection t ids cat = do
    (counts, after) ←
        reconcile_or_conflict (linked_project_ids cat (t ∷ [])) (with_selection cat t ids)
    ok (next_selection cat t ids, after)

  unfoldable pub resync : Catalog → Result (ReconcileCounts × Catalog)
  resync cat = reconcile_or_conflict (map (λ p. p.id) cat.projects) cat

  -- The answer is the work type, or null when it is gone.
  unfoldable pub update :
      (id : ℕ)
      → (name : Option ℕ) → (archived : Option Bool) → Catalog
      → Result (Option WorkType × Catalog)
  unfolding find_type
  update id name archived cat = elim (find_type id cat.work_types) [
    | none ↦ ok (none, cat)
    | some before ↦ do
      throw_if (clashes name_key (changed name archived before) cat.work_types) name_in_use
      let edited = with_type (changed name archived before) before cat
      (counts, after) ←
          reconcile_or_conflict (linked_project_ids edited (teams_with id edited)) edited
      ok (some (changed name archived before), after)
  ]
