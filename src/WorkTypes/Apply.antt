-- ===== src/WorkTypes/Apply.antt =====
-- work-types.repository.ts: reconcile. `none` is the conflict of an update that would give a project
-- a second row of one work type. An update whose row is gone is `none` as well, where the source
-- lets another error through: both roll the transaction back. The ids of new rows are a parameter.
use timetrack.Prelude.{
  ℕ, ◌+◌, Bool, true, false, ◌&&◌, ◌||◌, not, Option, none, some, List, [], ◌∷◌, ◌++◌, map, filter,
  any, ◌==◌, if◌then◌else◌, or_else, put, get, length,
}
use timetrack.WorkTypes.Model.{
  DesiredWorkType, ExistingSubproject, Create, Link, Rename, ReconcilePlan, Project, ProjectTeam,
  WorkType, TeamWorkType, ReconcileCounts, reconciled, Catalog,
}
use timetrack.WorkTypes.Plan.{plan_reconcile}

abbrev pub has_type : (work_type_id : ℕ) → ExistingSubproject → Bool
has_type w r = elim r.work_type_id [ none ↦ false | some v ↦ v == w ]

-- The row that the index subprojects_one_per_work_type holds for a project and a work type.
abbrev pub carries : (project_id work_type_id : ℕ) → ExistingSubproject → Bool
carries p w r = (r.project_id == p) && has_type w r

abbrev pub created_row : (id : ℕ) → Create → ExistingSubproject
created_row id c = record {
  id = id;
  project_id = c.project_id;
  name = c.name;
  archived = false;
  is_default = false;
  work_type_id = some c.work_type_id;
}

unfoldable pub find_sub : (id : ℕ) → List ExistingSubproject → Option ExistingSubproject
find_sub id [] = none
find_sub id (r ∷ rows) = if r.id == id then some r else find_sub id rows

abbrev pub linked_row : Link → ExistingSubproject → ExistingSubproject
linked_row l r =
    if r.id == l.id
    then record r { work_type_id = some l.work_type_id; name = l.name; archived = false }
    else r

unfoldable pub apply_link : Link → List ExistingSubproject → Option (List ExistingSubproject)
unfolding find_sub
apply_link l rows = elim (find_sub l.id rows) [
  | none ↦ none
  | some t ↦
      if any (λ r. not (r.id == l.id) && carries t.project_id l.work_type_id r) rows
      then none
      else some (map (linked_row l) rows)
]

unfoldable pub apply_links : List Link → List ExistingSubproject → Option (List ExistingSubproject)
apply_links [] rows = some rows
apply_links (l ∷ links) rows = elim (apply_link l rows) [
  | none ↦ none
  | some rows' ↦ apply_links links rows'
]

-- where: { id: { in: ids } }
abbrev pub is_in : List ℕ → ℕ → Bool
is_in ids id = any (λ i. i == id) ids

abbrev pub set_archived : Bool → List ℕ → ExistingSubproject → ExistingSubproject
set_archived b ids r = if is_in ids r.id then record r { archived = b } else r

-- groupRenames
unfoldable pub group_renames : List Rename → List (ℕ × List ℕ) → List (ℕ × List ℕ)
group_renames [] groups = groups
group_renames (r ∷ renames) groups =
    group_renames renames (put r.name (or_else (get r.name groups) [] ++ (r.id ∷ [])) groups)

abbrev pub named : (name : ℕ) → List ℕ → ExistingSubproject → ExistingSubproject
named name ids r = if is_in ids r.id then record r { name = name } else r

unfoldable pub apply_renames : List (ℕ × List ℕ) → List ExistingSubproject → List ExistingSubproject
apply_renames [] rows = rows
apply_renames ((name, ids) ∷ groups) rows = apply_renames groups (map (named name ids) rows)

module _ (mint : (project_id work_type_id : ℕ) → ℕ) where
  abbrev pub new_row : Create → ExistingSubproject
  new_row c = created_row (mint c.project_id c.work_type_id) c

  -- Would the insert violate a unique index?
  abbrev pub is_duplicate : Create → List ExistingSubproject → Bool
  is_duplicate c rows =
      any (λ r. (r.id == (new_row c).id) || carries c.project_id c.work_type_id r) rows

  -- createMany with skipDuplicates: the rows, and the count
  unfoldable pub create_rows : List Create → List ExistingSubproject → List ExistingSubproject × ℕ
  create_rows [] rows = (rows, 0)
  create_rows (c ∷ creates) rows =
      let (rows', n) =
        create_rows creates (if is_duplicate c rows then rows else new_row c ∷ rows) in
      (rows', (if is_duplicate c rows then 0 else 1) + n)

  -- The writes of a plan: the rows, and the count of those created.
  unfoldable pub apply_plan :
      ReconcilePlan → List ExistingSubproject → Option (List ExistingSubproject × ℕ)
  unfolding create_rows apply_links apply_renames group_renames
  apply_plan plan rows =
      let (rows', n) = create_rows plan.create rows in
      elim (apply_links plan.link rows') [
        | none ↦ none
        | some linked ↦ some (
          map (set_archived true plan.archive) (
              apply_renames (group_renames plan.rename [])
                (map (set_archived false plan.restore) linked)),
          n,
        )
      ]

-- [...new Set(ids)]
unfoldable pub distinct : List ℕ → List ℕ → List ℕ
distinct seen [] = []
distinct seen (i ∷ ids) = elim (is_in seen i) [
  | true ↦ distinct seen ids
  | false ↦ i ∷ distinct (i ∷ seen) ids
]

abbrev pub teams_of : List ProjectTeam → Project → List ℕ
teams_of links p =
    distinct [] (p.team_id ∷ map (λ l. l.team_id) (filter (λ l. l.project_id == p.id) links))

unfoldable pub selected_types : List WorkType → (id : ℕ) → List DesiredWorkType
selected_types [] id = []
selected_types (w ∷ types) id =
    if (w.id == id) && not w.archived
    then record { id = w.id; name = w.name } ∷ selected_types types id
    else selected_types types id

-- desiredByTeam.get(teamId): the selected work types that are not archived
unfoldable pub desired_by_team :
    List WorkType → List TeamWorkType → (team_id : ℕ) → List DesiredWorkType
unfolding selected_types
desired_by_team types [] t = []
desired_by_team types (s ∷ selections) t =
    if s.team_id == t
    then selected_types types s.work_type_id ++ desired_by_team types selections t
    else desired_by_team types selections t

module _ (name_key : ℕ → ℕ) (mint : (project_id work_type_id : ℕ) → ℕ) where
  unfoldable pub plan_of : (project_ids : List ℕ) → Catalog → ReconcilePlan
  plan_of project_ids cat =
      plan_reconcile name_key
        (map (λ p. record { id = p.id; team_ids = teams_of cat.project_teams p })
          (filter (λ p. is_in project_ids p.id) cat.projects))
        (desired_by_team cat.work_types cat.team_work_types)
        (filter (λ s. is_in project_ids s.project_id) cat.subprojects)

  -- The counts of the answer and of the audit row.
  abbrev pub counts_of : (project_ids : List ℕ) → Catalog → (created : ℕ) → ReconcileCounts
  counts_of project_ids cat created = record {
    projects = length (filter (λ p. is_in project_ids p.id) cat.projects);
    created = created;
    linked = length (plan_of project_ids cat).link;
    restored = length (plan_of project_ids cat).restore;
    renamed = length (plan_of project_ids cat).rename;
    archived = length (plan_of project_ids cat).archive;
  }

  unfoldable pub reconcile : (project_ids : List ℕ) → Catalog → Option (ReconcileCounts × Catalog)
  reconcile project_ids cat = elim (apply_plan mint (plan_of project_ids cat) cat.subprojects) [
    | none ↦ none
    | some (rows, created) ↦ some (
      counts_of project_ids cat created,
      record cat {
        subprojects = rows;
        audit = reconciled (counts_of project_ids cat created) ∷ cat.audit;
      },
    )
  ]
