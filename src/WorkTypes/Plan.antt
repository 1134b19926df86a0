-- ===== src/WorkTypes/Plan.antt =====
-- work-types.reconcile.ts: planReconcile. The key of a name, its lower-case form, is a parameter.
use timetrack.Prelude.{
  ℕ, Bool, ◌&&◌, not, Option, none, some, List, [], ◌∷◌, ◌++◌, map, filter, any, leb, ◌==◌,
  if◌then◌else◌, is_some, or_option, put, get,
}
use timetrack.WorkTypes.Model.{DesiredWorkType, ReconcileProject, ExistingSubproject, ReconcilePlan}

abbrev pub empty : ReconcilePlan
empty = record { create = []; link = []; restore = []; rename = []; archive = [] }

-- The pushes of two stretches of the loop, one after the other.
abbrev pub then_plan : ReconcilePlan → ReconcilePlan → ReconcilePlan
then_plan p q = record {
  create = p.create ++ q.create;
  link = p.link ++ q.link;
  restore = p.restore ++ q.restore;
  rename = p.rename ++ q.rename;
  archive = p.archive ++ q.archive;
}

-- for (const wt of …) union.set(wt.id, wt)
unfoldable pub set_types :
    List DesiredWorkType → List (ℕ × DesiredWorkType) → List (ℕ × DesiredWorkType)
set_types [] m = m
set_types (wt ∷ wts) m = set_types wts (put wt.id wt m)

unfoldable pub union_of :
    (desired_by_team : ℕ → List DesiredWorkType)
    → List ℕ
    → List (ℕ × DesiredWorkType)
    → List (ℕ × DesiredWorkType)
unfolding set_types
union_of desired_by_team [] m = m
union_of desired_by_team (t ∷ teams) m =
    union_of desired_by_team teams (set_types (desired_by_team t) m)

-- [...union.values()]
unfoldable pub desired_of :
    (desired_by_team : ℕ → List DesiredWorkType) → ReconcileProject → List DesiredWorkType
unfolding union_of
desired_of desired_by_team p = map (λ e. e.1) (union_of desired_by_team p.team_ids [])

unfoldable pub set_linked :
    List ExistingSubproject → List (ℕ × ExistingSubproject) → List (ℕ × ExistingSubproject)
set_linked [] m = m
set_linked (row ∷ rows) m =
    set_linked rows (elim row.work_type_id [ none ↦ m | some w ↦ put w row m ])

-- sort by id
unfoldable pub insert_by_id : ExistingSubproject → List ExistingSubproject → List ExistingSubproject
insert_by_id r [] = r ∷ []
insert_by_id r (x ∷ rows) = if leb r.id x.id then r ∷ x ∷ rows else x ∷ insert_by_id r rows

unfoldable pub sort_by_id : List ExistingSubproject → List ExistingSubproject
unfolding insert_by_id
sort_by_id [] = []
sort_by_id (r ∷ rows) = insert_by_id r (sort_by_id rows)

-- candidates.find((r) => !r.archived)
unfoldable pub first_live : List ExistingSubproject → Option ExistingSubproject
first_live [] = none
first_live (r ∷ rows) = if r.archived then first_live rows else some r

unfoldable pub head : List ExistingSubproject → Option ExistingSubproject
head [] = none
head (r ∷ rows) = some r

-- Rule 1: the row of the type, restored and renamed where that is due.
unfoldable pub keep_row : DesiredWorkType → ExistingSubproject → ReconcilePlan
keep_row wt row = record empty {
  restore = if row.archived then row.id ∷ [] else [];
  rename = if row.name == wt.name then [] else record { id = row.id; name = wt.name } ∷ [];
}

-- Rule 4.
unfoldable pub plan_archive : List DesiredWorkType → List (ℕ × ExistingSubproject) → List ℕ
plan_archive desired [] = []
plan_archive desired ((w, row) ∷ linked) =
    if not (any (λ wt. wt.id == w) desired) && not row.archived
    then row.id ∷ plan_archive desired linked
    else plan_archive desired linked

module _ (name_key : ℕ → ℕ) where
  abbrev pub is_candidate : (name : ℕ) → ExistingSubproject → Bool
  is_candidate name r =
      not (is_some r.work_type_id) && (not r.is_default && (name_key r.name == name_key name))

  unfoldable pub find_adoptee : List ExistingSubproject → (name : ℕ) → Option ExistingSubproject
  unfolding sort_by_id first_live head
  find_adoptee rows name =
      let candidates = sort_by_id (filter (is_candidate name) rows) in
      or_option (first_live candidates) (head candidates)

  -- Rules 1 to 3, for one desired work type.
  unfoldable pub plan_type :
      (project_id : ℕ)
      → List ExistingSubproject
      → List (ℕ × ExistingSubproject)
      → DesiredWorkType
      → ReconcilePlan
  unfolding keep_row
  plan_type project_id rows linked wt = elim (get wt.id linked) [
    | some row ↦ keep_row wt row
    | none ↦ elim (find_adoptee rows wt.name) [
      | some a ↦ record empty {
        link = record { id = a.id; work_type_id = wt.id; name = wt.name } ∷ [];
      }
      | none ↦ record empty {
        create = record { project_id = project_id; work_type_id = wt.id; name = wt.name } ∷ [];
      }
    ]
  ]

  unfoldable pub plan_types :
      (project_id : ℕ)
      → List ExistingSubproject
      → List (ℕ × ExistingSubproject)
      → List DesiredWorkType
      → ReconcilePlan
  unfolding plan_type
  plan_types project_id rows linked [] = empty
  plan_types project_id rows linked (wt ∷ wts) =
      then_plan (plan_type project_id rows linked wt) (plan_types project_id rows linked wts)

  unfoldable pub plan_project :
      (project_id : ℕ) → List DesiredWorkType → List ExistingSubproject → ReconcilePlan
  unfolding plan_types plan_archive set_linked
  plan_project project_id desired rows =
      then_plan (plan_types project_id rows (set_linked rows []) desired)
        (record empty { archive = plan_archive desired (set_linked rows []) })

  unfoldable pub plan_reconcile :
      List ReconcileProject
      → (desired_by_team : ℕ → List DesiredWorkType) → List ExistingSubproject
      → ReconcilePlan
  unfolding plan_project desired_of
  plan_reconcile [] desired_by_team subprojects = empty
  plan_reconcile (p ∷ projects) desired_by_team subprojects =
      then_plan
        (plan_project p.id (desired_of desired_by_team p)
          (filter (λ s. s.project_id == p.id) subprojects))
        (plan_reconcile projects desired_by_team subprojects)
