-- ===== src/WorkTypes/Synced.antt =====
-- A project whose rows are what its teams' selection asks for, and the plan for it.
use timetrack.Prelude.{
  ℕ, ◌≡◌, ◌≢◌, ◌⊎◌, refl, true, false, Bool, none, some, List, [], ◌∷◌, arith, ◌==◌, Any, All,
  All-map, inl, inr, any, filter,
}
use timetrack.WorkTypes.Model.{ExistingSubproject, DesiredWorkType, ReconcileProject, ReconcilePlan}
use timetrack.WorkTypes.Plan.{
  set_linked, plan_type, plan_types, plan_project, plan_reconcile, desired_of, keep_row, empty,
  then_plan,
}
use timetrack.WorkTypes.Rows.{In, IsKeyed, All-In, In-All}
use timetrack.WorkTypes.Linked.{OfProject, LinkedRow, linked-LinkedRow, get-linked, archive-empty}
use timetrack.WorkTypes.Planned.{View, rows-View}

abbrev pub is_wanted : List DesiredWorkType → ℕ → Bool
is_wanted wts w = any (λ wt. wt.id == w) wts

-- The live row of a work type in a project, under the type's name.
abbrev pub Keeps : (project_id : ℕ) → DesiredWorkType → ExistingSubproject → Type 0
Keeps p wt r =
    (r.project_id ≡ p) × (r.work_type_id ≡ some wt.id) × (r.name ≡ wt.name) × (r.archived ≡ false)

-- A row that is archived, made by hand or for a desired work type.
abbrev pub Settled : List DesiredWorkType → ExistingSubproject → Type 0
Settled wts r = elim r.work_type_id [
  | none ↦ Unit
  | some w ↦ (is_wanted wts w ≡ true) ⊎ (r.archived ≡ true)
]

abbrev pub SettledIn : (project_id : ℕ) → List DesiredWorkType → ExistingSubproject → Type 0
SettledIn p wts r = (r.project_id ≢ p) ⊎ Settled wts r

-- The promise of a reconcile for one project: each desired work type has its live row, under the
-- type's name, and every live row of a work type is of a desired one.
pub record IsSynced (p : ℕ) (wts : List DesiredWorkType) (table : List ExistingSubproject)
    : Type 0 where
  pub kept : All (λ wt. Any (Keeps p wt) table) wts
  pub rest : All (SettledIn p wts) table

pub Any-In : {A : Type 0} (P : A → Type 0) (xs : List A) → Any P xs → (a : A) × In a xs × P a
Any-In P [] h = elim h [ ]
Any-In P (x ∷ xs) (inl h) = (x, inl refl, h)
Any-In P (x ∷ xs) (inr h) = let (a, m, q) = Any-In P xs h in (a, inr m, q)

module _ (name_key : ℕ → ℕ) (p : ℕ) (rows table : List ExistingSubproject)
    (v : View p rows table) where
  keep-empty :
      (wt : DesiredWorkType) (r : ExistingSubproject) → Keeps p wt r → keep_row wt r ≡ empty
  unfolding keep_row
  keep-empty wt r k = ground (arith, k)

  type-empty :
      (wt : DesiredWorkType)
      → Any (Keeps p wt) table
      → plan_type name_key p rows (set_linked rows []) wt ≡ empty
  unfolding plan_type
  type-empty wt k =
      let (r, m, q) = Any-In (Keeps p wt) table k in
      let there =
        get-linked p wt.id r rows [] v.keyed (In-All (OfProject p) rows (λ x n. (v.inside x n).1))
          (v.full r m q.0) q.1 in
      rw (there, plan_type) (keep-empty wt r q)

  types-empty :
      (wts : List DesiredWorkType)
      → All (λ wt. Any (Keeps p wt) table) wts
      → plan_types name_key p rows (set_linked rows []) wts ≡ empty
  unfolding plan_types
  types-empty [] h = refl
  types-empty (wt ∷ wts) h = rw (type-empty wt h.0, types-empty wts h.1) refl

  entries-Settled :
      (wts : List DesiredWorkType)
      → All (SettledIn p wts) table
      → All (λ e. (is_wanted wts e.0 ≡ true) ⊎ (e.1.archived ≡ true)) (set_linked rows [])
  entries-Settled wts h =
      All-map (LinkedRow rows) (λ e. (is_wanted wts e.0 ≡ true) ⊎ (e.1.archived ≡ true))
        (set_linked rows [])
        (λ e m.
          let (n, own) = v.inside e.1 m.0 in
          let typed = m.1 in
          elim (All-In (SettledIn p wts) e.1 table h n) [
            | inl other ↦ absurd (other own)
            | inr q ↦ rw typed at q
          ])
        (linked-LinkedRow rows)

  pub project-empty :
      (wts : List DesiredWorkType) → IsSynced p wts table → plan_project name_key p wts rows ≡ empty
  unfolding plan_project
  project-empty wts s =
      rw
        (
          types-empty wts s.kept,
          archive-empty wts (set_linked rows []) (entries-Settled wts s.rest),
        )
        refl

then-empty : (p q : ReconcilePlan) → p ≡ empty → q ≡ empty → then_plan p q ≡ empty
then-empty p q a b = rw (a, b) refl

-- A second reconcile plans nothing: on a table with unique ids and at most one row of a work type
-- in each project, the plan for projects that are all in the state a reconcile promises is empty.
pub plan_reconcile-IsSynced :
    (name_key : ℕ → ℕ) (dbt : ℕ → List DesiredWorkType) (projects : List ReconcileProject)
    (table : List ExistingSubproject)
    → IsKeyed table
    → All (λ p. IsSynced p.id (desired_of dbt p) table) projects
    → plan_reconcile name_key projects dbt table ≡ empty
unfolding plan_reconcile
plan_reconcile-IsSynced name_key dbt [] table k h = refl
plan_reconcile-IsSynced name_key dbt (p ∷ projects) table k h =
    let rows = filter (λ s. s.project_id == p.id) table in
    then-empty (plan_project name_key p.id (desired_of dbt p) rows)
      (plan_reconcile name_key projects dbt table)
      (project-empty name_key p.id rows table
        (rows-View name_key (λ i. desired_of dbt p) table k p.id) (desired_of dbt p) h.0)
      (plan_reconcile-IsSynced name_key dbt projects table k h.1)
