-- ===== src/WorkTypes/Planned.antt =====
-- What stands behind each entry of a plan.
use timetrack.Prelude.{
  ℕ, ◌≡◌, ◌⊎◌, refl, sym, true, false, Bool, none, some, List, [], ◌∷◌, arith, ◌==◌, ==→eq,
  if◌then◌else◌, All, All-append, All-map, inl, inr, subst, get, get-All, Option-cases, Bool-cases,
  any, filter,
}
use timetrack.WorkTypes.Model.{
  ReconcileProject, ExistingSubproject, DesiredWorkType, Create, Link, Rename, ReconcilePlan,
}
use timetrack.WorkTypes.Apply.{has_type, carries}
use timetrack.WorkTypes.Plan.{
  plan_reconcile, desired_of, set_linked, plan_archive, plan_type, plan_types, plan_project,
  keep_row, find_adoptee, is_candidate, sort_by_id, insert_by_id, first_live, head, empty,
  then_plan,
}
use timetrack.WorkTypes.Rows.{filter-Keyed, In, IsKeyed, In-All, In-filter, filter-In}
use timetrack.WorkTypes.Linked.{OfProject, LinkedRow, linked-LinkedRow, get-linked, archive-In}

In-insert :
    (a r : ExistingSubproject) (rows : List ExistingSubproject)
    → In a (insert_by_id r rows)
    → (r ≡ a) ⊎ In a rows
unfolding insert_by_id
In-insert a r [] m = m
In-insert a r (x ∷ rows) m = ground (arith, In-insert a r rows)

In-sort :
    (a : ExistingSubproject) (rows : List ExistingSubproject) → In a (sort_by_id rows) → In a rows
unfolding sort_by_id
In-sort a [] m = m
In-sort a (r ∷ rows) m = ground (arith, In-insert a r (sort_by_id rows) m, In-sort a rows)

first_live-In :
    (rows : List ExistingSubproject) {a : ExistingSubproject} → first_live rows ≡ some a → In a rows
unfolding first_live
first_live-In [] h = cc
first_live-In (r ∷ rows) {a = a} h = ground (arith, first_live-In rows {a = a})

head-In : (rows : List ExistingSubproject) {a : ExistingSubproject} → head rows ≡ some a → In a rows
unfolding head
head-In [] h = cc
head-In (r ∷ rows) {a = a} h = ground arith

-- The table and the rows of a project in it.
pub record View (p : ℕ) (rows table : List ExistingSubproject) : Type 0 where
  pub inside : (r : ExistingSubproject) → In r rows → In r table × (r.project_id ≡ p)
  pub full : (r : ExistingSubproject) → In r table → r.project_id ≡ p → In r rows
  pub keyed : IsKeyed rows

has_type-eq : (w : ℕ) (r : ExistingSubproject) → has_type w r ≡ true → r.work_type_id ≡ some w
has_type-eq w r h = ground arith

abbrev pub rows_of : List ExistingSubproject → (project_id : ℕ) → List ExistingSubproject
rows_of table p = filter (λ s. s.project_id == p) table

-- No row of the project is for the work type.
abbrev pub NoRow : List ExistingSubproject → (p w : ℕ) → Type 0
NoRow table p w = (r : ExistingSubproject) → In r table → carries p w r ≡ false

All-if :
    {A : Type 0} (P : A → Type 0) (b : Bool) (a : A)
    → (b ≡ true → P a)
    → All P (if b then a ∷ [] else [])
All-if P true a h = (h refl, tt)
All-if P false a h = tt

All-unless :
    {A : Type 0} (P : A → Type 0) (b : Bool) (a : A)
    → (b ≡ false → P a)
    → All P (if b then [] else a ∷ [])
All-unless P true a h = tt
All-unless P false a h = (h refl, tt)

module _ (name_key : ℕ → ℕ) where
  pub find_adoptee-In :
      (rows : List ExistingSubproject) (name : ℕ) {a : ExistingSubproject}
      → find_adoptee name_key rows name ≡ some a
      → In a rows × (is_candidate name_key name a ≡ true)
  unfolding find_adoptee
  find_adoptee-In rows name {a = a} h =
      let sorted = sort_by_id (filter (is_candidate name_key name) rows) in
      let m : In a sorted = ground (arith, first_live-In sorted {a = a}, head-In sorted {a = a}) in
      In-filter (is_candidate name_key name) a rows
        (In-sort a (filter (is_candidate name_key name) rows) m)

  module _ (want : ℕ → List DesiredWorkType) (table : List ExistingSubproject) where
    abbrev pub LinkOf : Link → Type 0
    LinkOf l =
        (a : ExistingSubproject) × (wt : DesiredWorkType) × In a table
        × In wt (want a.project_id)
        × (is_candidate name_key wt.name a ≡ true)
        × (l ≡ record { id = a.id; work_type_id = wt.id; name = wt.name })
        × NoRow table a.project_id wt.id
        × (find_adoptee name_key (rows_of table a.project_id) wt.name ≡ some a)

    abbrev pub CreateOf : Create → Type 0
    CreateOf c =
        (wt : DesiredWorkType) × In wt (want c.project_id)
        × (c ≡ record { project_id = c.project_id; work_type_id = wt.id; name = wt.name })
        × NoRow table c.project_id wt.id
        × (find_adoptee name_key (rows_of table c.project_id) wt.name ≡ none)

    abbrev pub RestoreOf : ℕ → Type 0
    RestoreOf i =
        (r : ExistingSubproject) × (wt : DesiredWorkType) × In r table
        × In wt (want r.project_id)
        × (r.id ≡ i)
        × (r.work_type_id ≡ some wt.id)
        × (r.archived ≡ true)

    abbrev pub RenameOf : Rename → Type 0
    RenameOf x =
        (r : ExistingSubproject) × (wt : DesiredWorkType) × In r table
        × In wt (want r.project_id)
        × (x ≡ record { id = r.id; name = wt.name })
        × (r.work_type_id ≡ some wt.id)
        × ((r.name == wt.name) ≡ false)

    abbrev pub ArchiveOf : ℕ → Type 0
    ArchiveOf i =
        (r : ExistingSubproject) × (w : ℕ) × In r table
        × (r.id ≡ i)
        × (r.work_type_id ≡ some w)
        × (any (λ wt. wt.id == w) (want r.project_id) ≡ false)
        × (r.archived ≡ false)

    -- Every entry of the plan has its reason.
    pub record Planned (plan : ReconcilePlan) : Type 0 where
      pub create : All CreateOf plan.create
      pub link : All LinkOf plan.link
      pub restore : All RestoreOf plan.restore
      pub rename : All RenameOf plan.rename
      pub archive : All ArchiveOf plan.archive

    empty-Planned : Planned empty
    empty-Planned = record { create = tt; link = tt; restore = tt; rename = tt; archive = tt }

    pub then-Planned : (p q : ReconcilePlan) → Planned p → Planned q → Planned (then_plan p q)
    then-Planned p q a b = record {
      create = All-append CreateOf p.create q.create a.create b.create;
      link = All-append LinkOf p.link q.link a.link b.link;
      restore = All-append RestoreOf p.restore q.restore a.restore b.restore;
      rename = All-append RenameOf p.rename q.rename a.rename b.rename;
      archive = All-append ArchiveOf p.archive q.archive a.archive b.archive;
    }

    keep_row-Planned :
        (wt : DesiredWorkType) (r : ExistingSubproject)
        → In r table
        → In wt (want r.project_id)
        → r.work_type_id ≡ some wt.id
        → Planned (keep_row wt r)
    unfolding keep_row
    keep_row-Planned wt r m n q = record {
      create = tt;
      link = tt;
      restore = All-if RestoreOf r.archived r.id (λ b. (r, wt, m, n, refl, q, b));
      rename =
          All-unless RenameOf (r.name == wt.name) (record { id = r.id; name = wt.name })
            (λ b. (r, wt, m, n, refl, q, b));
      archive = tt;
    }

    no_row :
        (p : ℕ) (rows : List ExistingSubproject) (w : ℕ)
        → View p rows table
        → get w (set_linked rows []) ≡ none
        → NoRow table p w
    no_row p rows w v free = λ r m. elim (Bool-cases (carries p w r)) [
      | inr other ↦ other
      | inl same ↦
          let own : r.project_id ≡ p = ground (arith, same) in
          let typed : r.work_type_id ≡ some w = has_type-eq w r (ground (arith, same)) in
          let there =
            get-linked p w r rows [] v.keyed (In-All (OfProject p) rows (λ x n. (v.inside x n).1))
              (v.full r m own) typed in
          cc (there, free)
    ]

    plan_type-Planned :
        (p : ℕ) (rows : List ExistingSubproject) (wt : DesiredWorkType)
        → View p rows table
        → rows ≡ rows_of table p
        → In wt (want p)
        → Planned (plan_type name_key p rows (set_linked rows []) wt)
    unfolding plan_type
    plan_type-Planned p rows wt v all n = elim (Option-cases (get wt.id (set_linked rows []))) [
      | inr (r, linked) ↦
          let (m, q) =
            get-All (LinkedRow rows) wt.id (set_linked rows []) {v = r} (linked-LinkedRow rows)
              linked in
          let (m', own) = v.inside r m in
          rw (linked, plan_type)
            (keep_row-Planned wt r m' (subst (λ i. In wt (want i)) (sym own) n) q)
      | inl free ↦
          let bare = no_row p rows wt.id v free in
          elim (Option-cases (find_adoptee name_key rows wt.name)) [
            | inr (a, adopted) ↦
                let (m, c) = find_adoptee-In rows wt.name {a = a} adopted in
                let (m', own) = v.inside a m in
                rw (free, adopted, plan_type)
                  (record {
                    create = tt;
                    link = (
                      (
                        a,
                        wt,
                        m',
                        subst (λ i. In wt (want i)) (sym own) n,
                        c,
                        refl,
                        subst (λ i. NoRow table i wt.id) (sym own) bare,
                        subst (λ i. find_adoptee name_key (rows_of table i) wt.name ≡ some a)
                            (sym own)
                            (subst (λ y. find_adoptee name_key y wt.name ≡ some a) all adopted),
                      ),
                      tt,
                    );
                    restore = tt;
                    rename = tt;
                    archive = tt;
                  })
            | inl alone ↦
                rw (free, alone, plan_type)
                  (record {
                    create = (
                      (
                        wt,
                        n,
                        refl,
                        bare,
                        subst (λ y. find_adoptee name_key y wt.name ≡ none) all alone,
                      ),
                      tt,
                    );
                    link = tt;
                    restore = tt;
                    rename = tt;
                    archive = tt;
                  })
          ]
    ]

    plan_types-Planned :
        (p : ℕ) (rows : List ExistingSubproject) (wts : List DesiredWorkType)
        → View p rows table
        → rows ≡ rows_of table p
        → ((wt : DesiredWorkType) → In wt wts → In wt (want p))
        → Planned (plan_types name_key p rows (set_linked rows []) wts)
    unfolding plan_types
    plan_types-Planned p rows [] v all n = empty-Planned
    plan_types-Planned p rows (wt ∷ wts) v all n =
        then-Planned (plan_type name_key p rows (set_linked rows []) wt)
          (plan_types name_key p rows (set_linked rows []) wts)
          (plan_type-Planned p rows wt v all (n wt (inl refl)))
          (plan_types-Planned p rows wts v all (λ x m. n x (inr m)))

    pub plan_project-Planned :
        (p : ℕ) (rows : List ExistingSubproject)
        → View p rows table
        → rows ≡ rows_of table p
        → Planned (plan_project name_key p (want p) rows)
    unfolding plan_project
    plan_project-Planned p rows v all =
        let old = plan_archive (want p) (set_linked rows []) in
        then-Planned (plan_types name_key p rows (set_linked rows []) (want p))
          (record empty { archive = old }) (plan_types-Planned p rows (want p) v all (λ wt m. m))
          (record {
            create = tt;
            link = tt;
            restore = tt;
            rename = tt;
            archive = archive-In (want p) ArchiveOf (set_linked rows []) (
                All-map (LinkedRow rows)
                  (λ e.
                    any (λ wt. wt.id == e.0) (want p) ≡ false
                    → e.1.archived ≡ false
                    → ArchiveOf e.1.id)
                  (set_linked rows [])
                  (λ e h undesired live. (
                    e.1,
                    e.0,
                    (v.inside e.1 h.0).0,
                    refl,
                    h.1,
                    subst (λ i. any (λ wt. wt.id == e.0) (want i) ≡ false)
                        (sym (v.inside e.1 h.0).1) undesired,
                    live,
                  ))
                  (linked-LinkedRow rows));
          })

    pub rows-View : IsKeyed table → (p : ℕ) → View p (filter (λ s. s.project_id == p) table) table
    rows-View k p = record {
      inside = λ r m.
          let n = In-filter (λ s. s.project_id == p) r table m in (n.0, ==→eq r.project_id p n.1);
      full = λ r m q. filter-In (λ s. s.project_id == p) r table m (ground (arith, q));
      keyed = filter-Keyed (λ s. s.project_id == p) table k;
    }

    -- On a table with unique ids and at most one row of a work type in each project, the plan of all
    -- projects creates and links rows only for wanted types of which the project has no row; it
    -- links the row that findAdoptee gives, of the type's name, with no type and not the default,
    -- and creates only where there is none; it restores only archived rows and renames only rows of
    -- another name, both of wanted types, and archives only live rows of unwanted types.
    pub plan_reconcile-Planned :
        (dbt : ℕ → List DesiredWorkType) (projects : List ReconcileProject)
        → IsKeyed table
        → All (λ p. want p.id ≡ desired_of dbt p) projects
        → Planned (plan_reconcile name_key projects dbt table)
    unfolding plan_reconcile
    plan_reconcile-Planned dbt [] k h = empty-Planned
    plan_reconcile-Planned dbt (p ∷ projects) k h =
        let rows = filter (λ s. s.project_id == p.id) table in
        then-Planned (plan_project name_key p.id (desired_of dbt p) rows)
          (plan_reconcile name_key projects dbt table)
          (subst (λ d. Planned (plan_project name_key p.id d rows)) h.0
            (plan_project-Planned p.id rows (rows-View k p.id) refl))
          (plan_reconcile-Planned dbt projects k h.1)
