-- ===== src/WorkTypes/Complete.antt =====
-- A plan leaves nothing out: each desired work type has its row or its entry.
use timetrack.Prelude.{
  ℕ, ◌≡◌, ◌⊎◌, refl, true, false, Bool, some, List, [], ◌∷◌, ◌++◌, ◌==◌, ==→eq, if◌then◌else◌, Any,
  inl, inr, subst, get, get-All, get-Any, Option-cases, filter,
}
use timetrack.WorkTypes.Model.{
  ReconcileProject, ExistingSubproject, DesiredWorkType, Create, Link, Rename, ReconcilePlan,
}
use timetrack.WorkTypes.Plan.{
  plan_reconcile, desired_of, set_linked, plan_archive, plan_type, plan_types, plan_project,
  keep_row, find_adoptee, empty, then_plan,
}
use timetrack.WorkTypes.Rows.{In, IsKeyed, In-All}
use timetrack.WorkTypes.Linked.{
  OfProject, LinkedRow, linked-LinkedRow, get-linked, archive_complete,
}
use timetrack.WorkTypes.Planned.{View, rows-View, find_adoptee-In}
use timetrack.WorkTypes.Synced.{is_wanted}
use timetrack.WorkTypes.Writes.{is_in-In}

In-left : {A : Type 0} (a : A) (xs ys : List A) → In a xs → In a (xs ++ ys)
In-left a [] ys m = elim m [ ]
In-left a (x ∷ xs) ys (inl q) = inl q
In-left a (x ∷ xs) ys (inr m) = inr (In-left a xs ys m)

In-right : {A : Type 0} (a : A) (xs ys : List A) → In a ys → In a (xs ++ ys)
In-right a [] ys m = m
In-right a (x ∷ xs) ys m = inr (In-right a xs ys m)

-- Every entry of one plan is one of the other.
record Sub (p q : ReconcilePlan) : Type 0 where
  pub create : (c : Create) → In c p.create → In c q.create
  pub link : (l : Link) → In l p.link → In l q.link
  pub restore : (i : ℕ) → In i p.restore → In i q.restore
  pub rename : (x : Rename) → In x p.rename → In x q.rename
  pub archive : (i : ℕ) → In i p.archive → In i q.archive

left-Sub : (p q : ReconcilePlan) → Sub p (then_plan p q)
left-Sub p q = record {
  create = λ c. In-left c p.create q.create;
  link = λ c. In-left c p.link q.link;
  restore = λ c. In-left c p.restore q.restore;
  rename = λ c. In-left c p.rename q.rename;
  archive = λ c. In-left c p.archive q.archive;
}

right-Sub : (p q : ReconcilePlan) → Sub q (then_plan p q)
right-Sub p q = record {
  create = λ c. In-right c p.create q.create;
  link = λ c. In-right c p.link q.link;
  restore = λ c. In-right c p.restore q.restore;
  rename = λ c. In-right c p.rename q.rename;
  archive = λ c. In-right c p.archive q.archive;
}

-- The row that a work type has, with the entries it is due.
pub record HasRow (table : List ExistingSubproject) (plan : ReconcilePlan) (p : ℕ)
    (wt : DesiredWorkType) : Type 0 where
  pub row : ExistingSubproject
  pub there : In row table
  pub own : row.project_id ≡ p
  pub typed : row.work_type_id ≡ some wt.id
  pub live : (row.archived ≡ false) ⊎ In row.id plan.restore
  pub called : (row.name ≡ wt.name) ⊎ In (record { id = row.id; name = wt.name }) plan.rename

-- The row that a work type adopts.
pub record Adopts (table : List ExistingSubproject) (plan : ReconcilePlan) (p : ℕ)
    (wt : DesiredWorkType) : Type 0 where
  pub row : ExistingSubproject
  pub there : In row table
  pub own : row.project_id ≡ p
  pub due : In (record { id = row.id; work_type_id = wt.id; name = wt.name }) plan.link

abbrev pub Covers :
    List ExistingSubproject → ReconcilePlan → (project_id : ℕ) → DesiredWorkType → Type 0
Covers table plan p wt =
    HasRow table plan p wt
    ⊎ Adopts table plan p wt
    ⊎ In (record { project_id = p; work_type_id = wt.id; name = wt.name }) plan.create

Covers-Sub :
    (table : List ExistingSubproject) (a b : ReconcilePlan) (p : ℕ) (wt : DesiredWorkType)
    → Sub a b
    → Covers table a p wt
    → Covers table b p wt
Covers-Sub table a b p wt s (inl h) = inl (record {
  row = h.row;
  there = h.there;
  own = h.own;
  typed = h.typed;
  live = elim h.live [ inl q ↦ inl q | inr m ↦ inr (s.restore h.row.id m) ];
  called = elim h.called [
    | inl q ↦ inl q
    | inr m ↦ inr (s.rename (record { id = h.row.id; name = wt.name }) m)
  ];
})
Covers-Sub table a b p wt s (inr (inl h)) = inr (
    inl (record {
      row = h.row;
      there = h.there;
      own = h.own;
      due = s.link (record { id = h.row.id; work_type_id = wt.id; name = wt.name }) h.due;
    }))
Covers-Sub table a b p wt s (inr (inr m)) =
    inr (inr (s.create (record { project_id = p; work_type_id = wt.id; name = wt.name }) m))

In-if : {A : Type 0} (b : Bool) (a : A) → (b ≡ false) ⊎ In a (if b then a ∷ [] else [])
In-if true a = inr (inl refl)
In-if false a = inl refl

In-unless : {A : Type 0} (b : Bool) (a : A) → (b ≡ true) ⊎ In a (if b then [] else a ∷ [])
In-unless true a = inl refl
In-unless false a = inr (inl refl)

module _ (name_key : ℕ → ℕ) (table : List ExistingSubproject) (p : ℕ)
    (rows : List ExistingSubproject) (v : View p rows table) where
  plan_type-Covers :
      (wt : DesiredWorkType) → Covers table (plan_type name_key p rows (set_linked rows []) wt) p wt
  unfolding plan_type keep_row
  plan_type-Covers wt = elim (Option-cases (get wt.id (set_linked rows []))) [
    | inr (r, linked) ↦
        let (m, q) =
          get-All (LinkedRow rows) wt.id (set_linked rows []) {v = r} (linked-LinkedRow rows)
            linked in
        let (m', own) = v.inside r m in
        rw (linked, plan_type)
          (inl (record {
            row = r;
            there = m';
            own = own;
            typed = q;
            live = In-if r.archived r.id;
            called = elim (In-unless (r.name == wt.name) (record { id = r.id; name = wt.name })) [
              | inl same ↦ inl (==→eq r.name wt.name same)
              | inr due ↦ inr due
            ];
          }))
    | inl free ↦ elim (Option-cases (find_adoptee name_key rows wt.name)) [
      | inr (a, adopted) ↦
          let (m, c) = find_adoptee-In name_key rows wt.name {a = a} adopted in
          let (m', own) = v.inside a m in
          rw (free, adopted, plan_type)
            (inr (inl (record { row = a; there = m'; own = own; due = inl refl })))
      | inl alone ↦ rw (free, alone, plan_type) (inr (inr (inl refl)))
    ]
  ]

  plan_types-Covers :
      (wts : List DesiredWorkType) (wt : DesiredWorkType)
      → In wt wts
      → Covers table (plan_types name_key p rows (set_linked rows []) wts) p wt
  unfolding plan_types
  plan_types-Covers [] wt m = elim m [ ]
  plan_types-Covers (x ∷ wts) wt m =
      let first = plan_type name_key p rows (set_linked rows []) x in
      let later = plan_types name_key p rows (set_linked rows []) wts in
      elim m [
        | inl q ↦
            Covers-Sub table first (then_plan first later) p wt (left-Sub first later)
              (subst (λ y. Covers table first p y) q (plan_type-Covers x))
        | inr n ↦
            Covers-Sub table later (then_plan first later) p wt (right-Sub first later)
              (plan_types-Covers wts wt n)
      ]

  In-linked :
      (w : ℕ) (r : ExistingSubproject)
      → In r table
      → r.project_id ≡ p
      → r.work_type_id ≡ some w
      → Any (λ e. (e.0 ≡ w) × (e.1 ≡ r)) (set_linked rows [])
  In-linked w r m own typed = get-Any w (set_linked rows []) {v = r} (
      get-linked p w r rows [] v.keyed (In-All (OfProject p) rows (λ x n. (v.inside x n).1))
        (v.full r m own) typed)

  plan_project-Covers :
      (wts : List DesiredWorkType) (wt : DesiredWorkType)
      → In wt wts
      → Covers table (plan_project name_key p wts rows) p wt
  unfolding plan_project
  plan_project-Covers wts wt m =
      let types = plan_types name_key p rows (set_linked rows []) wts in
      let old = record empty { archive = plan_archive wts (set_linked rows []) } in
      Covers-Sub table types (then_plan types old) p wt (left-Sub types old)
        (plan_types-Covers wts wt m)

  plan_project-archives :
      (wts : List DesiredWorkType) (w : ℕ) (r : ExistingSubproject)
      → In r table
      → r.project_id ≡ p
      → r.work_type_id ≡ some w
      → is_wanted wts w ≡ false
      → r.archived ≡ false
      → In r.id (plan_project name_key p wts rows).archive
  unfolding plan_project
  plan_project-archives wts w r m own typed unwanted live =
      let types = plan_types name_key p rows (set_linked rows []) wts in
      let old = plan_archive wts (set_linked rows []) in
      In-right r.id types.archive old (
        is_in-In r.id old
          (archive_complete wts w r (set_linked rows []) (In-linked w r m own typed) unwanted live))

-- The plan serves every desired work type of the project and archives every other live row.
pub record Serves (table : List ExistingSubproject) (plan : ReconcilePlan) (p : ℕ)
    (wts : List DesiredWorkType) : Type 0 where
  pub covers : (wt : DesiredWorkType) → In wt wts → Covers table plan p wt
  pub archives :
      (w : ℕ) (r : ExistingSubproject)
      → In r table
      → r.project_id ≡ p
      → r.work_type_id ≡ some w
      → is_wanted wts w ≡ false
      → r.archived ≡ false
      → In r.id plan.archive

Serves-Sub :
    (table : List ExistingSubproject) (a b : ReconcilePlan) (p : ℕ) (wts : List DesiredWorkType)
    → Sub a b
    → Serves table a p wts
    → Serves table b p wts
Serves-Sub table a b p wts s h = record {
  covers = λ wt m. Covers-Sub table a b p wt s (h.covers wt m);
  archives = λ w r m own typed u live. s.archive r.id (h.archives w r m own typed u live);
}

pub plan_reconcile-Serves :
    (name_key : ℕ → ℕ) (dbt : ℕ → List DesiredWorkType) (projects : List ReconcileProject)
    (table : List ExistingSubproject) (q : ReconcileProject)
    → IsKeyed table
    → In q projects
    → Serves table (plan_reconcile name_key projects dbt table) q.id (desired_of dbt q)
unfolding plan_reconcile
plan_reconcile-Serves name_key dbt [] table q k m = elim m [ ]
plan_reconcile-Serves name_key dbt (p ∷ projects) table q k m =
    let rows = filter (λ s. s.project_id == p.id) table in
    let first = plan_project name_key p.id (desired_of dbt p) rows in
    let later = plan_reconcile name_key projects dbt table in
    let v = rows-View name_key (λ i. desired_of dbt p) table k p.id in
    elim m [
      | inl e ↦
          Serves-Sub table first (then_plan first later) q.id (desired_of dbt q)
            (left-Sub first later)
            (subst (λ y. Serves table first y.id (desired_of dbt y)) e
              (record {
                covers = plan_project-Covers name_key table p.id rows v (desired_of dbt p);
                archives = plan_project-archives name_key table p.id rows v (desired_of dbt p);
              }))
      | inr n ↦
          Serves-Sub table later (then_plan first later) q.id (desired_of dbt q)
            (right-Sub first later) (plan_reconcile-Serves name_key dbt projects table q k n)
    ]
