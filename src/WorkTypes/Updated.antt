-- ===== src/WorkTypes/Updated.antt =====
-- The columns of a row after the updates of a plan.
use timetrack.Prelude.{
  ℕ, ◌≡◌, ◌≢◌, ◌⊎◌, sym, ◌∙◌, true, false, Bool, none, some, List, [], arith, if◌then◌else◌, Any,
  All, inl, inr, subst,
}
use timetrack.WorkTypes.Model.{ExistingSubproject, ReconcilePlan}
use timetrack.WorkTypes.Apply.{is_in, set_archived, group_renames}
use timetrack.WorkTypes.Rows.{In}
use timetrack.WorkTypes.Model.{DesiredWorkType}
use timetrack.WorkTypes.Writes.{
  In-is_in, link_all, rename_all, rename_all-keys, renamed-name, updated,
}
use timetrack.WorkTypes.Synced.{Keeps, Settled, is_wanted}

-- The columns of an updated row, from the row after the links.
pub updated-keys :
    (plan : ReconcilePlan) (r : ExistingSubproject)
    → ((updated plan r).id ≡ (link_all plan.link r).id)
      × ((updated plan r).project_id ≡ (link_all plan.link r).project_id)
      × ((updated plan r).work_type_id ≡ (link_all plan.link r).work_type_id)
updated-keys plan r = ground (
  arith,
  rename_all-keys (group_renames plan.rename [])
      (set_archived false plan.restore (link_all plan.link r)),
)

pub updated-archived :
    (plan : ReconcilePlan) (r : ExistingSubproject)
    → (updated plan r).archived ≡ (
        if is_in plan.archive (link_all plan.link r).id
        then true
        else (set_archived false plan.restore (link_all plan.link r)).archived)
updated-archived plan r = ground (
  arith,
  rename_all-keys (group_renames plan.rename [])
      (set_archived false plan.restore (link_all plan.link r)),
)

set_archived-keys :
    (b : Bool) (ids : List ℕ) (r : ExistingSubproject)
    → ((set_archived b ids r).id ≡ r.id) × ((set_archived b ids r).name ≡ r.name)
set_archived-keys b ids r = ground arith

pub updated-name :
    (plan : ReconcilePlan) (r : ExistingSubproject) (n : ℕ)
    → All (λ x. (x.id ≢ (link_all plan.link r).id) ⊎ (x.name ≡ n)) plan.rename
    → Any (λ x. x.id ≡ (link_all plan.link r).id) plan.rename ⊎ ((link_all plan.link r).name ≡ n)
    → (updated plan r).name ≡ n
updated-name plan r n h q =
    let z = link_all plan.link r in
    let y = set_archived false plan.restore z in
    let e = set_archived-keys false plan.restore z in
    let x = rename_all (group_renames plan.rename []) y in
    (set_archived-keys true plan.archive x).1
    ∙ renamed-name n plan.rename y
        (subst (λ i. All (λ x. (x.id ≢ i) ⊎ (x.name ≡ n)) plan.rename) (sym e.0) h)
        (elim q [
          | inl due ↦ inl (subst (λ i. Any (λ x. x.id ≡ i) plan.rename) (sym e.0) due)
          | inr own ↦ inr (e.1 ∙ own)
        ])

-- A row that the updates leave live under the name.
pub updated-Keeps :
    (plan : ReconcilePlan) (p : ℕ) (wt : DesiredWorkType) (r : ExistingSubproject)
    → (link_all plan.link r).project_id ≡ p
    → (link_all plan.link r).work_type_id ≡ some wt.id
    → ((link_all plan.link r).archived ≡ false) ⊎ In (link_all plan.link r).id plan.restore
    → All (λ x. (x.id ≢ (link_all plan.link r).id) ⊎ (x.name ≡ wt.name)) plan.rename
    → Any (λ x. x.id ≡ (link_all plan.link r).id) plan.rename
      ⊎ ((link_all plan.link r).name ≡ wt.name)
    → is_in plan.archive (link_all plan.link r).id ≡ false
    → Keeps p wt (updated plan r)
updated-Keeps plan p wt r own typed live names due kept =
    let k = updated-keys plan r in
    (
      k.1 ∙ own,
      k.2 ∙ typed,
      updated-name plan r wt.name names due,
      updated-archived plan r ∙ elim live [
        | inl q ↦ ground (arith, q, kept)
        | inr m ↦ ground (arith, In-is_in (link_all plan.link r).id plan.restore m, kept)
      ],
    )

pub Settled-typed :
    (wts : List DesiredWorkType) (w : ℕ) (r : ExistingSubproject)
    → r.work_type_id ≡ some w
    → (is_wanted wts w ≡ true) ⊎ (r.archived ≡ true)
    → Settled wts r
Settled-typed wts w r typed h = rw typed h

pub Settled-free :
    (wts : List DesiredWorkType) (r : ExistingSubproject) → r.work_type_id ≡ none → Settled wts r
Settled-free wts r free = rw free tt
