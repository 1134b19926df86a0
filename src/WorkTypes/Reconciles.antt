-- ===== src/WorkTypes/Reconciles.antt =====
-- A whole reconcile, from the tables it reads to the rows it leaves.
use timetrack.Prelude.{
  ℕ, ◌≡◌, ◌≢◌, ◌⊎◌, refl, sym, ap, subst, ◌∙◌, true, some, List, [], ◌∷◌, map, filter, All, Pairs,
  inl, inr,
}
use timetrack.WorkTypes.Model.{
  DesiredWorkType, ReconcileProject, ExistingSubproject, ReconcileCounts, reconciled, ReconcilePlan,
  Catalog,
}
use timetrack.WorkTypes.Plan.{plan_reconcile, desired_of}
use timetrack.WorkTypes.Apply.{reconcile, plan_of, counts_of, teams_of, is_in, create_rows}
use timetrack.WorkTypes.Rows.{In, IsKeyed, All-In, In-All, In-filter, filter-In, filter-Keyed}
use timetrack.WorkTypes.Planned.{Planned, plan_reconcile-Planned}
use timetrack.WorkTypes.Synced.{IsSynced}
use timetrack.WorkTypes.Writes.{updated, apply_plan-eq}
use timetrack.WorkTypes.Complete.{Serves, plan_reconcile-Serves}
use timetrack.WorkTypes.Refines.{updated-IsSynced}
use timetrack.WorkTypes.Succeeds.{apply_plan-some}
use timetrack.WorkTypes.Selection.{
  listed, selection, wants, wants-eq, OtherProject, listed-Pairs, wants-FromCatalog, OtherType,
  type-eq,
}

In-map :
    {A B : Type 0} (f : A → B) (b : B) (xs : List A)
    → In b (map f xs)
    → (a : A) × In a xs × (f a ≡ b)
In-map f b [] m = elim m [ ]
In-map f b (x ∷ xs) (inl q) = (x, inl refl, q)
In-map f b (x ∷ xs) (inr m) = let (a, n, q) = In-map f b xs m in (a, inr n, q)

module _ (name_key : ℕ → ℕ) (mint : (project_id work_type_id : ℕ) → ℕ) (project_ids : List ℕ)
    (cat : Catalog) (keyed : IsKeyed cat.subprojects)
    (one_project : Pairs OtherProject cat.projects)
    (one_type : Pairs (OtherType name_key) cat.work_types)
    (fresh : (p w : ℕ) → All (λ r. r.id ≢ mint p w) cat.subprojects)
    (apart : (p w q v : ℕ) → mint p w ≡ mint q v → (p ≡ q) × (w ≡ v)) where
  want : ℕ → List DesiredWorkType
  want = wants (selection cat) (listed project_ids cat)

  mine : List ExistingSubproject
  mine = filter (λ s. is_in project_ids s.project_id) cat.subprojects

  the_plan : ReconcilePlan
  the_plan = plan_reconcile name_key (listed project_ids cat) (selection cat) mine

  sub : (r : ExistingSubproject) → In r mine → In r cat.subprojects
  unfolding mine
  sub r m = (In-filter (λ s. is_in project_ids s.project_id) r cat.subprojects m).0

  mine-Keyed : IsKeyed mine
  unfolding mine
  mine-Keyed = filter-Keyed (λ s. is_in project_ids s.project_id) cat.subprojects keyed

  want-eq : All (λ q. want q.id ≡ desired_of (selection cat) q) (listed project_ids cat)
  unfolding want
  want-eq = wants-eq (selection cat) (listed project_ids cat) (
      listed-Pairs (teams_of cat.project_teams) (λ p. is_in project_ids p.id) cat.projects
        one_project)

  one :
      (p : ℕ) (a b : DesiredWorkType)
      → In a (want p)
      → In b (want p)
      → (a.id ≡ b.id) ⊎ (name_key a.name ≡ name_key b.name)
      → a ≡ b
  unfolding want
  one p a b m n q =
      let (v, i, e) = wants-FromCatalog cat (listed project_ids cat) p a m in
      let (w, j, f) = wants-FromCatalog cat (listed project_ids cat) p b n in
      let same : v ≡ w = type-eq name_key v w cat.work_types one_type i j (rw (e, f) at q) in
      cc (e, f, same)

  planned : Planned name_key want mine the_plan
  unfolding the_plan
  planned =
      plan_reconcile-Planned name_key want mine (selection cat) (listed project_ids cat) mine-Keyed
        want-eq

  new_id : (p w : ℕ) (r : ExistingSubproject) → In r cat.subprojects → r.id ≢ mint p w
  new_id p w r m = All-In (λ x. x.id ≢ mint p w) r cat.subprojects (fresh p w) m

  own_rows :
      (a r : ExistingSubproject)
      → In a mine
      → In r cat.subprojects
      → r.project_id ≡ a.project_id
      → In r mine
  unfolding mine
  own_rows a r m n e =
      filter-In (λ s. is_in project_ids s.project_id) r cat.subprojects n
        (subst (λ p. is_in project_ids p ≡ true) (sym e)
          (In-filter (λ s. is_in project_ids s.project_id) a cat.subprojects m).1)

  q-Synced :
      (q : ReconcileProject)
      → In q (listed project_ids cat)
      → IsSynced q.id
          (want q.id)
          (map (updated the_plan) (create_rows mint the_plan.create cat.subprojects).0)
  unfolding the_plan mine
  q-Synced q m =
      let (p, n, e) =
        In-map (λ p. record { id = p.id; team_ids = teams_of cat.project_teams p }) q
          (filter (λ p. is_in project_ids p.id) cat.projects) m in
      let there = (In-filter (λ p. is_in project_ids p.id) p cat.projects n).1 in
      let id : p.id ≡ q.id = ap (λ (x : ReconcileProject). x.id) e in
      updated-IsSynced name_key mint want cat.subprojects mine the_plan planned keyed sub
        (λ i a b k l s. one i a b k l (inl s)) (λ i a b k l s. one i a b k l (inr s)) new_id q.id
        (λ r k s.
          filter-In (λ x. is_in project_ids x.project_id) r cat.subprojects k
            (subst (λ i. is_in project_ids i ≡ true) (id ∙ sym s) there))
        (subst (λ d. Serves mine the_plan q.id d)
          (sym (
            All-In (λ x. want x.id ≡ desired_of (selection cat) x) q (listed project_ids cat)
              want-eq m))
          (plan_reconcile-Serves name_key (selection cat) (listed project_ids cat) mine q mine-Keyed
            m))
        apart

  All-Synced :
      All
        (λ q.
          IsSynced q.id
            (desired_of (selection cat) q)
            (map (updated the_plan) (create_rows mint the_plan.create cat.subprojects).0))
        (listed project_ids cat)
  All-Synced =
      In-All
        (λ q.
          IsSynced q.id (desired_of (selection cat) q)
            (map (updated the_plan) (create_rows mint the_plan.create cat.subprojects).0))
        (listed project_ids cat)
        (λ q m.
          subst
            (λ d.
              IsSynced q.id d
                (map (updated the_plan) (create_rows mint the_plan.create cat.subprojects).0))
            (All-In (λ x. want x.id ≡ desired_of (selection cat) x) q (listed project_ids cat)
              want-eq m)
            (q-Synced q m))

  pub reconcile-IsSynced :
      (counts : ReconcileCounts) × (after : Catalog) × (reconcile name_key mint project_ids cat
        ≡ some (counts, after))
      × All
          (λ q. IsSynced q.id (desired_of (selection cat) q) after.subprojects)
          (listed project_ids cat)
  unfolding reconcile plan_of the_plan mine
  reconcile-IsSynced =
      let (out, e) =
        apply_plan-some name_key mint want cat.subprojects mine the_plan planned keyed sub own_rows
          (λ i a b k l s. one i a b k l (inl s)) new_id in
      (
        counts_of name_key mint project_ids cat out.1,
        record cat {
          subprojects = out.0;
          audit = reconciled (counts_of name_key mint project_ids cat out.1) ∷ cat.audit;
        },
        rw (e, reconcile) refl,
        subst
            (λ rows.
              All (λ q. IsSynced q.id (desired_of (selection cat) q) rows) (listed project_ids cat))
            (sym (apply_plan-eq mint the_plan cat.subprojects {after = out.0} {n = out.1} e))
            All-Synced,
      )
