-- ===== src/WorkTypes/Saving.antt =====
-- What an edit of the catalog or of a selection leaves.
use timetrack.Prelude.{
  ℕ, ◌≡◌, ◌≢◌, ap, sym, ◌∙◌, true, false, Bool, ◌&&◌, ◌||◌, not, Option, none, some, List, [], ◌∷◌,
  map, filter, any-eq-false, arith, ◌==◌, if◌then◌else◌, All, Pairs, Option-cases, inl, inr,
}
use timetrack.Errors.{ok, err, ◌>>=◌, concurrent_change}
use timetrack.WorkTypes.Model.{ReconcileCounts, WorkType, TeamWorkType, Project, Catalog}
use timetrack.WorkTypes.Plan.{desired_of}
use timetrack.WorkTypes.Apply.{reconcile, apply_plan, plan_of, teams_of, is_in}
use timetrack.WorkTypes.Rows.{IsKeyed, In-All, All-In, In-filter}
use timetrack.WorkTypes.Synced.{IsSynced}
use timetrack.WorkTypes.Selection.{listed, selection, OtherProject, OtherType}
use timetrack.WorkTypes.Reconciles.{reconcile-IsSynced}
use timetrack.WorkTypes.Reached.{is_linked, read_as, In-listed, linked_project_ids-is_in}
use timetrack.WorkTypes.Selected.{is_selected, is_in-next, is_selected-replaced}
use timetrack.WorkTypes.Edits.{
  linked_project_ids, with_selection, next_selection, set_team_selection, update, find_type,
  changed, clashes, with_type, teams_with, is_archived,
}

saved :
    (name_key : ℕ → ℕ) (mint : ℕ → ℕ → ℕ) (cat after : Catalog) (counts : ReconcileCounts) (t : ℕ)
    (ids : List ℕ)
    → reconcile name_key mint (linked_project_ids cat (t ∷ [])) (with_selection cat t ids)
      ≡ some (counts, after)
    → set_team_selection name_key mint t ids cat ≡ ok (next_selection cat t ids, after)
unfolding set_team_selection
saved name_key mint cat after counts t ids e =
    ap
      (λ r. (elim r [ none ↦ err concurrent_change | some x ↦ ok x ]) >>= λ x.
        ok (next_selection cat t ids, x.1))
      e

abbrev replaced : WorkType → WorkType → WorkType
replaced w x = if x.id == w.id then w else x

abbrev Clear : (name_key : ℕ → ℕ) → WorkType → WorkType → Type 0
Clear name_key w x = (not (x.id == w.id) && (name_key x.name == name_key w.name)) ≡ false

replaced-OtherType :
    (name_key : ℕ → ℕ) (w x y : WorkType)
    → OtherType name_key x y
    → Clear name_key w x
    → Clear name_key w y
    → OtherType name_key (replaced w x) (replaced w y)
replaced-OtherType name_key w x y h p q = ground arith

replaced-All :
    (name_key : ℕ → ℕ) (w x : WorkType) (types : List WorkType)
    → All (OtherType name_key x) types
    → Clear name_key w x
    → All (Clear name_key w) types
    → All (OtherType name_key (replaced w x)) (map (replaced w) types)
replaced-All name_key w x [] h p q = tt
replaced-All name_key w x (y ∷ types) h p q =
    (replaced-OtherType name_key w x y h.0 p q.0, replaced-All name_key w x types h.1 p q.1)

replaced-Pairs :
    (name_key : ℕ → ℕ) (w : WorkType) (types : List WorkType)
    → Pairs (OtherType name_key) types
    → All (Clear name_key w) types
    → Pairs (OtherType name_key) (map (replaced w) types)
replaced-Pairs name_key w [] h q = tt
replaced-Pairs name_key w (x ∷ types) h q =
    (replaced-All name_key w x types h.0 q.0 q.1, replaced-Pairs name_key w types h.1 q.1)

-- A reconcile writes the subprojects and the audit only.
record IsKept (before after : Catalog) : Type 0 where
  projects : after.projects ≡ before.projects
  project_teams : after.project_teams ≡ before.project_teams
  work_types : after.work_types ≡ before.work_types
  team_work_types : after.team_work_types ≡ before.team_work_types

reconcile-IsKept :
    (name_key : ℕ → ℕ) (mint : ℕ → ℕ → ℕ) (ids : List ℕ) (cat : Catalog) (counts : ReconcileCounts)
    (after : Catalog)
    → reconcile name_key mint ids cat ≡ some (counts, after)
    → IsKept cat after
unfolding reconcile
reconcile-IsKept name_key mint ids cat counts after e =
    elim (Option-cases (apply_plan mint (plan_of name_key mint ids cat) cat.subprojects)) [
      | inl conflict ↦ ground (arith, conflict)
      | inr ((rows, n), applied) ↦ record {
        projects = ground (arith, applied);
        project_teams = ground (arith, applied);
        work_types = ground (arith, applied);
        team_work_types = ground (arith, applied);
      }
    ]

-- A project in the state that a reconcile promises, for what its teams select in a catalog.
abbrev pub IsSettled : Catalog → Project → Type 0
IsSettled cat p =
    IsSynced p.id
      (desired_of (selection cat) (record { id = p.id; team_ids = teams_of cat.project_teams p }))
      cat.subprojects

-- What holds of the projects that a reconcile lists holds of those that a team is linked to.
settled :
    (cat after : Catalog) (team : ℕ → Bool) (team_ids : List ℕ)
    → IsKept cat after
    → ((t : ℕ) → team t ≡ true → is_in team_ids t ≡ true)
    → All
        (λ q. IsSynced q.id (desired_of (selection cat) q) after.subprojects)
        (listed (linked_project_ids cat team_ids) cat)
    → All (IsSettled after) (filter (is_linked team cat.project_teams) cat.projects)
settled cat after team team_ids k s h =
    In-All (IsSettled after) (filter (is_linked team cat.project_teams) cat.projects) (λ p m.
      let (there, linked) = In-filter (is_linked team cat.project_teams) p cat.projects m in
      let reached = linked_project_ids-is_in cat team team_ids p s there linked in
      let q = read_as cat.project_teams p in
      let synced =
        All-In (λ q. IsSynced q.id (desired_of (selection cat) q) after.subprojects) q
          (listed (linked_project_ids cat team_ids) cat) h
          (In-listed (linked_project_ids cat team_ids) cat p there reached) in
      rw (k.work_types, k.team_work_types, k.project_teams) synced)

-- The catalog after a selection of the team `t` is saved, with the answer.
pub record IsSaved (t : ℕ) (ids answer : List ℕ) (cat after : Catalog) : Type 0 where
  pub selected :
      (u w : ℕ)
      → is_selected u w after.team_work_types ≡ (
          if u == t
          then is_in ids w || (is_archived cat.work_types w && is_selected t w cat.team_work_types)
          else is_selected u w cat.team_work_types)
  pub answered : (w : ℕ) → is_in answer w ≡ is_selected t w after.team_work_types
  pub work_types : after.work_types ≡ cat.work_types
  pub settled :
      All (IsSettled after) (filter (is_linked (λ u. t == u) cat.project_teams) cat.projects)

-- The catalog after the work type `id` is edited, with the answer.
pub record IsUpdated (id : ℕ) (name : Option ℕ) (archived : Option Bool) (before answer : WorkType)
    (cat after : Catalog) : Type 0 where
  pub answered : answer ≡ record {
    id = id;
    name = elim name [ none ↦ before.name | some n ↦ n ];
    archived = elim archived [ none ↦ before.archived | some b ↦ b ];
  }
  pub work_types : after.work_types ≡ map (λ x. if x.id == id then answer else x) cat.work_types
  pub team_work_types : after.team_work_types ≡ cat.team_work_types
  pub settled : All (IsSettled after) (
      filter (is_linked (λ u. is_selected u id cat.team_work_types) cat.project_teams) cat.projects)

self-listed : (t u : ℕ) → (t == u) ≡ true → is_in (t ∷ []) u ≡ true
self-listed t u h = ground (arith, h)

with-listed :
    (id : ℕ) (rows : List TeamWorkType) (u : ℕ)
    → is_selected u id rows ≡ true
    → is_in (map (λ s. s.team_id) (filter (λ s. s.work_type_id == id) rows)) u ≡ true
with-listed id [] u h = cc
with-listed id (s ∷ rows) u h = ground (arith, with-listed id rows u)

edited-type :
    (name : Option ℕ) (archived : Option Bool) (before : WorkType) (id : ℕ)
    → before.id ≡ id
    → changed name archived before ≡ record {
      id = id;
      name = elim name [ none ↦ before.name | some n ↦ n ];
      archived = elim archived [ none ↦ before.archived | some b ↦ b ];
    }
edited-type name archived before id h = ground (arith, h)

find_type-id :
    (id : ℕ) (types : List WorkType) (before : WorkType)
    → find_type id types ≡ some before
    → before.id ≡ id
unfolding find_type
find_type-id id [] before h = cc
find_type-id id (w ∷ types) before h = ground (arith, find_type-id id types before)

module _ (name_key : ℕ → ℕ) (mint : (project_id work_type_id : ℕ) → ℕ) (cat : Catalog)
    (keyed : IsKeyed cat.subprojects) (one_project : Pairs OtherProject cat.projects)
    (one_type : Pairs (OtherType name_key) cat.work_types)
    (fresh : (p w : ℕ) → All (λ r. r.id ≢ mint p w) cat.subprojects)
    (apart : (p w q v : ℕ) → mint p w ≡ mint q v → (p ≡ q) × (w ≡ v)) where
  -- A selection is saved: afterwards the team has the work types that were asked for and the
  -- archived ones that it had, which is also the answer, other teams have what they had, and every
  -- project linked to the team, as its home or otherwise, is in the state that a reconcile promises
  -- for the catalog so left. It needs what a reconcile needs.
  pub set_team_selection-IsSaved :
      (t : ℕ) (ids : List ℕ)
      → (answer : List ℕ) × (after : Catalog) × (set_team_selection name_key mint t ids cat
          ≡ ok (answer, after))
        × IsSaved t ids answer cat after
  unfolding set_team_selection linked_project_ids
  set_team_selection-IsSaved t ids =
      let asked = with_selection cat t ids in
      let (counts, after, e, synced) =
        reconcile-IsSynced name_key mint (linked_project_ids cat (t ∷ [])) asked keyed one_project
          one_type fresh apart in
      let kept =
        reconcile-IsKept name_key mint (linked_project_ids cat (t ∷ [])) asked counts after e in
      (
        next_selection cat t ids,
        after,
        saved name_key mint cat after counts t ids e,
        record {
          selected =
              λ u w. ap (is_selected u w) kept.team_work_types ∙ is_selected-replaced cat t ids u w;
          answered = λ w.
              is_in-next cat t ids w
              ∙ sym (
                  ap (is_selected t w) kept.team_work_types
                  ∙ is_selected-replaced cat t ids t w
                  ∙ ground arith);
          work_types = kept.work_types;
          settled = settled asked after (λ u. t == u) (t ∷ []) kept (self-listed t) synced;
        },
      )

  -- A work type that is there, with a name that no other has, is edited: it has the new name and
  -- the new flag, where they are given, which is also the answer, other types and the selections
  -- are as they were, and every project linked to a team that has it, as its home or otherwise, is
  -- in the state that a reconcile promises for the catalog so left. It needs what a reconcile needs.
  pub update-IsUpdated :
      (id : ℕ) (name : Option ℕ) (archived : Option Bool) (before : WorkType)
      → find_type id cat.work_types ≡ some before
      → clashes name_key (changed name archived before) cat.work_types ≡ false
      → (answer : WorkType) × (after : Catalog) × (update name_key mint id name archived cat
          ≡ ok (some answer, after))
        × IsUpdated id name archived before answer cat after
  unfolding update linked_project_ids
  update-IsUpdated id name archived before found clear =
      let w = changed name archived before in
      let edited = with_type w before cat in
      let ids = linked_project_ids edited (teams_with id edited) in
      let same : before.id ≡ id = find_type-id id cat.work_types before found in
      let (counts, after, e, synced) =
        reconcile-IsSynced name_key mint ids edited keyed one_project
          (replaced-Pairs name_key w cat.work_types one_type (
            any-eq-false (λ x. not (x.id == w.id) && (name_key x.name == name_key w.name))
              cat.work_types clear))
          fresh apart in
      let kept = reconcile-IsKept name_key mint ids edited counts after e in
      (
        w,
        after,
        rw (found, clear, update)
            (ap
              (λ r.
                (elim r [ none ↦ err concurrent_change | some x ↦ ok x ]) >>= λ x. ok (some w, x.1))
              e),
        record {
          answered = edited-type name archived before id same;
          work_types =
              kept.work_types ∙ ap (λ i. map (λ x. if x.id == i then w else x) cat.work_types) same;
          team_work_types = kept.team_work_types;
          settled =
              settled edited after (λ u. is_selected u id cat.team_work_types)
                (teams_with id edited) kept (with-listed id cat.team_work_types) synced;
        },
      )
