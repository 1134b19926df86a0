-- ===== src/WorkTypes/Tests.antt =====
-- A catalog with a row of each kind, and what a reconcile of it does.
use timetrack.Prelude.{
  ℕ, zero, suc, ◌+◌, ◌%◌, ◌≡◌, ◌≢◌, refl, ap, sym, subst, true, false, Bool, Option, none, some,
  List, [], ◌∷◌, arith, All, Pairs, put, get,
}
use timetrack.WorkTypes.Model.{
  WorkType, DesiredWorkType, ReconcileProject, ExistingSubproject, ReconcileCounts, Catalog,
}
use timetrack.WorkTypes.Plan.{empty, find_adoptee, plan_reconcile, desired_of}
use timetrack.WorkTypes.Apply.{
  reconcile, apply_plan, plan_of, distinct, apply_link, desired_by_team,
}
use timetrack.WorkTypes.Rows.{IsKeyed}
use timetrack.WorkTypes.Planned.{Planned, plan_reconcile-Planned}
use timetrack.WorkTypes.Synced.{IsSynced, plan_reconcile-IsSynced}
use timetrack.WorkTypes.Selection.{selection, OtherProject, OtherType}
use timetrack.Errors.{ok, err, archived_selected}
use timetrack.WorkTypes.Edits.{find_type, set_team_selection, next_selection, update}
use timetrack.WorkTypes.Service
use timetrack.WorkTypes.Saving.{IsSaved, set_team_selection-IsSaved, IsUpdated, update-IsUpdated}

abbrev key : ℕ → ℕ
key n = n % 100

unfoldable code : ℕ → ℕ → ℕ
code zero w = w + w + 1
code (suc p) w = code p w + code p w

odd_even : (w c : ℕ) → w + w + 1 ≡ c + c → ⊥
odd_even w c h = omega arith

code-eq : (p w q v : ℕ) → code p w ≡ code q v → (p ≡ q) × (w ≡ v)
unfolding code
code-eq zero w zero v h = (refl, omega arith)
code-eq zero w (suc q) v h = elim (odd_even w (code q v) h) [ ]
code-eq (suc p) w zero v h = elim (odd_even v (code p w) (sym h)) [ ]
code-eq (suc p) w (suc q) v h = let e = code-eq p w q v (omega arith) in (ap (λ n. suc n) e.0, e.1)

-- Ids from 100 on are new.
abbrev mint : ℕ → ℕ → ℕ
mint p w = 100 + code p w

apart : (p w q v : ℕ) → mint p w ≡ mint q v → (p ≡ q) × (w ≡ v)
apart p w q v h = code-eq p w q v (omega arith)

abbrev sub_row : ℕ → ℕ → ℕ → Bool → Bool → Option ℕ → ExistingSubproject
sub_row id p name archived is_default w = record {
  id = id;
  project_id = p;
  name = name;
  archived = archived;
  is_default = is_default;
  work_type_id = w;
}

abbrev table : List ExistingSubproject
table =
    sub_row 1 1 5 false true none
    ∷ sub_row 2 1 300 true false (some 10)
    ∷ sub_row 3 1 211 true false none
    ∷ sub_row 4 1 7 false false (some 14)
    ∷ sub_row 5 2 8 false false (some 14)
    ∷ []

abbrev cat : Catalog
cat = record {
  projects = record { id = 1; team_id = 1 } ∷ record { id = 2; team_id = 2 } ∷ [];
  project_teams =
      record { project_id = 1; team_id = 2 } ∷ record { project_id = 1; team_id = 1 } ∷ [];
  work_types =
      record { id = 10; name = 110; archived = false }
      ∷ record { id = 11; name = 111; archived = false }
      ∷ record { id = 12; name = 112; archived = true }
      ∷ record { id = 13; name = 113; archived = false }
      ∷ [];
  team_work_types =
      record { team_id = 1; work_type_id = 10 }
      ∷ record { team_id = 1; work_type_id = 11 }
      ∷ record { team_id = 1; work_type_id = 12 }
      ∷ record { team_id = 2; work_type_id = 13 }
      ∷ record { team_id = 2; work_type_id = 10 }
      ∷ [];
  subprojects = table;
  audit = [];
}

abbrev ids : List ℕ
ids = 1 ∷ 7 ∷ []

abbrev rows_after : Option (ReconcileCounts × Catalog) → List ExistingSubproject
rows_after none = []
rows_after (some r) = r.1.subprojects

-- The archived row of type 10 is restored and renamed, the row made by hand adopted for type 11, the row
-- of type 14 archived, a row of type 13 made, and the other project left alone.
test_reconcile :
    rows_after (reconcile key (λ p w. 100 + w) ids cat)
    ≡ sub_row 113 1 113 false false (some 13)
      ∷ sub_row 1 1 5 false true none
      ∷ sub_row 2 1 110 false false (some 10)
      ∷ sub_row 3 1 111 false false (some 11)
      ∷ sub_row 4 1 7 true false (some 14)
      ∷ sub_row 5 2 8 false false (some 14)
      ∷ []
unfolding reconcile apply_plan plan_of plan_reconcile distinct desired_by_team put get find_adoptee
    apply_link
test_reconcile = refl

table-IsKeyed : IsKeyed table
table-IsKeyed = ground arith

projects-OtherProject : Pairs OtherProject cat.projects
projects-OtherProject = ground arith

types-OtherType : Pairs (OtherType key) cat.work_types
types-OtherType = ground arith

new_ids : (p w : ℕ) → All (λ r. r.id ≢ mint p w) table
new_ids p w = ground arith

abbrev project : ReconcileProject
project = record { id = 1; team_ids = 1 ∷ 2 ∷ [] }

abbrev desired : ℕ → List DesiredWorkType
desired i = desired_of (selection cat) project

plan_reconcile-Planned_example :
    Planned key desired table (plan_reconcile key (project ∷ []) (selection cat) table)
plan_reconcile-Planned_example =
    plan_reconcile-Planned key desired table (selection cat) (project ∷ []) table-IsKeyed (refl, tt)

abbrev settled_table : List ExistingSubproject
settled_table =
    sub_row 6 1 113 false false (some 13)
    ∷ sub_row 1 1 5 false true none
    ∷ sub_row 2 1 110 false false (some 10)
    ∷ sub_row 3 1 111 false false (some 11)
    ∷ sub_row 4 1 7 true false (some 14)
    ∷ sub_row 5 2 8 false false (some 14)
    ∷ []

settled_table-IsKeyed : IsKeyed settled_table
settled_table-IsKeyed = ground arith

abbrev types : List DesiredWorkType
types =
    record { id = 10; name = 110 }
    ∷ record { id = 11; name = 111 }
    ∷ record { id = 13; name = 113 }
    ∷ []

desired-types : desired 1 ≡ types
unfolding desired_by_team desired_of put
desired-types = refl

settled_table-IsSynced : IsSynced 1 types settled_table
settled_table-IsSynced = record { kept = ground arith; rest = ground arith }

plan_reconcile-IsSynced_example :
    plan_reconcile key (project ∷ []) (selection cat) settled_table ≡ empty
plan_reconcile-IsSynced_example =
    plan_reconcile-IsSynced key (selection cat) (project ∷ []) settled_table settled_table-IsKeyed
      (subst (λ d. IsSynced 1 d settled_table) (sym desired-types) settled_table-IsSynced, tt)

set_team_selection-IsSaved_example :
    (answer : List ℕ) × (after : Catalog) × (set_team_selection key mint 1 (10 ∷ 13 ∷ []) cat
      ≡ ok (answer, after))
    × IsSaved 1 (10 ∷ 13 ∷ []) answer cat after
set_team_selection-IsSaved_example =
    set_team_selection-IsSaved key mint cat table-IsKeyed projects-OtherProject types-OtherType
      new_ids apart 1 (10 ∷ 13 ∷ [])

-- The link to the archived type 12 is kept.
test_next_selection : next_selection cat 1 (13 ∷ 10 ∷ 13 ∷ []) ≡ 10 ∷ 12 ∷ 13 ∷ []
unfolding next_selection
test_next_selection = refl

abbrev audit : WorkType
audit = record { id = 11; name = 111; archived = false }

update-IsUpdated_example :
    (answer : WorkType) × (after : Catalog) × (update key mint 11 (some 205) (some false) cat
      ≡ ok (some answer, after))
    × IsUpdated 11 (some 205) (some false) audit answer cat after
unfolding find_type
update-IsUpdated_example =
    update-IsUpdated key mint cat table-IsKeyed projects-OtherProject types-OtherType new_ids apart
      11 (some 205) (some false) audit refl refl

-- An archived type cannot be selected.
test_archived :
    Service.set_team_selection key (λ p w. 100 + w) (1 ∷ 2 ∷ []) 1 (12 ∷ []) cat
    ≡ err archived_selected
unfolding Service.set_team_selection
test_archived = refl
