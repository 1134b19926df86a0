-- ===== src/Entries/Repository/Reads.antt =====
-- time-entries.repository.ts: the lookups, the overlap test and the clipped list.
use timetrack.Prelude.{
  ℕ, Bool, true, false, ◌&&◌, not, Option, none, some, List, [], ◌∷◌, map, leb, ltb, ◌==◌,
  if◌then◌else◌, filter, any,
}
use timetrack.Entries.Model.{Entry, TimeEntry, Subproject, Task, Db}
use timetrack.Entries.Table.{is_open, find_row}
use timetrack.Entries.Repository.Rows.{serialize}

pub record SubprojectCandidates : Type 0 where
  pub default_id : Option ℕ
  pub task_subproject_id : Option ℕ
  pub requested_belongs : Bool

default_of : ℕ → List Subproject → Option ℕ
default_of project_id [] = none
default_of project_id (s ∷ subs) =
    if (s.project_id == project_id) && s.is_default then some s.id else default_of project_id subs

subproject_of_task : Option ℕ → ℕ → List Task → Option ℕ
subproject_of_task none project_id tasks = none
subproject_of_task (some task_id) project_id [] = none
subproject_of_task (some task_id) project_id (t ∷ tasks) =
    if (t.id == task_id) && (t.project_id == project_id)
    then some t.subproject_id
    else subproject_of_task (some task_id) project_id tasks

unfoldable pub belongs : Option ℕ → ℕ → List Subproject → Bool
belongs none project_id subs = false
belongs (some id) project_id subs = any (λ s. (s.id == id) && (s.project_id == project_id)) subs

unfoldable pub subproject_candidates :
    ℕ → (task_id subproject_id : Option ℕ) → Db → SubprojectCandidates
unfolding default_of subproject_of_task belongs
subproject_candidates project_id task_id subproject_id db = record {
  default_id = default_of project_id db.subprojects;
  task_subproject_id = subproject_of_task task_id project_id db.tasks;
  requested_belongs = belongs subproject_id project_id db.subprojects;
}

unfoldable pub find_for_edit : ℕ → Db → Option TimeEntry
unfolding find_row serialize
find_for_edit id db = elim (find_row id db.entries) [ none ↦ none | some e ↦ some (serialize e) ]

unfoldable pub find_active_by_user : ℕ → List Entry → Option TimeEntry
unfolding serialize
find_active_by_user user_id [] = none
find_active_by_user user_id (e ∷ rows) =
    if (e.user_id == user_id) && is_open e
    then some (serialize e)
    else find_active_by_user user_id rows

-- COALESCE("endTime", 'infinity') > t
abbrev pub ends_after : ℕ → Option ℕ → Bool
ends_after t none = true
ends_after t (some end) = ltb t end

-- "endTime" IS NULL OR "endTime" > "startTime"
abbrev pub has_extent : Entry → Bool
has_extent e = ends_after e.start_time e.end_time

unfoldable pub overlaps : (user_id exclude_id start_time end_time : ℕ) → Entry → Bool
overlaps user_id exclude_id start_time end_time e =
    (e.user_id == user_id)
    && (not (e.id == exclude_id)
        && (ltb e.start_time end_time && (ends_after start_time e.end_time && has_extent e)))

unfoldable pub has_overlap : (user_id exclude_id start_time end_time : ℕ) → Db → Bool
unfolding overlaps
has_overlap user_id exclude_id start_time end_time db =
    any (overlaps user_id exclude_id start_time end_time) db.entries

-- The `where` of list; the window is inclusive at `to`.
abbrev pub in_project : Option ℕ → Option ℕ → Bool
in_project none p = true
in_project (some wanted) none = false
in_project (some wanted) (some p) = p == wanted

unfoldable pub in_window : (user_id from to : ℕ) → (project_id : Option ℕ) → Entry → Bool
in_window user_id from to project_id e =
    (e.user_id == user_id)
    && (leb e.start_time to && (ends_after from e.end_time && in_project project_id e.project_id))

abbrev pub clip_end : ℕ → Option ℕ → Option ℕ
clip_end to none = none
clip_end to (some end) = if ltb to end then some to else some end

unfoldable pub clip : (from to : ℕ) → Entry → Entry
clip from to e = record e {
  start_time = if ltb e.start_time from then from else e.start_time;
  end_time = clip_end to e.end_time;
}

-- orderBy: { startTime: 'asc' }
unfoldable pub insert_by_start : Entry → List Entry → List Entry
insert_by_start e [] = e ∷ []
insert_by_start e (f ∷ rows) =
    if leb e.start_time f.start_time then e ∷ f ∷ rows else f ∷ insert_by_start e rows

unfoldable pub sort_by_start : List Entry → List Entry
unfolding insert_by_start
sort_by_start [] = []
sort_by_start (e ∷ rows) = insert_by_start e (sort_by_start rows)

-- The rows of list before they are serialized.
unfoldable pub list_rows : (user_id from to : ℕ) → (project_id : Option ℕ) → List Entry → List Entry
unfolding in_window clip sort_by_start
list_rows user_id from to project_id rows = filter has_extent (
    map (clip from to)
      (filter has_extent (sort_by_start (filter (in_window user_id from to project_id) rows))))

unfoldable pub list : (user_id from to : ℕ) → (project_id : Option ℕ) → Db → List TimeEntry
unfolding list_rows serialize
list user_id from to project_id db = map serialize (list_rows user_id from to project_id db.entries)
