-- ===== src/Entries/Edit.antt =====
-- The edit path of apps/api/src/modules/time-entries/time-entries.service.ts: the diff of a patch,
-- the checks of the merged entry, and `edit`.
use timetrack.Prelude.{
  ℕ, Bool, true, false, ◌&&◌, ◌||◌, not, Option, none, some, String, ltb, ◌==◌, str_eq,
  if◌then◌else◌, or_else, is_some,
}
use timetrack.Errors.{
  Result, ok, ◌>>=◌, ◌>>◌, throw_if, entry_not_found, overlaps_entry, no_change, inverted_entry,
}
use timetrack.Access.{SessionUser, assert_can_access_user}
use timetrack.Entries.Model.{EntrySource, Iso, TimeEntry, UpdateTimeEntry, Changes, Db}
use timetrack.Entries.Repository.Writes
use timetrack.Entries.Repository.Reads.{find_for_edit, has_overlap}
use timetrack.Entries.Service.{strict, resolve_subproject, or_throw}

-- `===` on the fields of an entry
abbrev pub same_id : Option ℕ → Option ℕ → Bool
same_id none none = true
same_id (some a) (some b) = a == b
same_id _ _ = false

abbrev pub same_iso : Iso → Iso → Bool
same_iso a b = (a.at == b.at) && (a.spelling == b.spelling)

abbrev pub same_iso? : Option Iso → Option Iso → Bool
same_iso? none none = true
same_iso? (some a) (some b) = same_iso a b
same_iso? _ _ = false

abbrev pub same_source : EntrySource → EntrySource → Bool
same_source EntrySource.manual EntrySource.manual = true
same_source EntrySource.auto EntrySource.auto = true
same_source _ _ = false

abbrev pub same_note : Option String → Option String → Bool
same_note none none = true
same_note (some a) (some b) = str_eq a b
same_note _ _ = false

-- One round of the loop of diffChangedFields: the new value, if the key is there and differs.
abbrev pub next_if_changed {ℓ} : {A : Type ℓ} → (A → A → Bool) → Option A → A → Option A
next_if_changed same none prev = none
next_if_changed same (some next) prev = if same next prev then none else some next

-- The old value beside it.
abbrev pub prev_if_changed {ℓ} : {A : Type ℓ} → (A → A → Bool) → Option A → A → Option A
prev_if_changed same none prev = none
prev_if_changed same (some next) prev = if same next prev then none else some prev

abbrev pub present : Option String → Option (Option String)
present none = none
present (some n) = some (some n)

unfoldable pub diff_after : TimeEntry → UpdateTimeEntry → Changes
diff_after current dto = record {
  project_id = next_if_changed same_id dto.project_id current.project_id;
  task_id = next_if_changed same_id dto.task_id current.task_id;
  subproject_id = none;
  start_time = next_if_changed same_iso dto.start_time current.start_time;
  end_time = next_if_changed same_iso? dto.end_time current.end_time;
  source = next_if_changed same_source dto.source current.source;
  note = next_if_changed same_note (present dto.note) current.note;
}

unfoldable pub diff_before : TimeEntry → UpdateTimeEntry → Changes
diff_before current dto = record {
  project_id = prev_if_changed same_id dto.project_id current.project_id;
  task_id = prev_if_changed same_id dto.task_id current.task_id;
  subproject_id = none;
  start_time = prev_if_changed same_iso dto.start_time current.start_time;
  end_time = prev_if_changed same_iso? dto.end_time current.end_time;
  source = prev_if_changed same_source dto.source current.source;
  note = prev_if_changed same_note (present dto.note) current.note;
}

-- Does the patch touch the assignment, or name a subproject?
unfoldable pub reassigns : UpdateTimeEntry → Changes → Bool
reassigns dto after =
    is_some dto.subproject_id || (is_some after.project_id || is_some after.task_id)

-- The diff with the subproject put in, if it differs from the stored one.
unfoldable pub with_subproject :
    (stored resolved : Option ℕ) → (before after : Changes) → Changes × Changes
with_subproject stored resolved before after =
    if same_id resolved stored then (before, after) else (
      record before { subproject_id = some stored },
      record after { subproject_id = some resolved },
    )

-- Both sides of the diff, the subproject resolved again where the assignment changes.
unfoldable pub full_diff : TimeEntry → UpdateTimeEntry → Db → Result (Changes × Changes)
full_diff current dto db =
    let after = diff_after current dto in
    let before = diff_before current dto in
    if reassigns dto after
    then (do
      resolved ←
          resolve_subproject (or_else dto.project_id current.project_id)
            (or_else dto.task_id current.task_id) (or_else dto.subproject_id none) strict db
      ok (with_subproject current.subproject_id resolved before after))
    else ok (before, after)

-- Object.keys(after).length === 0
unfoldable pub is_empty : Changes → Bool
is_empty c = not (
    is_some c.project_id
    || (is_some c.task_id
        || (is_some c.subproject_id
            || (is_some c.start_time
                || (is_some c.end_time || (is_some c.source || is_some c.note))))))

-- The checks of an end that is there; an entry left open is not checked.
check_extent : (user_id id : ℕ) → Iso → Option Iso → Db → Result (Unit {0})
check_extent user_id id start none db = ok tt
check_extent user_id id start (some end) db = do
  throw_if (ltb end.at start.at) inverted_entry
  throw_if (has_overlap user_id id start.at end.at db) overlaps_entry

unfoldable pub assert_merged_entry_is_sane :
    TimeEntry → UpdateTimeEntry → ℕ → Db → Result (Unit {0})
unfolding check_extent
assert_merged_entry_is_sane current dto id db =
    check_extent current.user_id id (or_else dto.start_time current.start_time)
      (or_else dto.end_time current.end_time) db

unfoldable pub edit : (now id : ℕ) → UpdateTimeEntry → SessionUser → Db → Result (TimeEntry × Db)
edit now id dto actor db = do
  current ← or_throw (find_for_edit id db) entry_not_found
  assert_can_access_user db.users actor current.user_id
  (before, after) ← full_diff current dto db
  throw_if (is_empty after) no_change
  assert_merged_entry_is_sane current dto id db
  Writes.update now id after before actor.id db
