-- ===== src/Entries/Service.antt =====
-- apps/api/src/modules/time-entries/time-entries.service.ts. Every lookup of a method precedes its
-- one write, so an error leaves the tables as they were.
use timetrack.Prelude.{
  ℕ, ◌+◌, Option, none, some, List, ltb, ◌==◌, if◌then◌else◌, or_else, or_option,
}
use timetrack.Errors.{
  Error, Result, ok, err, ◌>>=◌, ◌>>◌, throw_if, entry_not_found, ends_in_future, overlaps_entry,
  foreign_subproject,
}
use timetrack.Access.{SessionUser, assert_can_access_user}
use timetrack.Entries.Model.{Iso, TimeEntry, CreateTimeEntry, CreateManualTimeEntry, Db}
use timetrack.Entries.Repository.Upsert
use timetrack.Entries.Repository.Writes
use timetrack.Entries.Repository.Reads.{
  SubprojectCandidates, subproject_candidates, find_for_edit, find_active_by_user, has_overlap,
}
use timetrack.Entries.Repository.Reads

abbrev pub future_tolerance_ms : ℕ
future_tolerance_ms = 60000

pub data Mode : Type 0 where
  strict lenient : Mode

-- pickSubproject, of a project and candidates that are there
derived : SubprojectCandidates → Option ℕ
derived c = or_option c.task_subproject_id c.default_id

foreign : Mode → SubprojectCandidates → Result (Option ℕ)
foreign strict c = err foreign_subproject
foreign lenient c = ok (derived c)

unfoldable pub pick_subproject :
    (project_id : Option ℕ)
    → (requested : Option ℕ) → Option SubprojectCandidates
    → Mode
    → Result (Option ℕ)
unfolding derived foreign
pick_subproject none requested candidates mode = ok none
pick_subproject (some p) requested none mode = ok none
pick_subproject (some p) none (some c) mode = ok (derived c)
pick_subproject (some p) (some s) (some c) mode =
    if c.requested_belongs then ok (some s) else foreign mode c

unfoldable pub resolve_subproject :
    (project_id task_id requested : Option ℕ) → Mode → Db → Result (Option ℕ)
unfolding pick_subproject
resolve_subproject none task_id requested mode db = ok none
resolve_subproject (some p) task_id requested mode db =
    pick_subproject (some p) requested (some (subproject_candidates p task_id requested db)) mode

unfoldable pub upsert :
    (freshness_seconds now : ℕ) → CreateTimeEntry → SessionUser → Db → Result (TimeEntry × Db)
unfolding resolve_subproject
upsert freshness_seconds now dto user db = do
  subproject_id ←
      resolve_subproject dto.project_id dto.task_id (or_else dto.subproject_id none) lenient db
  Upsert.upsert freshness_seconds now dto user.id subproject_id db

-- The owner of an entry added by hand: the named user, else the caller.
abbrev pub target_user : CreateManualTimeEntry → SessionUser → ℕ
target_user dto actor = or_else dto.user_id actor.id

-- `if (targetUserId !== actor.id) await this.access.assertCanAccessUser(…)`
unfoldable pub may_write_for : ℕ → SessionUser → Db → Result (Unit {0})
may_write_for target actor db =
    if target == actor.id then ok tt else assert_can_access_user db.users actor target

unfoldable pub create_manual :
    (now : ℕ) → CreateManualTimeEntry → SessionUser → Db → Result (TimeEntry × Db)
unfolding may_write_for
create_manual now dto actor db = do
  may_write_for (target_user dto actor) actor db
  throw_if (ltb (now + future_tolerance_ms) dto.end_time.at) ends_in_future
  throw_if (has_overlap (target_user dto actor) dto.id dto.start_time.at dto.end_time.at db)
      overlaps_entry
  subproject_id ←
      resolve_subproject dto.project_id dto.task_id (or_else dto.subproject_id none) strict db
  Writes.create_manual now dto (target_user dto actor) actor.id subproject_id db

abbrev pub or_throw {ℓ} : {A : Type ℓ} → Option A → Error → Result A
or_throw none e = err e
or_throw (some a) e = ok a

unfoldable pub remove : (id : ℕ) → SessionUser → Db → Result (Unit {0} × Db)
remove id actor db = do
  current ← or_throw (find_for_edit id db) entry_not_found
  assert_can_access_user db.users actor current.user_id
  Writes.remove id actor.id db

pub list :
    (query_user_id : Option ℕ) (from to : Iso) (project_id : Option ℕ)
    → SessionUser
    → Db
    → List TimeEntry
list query_user_id from to project_id user db =
    Reads.list (or_else query_user_id user.id) from.at to.at project_id db

pub find_active : ℕ → Db → Option TimeEntry
find_active user_id db = find_active_by_user user_id db.entries
