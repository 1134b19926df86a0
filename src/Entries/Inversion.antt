-- ===== src/Entries/Inversion.antt =====
-- What a successful method of the service has checked, and which write it has made.
use timetrack.Prelude.{ℕ, ◌+◌, ◌≡◌, false, Option, none, some, ltb, or_else}
use timetrack.Errors.{
  Error, ok, ◌>>=◌, ◌>>◌, >>=-eq-ok, >>-eq-ok, throw_if-eq-ok, throw_if, ends_in_future,
  overlaps_entry, entry_not_found, no_change,
}
use timetrack.Access.{SessionUser, assert_can_access_user}
use timetrack.Entries.Model.{
  TimeEntry, CreateTimeEntry, CreateManualTimeEntry, UpdateTimeEntry, Changes, Db,
}
use timetrack.Entries.Repository.Upsert
use timetrack.Entries.Repository.Writes
use timetrack.Entries.Repository.Reads.{find_for_edit, has_overlap}
use timetrack.Entries.Service
use timetrack.Entries.Service.{
  lenient, strict, resolve_subproject, target_user, may_write_for, future_tolerance_ms, or_throw,
}
use timetrack.Entries.Edit
use timetrack.Entries.Edit.{full_diff, is_empty, assert_merged_entry_is_sane}

or_throw-ok {ℓ} : {A : Type ℓ} (o : Option A) (e : Error) {a : A} → or_throw o e ≡ ok a → o ≡ some a
or_throw-ok none e h = cc
or_throw-ok (some b) e h = cc

pub upsert-inv :
    (freshness_seconds now : ℕ) (dto : CreateTimeEntry) (user : SessionUser) (db : Db)
    {reply : TimeEntry × Db}
    → Service.upsert freshness_seconds now dto user db ≡ ok reply
    → (subproject_id : Option ℕ) × (Upsert.upsert freshness_seconds now dto user.id subproject_id db
        ≡ ok reply)
unfolding Service.upsert
upsert-inv freshness_seconds now dto user db h =
    let (sub, resolved, written) =
      >>=-eq-ok
        (resolve_subproject dto.project_id dto.task_id (or_else dto.subproject_id none) lenient db)
        (λ s. Upsert.upsert freshness_seconds now dto user.id s db) h in
    (sub, written)

-- What createManual has established when it returns.
pub record Created (now : ℕ) (dto : CreateManualTimeEntry) (actor : SessionUser) (db : Db)
    (reply : TimeEntry × Db) : Type 0 where
  pub allowed : may_write_for (target_user dto actor) actor db ≡ ok tt
  pub not_future : ltb (now + future_tolerance_ms) dto.end_time.at ≡ false
  pub free : has_overlap (target_user dto actor) dto.id dto.start_time.at dto.end_time.at db ≡ false
  pub subproject_id : Option ℕ
  pub resolved :
      resolve_subproject dto.project_id dto.task_id (or_else dto.subproject_id none) strict db
      ≡ ok subproject_id
  pub written :
      Writes.create_manual now dto (target_user dto actor) actor.id subproject_id db ≡ ok reply

pub create_manual-inv :
    (now : ℕ) (dto : CreateManualTimeEntry) (actor : SessionUser) (db : Db) {reply : TimeEntry × Db}
    → Service.create_manual now dto actor db ≡ ok reply
    → Created now dto actor db reply
unfolding Service.create_manual
create_manual-inv now dto actor db h =
    let target = target_user dto actor in
    let find_sub =
      resolve_subproject dto.project_id dto.task_id (or_else dto.subproject_id none) strict db in
    let write = λ (s : Option ℕ). Writes.create_manual now dto target actor.id s db in
    let taken = has_overlap target dto.id dto.start_time.at dto.end_time.at db in
    let late = ltb (now + future_tolerance_ms) dto.end_time.at in
    let (allowed, h1) =
      >>-eq-ok (may_write_for target actor db)
        (throw_if late ends_in_future >> (throw_if taken overlaps_entry >> (find_sub >>= write)))
        h in
    let (not_future, h2) =
      throw_if-eq-ok late ends_in_future (throw_if taken overlaps_entry >> (find_sub >>= write))
        h1 in
    let (free, h3) = throw_if-eq-ok taken overlaps_entry (find_sub >>= write) h2 in
    let (sub, resolved, written) = >>=-eq-ok find_sub write h3 in
    record {
      allowed = allowed;
      not_future = not_future;
      free = free;
      subproject_id = sub;
      resolved = resolved;
      written = written;
    }

-- What remove has established when it returns.
pub record Removed (id : ℕ) (actor : SessionUser) (db : Db) (reply : Unit {0} × Db) : Type 0 where
  pub current : TimeEntry
  pub found : find_for_edit id db ≡ some current
  pub allowed : assert_can_access_user db.users actor current.user_id ≡ ok tt
  pub written : Writes.remove id actor.id db ≡ ok reply

pub remove-inv :
    (id : ℕ) (actor : SessionUser) (db : Db) {reply : Unit {0} × Db}
    → Service.remove id actor db ≡ ok reply
    → Removed id actor db reply
unfolding Service.remove
remove-inv id actor db h =
    let access = λ (c : TimeEntry). assert_can_access_user db.users actor c.user_id in
    let (current, found, h1) =
      >>=-eq-ok (or_throw (find_for_edit id db) entry_not_found)
        (λ c. access c >> Writes.remove id actor.id db) h in
    let (allowed, written) = >>-eq-ok (access current) (Writes.remove id actor.id db) h1 in
    record {
      current = current;
      found = or_throw-ok (find_for_edit id db) entry_not_found found;
      allowed = allowed;
      written = written;
    }

-- What edit has established when it returns.
pub record Edited (now id : ℕ) (dto : UpdateTimeEntry) (actor : SessionUser) (db : Db)
    (reply : TimeEntry × Db) : Type 0 where
  pub current : TimeEntry
  pub before : Changes
  pub after : Changes
  pub found : find_for_edit id db ≡ some current
  pub allowed : assert_can_access_user db.users actor current.user_id ≡ ok tt
  pub diffed : full_diff current dto db ≡ ok (before, after)
  pub changed : is_empty after ≡ false
  pub sane : assert_merged_entry_is_sane current dto id db ≡ ok tt
  pub written : Writes.update now id after before actor.id db ≡ ok reply

pub edit-inv :
    (now id : ℕ) (dto : UpdateTimeEntry) (actor : SessionUser) (db : Db) {reply : TimeEntry × Db}
    → Edit.edit now id dto actor db ≡ ok reply
    → Edited now id dto actor db reply
unfolding Edit.edit
edit-inv now id dto actor db h =
    let access = λ (c : TimeEntry). assert_can_access_user db.users actor c.user_id in
    let sane = λ (c : TimeEntry). assert_merged_entry_is_sane c dto id db in
    let finish = λ (c : TimeEntry) (d : Changes × Changes).
      throw_if (is_empty d.1) no_change >> (sane c >> Writes.update now id d.1 d.0 actor.id db) in
    let (current, found, h1) =
      >>=-eq-ok (or_throw (find_for_edit id db) entry_not_found)
        (λ c. access c >> (full_diff c dto db >>= finish c)) h in
    let (allowed, h2) =
      >>-eq-ok (access current) (full_diff current dto db >>= finish current) h1 in
    let (d, diffed, h3) = >>=-eq-ok (full_diff current dto db) (finish current) h2 in
    let write = Writes.update now id d.1 d.0 actor.id db in
    let (changed, h4) = throw_if-eq-ok (is_empty d.1) no_change (sane current >> write) h3 in
    let (checked, written) = >>-eq-ok (sane current) write h4 in
    record {
      current = current;
      before = d.0;
      after = d.1;
      found = or_throw-ok (find_for_edit id db) entry_not_found found;
      allowed = allowed;
      diffed = diffed;
      changed = changed;
      sane = checked;
      written = written;
    }
