-- ===== src/Entries/Editing.antt =====
-- A successful edit, as a whole: the row, the answer, the audit, and the other rows.
use timetrack.Prelude.{ℕ, ◌≡◌, ◌≢◌, false, some, ◌∷◌}
use timetrack.Access.{SessionUser}
use timetrack.Entries.Model.{Entry, TimeEntry, UpdateTimeEntry, Changes, Db, user, edited}
use timetrack.Entries.Table.{find_row, modify_row}
use timetrack.Entries.Repository.Rows.{serialize}
use timetrack.Entries.Repository.Writes
use timetrack.Entries.Repository.Writes.{edited_row}
use timetrack.Entries.Edit
use timetrack.Entries.Edit.{diff_after, is_empty}
use timetrack.Entries.Recorded.{IsRecorded}
use timetrack.Entries.Applies.{Applied}

-- The tables and the answer of an update of a stored row.
record Updated (now id : ℕ) (after before : Changes) (actor_id : ℕ) (db : Db) (e : Entry)
    (reply : TimeEntry × Db) : Type 0 where
  answer : reply.0 ≡ serialize (edited_row after actor_id now e)
  rows : reply.1.entries ≡ modify_row id (edited_row after actor_id now) db.entries
  log :
      reply.1.audit
      ≡ record { actor = user actor_id; target_id = id; diff = edited before after } ∷ db.audit

-- The outcome of an edit.
pub record IsEdited (now id : ℕ) (dto : UpdateTimeEntry) (actor : SessionUser) (db : Db)
    (reply : TimeEntry × Db) : Type 0 where
  pub old : Entry
  pub new : Entry
  pub before : Changes
  pub after : Changes
  pub found : find_row id db.entries ≡ some old
  pub stored : find_row id reply.1.entries ≡ some new
  pub answer : reply.0 ≡ serialize new
  pub changed : is_empty after ≡ false
  pub applied : Applied now dto actor.id db old new
  pub recorded : IsRecorded before after old new
  pub log :
      reply.1.audit
      ≡ record { actor = user actor.id; target_id = id; diff = edited before after } ∷ db.audit
  pub others : (j : ℕ) → id ≢ j → find_row j reply.1.entries ≡ find_row j db.entries
