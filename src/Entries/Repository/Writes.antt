-- ===== src/Entries/Repository/Writes.antt =====
-- time-entries.repository.ts: the audited writes of a person, each with its audit row in one
-- transaction.
use timetrack.Prelude.{ℕ, Option, none, some, ◌∷◌, or_else}
use timetrack.Errors.{Result, ok, err, running_conflict, entry_exists, record_missing}
use timetrack.Entries.Model.{
  EntrySource, Entry, TimeEntry, CreateManualTimeEntry, Changes, created, deleted, edited, user,
  Audit, Db,
}
use timetrack.Entries.Table.{find_row, insert_row, update_row, delete_row}
use timetrack.Entries.Repository.Rows.{at?, at??, serialize}

-- createManual. A refused insert is the conflict of a form submitted twice.
unfoldable pub manual_row : CreateManualTimeEntry → (user_id actor_id : ℕ) → Option ℕ → ℕ → Entry
manual_row dto user_id actor_id subproject_id now = record {
  id = dto.id;
  user_id = user_id;
  project_id = dto.project_id;
  task_id = dto.task_id;
  subproject_id = subproject_id;
  start_time = dto.start_time.at;
  end_time = some dto.end_time.at;
  source = EntrySource.manual;
  note = dto.note;
  edited_by_id = some actor_id;
  edited_at = some now;
  heartbeat_at = none;
  platform = none;
  team_id = none;
}

abbrev created_audit : CreateManualTimeEntry → (user_id actor_id : ℕ) → Option ℕ → Audit
created_audit dto user_id actor_id subproject_id = record {
  actor = user actor_id;
  target_id = dto.id;
  diff = created user_id dto.start_time dto.end_time dto.project_id dto.task_id subproject_id;
}

unfoldable pub create_manual :
    (now : ℕ)
    → CreateManualTimeEntry
    → (user_id actor_id : ℕ) → Option ℕ
    → Db
    → Result (TimeEntry × Db)
unfolding manual_row insert_row serialize
create_manual now dto user_id actor_id subproject_id db =
    let row = manual_row dto user_id actor_id subproject_id now in
    elim (insert_row db.users row db.entries) [
      | none ↦ err entry_exists
      | some rows ↦ ok (
        serialize row,
        record db {
          entries = rows;
          audit = created_audit dto user_id actor_id subproject_id ∷ db.audit;
        },
      )
    ]

-- remove: the audit row keeps the whole deleted row.
unfoldable pub remove : (id actor_id : ℕ) → Db → Result (Unit {0} × Db)
unfolding find_row delete_row serialize
remove id actor_id db = elim (find_row id db.entries) [
  | none ↦ err record_missing
  | some row ↦ ok (
    tt,
    record db {
      entries = delete_row id db.entries;
      audit =
          record { actor = user actor_id; target_id = id; diff = deleted (serialize row) }
          ∷ db.audit;
    },
  )
]

-- The columns that `update` writes: those of `after`, and the stamp of the editor.
unfoldable pub edited_row : Changes → (actor_id now : ℕ) → Entry → Entry
edited_row after actor_id now e = record e {
  project_id = or_else after.project_id e.project_id;
  task_id = or_else after.task_id e.task_id;
  subproject_id = or_else after.subproject_id e.subproject_id;
  start_time = or_else (at? after.start_time) e.start_time;
  end_time = or_else (at?? after.end_time) e.end_time;
  source = or_else after.source e.source;
  note = or_else after.note e.note;
  edited_by_id = some actor_id;
  edited_at = some now;
}

unfoldable pub update :
    (now id : ℕ) → (after before : Changes) → (actor_id : ℕ) → Db → Result (TimeEntry × Db)
unfolding edited_row update_row find_row serialize
update now id after before actor_id db = elim (find_row id db.entries) [
  | none ↦ err record_missing
  | some e ↦ elim (update_row e (edited_row after actor_id now) db.entries) [
    | none ↦ err running_conflict
    | some rows ↦ ok (
      serialize (edited_row after actor_id now e),
      record db {
        entries = rows;
        audit =
            record { actor = user actor_id; target_id = id; diff = edited before after } ∷ db.audit;
      },
    )
  ]
]
