-- ===== src/Entries/Repository/Upsert.antt =====
-- time-entries.repository.ts: the sync upsert, with the retirement of abandoned entries.
use timetrack.Prelude.{
  ℕ, ◌+◌, ◌*◌, Bool, ◌&&◌, not, Option, none, some, List, [], ◌∷◌, ltb, ◌==◌, if◌then◌else◌,
  or_else, or_option, is_some,
}
use timetrack.Errors.{Result, ok, err, running_conflict, ownership_conflict}
use timetrack.Access.{User}
use timetrack.Entries.Model.{Entry, TimeEntry, CreateTimeEntry, Db}
use timetrack.Entries.Table.{is_open, find_row, insert_row, update_row}
use timetrack.Entries.Repository.Rows.{at?, serialize, last_seen}

-- An open entry of the user, other than `except_id`, with no evidence for the freshness window.
unfoldable pub is_stale : (freshness_seconds user_id except_id now : ℕ) → Entry → Bool
is_stale freshness_seconds user_id except_id now e =
    (e.user_id == user_id)
    && (is_open e && (not (e.id == except_id) && ltb (last_seen e + freshness_seconds * 1000) now))

unfoldable pub retire_stale_running :
    (freshness_seconds user_id except_id now : ℕ) → List Entry → List Entry
unfolding is_stale
retire_stale_running freshness_seconds user_id except_id now [] = []
retire_stale_running freshness_seconds user_id except_id now (e ∷ rows) =
    (if is_stale freshness_seconds user_id except_id now e
      then record e { end_time = some (last_seen e) }
      else e)
    ∷ retire_stale_running freshness_seconds user_id except_id now rows

-- The `create` half of the upsert.
unfoldable pub created_row : CreateTimeEntry → ℕ → Option ℕ → ℕ → Entry
created_row dto user_id subproject_id now = record {
  id = dto.id;
  user_id = user_id;
  project_id = dto.project_id;
  task_id = dto.task_id;
  subproject_id = subproject_id;
  start_time = dto.start_time.at;
  end_time = at? dto.end_time;
  source = dto.source;
  note = dto.note;
  edited_by_id = none;
  edited_at = none;
  heartbeat_at = some now;
  platform = or_else dto.platform none;
  team_id = none;
}

-- The `update` half: a close, a note and a platform are only ever written, never erased by silence.
unfoldable pub synced_row : CreateTimeEntry → ℕ → Entry → Entry
synced_row dto now e = record e {
  end_time = or_option (at? dto.end_time) e.end_time;
  note = or_option dto.note e.note;
  platform = or_else dto.platform e.platform;
  heartbeat_at = some now;
}

-- INSERT … ON CONFLICT (id): the row as written, and the table.
unfoldable pub upsert_entry :
    List User → CreateTimeEntry → ℕ → Option ℕ → ℕ → List Entry → Option (Entry × List Entry)
unfolding insert_row update_row synced_row created_row
upsert_entry users dto user_id subproject_id now rows = elim (find_row dto.id rows) [
  | none ↦ elim (insert_row users (created_row dto user_id subproject_id now) rows) [
    | none ↦ none
    | some rows' ↦ some (created_row dto user_id subproject_id now, rows')
  ]
  | some e ↦ elim (update_row e (synced_row dto now) rows) [
    | none ↦ none
    | some rows' ↦ some (synced_row dto now e, rows')
  ]
]

-- The rows that `upsert` hands to the write: opening a span takes over from an abandoned one.
unfoldable pub taken_over :
    (freshness_seconds now : ℕ) → CreateTimeEntry → ℕ → List Entry → List Entry
taken_over freshness_seconds now dto user_id rows =
    if is_some dto.end_time
    then rows
    else retire_stale_running freshness_seconds user_id dto.id now rows

-- The owner check, inside the transaction.
abbrev pub commit_upsert : Db → ℕ → Option (Entry × List Entry) → Result (TimeEntry × Db)
commit_upsert db user_id none = err running_conflict
commit_upsert db user_id (some (row, rows)) =
    if row.user_id == user_id
    then ok (serialize row, record db { entries = rows })
    else err ownership_conflict

unfoldable pub upsert :
    (freshness_seconds now : ℕ) → CreateTimeEntry → ℕ → Option ℕ → Db → Result (TimeEntry × Db)
unfolding upsert_entry taken_over serialize
upsert freshness_seconds now dto user_id subproject_id db = commit_upsert db user_id (
    upsert_entry db.users dto user_id subproject_id now
      (taken_over freshness_seconds now dto user_id db.entries))
