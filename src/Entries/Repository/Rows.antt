-- ===== src/Entries/Repository/Rows.antt =====
-- time-entries.repository.ts: the texts of instants, and the row that a read returns.
use timetrack.Prelude.{ℕ, Option, none, some, or_else}
use timetrack.Entries.Model.{Iso, Entry, TimeEntry}

-- toISOString
abbrev pub iso : ℕ → Iso
iso at = record { at = at; spelling = 0 }

abbrev pub iso? : Option ℕ → Option Iso
iso? none = none
iso? (some at) = some (iso at)

-- `x ? new Date(x) : null`
abbrev pub at? : Option Iso → Option ℕ
at? none = none
at? (some t) = some t.at

-- `x ? new Date(x) : null` of a field that may be absent.
abbrev pub at?? : Option (Option Iso) → Option (Option ℕ)
at?? none = none
at?? (some t) = some (at? t)

unfoldable pub serialize : Entry → TimeEntry
serialize row = record {
  id = row.id;
  user_id = row.user_id;
  project_id = row.project_id;
  task_id = row.task_id;
  subproject_id = row.subproject_id;
  start_time = iso row.start_time;
  end_time = iso? row.end_time;
  source = row.source;
  note = row.note;
  edited_by_id = row.edited_by_id;
  edited_at = iso? row.edited_at;
}

-- COALESCE("heartbeatAt", "startTime"): the last evidence that the clock ran.
abbrev pub last_seen : Entry → ℕ
last_seen e = or_else e.heartbeat_at e.start_time
