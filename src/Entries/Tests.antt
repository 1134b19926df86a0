-- ===== src/Entries/Tests.antt =====
-- The time entries at concrete inputs: two employees, an abandoned timer, and a manager.
use timetrack.Prelude.{
  map, ℕ, ◌<◌, ◌≡◌, ◌↔◌, refl, true, Option, none, some, List, [], ◌∷◌, arith, ◌==◌, Any, length,
  if◌then◌else◌,
}
use timetrack.Errors.{Result, ok, err, running_conflict, ownership_conflict}
use timetrack.Access.{SessionUser, Role, assert_can_access_user}
use timetrack.Entries.Model.{
  EntrySource, Iso, Entry, TimeEntry, CreateTimeEntry, CreateManualTimeEntry, UpdateTimeEntry, Db,
}
use timetrack.Entries.Schema.{create_accepts, manual_accepts}
use timetrack.Entries.Table.{find_row}
use timetrack.Entries.Repository.Rows.{serialize}
use timetrack.Entries.Repository.Upsert
use timetrack.Entries.Repository.Upsert.{synced_row, created_row}
use timetrack.Entries.Repository.Writes
use timetrack.Entries.Repository.Reads.{has_overlap, list_rows}
use timetrack.Entries.Service
use timetrack.Entries.Edit
use timetrack.Entries.Requests.{Request, Call, handle, serve}
use timetrack.Entries.Index.{IsIndexed}
use timetrack.Entries.Serving.{serve-IsIndexed}
use timetrack.Entries.Isolation.{owned}
use timetrack.Entries.Isolation.Requests.{handle-isolates}
use timetrack.Entries.Known.{synced_db}
use timetrack.Entries.Synced.{later_row, row_after, upsert-syncs}
use timetrack.Entries.Fresh.{upsert-new, is_blocked, first_row, prepared}
use timetrack.Entries.Retry.{upsert-retry}
use timetrack.Entries.Persistence.{Holds, upsert-persists}
use timetrack.Entries.Overlap.{Clashes, Covers, has_overlap_iff}
use timetrack.Entries.Filing.{IsDisjoint, create_manual-IsDisjoint, IsFiled, create_manual-IsFiled}
use timetrack.Entries.Listing.{Tracked, list_rows-Covers}
use timetrack.Entries.Inverted.{sync_inverts}

abbrev at : ℕ → Iso
at t = record { at = t; spelling = 0 }

abbrev row : (id user_id start : ℕ) → Option ℕ → Entry
row id user_id start end = record {
  id = id;
  user_id = user_id;
  project_id = none;
  task_id = none;
  subproject_id = none;
  start_time = start;
  end_time = end;
  source = EntrySource.auto;
  note = none;
  edited_by_id = none;
  edited_at = none;
  heartbeat_at = none;
  platform = none;
  team_id = some 1;
}

-- User 7 worked from 1000 to 2000, and has an open entry since 5000; user 8 runs since 6000.
abbrev db : Db
db = record {
  entries = row 1 7 1000 (some 2000) ∷ row 2 7 5000 none ∷ row 3 8 6000 none ∷ [];
  subprojects = [];
  tasks = [];
  users = record { id = 7; team_id = 1 } ∷ record { id = 8; team_id = 2 } ∷ [];
  audit = [];
}

abbrev alice : SessionUser
alice = record { id = 7; role = Role.employee; team_id = 1 }

abbrev sync : ℕ → ℕ → Option ℕ → CreateTimeEntry
sync id start end = record {
  id = id;
  project_id = none;
  task_id = none;
  subproject_id = none;
  start_time = at start;
  end_time = elim end [ none ↦ none | some t ↦ some (at t) ];
  source = EntrySource.auto;
  note = none;
  platform = none;
}

abbrev form : CreateManualTimeEntry
form = record {
  id = 9;
  user_id = none;
  project_id = none;
  task_id = none;
  subproject_id = none;
  start_time = at 2000;
  end_time = at 3000;
  note = none;
}

abbrev patch : UpdateTimeEntry
patch = record {
  project_id = none;
  task_id = none;
  subproject_id = none;
  start_time = some (at 500);
  end_time = none;
  source = none;
  note = some "late";
}

db-IsIndexed : IsIndexed db.entries
db-IsIndexed = ground arith

-- The freshness window is 2 seconds, so at 9000 the entry 2 is abandoned, and at 6000 it is live.
abbrev opening : CreateTimeEntry
opening = sync 4 9000 none

abbrev opened : TimeEntry × Db
opened = (
  serialize (first_row 9000 opening 7 none db),
  record db { entries = first_row 9000 opening 7 none db ∷ prepared 2 9000 opening 7 db.entries },
)

upsert-new_example :
    Upsert.upsert 2 9000 opening 7 none db
    ≡ (if is_blocked 2 9000 opening 7 db then err running_conflict else ok opened)
unfolding find_row
upsert-new_example = upsert-new 2 9000 opening 7 none db refl

takes_over : Upsert.upsert 2 9000 opening 7 none db ≡ ok opened
unfolding Upsert.upsert find_row Upsert.retire_stale_running
takes_over = refl

still_running : Upsert.upsert 2 6000 (sync 4 6000 none) 7 none db ≡ err running_conflict
unfolding Upsert.upsert find_row Upsert.retire_stale_running
still_running = refl

upsert-syncs_example : Upsert.upsert 2 6000 (sync 3 6000 none) 7 none db ≡ (
    if (row 3 8 6000 none).user_id == 7
    then ok (
      serialize (later_row 6000 (sync 3 6000 none) (row 3 8 6000 none)),
      record db { entries = map (row_after 2 6000 (sync 3 6000 none) 7) db.entries },
    )
    else err ownership_conflict)
unfolding find_row
upsert-syncs_example =
    upsert-syncs 2 6000 (sync 3 6000 none) 7 none db (row 3 8 6000 none) db-IsIndexed refl

upsert-retry_example :
    (Upsert.upsert 2 9500 opening 7 none opened.1
      ≡ ok (opened.0, synced_db 2 9500 opening 7 opened.1))
    × (length (synced_db 2 9500 opening 7 opened.1).entries ≡ length opened.1.entries)
upsert-retry_example =
    upsert-retry 2 9000 9500 opening 7 none none db {reply = opened} db-IsIndexed takes_over

upsert-persists_example : Holds 2 (row 2 7 5000 none) opened.1.entries
unfolding find_row
upsert-persists_example =
    upsert-persists 2 9000 opening 7 none db 2 {e = row 2 7 5000 none} {reply = opened} db-IsIndexed
      refl takes_over

abbrev calls : List Call
calls =
    record { now = 9000; actor = alice; request = Request.upsert opening }
    ∷ record { now = 9100; actor = alice; request = Request.create_manual form }
    ∷ record { now = 9200; actor = alice; request = Request.edit 1 patch }
    ∷ record { now = 9300; actor = alice; request = Request.remove 3 }
    ∷ []

serve-IsIndexed_example : IsIndexed (serve 2 calls db).entries
serve-IsIndexed_example = serve-IsIndexed 2 calls db db-IsIndexed

handled : handle 2 9000 alice (Request.upsert opening) db ≡ ok opened.1
unfolding handle create_accepts Service.upsert Upsert.upsert find_row Upsert.retire_stale_running
handled = refl

handle-isolates_example : owned 8 opened.1.entries ≡ owned 8 db.entries
unfolding assert_can_access_user
handle-isolates_example =
    handle-isolates 2 9000 alice (Request.upsert opening) db {db' = opened.1} 8 db-IsIndexed refl
      handled

-- The value of a call that succeeds; the default is never looked at below.
abbrev value_of {ℓ} : {A : Type ℓ} → A → Result A → A
value_of d (ok a) = a
value_of d (err e) = d

abbrev filed : TimeEntry × Db
filed = value_of opened (Service.create_manual 9100 form alice db)

filed-ok : Service.create_manual 9100 form alice db ≡ ok filed
unfolding Service.create_manual has_overlap Service.resolve_subproject Writes.create_manual
filed-ok = refl

db-IsDisjoint : IsDisjoint db.entries
db-IsDisjoint = ground arith

create_manual-IsDisjoint_example : IsDisjoint filed.1.entries
unfolding manual_accepts
create_manual-IsDisjoint_example =
    create_manual-IsDisjoint 9100 form alice db {reply = filed} refl db-IsDisjoint filed-ok

create_manual-IsFiled_example : IsFiled 9100 form alice db filed
create_manual-IsFiled_example = create_manual-IsFiled 9100 form alice db {reply = filed} filed-ok

abbrev revised : TimeEntry × Db
revised = value_of opened (Edit.edit 9200 1 patch alice db)

has_overlap_iff_example :
    (has_overlap 7 0 1500 2500 db ≡ true) ↔ Any (Clashes 7 0 1500 2500) db.entries
has_overlap_iff_example = has_overlap_iff 7 0 1500 2500 (omega arith) db

list_rows-Covers_example :
    Any (λ r. Covers r 1800) (list_rows 7 1500 4000 none db.entries)
    ↔ Tracked 7 none 1800 db.entries
list_rows-Covers_example =
    list_rows-Covers 7 1500 4000 none db.entries 1800 (omega arith) (omega arith)

-- The open entry 2 starts at 5000; a late close of it says that it ended at 4000.
abbrev closing : CreateTimeEntry
closing = sync 2 3000 (some 4000)

sync_inverts_example :
    (db' : Db) × (e' : Entry) × (handle 2 9000 alice (Request.upsert closing) db ≡ ok db')
    × (find_row 2 db'.entries ≡ some e')
    × (e'.end_time ≡ some 4000)
    × (4000 < e'.start_time)
unfolding create_accepts find_row
sync_inverts_example =
    sync_inverts 2 9000 alice closing db (row 2 7 5000 none) (at 4000) db-IsIndexed refl refl refl
      refl (omega arith)
