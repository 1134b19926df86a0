-- ===== src/Trim/Tests.antt =====
-- The reconstruction at a concrete span, and the repair of a concrete table.
use timetrack.Prelude.{
  ◌&&◌, ◌==◌, count, length, ℕ, ◌+◌, ◌*◌, ◌≤◌, ◌≡◌, refl, ◌↔◌, ◌⊎◌, true, false, none, some, List,
  [], ◌∷◌, arith, Any, All, sum_by,
}
use timetrack.Entries.Model.{EntrySource, Entry, Db, trim_runaway, trimmed}
use timetrack.Entries.Table.{find_row, insert_row, modify_row, stamp_team}
use timetrack.Entries.Repository.Reads.{sort_by_start, insert_by_start}
use timetrack.Trim.Repair.{
  Sample, Options, TrimReport, EntryOutcome, is_candidate, span_of, samples_of, active_at,
  trim_entry, trim_runaway_entries, report, trim_entries, stretches_of, removed_of, repair,
  apply_repair, insert_rows,
}
use timetrack.Trim.Rows.{Tracks, TracksBeside}
use timetrack.Trim.Effects.{IsBalanced, outlasts, trim_entry-Tracks, trim_runaway_entries-balances}
use timetrack.Trim.Stretches.{Stretch, insert, sort, walk, reconstruct_stretches}
use timetrack.Trim.Cover.{Holds, Supported, reconstruct_stretches-covers}
use timetrack.Trim.Separated.{Separated, duration, reconstruct_stretches-Separated}

-- A span of 100 seconds with activity at 5 and at 60 seconds, and a threshold of 10 seconds.
abbrev span : Stretch
span = record { start = 0; end = 100000 }

abbrev active : List ℕ
active = 5000 ∷ 60000 ∷ []

splits :
    reconstruct_stretches span active 10
    ≡ record { start = 0; end = 15000 } ∷ record { start = 60000; end = 70000 } ∷ []
unfolding reconstruct_stretches insert sort walk
splits = refl

reconstruct_stretches-covers_example :
    Any (Holds 62000) (reconstruct_stretches span active 10) ↔ Supported 10000 62000 span active
reconstruct_stretches-covers_example =
    reconstruct_stretches-covers span active 10 62000 (omega arith)

reconstruct_stretches-Separated_example :
    Separated 0 100000 (reconstruct_stretches span active 10)
    × (0 + sum_by duration (reconstruct_stretches span active 10) ≤ 100000)
reconstruct_stretches-Separated_example =
    reconstruct_stretches-Separated span active 10 (omega arith)

-- An entry of 100 minutes, with samples in the first minute and after an hour.
abbrev long : Entry
long = record {
  id = 1;
  user_id = 7;
  project_id = none;
  task_id = none;
  subproject_id = none;
  start_time = 0;
  end_time = some 6000000;
  source = EntrySource.auto;
  note = none;
  edited_by_id = none;
  edited_at = none;
  heartbeat_at = none;
  platform = none;
  team_id = some 1;
}

abbrev db : Db
db = record {
  entries = long ∷ [];
  subprojects = [];
  tasks = [];
  users = record { id = 7; team_id = 1 } ∷ [];
  audit = [];
}

abbrev samples : List Sample
samples =
    record { user_id = 7; timestamp = 30000; activity_pct = 40 }
    ∷ record { user_id = 7; timestamp = 1800000; activity_pct = 0 }
    ∷ record { user_id = 7; timestamp = 3600000; activity_pct = 12 }
    ∷ []

abbrev apply : Options
apply = record { min_hours = 1; apply = true; now = 9000000 }

abbrev dry : Options
dry = record { min_hours = 1; apply = false; now = 9000000 }

-- The idle threshold is five minutes.
abbrev five : ℕ → ℕ
five user_id = 5

abbrev mint : (entry_id start : ℕ) → ℕ
mint entry_id start = 100 + start

abbrev done : EntryOutcome × Db
done = (
  record {
    entry_id = 1;
    user_id = 7;
    span = record { start = 0; end = 6000000 };
    original_ms = 6000000;
    threshold_minutes = 5;
    sample_count = 3;
    skipped = none;
    stretches = record { start = 0; end = 330000 } ∷ record { start = 3600000; end = 3900000 } ∷ [];
    removed_ms = 5370000;
    added_entry_ids = 3600100 ∷ [];
  },
  record db {
    entries =
        record long {
          id = 3600100;
          start_time = 3600000;
          end_time = some 3900000;
          edited_at = some 9000000;
        }
        ∷ record long { end_time = some 330000; edited_at = some 9000000 }
        ∷ [];
    audit =
        record {
          actor = trim_runaway;
          target_id = 1;
          diff =
              trimmed (record { start_time = 0; end_time = 6000000 })
                (record { start_time = 0; end_time = 330000 }
                  ∷ record { start_time = 3600000; end_time = 3900000 }
                  ∷ [])
                (3600100 ∷ []) 5370000;
        }
        ∷ [];
  },
)

repairs : trim_entry five mint apply samples long db ≡ some done
unfolding trim_entry repair apply_repair insert_rows insert_row modify_row stamp_team stretches_of
    removed_of samples_of active_at reconstruct_stretches insert sort walk
repairs = refl

trim_entry-Tracks_example : Any (Tracks 7 3700000) done.1.entries ↔ (
    Supported (5 * 60 * 1000) 3700000 (span_of long) (active_at (samples_of samples long))
    ⊎ Any (TracksBeside 1 7 3700000) db.entries)
trim_entry-Tracks_example =
    trim_entry-Tracks five mint apply samples long db 3700000 {r = done} (ground arith)
      (unfold find_row in refl) (unfold is_candidate in refl) (omega arith) refl refl repairs

abbrev reported : TrimReport
reported = record {
  candidates = 1;
  repaired = 1;
  skipped = 0;
  removed_ms = 5370000;
  applied = true;
  outcomes = done.0 ∷ [];
}

reports : (trim_runaway_entries five mint apply samples db).0 ≡ some reported
unfolding trim_runaway_entries trim_entries trim_entry repair apply_repair insert_rows insert_row
    modify_row stamp_team stretches_of removed_of samples_of active_at reconstruct_stretches insert
    sort walk is_candidate sort_by_start insert_by_start report
reports = refl

trim_runaway_entries-balances_example :
    (count (λ o. o.entry_id == 1) reported.outcomes
      ≡ count (λ e. (e.id == 1) && outlasts apply.min_hours e) db.entries)
    × (length reported.outcomes ≡ reported.repaired + reported.skipped)
    × (reported.candidates ≡ reported.repaired + reported.skipped)
    × All IsBalanced reported.outcomes
trim_runaway_entries-balances_example =
    trim_runaway_entries-balances five mint apply samples db 1 {rep = reported} reports
