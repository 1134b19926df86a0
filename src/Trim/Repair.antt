-- ===== src/Trim/Repair.antt =====
-- trimRunawayEntries of apps/worker/src/processors/runaway-entry-trim.ts: the candidates, the
-- decision for each, and the transaction that applies it. Durations are in milliseconds.
-- Not part of the source, and so parameters: the idle threshold that a user's team settings parse
-- to, and the ids that uuidV7 mints from random bytes for the stretches of an entry.
use timetrack.Prelude.{
  ℕ, ◌+◌, ◌-◌, ◌*◌, Bool, false, not, ◌&&◌, Option, none, some, List, [], ◌∷◌, map, leb, ltb, ◌==◌,
  if◌then◌else◌, filter, length, sum_by, is_some, count,
}
use timetrack.Access.{User}
use timetrack.Entries.Model.{Entry, Db, trim_runaway, trimmed, Kept}
use timetrack.Entries.Table.{insert_row, modify_row}
use timetrack.Entries.Repository.Reads.{sort_by_start}
use timetrack.Trim.Stretches.{Stretch, reconstruct_stretches}
use timetrack.Trim.Separated.{duration}

pub record Sample : Type 0 where
  pub user_id : ℕ
  pub timestamp : ℕ
  pub activity_pct : ℕ

pub data SkipReason : Type 0 where
  no_capture_evidence already_bounded : SkipReason

pub record EntryOutcome : Type 0 where
  pub entry_id : ℕ
  pub user_id : ℕ
  pub span : Stretch
  pub original_ms : ℕ
  pub threshold_minutes : ℕ
  pub sample_count : ℕ
  pub skipped : Option SkipReason
  pub stretches : List Stretch
  pub removed_ms : ℕ
  pub added_entry_ids : List ℕ

pub record TrimReport : Type 0 where
  pub candidates : ℕ
  pub repaired : ℕ
  pub skipped : ℕ
  pub removed_ms : ℕ
  pub applied : Bool
  pub outcomes : List EntryOutcome

pub record Options : Type 0 where
  pub min_hours : ℕ
  pub apply : Bool
  pub now : ℕ

-- "endTime" IS NOT NULL AND "endTime" - "startTime" > the minimum
unfoldable pub is_candidate : (min_hours : ℕ) → Entry → Bool
is_candidate min_hours e = elim e.end_time [
  | none ↦ false
  | some end ↦ ltb (e.start_time + min_hours * 3600 * 1000) end
]

-- The end of a candidate; an open entry is none.
abbrev pub span_of : Entry → Stretch
span_of e = record {
  start = e.start_time;
  end = elim e.end_time [ none ↦ e.start_time | some end ↦ end ];
}

unfoldable pub samples_of : List Sample → Entry → List Sample
samples_of samples e =
    filter
      (λ s.
        (s.user_id == e.user_id)
        && (leb e.start_time s.timestamp && leb s.timestamp (span_of e).end))
      samples

unfoldable pub active_at : List Sample → List ℕ
active_at samples = map (λ s. s.timestamp) (filter (λ s. ltb 0 s.activity_pct) samples)

abbrev pub tail_of {ℓ} : {A : Type ℓ} → List A → List A
tail_of [] = []
tail_of (x ∷ xs) = xs

-- createMany
unfoldable pub insert_rows : List User → List Entry → List Entry → Option (List Entry)
insert_rows users [] rows = some rows
insert_rows users (e ∷ new) rows = elim (insert_row users e rows) [
  | none ↦ none
  | some rows' ↦ insert_rows users new rows'
]

abbrev kept_of : Stretch → Kept
kept_of s = record { start_time = s.start; end_time = s.end }

-- The stored row of a repaired entry: closed where the first stretch ends.
abbrev pub shortened : (now : ℕ) → Stretch → Entry → Entry
shortened now s e = record e { end_time = some s.end; edited_at = some now }

module _ (threshold_minutes : ℕ → ℕ) where
  unfoldable pub stretches_of : List Sample → Entry → List Stretch
  stretches_of samples e =
      reconstruct_stretches (span_of e) (active_at (samples_of samples e))
        (threshold_minutes e.user_id * 60)

  -- The time that the repair of an entry removes.
  unfoldable pub removed_of : List Sample → Entry → ℕ
  removed_of samples e = duration (span_of e) - sum_by duration (stretches_of samples e)

  abbrev outcome :
      List Sample → Entry → Option SkipReason → List Stretch → ℕ → List ℕ → EntryOutcome
  outcome samples e skipped stretches removed_ms added = record {
    entry_id = e.id;
    user_id = e.user_id;
    span = span_of e;
    original_ms = duration (span_of e);
    threshold_minutes = threshold_minutes e.user_id;
    sample_count = length (samples_of samples e);
    skipped = skipped;
    stretches = stretches;
    removed_ms = removed_ms;
    added_entry_ids = added;
  }

module _ (mint : (entry_id start : ℕ) → ℕ) where
  -- A row for a stretch after the first: a copy of the entry under a new id.
  abbrev pub piece : (now : ℕ) → Entry → Stretch → Entry
  piece now e s = record e {
    id = mint e.id s.start;
    start_time = s.start;
    end_time = some s.end;
    edited_by_id = none;
    edited_at = some now;
    heartbeat_at = none;
    platform = none;
  }

  -- The transaction of one entry; `none` is a throw, of an entry without a stretch or of an id that
  -- is taken.
  unfoldable pub apply_repair : (now removed_ms : ℕ) → Entry → List Stretch → Db → Option Db
  unfolding modify_row insert_rows
  apply_repair now removed_ms e [] db = none
  apply_repair now removed_ms e (first ∷ rest) db =
      elim (insert_rows db.users (map (piece now e) rest)
        (modify_row e.id (shortened now first) db.entries)) [
          | none ↦ none
          | some rows ↦ some (record db {
            entries = rows;
            audit =
                record {
                  actor = trim_runaway;
                  target_id = e.id;
                  diff =
                      trimmed (kept_of (span_of e)) (map kept_of (first ∷ rest))
                        (map (λ s. mint e.id s.start) rest) removed_ms;
                }
                ∷ db.audit;
          })
        ]

abbrev pub is_repaired : EntryOutcome → Bool
is_repaired o = not (is_some o.skipped)

unfoldable pub report : Bool → List EntryOutcome → TrimReport
report applied outcomes = record {
  candidates = length outcomes;
  repaired = count is_repaired outcomes;
  skipped = count (λ o. is_some o.skipped) outcomes;
  removed_ms = sum_by (λ o. o.removed_ms) outcomes;
  applied = applied;
  outcomes = outcomes;
}

module _ (threshold_minutes : ℕ → ℕ) (mint : (entry_id start : ℕ) → ℕ) where
  -- A repair that goes ahead: on a dry run nothing is written and no id is minted.
  unfoldable pub repair : Options → List Sample → Entry → Db → Option (EntryOutcome × Db)
  repair opts samples e db =
      let stretches = stretches_of threshold_minutes samples e in
      let removed_ms = removed_of threshold_minutes samples e in
      if opts.apply
      then elim (apply_repair mint opts.now removed_ms e stretches db) [
        | none ↦ none
        | some db' ↦ some (
          outcome threshold_minutes samples e none stretches removed_ms
              (map (λ s. mint e.id s.start) (tail_of stretches)),
          db',
        )
      ]
      else some (outcome threshold_minutes samples e none stretches removed_ms [], db)

  -- One round of the loop over the candidates.
  unfoldable pub trim_entry : Options → List Sample → Entry → Db → Option (EntryOutcome × Db)
  unfolding repair
  trim_entry opts samples e db = elim (samples_of samples e) [
    | [] ↦ some (outcome threshold_minutes samples e (some no_capture_evidence) [] 0 [], db)
    | s ∷ more ↦
        if ltb 0 (removed_of threshold_minutes samples e)
        then repair opts samples e db
        else some (
          outcome threshold_minutes samples e (some already_bounded)
              (stretches_of threshold_minutes samples e) 0 [],
          db,
        )
  ]

  -- The loop. A throw ends it, and leaves what was repaired so far.
  unfoldable pub trim_entries :
      Options → List Sample → List Entry → Db → Option (List EntryOutcome) × Db
  trim_entries opts samples [] db = (some [], db)
  trim_entries opts samples (e ∷ more) db = elim (trim_entry opts samples e db) [
    | none ↦ (none, db)
    | some (o, db') ↦
        let (os, db'') = trim_entries opts samples more db' in
        (elim os [ none ↦ none | some rest ↦ some (o ∷ rest) ], db'')
  ]

  unfoldable pub trim_runaway_entries : Options → List Sample → Db → Option TrimReport × Db
  unfolding trim_entries report
  trim_runaway_entries opts samples db =
      let candidates = sort_by_start (filter (is_candidate opts.min_hours) db.entries) in
      let (outcomes, db') = trim_entries opts samples candidates db in
      (elim outcomes [ none ↦ none | some os ↦ some (report opts.apply os) ], db')
