-- ===== src/Entries/Synced.antt =====
-- What a sync of a stored entry writes, column by column.
use timetrack.Prelude.{
  ℕ, ◌≡◌, refl, ap, ◌∙◌, true, Option, none, some, List, [], ◌∷◌, map, arith, ◌==◌, if◌then◌else◌,
  is_some, Option-cases, inl, inr,
}
use timetrack.Errors.{ok, err, ownership_conflict}
use timetrack.Entries.Model.{Entry, CreateTimeEntry, Db}
use timetrack.Entries.Table.{find_row, modify_row}
use timetrack.Entries.Repository.Rows.{serialize}
use timetrack.Entries.Repository.Upsert
use timetrack.Entries.Repository.Upsert.{synced_row, is_stale, retire_stale_running, taken_over}
use timetrack.Entries.Index.{IsIndexed}
use timetrack.Entries.Known.{upsert-known, synced_db}
use timetrack.Entries.Fresh.{relieved}

-- The stored row after the sync: the body's end, note and platform, where it says one, and a
-- heartbeat now.
abbrev pub later_row : (now : ℕ) → CreateTimeEntry → Entry → Entry
later_row now dto e = record e {
  end_time = elim dto.end_time [ none ↦ e.end_time | some t ↦ some t.at ];
  note = elim dto.note [ none ↦ e.note | some n ↦ some n ];
  platform = elim dto.platform [ none ↦ e.platform | some p ↦ p ];
  heartbeat_at = some now;
}

-- Any row after the sync: other rows of the user may be closed where the sync opens a span.
abbrev pub row_after : (freshness_seconds now : ℕ) → CreateTimeEntry → ℕ → Entry → Entry
row_after freshness_seconds now dto user_id e =
    if e.id == dto.id
    then later_row now dto e
    else if is_some dto.end_time
    then e
    else relieved freshness_seconds user_id now e

synced-later :
    (now : ℕ) (dto : CreateTimeEntry) (e : Entry) → synced_row dto now e ≡ later_row now dto e
unfolding synced_row
synced-later now dto e = ground arith

rows-retired :
    (freshness_seconds now : ℕ) (dto : CreateTimeEntry) (user_id : ℕ) (rows : List Entry)
    → dto.end_time ≡ none
    → modify_row dto.id
        (synced_row dto now)
        (retire_stale_running freshness_seconds user_id dto.id now rows)
      ≡ map (row_after freshness_seconds now dto user_id) rows
unfolding modify_row retire_stale_running is_stale
rows-retired freshness_seconds now dto user_id [] h = refl
rows-retired freshness_seconds now dto user_id (e ∷ rows) h =
    ground (arith, h, synced-later now dto e, rows-retired freshness_seconds now dto user_id rows h)

rows-kept :
    (freshness_seconds now : ℕ) (dto : CreateTimeEntry) (user_id : ℕ) (rows : List Entry)
    → is_some dto.end_time ≡ true
    → modify_row dto.id (synced_row dto now) rows
      ≡ map (row_after freshness_seconds now dto user_id) rows
unfolding modify_row
rows-kept freshness_seconds now dto user_id [] h = refl
rows-kept freshness_seconds now dto user_id (e ∷ rows) h =
    ground (arith, h, synced-later now dto e, rows-kept freshness_seconds now dto user_id rows h)

opened :
    (freshness_seconds now : ℕ) (dto : CreateTimeEntry) (user_id : ℕ) (rows : List Entry)
    → dto.end_time ≡ none
    → taken_over freshness_seconds now dto user_id rows
      ≡ retire_stale_running freshness_seconds user_id dto.id now rows
unfolding taken_over
opened freshness_seconds now dto user_id rows h = ground (arith, h)

closed :
    (freshness_seconds now : ℕ) (dto : CreateTimeEntry) (user_id : ℕ) (rows : List Entry)
    → is_some dto.end_time ≡ true
    → taken_over freshness_seconds now dto user_id rows ≡ rows
unfolding taken_over
closed freshness_seconds now dto user_id rows h = ground (arith, h)

synced-rows :
    (freshness_seconds now : ℕ) (dto : CreateTimeEntry) (user_id : ℕ) (db : Db)
    → (synced_db freshness_seconds now dto user_id db).entries
      ≡ map (row_after freshness_seconds now dto user_id) db.entries
synced-rows freshness_seconds now dto user_id db = elim (Option-cases dto.end_time) [
  | inl opens ↦
      ap (modify_row dto.id (synced_row dto now))
        (opened freshness_seconds now dto user_id db.entries opens)
      ∙ rows-retired freshness_seconds now dto user_id db.entries opens
  | inr (t, closes) ↦
      let is_closed : is_some dto.end_time ≡ true = rw closes refl in
      ap (modify_row dto.id (synced_row dto now))
        (closed freshness_seconds now dto user_id db.entries is_closed)
      ∙ rows-kept freshness_seconds now dto user_id db.entries is_closed
]

-- A sync whose id is stored is never refused by the one-running index. If the row belongs to the
-- caller, the sync succeeds and answers with the row: its end, note and platform are those of the
-- body where the body says one and else as they were, so that a closed row stays closed; its
-- heartbeat is now, and its other columns are kept. The user's other open entries without evidence
-- of life are closed if the body is open, and nothing else changes. If the row belongs to another
-- user, the sync is refused as a conflict of ownership.
pub upsert-syncs :
    (freshness_seconds now : ℕ) (dto : CreateTimeEntry) (user_id : ℕ) (subproject_id : Option ℕ)
    (db : Db) (e : Entry)
    → IsIndexed db.entries
    → find_row dto.id db.entries ≡ some e
    → Upsert.upsert freshness_seconds now dto user_id subproject_id db ≡ (
        if e.user_id == user_id
        then ok (
          serialize (later_row now dto e),
          record db { entries = map (row_after freshness_seconds now dto user_id) db.entries },
        )
        else err ownership_conflict)
upsert-syncs freshness_seconds now dto user_id subproject_id db e h found =
    rw (← synced-later now dto e, ← synced-rows freshness_seconds now dto user_id db)
      (upsert-known freshness_seconds now dto user_id subproject_id db e h found)
