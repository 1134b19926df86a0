-- ===== src/Entries/Known.antt =====
-- The sync upsert on an id that is stored: a retry, a heartbeat, a close, or a foreign id.
use timetrack.Prelude.{
  ℕ, ◌≡◌, refl, sym, subst, ◌∙◌, false, ◌&&◌, not, Option, none, some, List, [], ◌∷◌, arith, ◌==◌,
  if◌then◌else◌, any, All, Bool-cases, Option-cases, inl, inr,
}
use timetrack.Errors.{ok, err, ownership_conflict}
use timetrack.Entries.Model.{Entry, CreateTimeEntry, Db}
use timetrack.Entries.Table.{has_id, runs_for, find_row, modify_row, update_row}
use timetrack.Entries.Repository.Rows.{serialize}
use timetrack.Entries.Repository.Upsert
use timetrack.Entries.Repository.Upsert.{
  synced_row, upsert_entry, is_stale, retire_stale_running, taken_over, commit_upsert,
}
use timetrack.Entries.Index.{IsIndexed, Apart}
use timetrack.Entries.Invariant.{find_row-id, taken_over-IsIndexed}

-- The takeover leaves the row of the id that is being written as it is.
find_row-retire :
    (freshness_seconds user_id id now : ℕ) (rows : List Entry)
    → find_row id (retire_stale_running freshness_seconds user_id id now rows) ≡ find_row id rows
unfolding find_row retire_stale_running
find_row-retire freshness_seconds user_id id now [] = refl
find_row-retire freshness_seconds user_id id now (e ∷ rows) =
    ground (arith, find_row-retire freshness_seconds user_id id now rows)

pub find_row-taken_over :
    (freshness_seconds now : ℕ) (dto : CreateTimeEntry) (user_id : ℕ) (rows : List Entry)
    → find_row dto.id (taken_over freshness_seconds now dto user_id rows) ≡ find_row dto.id rows
unfolding taken_over
find_row-taken_over freshness_seconds now dto user_id rows =
    ground (arith, find_row-retire freshness_seconds user_id dto.id now rows)

-- What holds of every row holds of the one that is found.
pub at_found :
    (P : Entry → Type 0) (id : ℕ) (rows : List Entry) {e : Entry}
    → All P rows
    → find_row id rows ≡ some e
    → P e
unfolding find_row
at_found P id [] h found = cc
at_found P id (r ∷ rows) {e = e} h found = elim (Bool-cases (has_id id r)) [
  | inl same ↦ let q : r ≡ e = ground arith in subst P q h.0
  | inr other ↦ at_found P id rows {e = e} h.1 (ground arith)
]

idle_beside :
    (e : Entry) (rows : List Entry)
    → e.end_time ≡ none
    → All (Apart e) rows
    → any (λ r. not (has_id e.id r) && runs_for e.user_id r) rows ≡ false
idle_beside e [] o h = refl
idle_beside e (r ∷ rows) o h = ground (arith, idle_beside e rows)

-- The index finds no second running row beside an open row of the table.
open_passes :
    (e : Entry) (rows : List Entry)
    → find_row e.id rows ≡ some e
    → e.end_time ≡ none
    → IsIndexed rows
    → any (λ r. not (has_id e.id r) && runs_for e.user_id r) rows ≡ false
unfolding find_row
open_passes e [] found o h = refl
open_passes e (r ∷ rows) found o h = elim (Bool-cases (has_id e.id r)) [
  | inl same ↦
      let q : r ≡ e = ground arith in
      ground (arith, idle_beside e rows o (subst (λ y. All (Apart y) rows) q h.0))
  | inr other ↦
      let later : find_row e.id rows ≡ some e = ground arith in
      ground (arith, at_found (Apart r) e.id rows {e = e} h.0 later, open_passes e rows later o h.1)
]

-- A stored row is synced whatever the state of the index.
update_synced :
    (e : Entry) (dto : CreateTimeEntry) (now : ℕ) (rows : List Entry)
    → find_row e.id rows ≡ some e
    → IsIndexed rows
    → update_row e (synced_row dto now) rows ≡ some (modify_row e.id (synced_row dto now) rows)
unfolding update_row synced_row
update_synced e dto now rows found h = elim (Option-cases e.end_time) [
  | inl o ↦ ground (arith, open_passes e rows found o h)
  | inr (t, closed) ↦ ground arith
]

-- The tables after a sync of a stored entry.
abbrev pub synced_db : (freshness_seconds now : ℕ) → CreateTimeEntry → ℕ → Db → Db
synced_db freshness_seconds now dto user_id db = record db {
  entries =
      modify_row dto.id (synced_row dto now)
        (taken_over freshness_seconds now dto user_id db.entries);
}

-- A sync whose id is stored is never refused by the one-running index. If the row belongs to the
-- caller, the sync succeeds: it writes the row, closed for good if either says so, and answers
-- with it. If the row belongs to another user, it is refused as a conflict of ownership.
pub upsert-known :
    (freshness_seconds now : ℕ) (dto : CreateTimeEntry) (user_id : ℕ) (subproject_id : Option ℕ)
    (db : Db) (e : Entry)
    → IsIndexed db.entries
    → find_row dto.id db.entries ≡ some e
    → Upsert.upsert freshness_seconds now dto user_id subproject_id db ≡ (
        if e.user_id == user_id
        then ok (serialize (synced_row dto now e), synced_db freshness_seconds now dto user_id db)
        else err ownership_conflict)
unfolding Upsert.upsert
upsert-known freshness_seconds now dto user_id subproject_id db e h found =
    let rows = taken_over freshness_seconds now dto user_id db.entries in
    let here : find_row dto.id rows ≡ some e =
      find_row-taken_over freshness_seconds now dto user_id db.entries ∙ found in
    let same = find_row-id dto.id rows {e = e} here in
    ground (
      arith,
      same,
      here,
      update_synced e dto now rows (subst (λ i. find_row i rows ≡ some e) (sym same) here)
          (taken_over-IsIndexed freshness_seconds now dto user_id db.entries h),
    )
