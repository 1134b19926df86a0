-- ===== src/Entries/Invariant.antt =====
-- Every request keeps ids unique and at most one open entry per user.
use timetrack.Prelude.{
  ℕ, ◌≡◌, refl, Option, some, List, [], ◌∷◌, arith, Option-cases, inl, inr, sym, subst,
}
use timetrack.Errors.{ok}
use timetrack.Access.{User}
use timetrack.Entries.Model.{Entry, TimeEntry, CreateTimeEntry, CreateManualTimeEntry, Changes, Db}
use timetrack.Entries.Table.{find_row, insert_row, update_row}
use timetrack.Entries.Repository.Upsert
use timetrack.Entries.Repository.Upsert.{
  created_row, synced_row, upsert_entry, is_stale, retire_stale_running, taken_over, commit_upsert,
}
use timetrack.Entries.Repository.Writes
use timetrack.Entries.Repository.Writes.{manual_row, edited_row}
use timetrack.Entries.Index.{
  IsIndexed, Synced, Synced-IsIndexed, insert_row-IsIndexed, update-IsIndexed, delete_row-IsIndexed,
}

pub Synced-refl : (rows : List Entry) → Synced rows rows
Synced-refl [] = tt
Synced-refl (e ∷ rows) = ((refl, refl, λ p. p), Synced-refl rows)

pub retire-Synced :
    (freshness_seconds user_id except_id now : ℕ) (rows : List Entry)
    → Synced rows (retire_stale_running freshness_seconds user_id except_id now rows)
unfolding retire_stale_running
retire-Synced freshness_seconds user_id except_id now [] = tt
retire-Synced freshness_seconds user_id except_id now (e ∷ rows) =
    (ground arith, retire-Synced freshness_seconds user_id except_id now rows)

pub taken_over-IsIndexed :
    (freshness_seconds now : ℕ) (dto : CreateTimeEntry) (user_id : ℕ) (rows : List Entry)
    → IsIndexed rows
    → IsIndexed (taken_over freshness_seconds now dto user_id rows)
unfolding taken_over
taken_over-IsIndexed freshness_seconds now dto user_id rows h =
    Synced-IsIndexed rows (taken_over freshness_seconds now dto user_id rows)
      (ground (arith, Synced-refl rows, retire-Synced freshness_seconds user_id dto.id now rows)) h

update_row-IsIndexed :
    (e : Entry) (f : Entry → Entry) (rows : List Entry) {rows' : List Entry}
    → ((f e).id ≡ e.id) × ((f e).user_id ≡ e.user_id)
    → find_row e.id rows ≡ some e
    → IsIndexed rows
    → update_row e f rows ≡ some rows'
    → IsIndexed rows'
unfolding update_row
update_row-IsIndexed e f rows keeps found h w =
    ground (arith, update-IsIndexed e f keeps rows found)

-- The row that a lookup finds has the id that was looked up.
pub find_row-id : (id : ℕ) (rows : List Entry) {e : Entry} → find_row id rows ≡ some e → e.id ≡ id
unfolding find_row
find_row-id id [] h = cc
find_row-id id (r ∷ rows) {e = e} h = ground (arith, find_row-id id rows {e = e})

pub synced_row-keeps :
    (dto : CreateTimeEntry) (now : ℕ) (e : Entry)
    → ((synced_row dto now e).id ≡ e.id) × ((synced_row dto now e).user_id ≡ e.user_id)
unfolding synced_row
synced_row-keeps dto now e = (refl, refl)

pub edited_row-keeps :
    (after : Changes) (actor_id now : ℕ) (e : Entry)
    → ((edited_row after actor_id now e).id ≡ e.id)
      × ((edited_row after actor_id now e).user_id ≡ e.user_id)
unfolding edited_row
edited_row-keeps after actor_id now e = (refl, refl)

upsert_entry-IsIndexed :
    (users : List User) (dto : CreateTimeEntry) (user_id : ℕ) (subproject_id : Option ℕ) (now : ℕ)
    (rows : List Entry) {row : Entry} {rows' : List Entry}
    → IsIndexed rows
    → upsert_entry users dto user_id subproject_id now rows ≡ some (row, rows')
    → IsIndexed rows'
unfolding upsert_entry
upsert_entry-IsIndexed users dto user_id subproject_id now rows {rows' = rows'} h w =
    elim (Option-cases (find_row dto.id rows)) [
      | inl new ↦ ground (
        arith,
        insert_row-IsIndexed users (created_row dto user_id subproject_id now) rows {rows' = rows'}
            h,
      )
      | inr (e, found) ↦ ground (
        arith,
        find_row-id dto.id rows {e = e} found,
        update_row-IsIndexed e (synced_row dto now) rows {rows' = rows'}
            (synced_row-keeps dto now e),
      )
    ]

pub upsert-IsIndexed :
    (freshness_seconds now : ℕ) (dto : CreateTimeEntry) (user_id : ℕ) (subproject_id : Option ℕ)
    (db : Db) {reply : TimeEntry × Db}
    → IsIndexed db.entries
    → Upsert.upsert freshness_seconds now dto user_id subproject_id db ≡ ok reply
    → IsIndexed reply.1.entries
unfolding Upsert.upsert
upsert-IsIndexed freshness_seconds now dto user_id subproject_id db {reply = reply} h w =
    let rows = taken_over freshness_seconds now dto user_id db.entries in
    elim (Option-cases (upsert_entry db.users dto user_id subproject_id now rows)) [
      | inl refused ↦ ground arith
      | inr ((row, rows'), written) ↦ ground (
        arith,
        upsert_entry-IsIndexed db.users dto user_id subproject_id now rows
            (taken_over-IsIndexed freshness_seconds now dto user_id db.entries h) written,
      )
    ]

pub create_manual-IsIndexed :
    (now : ℕ) (dto : CreateManualTimeEntry) (user_id actor_id : ℕ) (subproject_id : Option ℕ)
    (db : Db) {reply : TimeEntry × Db}
    → IsIndexed db.entries
    → Writes.create_manual now dto user_id actor_id subproject_id db ≡ ok reply
    → IsIndexed reply.1.entries
unfolding Writes.create_manual
create_manual-IsIndexed now dto user_id actor_id subproject_id db {reply = reply} h w =
    let row = manual_row dto user_id actor_id subproject_id now in
    elim (Option-cases (insert_row db.users row db.entries)) [
      | inl refused ↦ ground arith
      | inr (rows', written) ↦
          ground (arith, insert_row-IsIndexed db.users row db.entries h written)
    ]

pub remove-IsIndexed :
    (id actor_id : ℕ) (db : Db) {reply : Unit {0} × Db}
    → IsIndexed db.entries
    → Writes.remove id actor_id db ≡ ok reply
    → IsIndexed reply.1.entries
unfolding Writes.remove
remove-IsIndexed id actor_id db {reply = reply} h w =
    ground (arith, delete_row-IsIndexed id db.entries h)

pub update_lem-IsIndexed :
    (now id : ℕ) (after before : Changes) (actor_id : ℕ) (db : Db) {reply : TimeEntry × Db}
    → IsIndexed db.entries
    → Writes.update now id after before actor_id db ≡ ok reply
    → IsIndexed reply.1.entries
unfolding Writes.update
update_lem-IsIndexed now id after before actor_id db {reply = reply} h w =
    elim (Option-cases (find_row id db.entries)) [
      | inl missing ↦ ground arith
      | inr (e, found) ↦
          elim (Option-cases (update_row e (edited_row after actor_id now) db.entries)) [
            | inl refused ↦ ground arith
            | inr (rows', written) ↦ ground (
              arith,
              find_row-id id db.entries {e = e} found,
              update_row-IsIndexed e (edited_row after actor_id now) db.entries {rows' = rows'}
                  (edited_row-keeps after actor_id now e)
                  (subst (λ i. find_row i db.entries ≡ some e)
                    (sym (find_row-id id db.entries {e = e} found)) found)
                  h written,
            )
          ]
    ]
