-- ===== src/Entries/Isolation.antt =====
-- The rows of one user under the writes of time-entries.repository.ts for another.
pub mod Requests
use timetrack.Prelude.{
  ℕ, ◌≡◌, ◌≢◌, refl, sym, subst, ap, ◌∙◌, Bool, true, false, not, ◌&&◌, ◌||◌, Option, none, some,
  List, [], ◌∷◌, arith, ◌==◌, if◌then◌else◌, or_else, filter, All, Bool-cases, Option-cases, inl,
  inr, is_some,
}
use timetrack.Errors.{Error, Result, ok, err, ◌>>=◌, ◌>>◌}
use timetrack.Access.{Role, User, SessionUser, assert_can_access_user}
use timetrack.Entries.Model.{
  Entry, TimeEntry, CreateTimeEntry, CreateManualTimeEntry, UpdateTimeEntry, Changes, Db,
}
use timetrack.Entries.Table.{
  has_id, find_row, modify_row, stamp_team, insert_row, update_row, delete_row,
}
use timetrack.Entries.Repository.Rows.{serialize}
use timetrack.Entries.Repository.Upsert
use timetrack.Entries.Repository.Upsert.{
  created_row, synced_row, upsert_entry, is_stale, retire_stale_running, taken_over, commit_upsert,
}
use timetrack.Entries.Repository.Writes
use timetrack.Entries.Repository.Writes.{manual_row, edited_row}
use timetrack.Entries.Index.{IsIndexed, Apart, modify_row-absent, delete_row-absent, absent_of}
use timetrack.Entries.Known.{upsert-known, find_row-taken_over, synced_db}
use timetrack.Entries.Invariant.{find_row-id, synced_row-keeps, taken_over-IsIndexed}
use timetrack.Entries.Fresh.{upsert-new_rows}

-- The rows of one user, in table order.
abbrev pub owned : ℕ → List Entry → List Entry
owned user_id rows = filter (λ e. e.user_id == user_id) rows

module _ (u : ℕ) where
  owned-retire :
      (freshness_seconds user_id except_id now : ℕ) (rows : List Entry)
      → user_id ≢ u
      → owned u (retire_stale_running freshness_seconds user_id except_id now rows) ≡ owned u rows
  unfolding retire_stale_running
  owned-retire freshness_seconds user_id except_id now [] ne = refl
  owned-retire freshness_seconds user_id except_id now (e ∷ rows) ne =
      ground (arith, owned-retire freshness_seconds user_id except_id now rows)

  pub owned-taken_over :
      (freshness_seconds now : ℕ) (dto : CreateTimeEntry) (user_id : ℕ) (rows : List Entry)
      → user_id ≢ u
      → owned u (taken_over freshness_seconds now dto user_id rows) ≡ owned u rows
  unfolding taken_over
  owned-taken_over freshness_seconds now dto user_id rows ne =
      ground (arith, owned-retire freshness_seconds user_id dto.id now rows)

  -- An update of a row that is another user's.
  pub owned-modify :
      (e : Entry) (f : Entry → Entry) (rows : List Entry)
      → (f e).user_id ≡ e.user_id
      → e.user_id ≢ u
      → find_row e.id rows ≡ some e
      → IsIndexed rows
      → owned u (modify_row e.id f rows) ≡ owned u rows
  unfolding find_row modify_row
  owned-modify e f [] keeps ne found h = refl
  owned-modify e f (r ∷ rows) keeps ne found h = elim (Bool-cases (has_id e.id r)) [
    | inl same ↦
        let q : r ≡ e = ground arith in
        ground (
          arith,
          modify_row-absent e.id f rows (absent_of e rows (subst (λ y. All (Apart y) rows) q h.0)),
        )
    | inr other ↦ ground (arith, owned-modify e f rows keeps ne)
  ]

  pub owned-delete :
      (e : Entry) (rows : List Entry)
      → e.user_id ≢ u
      → find_row e.id rows ≡ some e
      → IsIndexed rows
      → owned u (delete_row e.id rows) ≡ owned u rows
  unfolding find_row delete_row
  owned-delete e [] ne found h = refl
  owned-delete e (r ∷ rows) ne found h = elim (Bool-cases (has_id e.id r)) [
    | inl same ↦
        let q : r ≡ e = ground arith in
        ground (
          arith,
          delete_row-absent e.id rows (absent_of e rows (subst (λ y. All (Apart y) rows) q h.0)),
        )
    | inr other ↦ ground (arith, owned-delete e rows ne)
  ]

  owned-created :
      (users : List User) (dto : CreateTimeEntry) (user_id : ℕ) (subproject_id : Option ℕ) (now : ℕ)
      (rows : List Entry)
      → user_id ≢ u
      → owned u (stamp_team users (created_row dto user_id subproject_id now) ∷ rows) ≡ owned u rows
  unfolding stamp_team created_row
  owned-created users dto user_id subproject_id now rows ne = ground arith

  owned-synced :
      (freshness_seconds now : ℕ) (dto : CreateTimeEntry) (user_id : ℕ) (db : Db) (e : Entry)
      → user_id ≢ u
      → find_row dto.id db.entries ≡ some e
      → IsIndexed db.entries
      → e.user_id ≡ user_id
      → owned u (synced_db freshness_seconds now dto user_id db).entries ≡ owned u db.entries
  owned-synced freshness_seconds now dto user_id db e ne found h own =
      let rows = taken_over freshness_seconds now dto user_id db.entries in
      let here = find_row-taken_over freshness_seconds now dto user_id db.entries ∙ found in
      let same = find_row-id dto.id rows {e = e} here in
      subst (λ i. owned u (modify_row i (synced_row dto now) rows) ≡ owned u db.entries) same
        (owned-modify e (synced_row dto now) rows (synced_row-keeps dto now e).1
            (λ q. ne (sym own ∙ q)) (subst (λ i. find_row i rows ≡ some e) (sym same) here)
            (taken_over-IsIndexed freshness_seconds now dto user_id db.entries h)
          ∙ owned-taken_over freshness_seconds now dto user_id db.entries ne)

  pub owned-upsert :
      (freshness_seconds now : ℕ) (dto : CreateTimeEntry) (user_id : ℕ) (subproject_id : Option ℕ)
      (db : Db) {reply : TimeEntry × Db}
      → user_id ≢ u
      → IsIndexed db.entries
      → Upsert.upsert freshness_seconds now dto user_id subproject_id db ≡ ok reply
      → owned u reply.1.entries ≡ owned u db.entries
  owned-upsert freshness_seconds now dto user_id subproject_id db {reply = reply} ne h w =
      elim (Option-cases (find_row dto.id db.entries)) [
        | inl missing ↦ ground (
          arith,
          upsert-new_rows freshness_seconds now dto user_id subproject_id db {reply = reply} missing
              w,
          owned-created db.users dto user_id subproject_id now
              (taken_over freshness_seconds now dto user_id db.entries) ne,
          owned-taken_over freshness_seconds now dto user_id db.entries ne,
        )
        | inr (e, found) ↦ ground (
          arith,
          upsert-known freshness_seconds now dto user_id subproject_id db e h found,
          owned-synced freshness_seconds now dto user_id db e ne found h,
        )
      ]

  pub owned-create_manual :
      (now : ℕ) (dto : CreateManualTimeEntry) (user_id actor_id : ℕ) (subproject_id : Option ℕ)
      (db : Db) {reply : TimeEntry × Db}
      → user_id ≢ u
      → Writes.create_manual now dto user_id actor_id subproject_id db ≡ ok reply
      → owned u reply.1.entries ≡ owned u db.entries
  unfolding Writes.create_manual stamp_team
  owned-create_manual now dto user_id actor_id subproject_id db {reply = reply} ne w = ground arith

  pub owned-remove :
      (id actor_id : ℕ) (db : Db) (e : Entry) {reply : Unit {0} × Db}
      → find_row id db.entries ≡ some e
      → e.user_id ≢ u
      → IsIndexed db.entries
      → Writes.remove id actor_id db ≡ ok reply
      → owned u reply.1.entries ≡ owned u db.entries
  unfolding Writes.remove
  owned-remove id actor_id db e {reply = reply} found ne h w =
      let same = find_row-id id db.entries {e = e} found in
      ground (
        arith,
        same,
        owned-delete e db.entries ne (subst (λ i. find_row i db.entries ≡ some e) (sym same) found)
            h,
      )

  pub owned-update :
      (now id : ℕ) (after before : Changes) (actor_id : ℕ) (db : Db) (e : Entry)
      {reply : TimeEntry × Db}
      → find_row id db.entries ≡ some e
      → e.user_id ≢ u
      → IsIndexed db.entries
      → Writes.update now id after before actor_id db ≡ ok reply
      → owned u reply.1.entries ≡ owned u db.entries
  unfolding Writes.update
  owned-update now id after before actor_id db e {reply = reply} found ne h w =
      let same = find_row-id id db.entries {e = e} found in
      ground (
        arith,
        same,
        owned-modify e (edited_row after actor_id now) db.entries refl ne
            (subst (λ i. find_row i db.entries ≡ some e) (sym same) found) h,
      )
