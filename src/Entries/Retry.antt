-- ===== src/Entries/Retry.antt =====
-- A retried sync is a no-op, and a later sync never undoes what is stored.
use timetrack.Prelude.{
  ℕ, suc, ◌≡◌, refl, ap, ◌∙◌, Option, none, some, List, [], ◌∷◌, arith, or_option, length,
  Option-cases, inl, inr,
}
use timetrack.Errors.{ok}
use timetrack.Entries.Model.{Entry, TimeEntry, CreateTimeEntry, Db}
use timetrack.Entries.Table.{find_row, modify_row, stamp_team}
use timetrack.Entries.Repository.Rows.{serialize, at?}
use timetrack.Entries.Repository.Upsert
use timetrack.Entries.Repository.Upsert.{
  created_row, synced_row, is_stale, retire_stale_running, taken_over,
}
use timetrack.Entries.Index.{IsIndexed}
use timetrack.Entries.Invariant.{find_row-id, upsert-IsIndexed}
use timetrack.Entries.Known.{upsert-known, find_row-taken_over, synced_db}
use timetrack.Entries.Fresh.{upsert-created}

-- The row already says what the body says.
abbrev pub Reflects : CreateTimeEntry → Entry → Type 0
Reflects dto e =
    (e.id ≡ dto.id)
    × (or_option (at? dto.end_time) e.end_time ≡ e.end_time)
    × (or_option dto.note e.note ≡ e.note)

pub find_row-modify :
    (id : ℕ) (f : Entry → Entry) (rows : List Entry) {e : Entry}
    → ((r : Entry) → (f r).id ≡ r.id)
    → find_row id rows ≡ some e
    → find_row id (modify_row id f rows) ≡ some (f e)
unfolding find_row modify_row
find_row-modify id f [] keeps h = cc
find_row-modify id f (r ∷ rows) {e = e} keeps h =
    ground (arith, keeps r, find_row-modify id f rows {e = e} keeps)

-- What a successful sync has left under its id.
abbrev pub Stored : CreateTimeEntry → ℕ → TimeEntry → Db → Entry → Type 0
Stored dto user_id reply db e =
    (find_row dto.id db.entries ≡ some e)
    × (e.user_id ≡ user_id)
    × (serialize e ≡ reply)
    × Reflects dto e

created-Stored :
    (freshness_seconds now : ℕ) (dto : CreateTimeEntry) (user_id : ℕ) (subproject_id : Option ℕ)
    (db : Db) {reply : TimeEntry × Db}
    → find_row dto.id db.entries ≡ none
    → Upsert.upsert freshness_seconds now dto user_id subproject_id db ≡ ok reply
    → Stored dto user_id reply.0 reply.1
        (stamp_team db.users (created_row dto user_id subproject_id now))
unfolding stamp_team created_row find_row serialize
created-Stored freshness_seconds now dto user_id subproject_id db {reply = reply} missing w =
    ground (arith, upsert-created freshness_seconds now dto user_id subproject_id db missing)

synced-Stored :
    (freshness_seconds now : ℕ) (dto : CreateTimeEntry) (user_id : ℕ) (subproject_id : Option ℕ)
    (db : Db) (e : Entry) {reply : TimeEntry × Db}
    → IsIndexed db.entries
    → find_row dto.id db.entries ≡ some e
    → Upsert.upsert freshness_seconds now dto user_id subproject_id db ≡ ok reply
    → Stored dto user_id reply.0 reply.1 (synced_row dto now e)
unfolding synced_row
synced-Stored freshness_seconds now dto user_id subproject_id db e {reply = reply} h found w =
    let rows = taken_over freshness_seconds now dto user_id db.entries in
    let here = find_row-taken_over freshness_seconds now dto user_id db.entries ∙ found in
    ground (
      arith,
      upsert-known freshness_seconds now dto user_id subproject_id db e h found,
      find_row-id dto.id db.entries {e = e} found,
      find_row-modify dto.id (synced_row dto now) rows {e = e} (λ r. refl) here,
    )

length-modify :
    (id : ℕ) (f : Entry → Entry) (rows : List Entry) → length (modify_row id f rows) ≡ length rows
unfolding modify_row
length-modify id f [] = refl
length-modify id f (e ∷ rows) = ap suc (length-modify id f rows)

length-retire :
    (freshness_seconds user_id except_id now : ℕ) (rows : List Entry)
    → length (retire_stale_running freshness_seconds user_id except_id now rows) ≡ length rows
unfolding retire_stale_running
length-retire freshness_seconds user_id except_id now [] = refl
length-retire freshness_seconds user_id except_id now (e ∷ rows) =
    ap suc (length-retire freshness_seconds user_id except_id now rows)

length-synced :
    (freshness_seconds now : ℕ) (dto : CreateTimeEntry) (user_id : ℕ) (db : Db)
    → length (synced_db freshness_seconds now dto user_id db).entries ≡ length db.entries
unfolding taken_over
length-synced freshness_seconds now dto user_id db = ground (
  arith,
  length-modify dto.id (synced_row dto now)
      (taken_over freshness_seconds now dto user_id db.entries),
  length-retire freshness_seconds user_id dto.id now db.entries,
)

resync :
    (freshness_seconds now : ℕ) (dto : CreateTimeEntry) (user_id : ℕ) (subproject_id : Option ℕ)
    (e : Entry) (reply : TimeEntry × Db)
    → Stored dto user_id reply.0 reply.1 e
    → IsIndexed reply.1.entries
    → Upsert.upsert freshness_seconds now dto user_id subproject_id reply.1
      ≡ ok (reply.0, synced_db freshness_seconds now dto user_id reply.1)
unfolding synced_row serialize
resync freshness_seconds now dto user_id subproject_id e reply s h =
    ground (arith, upsert-known freshness_seconds now dto user_id subproject_id reply.1 e h s.0)

-- A sync that succeeded, repeated by the same user on the tables that it left, at whatever time,
-- succeeds again: its answer is the one of the first time, and the table has the same number of
-- entries.
pub upsert-retry :
    (freshness_seconds now later : ℕ) (dto : CreateTimeEntry) (user_id : ℕ)
    (subproject_id retried_id : Option ℕ) (db : Db) {reply : TimeEntry × Db}
    → IsIndexed db.entries
    → Upsert.upsert freshness_seconds now dto user_id subproject_id db ≡ ok reply
    → (Upsert.upsert freshness_seconds later dto user_id retried_id reply.1
        ≡ ok (reply.0, synced_db freshness_seconds later dto user_id reply.1))
      × (length (synced_db freshness_seconds later dto user_id reply.1).entries
          ≡ length reply.1.entries)
upsert-retry freshness_seconds now later dto user_id subproject_id retried_id db {reply = reply} h
      w =
    let h' = upsert-IsIndexed freshness_seconds now dto user_id subproject_id db h w in
    let again : Upsert.upsert freshness_seconds later dto user_id retried_id reply.1
        ≡ ok (reply.0, synced_db freshness_seconds later dto user_id reply.1) =
      elim (Option-cases (find_row dto.id db.entries)) [
        | inl missing ↦
            resync freshness_seconds later dto user_id retried_id
              (stamp_team db.users (created_row dto user_id subproject_id now)) reply
              (created-Stored freshness_seconds now dto user_id subproject_id db missing w) h'
        | inr (e, found) ↦
            resync freshness_seconds later dto user_id retried_id (synced_row dto now e) reply
              (synced-Stored freshness_seconds now dto user_id subproject_id db e h found w) h'
      ] in
    (again, length-synced freshness_seconds later dto user_id reply.1)
