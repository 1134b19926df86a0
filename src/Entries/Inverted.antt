-- ===== src/Entries/Inverted.antt =====
-- The sync path checks the two ends of the body, and never the body's end against the stored start.
use timetrack.Prelude.{
  ℕ, ◌<◌, ◌≡◌, refl, ◌∙◌, true, Option, none, some, arith, or_else, or_option, Bool-cases, inl, inr,
}
use timetrack.Errors.{ok}
use timetrack.Access.{SessionUser}
use timetrack.Entries.Model.{Iso, Entry, CreateTimeEntry, Db}
use timetrack.Entries.Schema.{create_accepts}
use timetrack.Entries.Table.{find_row}
use timetrack.Entries.Repository.Reads.{subproject_candidates}
use timetrack.Entries.Repository.Upsert.{synced_row, taken_over}
use timetrack.Entries.Service
use timetrack.Entries.Service.{Mode, lenient, resolve_subproject}
use timetrack.Entries.Requests.{Request, handle}
use timetrack.Entries.Index.{IsIndexed}
use timetrack.Entries.Known.{upsert-known, find_row-taken_over, synced_db}
use timetrack.Entries.Retry.{find_row-modify}

-- The lenient resolution refuses nothing.
resolves_lenient :
    (project_id task_id requested : Option ℕ) (db : Db)
    → (s : Option ℕ) × (resolve_subproject project_id task_id requested lenient db ≡ ok s)
unfolding resolve_subproject
resolves_lenient none task_id requested db = (none, refl)
resolves_lenient (some p) task_id none db =
    let c = subproject_candidates p task_id none db in
    (or_option c.task_subproject_id c.default_id, refl)
resolves_lenient (some p) task_id (some s) db =
    let c = subproject_candidates p task_id (some s) db in
    elim (Bool-cases c.requested_belongs) [
      | inl belongs ↦ (some s, rw belongs refl)
      | inr foreign ↦ (or_option c.task_subproject_id c.default_id, rw foreign refl)
    ]

-- A sync of a stored entry of the caller's own, as the route answers it.
handle-known :
    (freshness_seconds now : ℕ) (actor : SessionUser) (dto : CreateTimeEntry) (db : Db) (e : Entry)
    → IsIndexed db.entries
    → create_accepts dto ≡ true
    → find_row dto.id db.entries ≡ some e
    → e.user_id ≡ actor.id
    → handle freshness_seconds now actor (Request.upsert dto) db
      ≡ ok (synced_db freshness_seconds now dto actor.id db)
unfolding handle Service.upsert
handle-known freshness_seconds now actor dto db e h accepted found own =
    let (s, resolved) =
      resolves_lenient dto.project_id dto.task_id (or_else dto.subproject_id none) db in
    ground
      (arith, accepted, resolved, upsert-known freshness_seconds now dto actor.id s db e h found)

-- Let an entry be stored with a start that lies after the end of a sync body for it, as when its
-- start was edited while the client still held the old one. If the body is well-formed and comes
-- from the entry's owner, the sync is accepted, and the stored entry then ends before it starts.
pub sync_inverts :
    (freshness_seconds now : ℕ) (actor : SessionUser) (dto : CreateTimeEntry) (db : Db) (e : Entry)
    (end : Iso)
    → IsIndexed db.entries
    → create_accepts dto ≡ true
    → find_row dto.id db.entries ≡ some e
    → e.user_id ≡ actor.id
    → dto.end_time ≡ some end
    → end.at < e.start_time
    → (db' : Db) × (e' : Entry) × (handle freshness_seconds now actor (Request.upsert dto) db
        ≡ ok db')
      × (find_row dto.id db'.entries ≡ some e')
      × (e'.end_time ≡ some end.at)
      × (end.at < e'.start_time)
unfolding synced_row
sync_inverts freshness_seconds now actor dto db e end h accepted found own ends late = (
  synced_db freshness_seconds now dto actor.id db,
  synced_row dto now e,
  handle-known freshness_seconds now actor dto db e h accepted found own,
  find_row-modify dto.id (synced_row dto now)
      (taken_over freshness_seconds now dto actor.id db.entries) {e = e} (λ r. refl)
      (find_row-taken_over freshness_seconds now dto actor.id db.entries ∙ found),
  ground arith,
  late,
)
