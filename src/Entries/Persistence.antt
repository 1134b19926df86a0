-- ===== src/Entries/Persistence.antt =====
-- What a sync may change of an entry that is stored.
use timetrack.Prelude.{
  ℕ, ◌≡◌, ◌≢◌, refl, sym, subst, ◌∙◌, true, false, Option, none, some, List, [], ◌∷◌, arith, ◌==◌,
  if◌then◌else◌, Option-cases, inl, inr, Bool-cases, is_some, ==→eq,
}
use timetrack.Errors.{ok}
use timetrack.Entries.Model.{Entry, TimeEntry, CreateTimeEntry, Db}
use timetrack.Entries.Table.{find_row, modify_row, stamp_team}
use timetrack.Entries.Repository.Rows.{last_seen}
use timetrack.Entries.Repository.Upsert
use timetrack.Entries.Repository.Upsert.{
  created_row, synced_row, is_stale, retire_stale_running, taken_over,
}
use timetrack.Entries.Index.{IsIndexed}
use timetrack.Entries.Invariant.{synced_row-keeps}
use timetrack.Entries.Known.{upsert-known}
use timetrack.Entries.Fresh.{upsert-new_rows}
use timetrack.Entries.Retry.{find_row-modify}

-- The entry is still what it was, but for a close, a heartbeat, a platform and a note.
pub record Persists (e e' : Entry) : Type 0 where
  pub id : e'.id ≡ e.id
  pub user_id : e'.user_id ≡ e.user_id
  pub project_id : e'.project_id ≡ e.project_id
  pub task_id : e'.task_id ≡ e.task_id
  pub subproject_id : e'.subproject_id ≡ e.subproject_id
  pub start_time : e'.start_time ≡ e.start_time
  pub source : e'.source ≡ e.source
  pub closed : is_some e.end_time ≡ true → is_some e'.end_time ≡ true
  pub noted : is_some e.note ≡ true → is_some e'.note ≡ true
  pub edited_by_id : e'.edited_by_id ≡ e.edited_by_id
  pub team_id : e'.team_id ≡ e.team_id

-- The row of an id after the takeover.
abbrev retired : (freshness_seconds user_id except_id now : ℕ) → Entry → Entry
retired freshness_seconds user_id except_id now e =
    if is_stale freshness_seconds user_id except_id now e
    then record e { end_time = some (last_seen e) }
    else e

retired-Persists :
    (freshness_seconds user_id except_id now : ℕ) (e : Entry)
    → Persists e (retired freshness_seconds user_id except_id now e)
unfolding is_stale
retired-Persists freshness_seconds user_id except_id now e = ground arith

find_row-retired :
    (freshness_seconds user_id except_id now id : ℕ) (rows : List Entry) {e : Entry}
    → find_row id rows ≡ some e
    → find_row id (retire_stale_running freshness_seconds user_id except_id now rows)
      ≡ some (retired freshness_seconds user_id except_id now e)
unfolding find_row retire_stale_running
find_row-retired freshness_seconds user_id except_id now id [] h = cc
find_row-retired freshness_seconds user_id except_id now id (r ∷ rows) {e = e} h =
    ground (arith, find_row-retired freshness_seconds user_id except_id now id rows {e = e})

synced-Persists : (dto : CreateTimeEntry) (now : ℕ) (e : Entry) → Persists e (synced_row dto now e)
unfolding synced_row
synced-Persists dto now e = ground arith

Persists-refl : (e : Entry) → Persists e e
Persists-refl e = ground arith

-- A row of that id is in the table, and what is there persists.
abbrev pub Holds : ℕ → Entry → List Entry → Type 0
Holds id e rows = (e' : Entry) × (find_row id rows ≡ some e') × Persists e e'

taken_over-Holds :
    (freshness_seconds now : ℕ) (dto : CreateTimeEntry) (user_id id : ℕ) (rows : List Entry)
    {e : Entry}
    → find_row id rows ≡ some e
    → Holds id e (taken_over freshness_seconds now dto user_id rows)
unfolding taken_over
taken_over-Holds freshness_seconds now dto user_id id rows {e = e} h =
    elim (Bool-cases (is_some dto.end_time)) [
      | inl closing ↦ rw closing (e, h, Persists-refl e)
      | inr opening ↦ rw opening (
        retired freshness_seconds user_id dto.id now e,
        find_row-retired freshness_seconds user_id dto.id now id rows {e = e} h,
        retired-Persists freshness_seconds user_id dto.id now e,
      )
    ]

pub find_row-other :
    (id other : ℕ) (f : Entry → Entry) (rows : List Entry)
    → id ≢ other
    → ((r : Entry) → (f r).id ≡ r.id)
    → find_row other (modify_row id f rows) ≡ find_row other rows
unfolding find_row modify_row
find_row-other id other f [] ne keeps = refl
find_row-other id other f (r ∷ rows) ne keeps =
    ground (arith, keeps r, find_row-other id other f rows ne keeps)

Persists-trans : (a b c : Entry) → Persists a b → Persists b c → Persists a c
Persists-trans a b c p q = ground arith

synced-Holds :
    (dto : CreateTimeEntry) (now id : ℕ) (e : Entry) (rows : List Entry)
    → Holds id e rows
    → Holds id e (modify_row dto.id (synced_row dto now) rows)
synced-Holds dto now id e rows (r, found, p) = elim (Bool-cases (dto.id == id)) [
  | inl same ↦
      let q = ==→eq dto.id id same in
      (
        synced_row dto now r,
        subst
            (λ i.
              find_row id (modify_row i (synced_row dto now) rows) ≡ some (synced_row dto now r))
            (sym q)
            (find_row-modify id (synced_row dto now) rows {e = r}
              (λ x. (synced_row-keeps dto now x).0) found),
        Persists-trans e r (synced_row dto now r) p (synced-Persists dto now r),
      )
  | inr other ↦ (
    r,
    find_row-other dto.id id (synced_row dto now) rows (λ q. ne_of other q)
          (λ x. (synced_row-keeps dto now x).0)
        ∙ found,
    p,
  )
]
  where
    ne_of : (dto.id == id) ≡ false → dto.id ≡ id → ⊥
    ne_of other q = ground arith

created-Holds :
    (id : ℕ) (e new : Entry) (rows : List Entry)
    → new.id ≢ id
    → Holds id e rows
    → Holds id e (new ∷ rows)
unfolding find_row
created-Holds id e new rows ne (r, found, p) = (r, ground arith, p)

stamped-id :
    (db : Db) (dto : CreateTimeEntry) (user_id : ℕ) (s : Option ℕ) (now : ℕ)
    → (stamp_team db.users (created_row dto user_id s now)).id ≡ dto.id
unfolding stamp_team created_row
stamped-id db dto user_id s now = ground arith

-- After a sync that succeeds, every entry of before is still there, under its id, with its owner,
-- project, task, subproject, start, source, editor and team: no sync deletes or re-assigns an entry,
-- re-opens a closed one, or erases a note.
pub upsert-persists :
    (freshness_seconds now : ℕ) (dto : CreateTimeEntry) (user_id : ℕ) (subproject_id : Option ℕ)
    (db : Db) (id : ℕ) {e : Entry} {reply : TimeEntry × Db}
    → IsIndexed db.entries
    → find_row id db.entries ≡ some e
    → Upsert.upsert freshness_seconds now dto user_id subproject_id db ≡ ok reply
    → Holds id e reply.1.entries
upsert-persists freshness_seconds now dto user_id subproject_id db id {e = e} {reply = reply} h
      found w =
    let rows = taken_over freshness_seconds now dto user_id db.entries in
    let kept = taken_over-Holds freshness_seconds now dto user_id id db.entries {e = e} found in
    elim (Option-cases (find_row dto.id db.entries)) [
      | inl missing ↦
          let ne : dto.id ≢ id = λ q. cc (subst (λ i. find_row i db.entries ≡ none) q missing) in
          let new = stamp_team db.users (created_row dto user_id subproject_id now) in
          let made =
            created-Holds id e new rows
              (λ q. ne (sym (stamped-id db dto user_id subproject_id now) ∙ q)) kept in
          let same : reply.1.entries ≡ new ∷ rows =
            upsert-new_rows freshness_seconds now dto user_id subproject_id db {reply = reply}
              missing w in
          subst (Holds id e) (sym same) made
      | inr (d, known) ↦
          let same : reply.1.entries ≡ modify_row dto.id (synced_row dto now) rows =
            ground
              (arith, upsert-known freshness_seconds now dto user_id subproject_id db d h known) in
          subst (Holds id e) (sym same) (synced-Holds dto now id e rows kept)
    ]
