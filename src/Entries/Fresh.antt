-- ===== src/Entries/Fresh.antt =====
-- The sync upsert on an id that is not stored: opening a span, or uploading a closed one.
use timetrack.Prelude.{
  ℕ, ◌+◌, ◌*◌, leb, map, ◌≡◌, refl, ◌∙◌, Bool, false, ◌&&◌, not, Option, none, some, List, [], ◌∷◌,
  arith, ◌==◌, if◌then◌else◌, is_some, any,
}
use timetrack.Errors.{ok, err, running_conflict}
use timetrack.Access.{User}
use timetrack.Entries.Model.{Entry, TimeEntry, CreateTimeEntry, Db}
use timetrack.Entries.Table.{has_id, runs_for, find_row, stamp_team, team_of}
use timetrack.Entries.Repository.Rows.{serialize, last_seen}
use timetrack.Entries.Repository.Upsert
use timetrack.Entries.Repository.Upsert.{
  created_row, upsert_entry, is_stale, retire_stale_running, taken_over, commit_upsert,
}
use timetrack.Entries.Known.{find_row-taken_over}

pub find_row-none :
    (id : ℕ) (rows : List Entry) → find_row id rows ≡ none → any (has_id id) rows ≡ false
unfolding find_row
find_row-none id [] h = refl
find_row-none id (e ∷ rows) h = ground (arith, find_row-none id rows)

-- Evidence of life within the freshness window.
abbrev is_fresh : (freshness_seconds now : ℕ) → Entry → Bool
is_fresh freshness_seconds now e = leb now (last_seen e + freshness_seconds * 1000)

abbrev pub is_live : (freshness_seconds user_id now : ℕ) → Entry → Bool
is_live freshness_seconds user_id now e = runs_for user_id e && is_fresh freshness_seconds now e

-- An abandoned entry of the user, closed at its last evidence.
abbrev pub relieved : (freshness_seconds user_id now : ℕ) → Entry → Entry
relieved freshness_seconds user_id now e =
    if runs_for user_id e && not (is_fresh freshness_seconds now e)
    then record e { end_time = some (last_seen e) }
    else e

retire-map :
    (freshness_seconds user_id id now : ℕ) (rows : List Entry)
    → any (has_id id) rows ≡ false
    → retire_stale_running freshness_seconds user_id id now rows
      ≡ map (relieved freshness_seconds user_id now) rows
unfolding retire_stale_running is_stale
retire-map freshness_seconds user_id id now [] h = refl
retire-map freshness_seconds user_id id now (e ∷ rows) h =
    ground (arith, retire-map freshness_seconds user_id id now rows)

runs-relieved :
    (freshness_seconds user_id now : ℕ) (rows : List Entry)
    → any (runs_for user_id) (map (relieved freshness_seconds user_id now) rows)
      ≡ any (is_live freshness_seconds user_id now) rows
runs-relieved freshness_seconds user_id now [] = refl
runs-relieved freshness_seconds user_id now (e ∷ rows) =
    ground (arith, runs-relieved freshness_seconds user_id now rows)

-- The rows before the write, after the takeover.
abbrev pub prepared : (freshness_seconds now : ℕ) → CreateTimeEntry → ℕ → List Entry → List Entry
prepared freshness_seconds now dto user_id rows =
    if is_some dto.end_time then rows else map (relieved freshness_seconds user_id now) rows

pub taken_over-map :
    (freshness_seconds now : ℕ) (dto : CreateTimeEntry) (user_id : ℕ) (rows : List Entry)
    → find_row dto.id rows ≡ none
    → taken_over freshness_seconds now dto user_id rows
      ≡ prepared freshness_seconds now dto user_id rows
unfolding taken_over
taken_over-map freshness_seconds now dto user_id rows missing =
    ground (
      arith,
      retire-map freshness_seconds user_id dto.id now rows,
      find_row-none dto.id rows missing,
    )

-- The tables after the first sync of an entry.
abbrev pub created_db : (freshness_seconds now : ℕ) → CreateTimeEntry → ℕ → Option ℕ → Db → Db
created_db freshness_seconds now dto user_id subproject_id db = record db {
  entries =
      stamp_team db.users (created_row dto user_id subproject_id now)
      ∷ prepared freshness_seconds now dto user_id db.entries;
}

-- Does a live session of the user stand in the way of opening this span?
abbrev pub is_blocked : (freshness_seconds now : ℕ) → CreateTimeEntry → ℕ → Db → Bool
is_blocked freshness_seconds now dto user_id db =
    not (is_some dto.end_time) && any (is_live freshness_seconds user_id now) db.entries

pub upsert-created :
    (freshness_seconds now : ℕ) (dto : CreateTimeEntry) (user_id : ℕ) (subproject_id : Option ℕ)
    (db : Db)
    → find_row dto.id db.entries ≡ none
    → Upsert.upsert freshness_seconds now dto user_id subproject_id db ≡ (
        if is_blocked freshness_seconds now dto user_id db
        then err running_conflict
        else ok (
          serialize (created_row dto user_id subproject_id now),
          created_db freshness_seconds now dto user_id subproject_id db,
        ))
unfolding Upsert.upsert
upsert-created freshness_seconds now dto user_id subproject_id db missing =
    let rows = taken_over freshness_seconds now dto user_id db.entries in
    let here : find_row dto.id rows ≡ none =
      find_row-taken_over freshness_seconds now dto user_id db.entries ∙ missing in
    ground (
      arith,
      here,
      find_row-none dto.id rows here,
      taken_over-map freshness_seconds now dto user_id db.entries missing,
      runs-relieved freshness_seconds user_id now db.entries,
    )

pub upsert-new_rows :
    (freshness_seconds now : ℕ) (dto : CreateTimeEntry) (user_id : ℕ) (subproject_id : Option ℕ)
    (db : Db) {reply : TimeEntry × Db}
    → find_row dto.id db.entries ≡ none
    → Upsert.upsert freshness_seconds now dto user_id subproject_id db ≡ ok reply
    → reply.1.entries
      ≡ stamp_team db.users (created_row dto user_id subproject_id now)
        ∷ taken_over freshness_seconds now dto user_id db.entries
upsert-new_rows freshness_seconds now dto user_id subproject_id db {reply = reply} missing w =
    ground (
      arith,
      upsert-created freshness_seconds now dto user_id subproject_id db missing,
      taken_over-map freshness_seconds now dto user_id db.entries missing,
    )

-- The team of the first row of users with the id.
abbrev pub home_team : ℕ → List User → Option ℕ
home_team user_id [] = none
home_team user_id (u ∷ users) = if u.id == user_id then some u.team_id else home_team user_id users

team_of-home : (user_id : ℕ) (users : List User) → team_of user_id users ≡ home_team user_id users
unfolding team_of
team_of-home user_id [] = refl
team_of-home user_id (u ∷ users) = ground (arith, team_of-home user_id users)

-- The row of a first sync: what the body says, of the caller, in their team, seen now.
abbrev pub first_row : (now : ℕ) → CreateTimeEntry → ℕ → Option ℕ → Db → Entry
first_row now dto user_id subproject_id db = record {
  id = dto.id;
  user_id = user_id;
  project_id = dto.project_id;
  task_id = dto.task_id;
  subproject_id = subproject_id;
  start_time = dto.start_time.at;
  end_time = elim dto.end_time [ none ↦ none | some t ↦ some t.at ];
  source = dto.source;
  note = dto.note;
  edited_by_id = none;
  edited_at = none;
  heartbeat_at = some now;
  platform = elim dto.platform [ none ↦ none | some p ↦ p ];
  team_id = home_team user_id db.users;
}

created-first :
    (now : ℕ) (dto : CreateTimeEntry) (user_id : ℕ) (subproject_id : Option ℕ) (db : Db)
    → stamp_team db.users (created_row dto user_id subproject_id now)
      ≡ first_row now dto user_id subproject_id db
unfolding stamp_team created_row
created-first now dto user_id subproject_id db = ground (arith, team_of-home user_id db.users)

serialize-first :
    (now : ℕ) (dto : CreateTimeEntry) (user_id : ℕ) (subproject_id : Option ℕ) (db : Db)
    → serialize (created_row dto user_id subproject_id now)
      ≡ serialize (first_row now dto user_id subproject_id db)
unfolding serialize created_row
serialize-first now dto user_id subproject_id db = ground arith

-- The first sync of an entry is refused, as a conflict of running entries, exactly when it opens a
-- span while some open entry of the same user has given evidence of life within the freshness
-- window. Otherwise it succeeds and answers with the new entry: the caller's, with the times, the
-- assignment, the source, the note and the platform of the body, the given subproject, the team of
-- its user and a heartbeat now. The user's open entries without such evidence are closed at their
-- last evidence if it opens a span, and nothing else changes.
pub upsert-new :
    (freshness_seconds now : ℕ) (dto : CreateTimeEntry) (user_id : ℕ) (subproject_id : Option ℕ)
    (db : Db)
    → find_row dto.id db.entries ≡ none
    → Upsert.upsert freshness_seconds now dto user_id subproject_id db ≡ (
        if is_blocked freshness_seconds now dto user_id db
        then err running_conflict
        else ok (
          serialize (first_row now dto user_id subproject_id db),
          record db {
            entries =
                first_row now dto user_id subproject_id db
                ∷ prepared freshness_seconds now dto user_id db.entries;
          },
        ))
upsert-new freshness_seconds now dto user_id subproject_id db missing =
    rw
      (
        ← serialize-first now dto user_id subproject_id db,
        ← created-first now dto user_id subproject_id db,
      )
      (upsert-created freshness_seconds now dto user_id subproject_id db missing)
