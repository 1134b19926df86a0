-- ===== src/Entries/Table.antt =====
-- The table time_entries under its constraints: the primary key on id, the partial unique index
-- time_entries_one_running_per_user, and the trigger time_entries_stamp_team
-- (packages/db/prisma/migrations). A refused write (Prisma's P2002) is `none`.
use timetrack.Prelude.{
  ℕ, Bool, ◌&&◌, ◌||◌, not, Option, none, some, List, [], ◌∷◌, ◌==◌, if◌then◌else◌, is_some, any,
}
use timetrack.Access.{User}
use timetrack.Entries.Model.{Entry}

-- "endTime" IS NULL
abbrev pub is_open : Entry → Bool
is_open e = not (is_some e.end_time)

abbrev pub has_id : ℕ → Entry → Bool
has_id id e = e.id == id

-- The rows that the partial index holds for a user.
abbrev pub runs_for : ℕ → Entry → Bool
runs_for user e = (e.user_id == user) && is_open e

-- findUnique by id
unfoldable pub find_row : ℕ → List Entry → Option Entry
find_row id [] = none
find_row id (e ∷ rows) = if has_id id e then some e else find_row id rows

-- UPDATE … WHERE id = …
unfoldable pub modify_row : ℕ → (Entry → Entry) → List Entry → List Entry
modify_row id f [] = []
modify_row id f (e ∷ rows) = (if has_id id e then f e else e) ∷ modify_row id f rows

unfoldable pub team_of : ℕ → List User → Option ℕ
team_of user [] = none
team_of user (u ∷ users) = if u.id == user then some u.team_id else team_of user users

-- The trigger fills a missing team with that of the row's user.
unfoldable pub stamp_team : List User → Entry → Entry
unfolding team_of
stamp_team users e = if is_some e.team_id then e else record e { team_id = team_of e.user_id users }

unfoldable pub insert_row : List User → Entry → List Entry → Option (List Entry)
unfolding stamp_team
insert_row users e rows =
    if any (has_id e.id) rows || (is_open e && any (runs_for e.user_id) rows)
    then none
    else some (stamp_team users e ∷ rows)

-- The index is checked against the other rows of the updated row's user.
unfoldable pub update_row : Entry → (Entry → Entry) → List Entry → Option (List Entry)
unfolding modify_row
update_row e f rows =
    if is_open (f e) && any (λ r. not (has_id e.id r) && runs_for (f e).user_id r) rows
    then none
    else some (modify_row e.id f rows)

-- DELETE … WHERE id = …
unfoldable pub delete_row : ℕ → List Entry → List Entry
delete_row id [] = []
delete_row id (e ∷ rows) = if has_id id e then delete_row id rows else e ∷ delete_row id rows
