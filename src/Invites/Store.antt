-- ===== src/Invites/Store.antt =====
-- invites.repository.ts. acceptInTransaction is two steps: its read, and its writes, which the lock
-- on the row of the invite keeps together.
use timetrack.Prelude.{
  ℕ, Bool, ◌&&◌, ◌||◌, not, Option, none, some, List, [], ◌∷◌, map, filter, any, ltb, leb, ◌==◌,
  if◌then◌else◌, is_some,
}
use timetrack.Invites.Model.{Invite, Member, Register, CreateInviteInput, AcceptedInvite}

abbrev pub invite_row : (id now : ℕ) → CreateInviteInput → Invite
invite_row id now input = record {
  id = id;
  email = input.email;
  role = input.role;
  team_id = input.team_id;
  token_hash = input.token_hash;
  created_at = now;
  expires_at = input.expires_at;
  accepted_at = none;
}

-- The keys of the table: the id and the hash of the token.
abbrev pub has_key : Invite → Invite → Bool
has_key i r = (r.id == i.id) || (r.token_hash == i.token_hash)

-- `none` is the violation of a unique index.
unfoldable pub create_invite : (id now : ℕ) → CreateInviteInput → List Invite → Option (List Invite)
create_invite id now input rows =
    if any (has_key (invite_row id now input)) rows
    then none
    else some (invite_row id now input ∷ rows)

abbrev pub team_exists : Register → (team_id : ℕ) → Bool
team_exists reg t = any (λ i. i == t) reg.teams

abbrev pub email_exists_as_user : Register → (email : ℕ) → Bool
email_exists_as_user reg e = any (λ (u : Member). u.email == e) reg.users

abbrev pub is_open : (now : ℕ) → Invite → Bool
is_open now i = not (is_some i.accepted_at) && ltb now i.expires_at

unfoldable pub has_active_pending_invite : Register → (email now : ℕ) → Bool
has_active_pending_invite reg e now = any (λ i. (i.email == e) && is_open now i) reg.invites

-- orderBy createdAt desc
unfoldable pub insert_newest : Invite → List Invite → List Invite
insert_newest i [] = i ∷ []
insert_newest i (r ∷ rows) =
    if leb r.created_at i.created_at then i ∷ r ∷ rows else r ∷ insert_newest i rows

unfoldable pub sort_newest : List Invite → List Invite
unfolding insert_newest
sort_newest [] = []
sort_newest (i ∷ rows) = insert_newest i (sort_newest rows)

unfoldable pub list_pending : Register → (now : ℕ) → List Invite
unfolding sort_newest
list_pending reg now = sort_newest (filter (is_open now) reg.invites)

unfoldable pub find_by_hash : (token_hash : ℕ) → List Invite → Option Invite
find_by_hash h [] = none
find_by_hash h (i ∷ rows) = if i.token_hash == h then some i else find_by_hash h rows

-- The read: the invite, unless it is unknown, consumed or expired.
unfoldable pub find_acceptable : (token_hash now : ℕ) → Register → Option Invite
unfolding find_by_hash
find_acceptable h now reg = elim (find_by_hash h reg.invites) [
  | none ↦ none
  | some i ↦ if is_some i.accepted_at || leb i.expires_at now then none else some i
]

abbrev pub is_unconsumed : (id : ℕ) → Invite → Bool
is_unconsumed id r = (r.id == id) && not (is_some r.accepted_at)

abbrev pub consumed_row : (id now : ℕ) → Invite → Invite
consumed_row id now r = if is_unconsumed id r then record r { accepted_at = some now } else r

abbrev pub member_of : (user_id name password_hash : ℕ) → Invite → Member
member_of user_id name password_hash i = record {
  id = user_id;
  email = i.email;
  name = name;
  role = i.role;
  team_id = i.team_id;
  password_hash = password_hash;
}

-- The writes. A lost race and a taken address (or id) answer null and write nothing.
unfoldable pub consume :
    (user_id name password_hash now : ℕ) → Invite → Register → Option AcceptedInvite × Register
consume user_id name password_hash now i reg =
    if not (any (is_unconsumed i.id) reg.invites)
    then (none, reg)
    else if any (λ (u : Member). (u.email == i.email) || (u.id == user_id)) reg.users
    then (none, reg)
    else (
      some (record { user_id = user_id; role = i.role; team_id = i.team_id }),
      record reg {
        users = member_of user_id name password_hash i ∷ reg.users;
        invites = map (consumed_row i.id now) reg.invites;
      },
    )
