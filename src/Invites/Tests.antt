-- ===== src/Invites/Tests.antt =====
-- Two accepts of one invite, step by step in turns.
use timetrack.Prelude.{none, ℕ, ◌+◌, ◌≡◌, ◌≤◌, refl, true, List, [], ◌∷◌, count}
use timetrack.Errors.{invalid_invite}
use timetrack.Access.{Role, SessionUser}
use timetrack.Invites.Model.{CreatedInvite, Register, InviteUser}
use timetrack.Invites.Service.{Draw, accepted, refused, Event, inviting, arriving, turning, play}
use timetrack.Invites.Single.{has_joined, play-once}

abbrev hash : ℕ → ℕ
hash t = t + 1000

abbrev admin : SessionUser
admin = record { id = 1; role = Role.admin; team_id = 7 }

abbrev register : Register
register = record { teams = 7 ∷ []; users = []; invites = [] }

abbrev invited : InviteUser
invited = record { email = 50; role = Role.manager; team_id = 7 }

abbrev events : List Event
events =
    inviting (record { id = 3; token = 9; now = 100; enqueued = true }) invited admin
    ∷ arriving 9 21 31 200
    ∷ arriving 9 22 32 201
    ∷ turning 0 5
    ∷ turning 1 6
    ∷ turning 0 5
    ∷ turning 1 6
    ∷ []

-- Both read the open invite; the one that writes first gets its user.
test_race :
    (play hash 7 events [] register).0
    ≡ accepted 9 (record { user_id = 5; role = Role.manager; team_id = 7 })
      ∷ refused 9 invalid_invite
      ∷ []
unfolding play
test_race = refl

play-once_example : count (has_joined hash 7 1009) (play hash 7 events [] register).0 ≤ 1
play-once_example = play-once hash 7 events register 1009 tt

abbrev draw : Draw
draw = record { id = 3; token = 9; now = 100; enqueued = true }

abbrev created_invite : CreatedInvite
created_invite = record {
  id = 3;
  email = 50;
  role = Role.manager;
  team_id = 7;
  expires_at = 604800100;
  token = 9;
}

abbrev with_invite : Register
with_invite = record register {
  invites =
      record {
        id = 3;
        email = 50;
        role = Role.manager;
        team_id = 7;
        token_hash = 1009;
        created_at = 100;
        expires_at = 604800100;
        accepted_at = none;
      }
      ∷ [];
}
