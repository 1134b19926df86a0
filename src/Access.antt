-- ===== src/Access.antt =====
-- apps/api/src/common/authz: who may touch whose data. Ids are opaque and only compared, so they
-- are numbers.
use timetrack.Prelude.{ℕ, Bool, true, false, ◌&&◌, ◌||◌, List, ltb, ◌==◌, if◌then◌else◌, count}
use timetrack.Errors.{Result, ok, err, forbidden_user}

pub data Role : Type 0 where
  employee manager admin : Role

abbrev pub is_admin : Role → Bool
is_admin admin = true
is_admin _ = false

abbrev pub is_manager : Role → Bool
is_manager manager = true
is_manager _ = false

pub record User : Type 0 where
  pub id : ℕ
  pub team_id : ℕ

pub record SessionUser : Type 0 where
  pub id : ℕ
  pub role : Role
  pub team_id : ℕ

-- MembershipRepository.isInTeam
unfoldable pub is_in_team : List User → ℕ → ℕ → Bool
is_in_team users user_id team_id =
    ltb 0 (count (λ u. (u.id == user_id) && (u.team_id == team_id)) users)

-- ResourceAccessService.assertCanAccessUser
unfoldable pub assert_can_access_user : List User → SessionUser → ℕ → Result (Unit {0})
assert_can_access_user users actor target =
    if is_admin actor.role || (actor.id == target)
    then ok tt
    else if is_manager actor.role && is_in_team users target actor.team_id
    then ok tt
    else err forbidden_user
