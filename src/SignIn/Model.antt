-- ===== src/SignIn/Model.antt =====
-- The accounts that a sign-in looks at: the model User of packages/db/prisma/schema.prisma, and the
-- identity that the provider vouches for. E-mail addresses and subjects are opaque numbers.
use timetrack.Prelude.{ℕ, Bool, Option, List}
use timetrack.Access.{Role}
use timetrack.Sessions.Model.{AuthIdentity}

-- A row of users.
pub record Account : Type 0 where
  pub id : ℕ
  pub email : ℕ
  pub password_hash : Option ℕ
  pub role : Role
  pub team_id : ℕ
  pub deactivated_at : Option ℕ
  pub sso_provider : Option ℕ
  pub sso_subject : Option ℕ

pub record Directory : Type 0 where
  pub accounts : List Account
  pub teams : List ℕ

-- What the provider's callback proves.
pub record OidcIdentity : Type 0 where
  pub sub : ℕ
  pub email : ℕ
  pub email_verified : Bool

-- SSO_PROVIDER
abbrev pub sso_provider : ℕ
sso_provider = 0

-- select: { id, role, teamId, deactivatedAt }
abbrev pub identity_of : Account → AuthIdentity
identity_of a = record {
  id = a.id;
  role = a.role;
  team_id = a.team_id;
  deactivated_at = a.deactivated_at;
}
