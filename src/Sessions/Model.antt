-- ===== src/Sessions/Model.antt =====
-- The rows and answers of the sign-in: apps/api/src/modules/auth/auth.repository.ts and the model
-- RefreshToken of packages/db/prisma/schema.prisma.
use timetrack.Prelude.{ℕ, Option, List}
use timetrack.Access.{Role}

-- A row of refresh_tokens.
pub record Token : Type 0 where
  pub id : ℕ
  pub user_id : ℕ
  pub token_hash : ℕ
  pub expires_at : ℕ
  pub family_id : ℕ
  pub revoked_at : Option ℕ
  pub replaced_by_id : Option ℕ

pub record AuthIdentity : Type 0 where
  pub id : ℕ
  pub role : Role
  pub team_id : ℕ
  pub deactivated_at : Option ℕ

pub record JwtClaims : Type 0 where
  pub sub : ℕ
  pub role : Role
  pub team_id : ℕ

pub record TokenPair : Type 0 where
  pub access_token : ℕ
  pub refresh_token : ℕ
  pub expires_in : ℕ

-- The tables.
pub record Store : Type 0 where
  pub tokens : List Token
  pub users : List AuthIdentity

-- The environment's settings, and what Node's crypto and the JWT library compute under its secrets.
pub record Config : Type 0 where
  pub hash : ℕ → ℕ
  pub sign : JwtClaims → ℕ
  pub access_ttl_seconds : ℕ
  pub refresh_ttl_seconds : ℕ
  pub grace_seconds : ℕ

-- What one statement draws from its surroundings: the clock, a random secret and a random id.
pub record Draw : Type 0 where
  pub now : ℕ
  pub secret : ℕ
  pub fresh_id : ℕ
