-- ===== src/Invites/Model.antt =====
-- The rows of invites and users, and the answers of invites.service.ts. Ids, e-mail addresses and
-- hashes are opaque numbers.
use timetrack.Prelude.{ℕ, Option, List}
use timetrack.Access.{Role}

pub record Invite : Type 0 where
  pub id : ℕ
  pub email : ℕ
  pub role : Role
  pub team_id : ℕ
  pub token_hash : ℕ
  pub created_at : ℕ
  pub expires_at : ℕ
  pub accepted_at : Option ℕ

pub record Member : Type 0 where
  pub id : ℕ
  pub email : ℕ
  pub name : ℕ
  pub role : Role
  pub team_id : ℕ
  pub password_hash : ℕ

-- The tables that invites touch.
pub record Register : Type 0 where
  pub teams : List ℕ
  pub users : List Member
  pub invites : List Invite

pub record CreateInviteInput : Type 0 where
  pub email : ℕ
  pub role : Role
  pub team_id : ℕ
  pub token_hash : ℕ
  pub expires_at : ℕ

pub record AcceptedInvite : Type 0 where
  pub user_id : ℕ
  pub role : Role
  pub team_id : ℕ

pub record InviteUser : Type 0 where
  pub email : ℕ
  pub role : Role
  pub team_id : ℕ

pub record CreatedInvite : Type 0 where
  pub id : ℕ
  pub email : ℕ
  pub role : Role
  pub team_id : ℕ
  pub expires_at : ℕ
  pub token : ℕ
