-- ===== src/SignIn/Directory.antt =====
-- auth.repository.ts: the statements on users. id, email and the pair of provider and subject are
-- unique.
use timetrack.Prelude.{
  ℕ, Bool, false, ◌&&◌, ◌||◌, not, Option, none, some, List, [], ◌∷◌, map, ◌==◌, if◌then◌else◌, any,
}
use timetrack.Access.{Role}
use timetrack.SignIn.Model.{Account, Directory, OidcIdentity, sso_provider}

-- The row holds this value.
abbrev pub holds : Option ℕ → ℕ → Bool
holds none x = false
holds (some y) x = y == x

abbrev pub is_sso : (provider subject : ℕ) → Account → Bool
is_sso provider subject a = holds a.sso_provider provider && holds a.sso_subject subject

-- findBySsoIdentity
unfoldable pub find_by_sso_identity : (provider subject : ℕ) → List Account → Option Account
find_by_sso_identity provider subject [] = none
find_by_sso_identity provider subject (a ∷ rows) =
    if is_sso provider subject a then some a else find_by_sso_identity provider subject rows

-- findByEmail, findIdentityByEmail
unfoldable pub find_by_email : (email : ℕ) → List Account → Option Account
find_by_email email [] = none
find_by_email email (a ∷ rows) = if a.email == email then some a else find_by_email email rows

-- linkSso: `none` where another row holds the pair
unfoldable pub link_sso : (id provider subject : ℕ) → List Account → Option (List Account)
link_sso id provider subject rows =
    if any (λ a. not (a.id == id) && is_sso provider subject a) rows
    then none
    else some (
        map
          (λ a.
            if a.id == id
            then record a { sso_provider = some provider; sso_subject = some subject }
            else a)
          rows)

-- What createSsoUser comes to: SsoConcurrentCreateError, SsoTeamMissingError, or the new row.
pub data Creation : Type 0 where
  concurrent team_missing : Creation
  created : Account → List Account → Creation

abbrev pub provisioned : (id team_id : ℕ) → OidcIdentity → Account
provisioned id team_id identity = record {
  id = id;
  email = identity.email;
  password_hash = none;
  role = Role.employee;
  team_id = team_id;
  deactivated_at = none;
  sso_provider = some sso_provider;
  sso_subject = some identity.sub;
}

-- A row that a new one would clash with.
abbrev pub clashes : (id : ℕ) → OidcIdentity → Account → Bool
clashes id identity a =
    (a.id == id) || ((a.email == identity.email) || is_sso sso_provider identity.sub a)

unfoldable pub create_sso_user : (id team_id : ℕ) → OidcIdentity → Directory → Creation
create_sso_user id team_id identity dir =
    if any (clashes id identity) dir.accounts
    then concurrent
    else if any (λ t. t == team_id) dir.teams
    then created (provisioned id team_id identity) (provisioned id team_id identity ∷ dir.accounts)
    else team_missing
