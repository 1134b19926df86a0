-- ===== src/SignIn/Tests.antt =====
-- Single sign-on at concrete inputs: one account with a password.
use timetrack.Prelude.{is_some, if◌then◌else◌, ◌≡◌, refl, true, false, Bool, none, some, [], ◌∷◌}
use timetrack.Access.{Role}
use timetrack.Errors.{ok, err, email_unverified, account_deactivated}
use timetrack.SignIn.Model.{Account, Directory, OidcIdentity, sso_provider, identity_of}
use timetrack.SignIn.Directory.{find_by_sso_identity, find_by_email, link_sso}
use timetrack.SignIn.Service.{resolve_sso_user, link_found}
use timetrack.SignIn.Subjects.{resolve_sso_user-names}
use timetrack.SignIn.Active.{resolve_sso_user-active, resolve_sso_user-unverified}

abbrev alice : Account
alice = record {
  id = 7;
  email = 70;
  password_hash = some 700;
  role = Role.employee;
  team_id = 1;
  deactivated_at = none;
  sso_provider = none;
  sso_subject = none;
}

abbrev dir : Directory
dir = record { accounts = alice ∷ []; teams = 1 ∷ [] }

-- Nobody else writes.
abbrev quiet : Directory → Directory
quiet d = d

abbrev claimed : Bool → OidcIdentity
claimed verified = record { sub = 99; email = 70; email_verified = verified }

links : (resolve_sso_user 8 1 quiet (claimed true) dir).0 ≡ ok (identity_of alice)
unfolding resolve_sso_user find_by_sso_identity find_by_email link_sso link_found
links = refl

resolve_sso_user-active_example : (identity_of alice).deactivated_at ≡ none
resolve_sso_user-active_example =
    resolve_sso_user-active 8 1 quiet (claimed true) dir {i = identity_of alice} links

resolve_sso_user-names_example :
    (a : Account) × (find_by_sso_identity sso_provider 99
        (resolve_sso_user 8 1 quiet (claimed true) dir).1.accounts
      ≡ some a)
    × (identity_of a ≡ identity_of alice)
resolve_sso_user-names_example =
    resolve_sso_user-names 8 1 quiet (claimed true) dir {i = identity_of alice} (tt, tt) (tt, tt)
      links

resolve_sso_user-unverified_example : resolve_sso_user 8 1 quiet (claimed false) dir ≡ (
  elim (find_by_sso_identity sso_provider 99 dir.accounts) [
    | none ↦ err email_unverified
    | some a ↦ if is_some a.deactivated_at then err account_deactivated else ok (identity_of a)
  ],
  dir,
)
resolve_sso_user-unverified_example = resolve_sso_user-unverified 8 1 quiet (claimed false) dir refl
