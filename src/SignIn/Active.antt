-- ===== src/SignIn/Active.antt =====
-- Single sign-on against deactivated accounts and unverified e-mail addresses.
use timetrack.Prelude.{
  ℕ, ◌≡◌, refl, is_some, if◌then◌else◌, false, none, some, arith, Option-cases, inl, inr,
}
use timetrack.Errors.{ok, err, email_unverified, account_deactivated}
use timetrack.Sessions.Model.{AuthIdentity}
use timetrack.SignIn.Model.{Directory, OidcIdentity, sso_provider, identity_of}
use timetrack.SignIn.Directory.{find_by_sso_identity, create_sso_user}
use timetrack.SignIn.Service.{
  Outcome, assert_active, link_found, link_by_email, after_conflict, settle_creation,
  resolve_sso_user,
}

-- A success is that of an account that is not deactivated.
abbrev pub Admits : Outcome → Type 0
Admits r = (i : AuthIdentity) → r.0 ≡ ok i → i.deactivated_at ≡ none

after_conflict-Admits :
    (identity : OidcIdentity) (dir : Directory) → Admits (after_conflict identity dir)
unfolding after_conflict assert_active link_by_email link_found
after_conflict-Admits identity dir = λ i w. ground arith

settle-Admits :
    (identity : OidcIdentity) (dir : Directory) (id team_id : ℕ)
    → Admits (settle_creation identity dir (create_sso_user id team_id identity dir))
unfolding settle_creation create_sso_user
settle-Admits identity dir id team_id = λ i w. ground (arith, after_conflict-Admits identity dir i)

-- A single sign-on that succeeds is that of an account that was not deactivated when it was read,
-- whatever other requests do between its first reads and the creation of an account. No request
-- comes between the read of an account and its link.
pub resolve_sso_user-active :
    (id default_team_id : ℕ) (meanwhile : Directory → Directory) (identity : OidcIdentity)
    (dir : Directory) {i : AuthIdentity}
    → (resolve_sso_user id default_team_id meanwhile identity dir).0 ≡ ok i
    → i.deactivated_at ≡ none
unfolding resolve_sso_user assert_active link_by_email link_found
resolve_sso_user-active id default_team_id meanwhile identity dir {i = i} w =
    ground (arith, settle-Admits identity (meanwhile dir) id default_team_id i)

-- A single sign-on whose e-mail address is not verified changes no table. If an account holds its
-- subject, it is admitted as that account, or refused as deactivated if the account is. If none
-- does, it is refused as unverified.
pub resolve_sso_user-unverified :
    (id default_team_id : ℕ) (meanwhile : Directory → Directory) (identity : OidcIdentity)
    (dir : Directory)
    → identity.email_verified ≡ false
    → resolve_sso_user id default_team_id meanwhile identity dir ≡ (
      elim (find_by_sso_identity sso_provider identity.sub dir.accounts) [
        | none ↦ err email_unverified
        | some a ↦ if is_some a.deactivated_at then err account_deactivated else ok (identity_of a)
      ],
      dir,
    )
unfolding resolve_sso_user assert_active
resolve_sso_user-unverified id default_team_id meanwhile identity dir unverified =
    elim (Option-cases (find_by_sso_identity sso_provider identity.sub dir.accounts)) [
      | inl unknown ↦ ground (arith, unknown, unverified)
      | inr (a, known) ↦ rw (known, resolve_sso_user) refl
    ]
