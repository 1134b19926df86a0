-- ===== src/SignIn/Service.antt =====
-- auth.service.ts: login and resolveSsoUser. What other requests do to the tables before the row of
-- a new user is created is a function of them; a read of a user and the link that follows it are
-- one step.
use timetrack.Prelude.{ℕ, Bool, Option, none, some, if◌then◌else◌, is_some, not}
use timetrack.Errors.{
  Result, ok, err, account_deactivated, email_unverified, sso_misconfigured, record_taken,
  invalid_credentials,
}
use timetrack.Sessions.Model.{AuthIdentity, Store, Config, Draw}
use timetrack.Sessions.Requests.{Stage, issue_tokens}
use timetrack.SignIn.Model.{Account, Directory, OidcIdentity, sso_provider, identity_of}
use timetrack.SignIn.Directory.{
  find_by_sso_identity, find_by_email, link_sso, create_sso_user, Creation, concurrent,
  team_missing, created,
}

-- An answer, with the tables it leaves.
abbrev pub Outcome : Type 0
Outcome = Result AuthIdentity × Directory

unfoldable pub assert_active : AuthIdentity → Result AuthIdentity
assert_active i = if is_some i.deactivated_at then err account_deactivated else ok i

-- The link of an account that was found by its e-mail address.
unfoldable pub link_found : OidcIdentity → Account → Directory → Outcome
link_found identity a dir =
    if is_some a.deactivated_at
    then (err account_deactivated, dir)
    else elim (link_sso a.id sso_provider identity.sub dir.accounts) [
      | none ↦ (err record_taken, dir)
      | some rows ↦ (ok (identity_of a), record dir { accounts = rows })
    ]

-- linkByEmail
unfoldable pub link_by_email : OidcIdentity → Directory → Option Outcome
unfolding link_found
link_by_email identity dir = elim (find_by_email identity.email dir.accounts) [
  | none ↦ none
  | some a ↦ some (link_found identity a dir)
]

-- The loser of two first sign-ins takes the winner's row.
unfoldable pub after_conflict : OidcIdentity → Directory → Outcome
unfolding assert_active link_by_email
after_conflict identity dir = elim (find_by_sso_identity sso_provider identity.sub dir.accounts) [
  | some raced ↦ (assert_active (identity_of raced), dir)
  | none ↦ elim (link_by_email identity dir) [
    | some relinked ↦ relinked
    | none ↦ (err record_taken, dir)
  ]
]

unfoldable pub settle_creation : OidcIdentity → Directory → Creation → Outcome
unfolding after_conflict
settle_creation identity dir concurrent = after_conflict identity dir
settle_creation identity dir team_missing = (err sso_misconfigured, dir)
settle_creation identity dir (created a rows) = (ok (identity_of a), record dir { accounts = rows })

unfoldable pub resolve_sso_user :
    (id default_team_id : ℕ) (meanwhile : Directory → Directory)
    → OidcIdentity
    → Directory
    → Outcome
unfolding assert_active link_by_email settle_creation
resolve_sso_user id default_team_id meanwhile identity dir =
    elim (find_by_sso_identity sso_provider identity.sub dir.accounts) [
      | some by_subject ↦ (assert_active (identity_of by_subject), dir)
      | none ↦
          if not identity.email_verified
          then (err email_unverified, dir)
          else elim (link_by_email identity dir) [
            | some linked ↦ linked
            | none ↦
                settle_creation identity (meanwhile dir)
                  (create_sso_user id default_team_id identity (meanwhile dir))
          ]
    ]

module _ (cfg : Config) (verify : (password_hash password : ℕ) → Bool) where
  -- login, with the check of argon2
  unfoldable pub login : Draw → (email password family_id : ℕ) → Directory → Store → Stage × Store
  login d email password family_id dir st = elim (find_by_email email dir.accounts) [
    | none ↦ (Stage.refused invalid_credentials, st)
    | some a ↦
        if is_some a.deactivated_at
        then (Stage.refused invalid_credentials, st)
        else elim a.password_hash [
          | none ↦ (Stage.refused invalid_credentials, st)
          | some h ↦
              if verify h password
              then issue_tokens cfg d (identity_of a) family_id st
              else (Stage.refused invalid_credentials, st)
        ]
  ]
