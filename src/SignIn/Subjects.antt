-- ===== src/SignIn/Subjects.antt =====
-- The subject of a single sign-on afterwards.
use timetrack.Prelude.{
  ℕ, ◌≡◌, ◌≢◌, subst, none, some, List, [], ◌∷◌, map, arith, if◌then◌else◌, Option-cases,
  Bool-cases, inl, inr, All, Pairs, ◌==◌, any,
}
use timetrack.Errors.{ok, err, Error, record_taken, sso_misconfigured, email_unverified}
use timetrack.Sessions.Model.{AuthIdentity}
use timetrack.SignIn.Model.{Account, Directory, OidcIdentity, sso_provider, identity_of}
use timetrack.SignIn.Directory.{
  find_by_sso_identity, find_by_email, link_sso, create_sso_user, clashes, provisioned,
}
use timetrack.SignIn.Service.{
  Outcome, assert_active, link_found, link_by_email, after_conflict, settle_creation,
  resolve_sso_user,
}

-- Ids are unique.
abbrev pub IsKeyed : List Account → Type 0
IsKeyed rows = Pairs (λ a r. r.id ≢ a.id) rows

email-other :
    (email : ℕ) (r : Account) (rows : List Account) {a : Account}
    → All (λ x. x.id ≢ r.id) rows
    → find_by_email email rows ≡ some a
    → a.id ≢ r.id
unfolding find_by_email
email-other email r [] h found = cc
email-other email r (x ∷ rows) {a = a} h found = ground (arith, email-other email r rows {a = a})

abbrev tied : (id provider subject : ℕ) → Account → Account
tied id provider subject a =
    if a.id == id then record a { sso_provider = some provider; sso_subject = some subject } else a

find-tied :
    (email provider subject : ℕ) (rows : List Account) {a : Account}
    → IsKeyed rows
    → find_by_email email rows ≡ some a
    → find_by_sso_identity provider subject rows ≡ none
    → find_by_sso_identity provider subject (map (tied a.id provider subject) rows)
      ≡ some (record a { sso_provider = some provider; sso_subject = some subject })
unfolding find_by_email find_by_sso_identity
find-tied email provider subject [] k found new = cc
find-tied email provider subject (r ∷ rows) {a = a} k found new =
    ground (
      arith,
      email-other email r rows {a = a} k.0,
      find-tied email provider subject rows {a = a} k.1,
    )

-- After a success the subject names the account that was signed in.
abbrev pub Named : OidcIdentity → Outcome → Type 0
Named identity r =
    (i : AuthIdentity)
    → r.0 ≡ ok i
    → (a : Account) × (find_by_sso_identity sso_provider identity.sub r.1.accounts ≡ some a)
      × (identity_of a ≡ i)

link_found-Named :
    (identity : OidcIdentity) (a : Account) (dir : Directory)
    → IsKeyed dir.accounts
    → find_by_email identity.email dir.accounts ≡ some a
    → find_by_sso_identity sso_provider identity.sub dir.accounts ≡ none
    → Named identity (link_found identity a dir)
unfolding link_found link_sso
link_found-Named identity a dir k found new = λ i w. (
  record a { sso_provider = some sso_provider; sso_subject = some identity.sub },
  ground
      (arith, find-tied identity.email sso_provider identity.sub dir.accounts {a = a} k found new),
  ground arith,
)

link_by_email-Named :
    (identity : OidcIdentity) (dir : Directory) {r : Outcome}
    → IsKeyed dir.accounts
    → find_by_sso_identity sso_provider identity.sub dir.accounts ≡ none
    → link_by_email identity dir ≡ some r
    → Named identity r
unfolding link_by_email
link_by_email-Named identity dir {r = r} k new w =
    elim (Option-cases (find_by_email identity.email dir.accounts)) [
      | inl nobody ↦ ground arith
      | inr (a, found) ↦
          let same : link_found identity a dir ≡ r = ground arith in
          subst (Named identity) same (link_found-Named identity a dir k found new)
    ]

known-Named :
    (identity : OidcIdentity) (a : Account) (dir : Directory)
    → find_by_sso_identity sso_provider identity.sub dir.accounts ≡ some a
    → Named identity (assert_active (identity_of a), dir)
unfolding assert_active
known-Named identity a dir known = λ i w. (a, known, ground arith)

refused-Named :
    (identity : OidcIdentity) (e : Error) (dir : Directory) → Named identity (err e, dir)
refused-Named identity e dir = λ i w. cc

after_conflict-Named :
    (identity : OidcIdentity) (dir : Directory)
    → IsKeyed dir.accounts
    → Named identity (after_conflict identity dir)
unfolding after_conflict
after_conflict-Named identity dir k =
    elim (Option-cases (find_by_sso_identity sso_provider identity.sub dir.accounts)) [
      | inr (a, known) ↦ rw (known, after_conflict) (known-Named identity a dir known)
      | inl new ↦ elim (Option-cases (link_by_email identity dir)) [
        | inl nobody ↦ rw (new, nobody, after_conflict) (refused-Named identity record_taken dir)
        | inr (r, linked) ↦
            rw (new, linked, after_conflict) (link_by_email-Named identity dir {r = r} k new linked)
      ]
    ]

created-Named :
    (identity : OidcIdentity) (id team_id : ℕ) (dir : Directory)
    → IsKeyed dir.accounts
    → Named identity (settle_creation identity dir (create_sso_user id team_id identity dir))
unfolding settle_creation create_sso_user
created-Named identity id team_id dir k =
    elim (Bool-cases (any (clashes id identity) dir.accounts)) [
      | inl clash ↦
          rw (clash, create_sso_user, settle_creation) (after_conflict-Named identity dir k)
      | inr free ↦ elim (Bool-cases (any (λ t. t == team_id) dir.teams)) [
        | inl there ↦
            rw (free, there, create_sso_user, settle_creation)
              (λ i w. (
                provisioned id team_id identity,
                unfold find_by_sso_identity in ground arith,
                ground arith,
              ))
        | inr gone ↦
            rw (free, gone, create_sso_user, settle_creation)
              (refused-Named identity sso_misconfigured dir)
      ]
    ]

resolve-Named :
    (id default_team_id : ℕ) (meanwhile : Directory → Directory) (identity : OidcIdentity)
    (dir : Directory)
    → IsKeyed dir.accounts
    → IsKeyed (meanwhile dir).accounts
    → Named identity (resolve_sso_user id default_team_id meanwhile identity dir)
unfolding resolve_sso_user
resolve-Named id default_team_id meanwhile identity dir k later =
    elim (Option-cases (find_by_sso_identity sso_provider identity.sub dir.accounts)) [
      | inr (a, known) ↦ rw (known, resolve_sso_user) (known-Named identity a dir known)
      | inl new ↦ elim (Bool-cases identity.email_verified) [
        | inr unverified ↦
            rw (new, unverified, resolve_sso_user) (refused-Named identity email_unverified dir)
        | inl verified ↦ elim (Option-cases (link_by_email identity dir)) [
          | inr (r, linked) ↦
              rw (new, verified, linked, resolve_sso_user)
                (link_by_email-Named identity dir {r = r} k new linked)
          | inl nobody ↦
              rw (new, verified, nobody, resolve_sso_user)
                (created-Named identity id default_team_id (meanwhile dir) later)
        ]
      ]
    ]

-- After a single sign-on that succeeds, by subject, by e-mail address or by a new account, and
-- whatever other requests did before the new row, the subject is held by the account that was signed
-- in, provided that account ids are unique.
pub resolve_sso_user-names :
    (id default_team_id : ℕ) (meanwhile : Directory → Directory) (identity : OidcIdentity)
    (dir : Directory) {i : AuthIdentity}
    → IsKeyed dir.accounts
    → IsKeyed (meanwhile dir).accounts
    → (resolve_sso_user id default_team_id meanwhile identity dir).0 ≡ ok i
    → (a : Account) × (find_by_sso_identity sso_provider identity.sub
          (resolve_sso_user id default_team_id meanwhile identity dir).1.accounts
        ≡ some a)
      × (identity_of a ≡ i)
resolve_sso_user-names id default_team_id meanwhile identity dir {i = i} k later w =
    resolve-Named id default_team_id meanwhile identity dir k later i w
