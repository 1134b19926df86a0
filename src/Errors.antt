-- ===== src/Errors.antt =====
-- The problem+json errors that the modelled services throw, and calls that may throw one.
-- A handler that throws inside a transaction has written nothing: the caller keeps the old state.
use timetrack.Prelude.{ℕ, ◌≡◌, refl, Bool, true, false}

pub data Error : Type 0 where
  -- time-entries.repository.ts: runningConflict, ownershipConflict, the catch of createManual
  running_conflict ownership_conflict entry_exists : Error
  -- time-entries.service.ts
  entry_not_found ends_in_future overlaps_entry foreign_subproject no_change inverted_entry : Error
  -- the Zod pipe's 422, and Prisma's P2025 on a row that is not there
  invalid_body record_missing : Error
  -- resource-access.service.ts
  forbidden_user : Error
  -- approvals.service.ts
  forbidden_team timesheet_not_found : Error
  -- auth.service.ts, and Prisma's P2002 on a key that is taken
  invalid_token invalid_credentials account_deactivated email_unverified sso_disabled : Error
  sso_misconfigured record_taken : Error
  -- work-types.service.ts and work-types.repository.ts
  team_not_found work_type_not_found archived_selected concurrent_change name_in_use : Error
  -- invites.service.ts, and a queue that takes no message
  admin_only team_unknown email_in_use invite_pending invalid_invite enqueue_failed : Error

-- The HTTP status of each.
pub status : Error → ℕ
status Error.running_conflict = 409
status Error.ownership_conflict = 409
status Error.entry_exists = 409
status Error.entry_not_found = 404
status Error.sso_disabled = 404
status Error.forbidden_user = 403
status Error.forbidden_team = 403
status Error.timesheet_not_found = 404
status Error.team_not_found = 404
status Error.work_type_not_found = 404
status Error.concurrent_change = 409
status Error.name_in_use = 409
status Error.admin_only = 403
status Error.email_in_use = 409
status Error.invite_pending = 409
status Error.invalid_invite = 401
status Error.enqueue_failed = 500
status Error.account_deactivated = 403
status Error.email_unverified = 403
status Error.invalid_token = 401
status Error.invalid_credentials = 401
status Error.record_missing = 500
status Error.record_taken = 500
status Error.sso_misconfigured = 503
status e = 422

-- What a call answers: its value, or what it threw.
pub data Result {ℓ} (A : Type ℓ) : Type ℓ where
  err : Error → Result A
  ok : A → Result A

-- `if (bad) throw e;`
abbrev pub throw_if : Bool → Error → Result (Unit {0})
throw_if false e = ok tt
throw_if true e = err e

infixl 5 ◌>>=◌ ◌>>◌
-- `await` of a call, and what follows it.
abbrev pub ◌>>=◌ {ℓ κ} : {A : Type ℓ} {B : Type κ} → Result A → (A → Result B) → Result B
err e >>= next = err e
ok a >>= next = next a

abbrev pub ◌>>◌ {κ} : {B : Type κ} → Result (Unit {0}) → Result B → Result B
check >> next = check >>= λ _. next

-- A successful chain is a successful first step and a successful rest.
pub >>=-eq-ok {ℓ κ} :
    {A : Type ℓ} {B : Type κ} (call : Result A) (next : A → Result B) {answer : B}
    → (call >>= next) ≡ ok answer
    → (value : A) × (call ≡ ok value) × (next value ≡ ok answer)
>>=-eq-ok (err e) next thrown = cc
>>=-eq-ok (ok value) next done = (value, refl, done)

pub >>-eq-ok {ℓ} :
    {B : Type ℓ} (check : Result (Unit {0})) (next : Result B) {answer : B}
    → (check >> next) ≡ ok answer
    → (check ≡ ok tt) × (next ≡ ok answer)
>>-eq-ok (err e) next thrown = cc
>>-eq-ok (ok tt) next done = (refl, done)

pub throw_if-eq-ok {ℓ} :
    {B : Type ℓ} (bad : Bool) (e : Error) (next : Result B) {answer : B}
    → (throw_if bad e >> next) ≡ ok answer
    → (bad ≡ false) × (next ≡ ok answer)
throw_if-eq-ok true e next thrown = cc
throw_if-eq-ok false e next done = (refl, done)
