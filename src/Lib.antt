-- ===== src/Lib.antt =====
-- Verification of the time tracking server: the time entries, the sign-in, the invites, the work
-- types and the export of the API, and three jobs of the worker.
--
-- The program. Desktop clients sync spans of work to the API (apps/api), people add, edit and
-- delete spans on the dashboard, and the worker (apps/worker) repairs spans that ran unattended,
-- deletes what is past its retention and approves timesheets. All of it goes through Prisma to one
-- Postgres database (packages/db); the bodies are checked by the schemas of packages/contracts.
--
-- The files.
--   Prelude    lists, options and tests that every file shares.
--   Errors     the errors a service throws, as values.
--   Access     apps/api/src/common/authz: assert_can_access_user is assertCanAccessUser.
--   Entries    apps/api/src/modules/time-entries. Model and Schema are the rows and the bodies of
--              packages/contracts/src/time-entry.ts; Table is the table under its constraints, from
--              packages/db/prisma; Repository/{Rows, Upsert, Writes, Reads}, Service and Edit hold
--              one function per method of time-entries.repository.ts and time-entries.service.ts;
--              Requests is the controller. The other files are proofs, named for what they are about.
--   Sessions   apps/api/src/modules/auth. Store holds the statements of auth.repository.ts on
--              refresh_tokens; Requests is refresh and logout of auth.service.ts, as requests that
--              stand at a stage and advance by one call of the repository at a time.
--   SignIn     apps/api/src/modules/auth. Directory holds the statements of auth.repository.ts on
--              users; Service is login and resolveSsoUser of auth.service.ts.
--   Approvals  apps/worker/src/processors/timesheet-auto-approve.ts. Job is the loop over what the
--              query found, with skip_reason_for for skipReasonFor. Reviews is
--              apps/api/src/modules/approvals: list, and review for decide.
--   Reports    apps/api/src/modules/reports. Csv is csv-writer.ts; Reader is a reader of its format.
--   Retention  apps/worker/src/processors. Plan is retention.util.ts, Sweep is sweepTable of
--              retention-cleanup.processor.ts for one table.
--   Invites    apps/api/src/modules/invites. Store holds the statements of invites.repository.ts,
--              Service is invites.service.ts, with accept as a request that interleaves.
--   WorkTypes  apps/api/src/modules/work-types. Plan is planReconcile of work-types.reconcile.ts,
--              Apply the transaction reconcile of work-types.repository.ts around it, Edits the
--              edits of that file which end in a reconcile, Service a method of
--              work-types.service.ts. IsSynced in Synced is what a reconcile promises of a project.
--   Trim       apps/worker/src/processors/runaway-entry-trim.ts. Stretches is reconstructStretches,
--              Repair is the job around it.
--
-- How the code is rendered. The database is a record of tables, each a list of rows. A handler
-- takes the tables and returns an answer with new tables, or an error; a throw inside a
-- transaction leaves the tables as they were. A creation of an invite keeps its row when the queue
-- fails. An id is a number, as is an instant, in milliseconds since the epoch; an ISO text is its
-- instant with the spelling that `===` would see. The clock is an argument.
--
-- Parameters. The secrets and the HMAC of the refresh tokens, the signing of access tokens and the
-- lifetimes of both; the freshness window of running entries, the idle threshold that the settings
-- of a user's team parse to, the timesheets that the approval's query finds, and the ids that a
-- random generator mints; the hash of an invite's token and the answer of the mail queue; the key of
-- a work type's name, its lower-case form; the rows that an export reads and the spelling of
-- instants and numbers in it; what the object store and the deletions of the clean-up answer, and
-- the instant of a UTC month: nothing is assumed of them but what a theorem names.
--
-- Bounds. Every loop is structural recursion on a list of rows, samples or requests; there is no
-- fuel: a request is a chain of stages without a loop. Instants are unbounded naturals, so dates
-- before 1970 are outside the model.
--
-- Not modelled. Foreign keys, timeouts and lost connections; the formats of fields, which Zod
-- checks; requests that interleave between the statements of one handler of the time entries;
-- e-mails, the storage of screenshots, the dashboard, and the clients in Swift and C#.
pub mod Prelude
pub mod Errors
pub mod Access
pub mod Entries
pub mod Sessions
pub mod SignIn
pub mod Approvals
pub mod Retention
pub mod Invites
pub mod Reports
pub mod WorkTypes
pub mod Trim
