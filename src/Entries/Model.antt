-- ===== src/Entries/Model.antt =====
-- The rows, bodies and tables of the time entries: packages/contracts/src/time-entry.ts and the
-- models TimeEntry, Subproject and Task of packages/db/prisma/schema.prisma.
-- Instants are milliseconds since the epoch; ids are opaque, so they are numbers.
use timetrack.Prelude.{ℕ, String, Bool, Option, List}
use timetrack.Access.{User}

pub data EntrySource : Type 0 where
  manual auto : EntrySource

pub data Platform : Type 0 where
  macos windows : Platform

-- An ISO text: the instant that `Date.parse` reads, and which of its spellings the text is.
-- `===` compares both; `toISOString` writes spelling 0.
pub record Iso : Type 0 where
  pub at : ℕ
  pub spelling : ℕ

-- A row of time_entries.
pub record Entry : Type 0 where
  pub id : ℕ
  pub user_id : ℕ
  pub project_id : Option ℕ
  pub task_id : Option ℕ
  pub subproject_id : Option ℕ
  pub start_time : ℕ
  pub end_time : Option ℕ
  pub source : EntrySource
  pub note : Option String
  pub edited_by_id : Option ℕ
  pub edited_at : Option ℕ
  pub heartbeat_at : Option ℕ
  pub platform : Option Platform
  pub team_id : Option ℕ

-- What a read returns: the selected columns, the instants as ISO texts.
pub record TimeEntry : Type 0 where
  pub id : ℕ
  pub user_id : ℕ
  pub project_id : Option ℕ
  pub task_id : Option ℕ
  pub subproject_id : Option ℕ
  pub start_time : Iso
  pub end_time : Option Iso
  pub source : EntrySource
  pub note : Option String
  pub edited_by_id : Option ℕ
  pub edited_at : Option Iso

-- The body of the sync upsert. An optional nullable field is an option of an option.
pub record CreateTimeEntry : Type 0 where
  pub id : ℕ
  pub project_id : Option ℕ
  pub task_id : Option ℕ
  pub subproject_id : Option (Option ℕ)
  pub start_time : Iso
  pub end_time : Option Iso
  pub source : EntrySource
  pub note : Option String
  pub platform : Option (Option Platform)

-- The body of the dashboard's "add time".
pub record CreateManualTimeEntry : Type 0 where
  pub id : ℕ
  pub user_id : Option ℕ
  pub project_id : Option ℕ
  pub task_id : Option ℕ
  pub subproject_id : Option (Option ℕ)
  pub start_time : Iso
  pub end_time : Iso
  pub note : Option String

-- The body of a PATCH: `none` is an absent key.
pub record UpdateTimeEntry : Type 0 where
  pub project_id : Option (Option ℕ)
  pub task_id : Option (Option ℕ)
  pub subproject_id : Option (Option ℕ)
  pub start_time : Option Iso
  pub end_time : Option (Option Iso)
  pub source : Option EntrySource
  pub note : Option String

-- One side of the audit diff: the fields that a patch changes, an absent note being `null`.
pub record Changes : Type 0 where
  pub project_id : Option (Option ℕ)
  pub task_id : Option (Option ℕ)
  pub subproject_id : Option (Option ℕ)
  pub start_time : Option Iso
  pub end_time : Option (Option Iso)
  pub source : Option EntrySource
  pub note : Option (Option String)

pub record Subproject : Type 0 where
  pub id : ℕ
  pub project_id : ℕ
  pub is_default : Bool

pub record Task : Type 0 where
  pub id : ℕ
  pub project_id : ℕ
  pub subproject_id : ℕ

-- A stretch that the runaway repair kept.
pub record Kept : Type 0 where
  pub start_time : ℕ
  pub end_time : ℕ

-- What an audit row of a time entry records beside its actor and its target.
pub data Diff : Type 0 where
  created :
      (user_id : ℕ) (start_time end_time : Iso) (project_id task_id subproject_id : Option ℕ) → Diff
  deleted : TimeEntry → Diff
  edited : (before after : Changes) → Diff
  trimmed : (before : Kept) (after : List Kept) (added : List ℕ) (removed_ms : ℕ) → Diff

-- The actor is a user, or the repair job.
pub data Actor : Type 0 where
  user : ℕ → Actor
  trim_runaway : Actor

pub record Audit : Type 0 where
  pub actor : Actor
  pub target_id : ℕ
  pub diff : Diff

-- The tables that the operations on time entries read and write.
pub record Db : Type 0 where
  pub entries : List Entry
  pub subprojects : List Subproject
  pub tasks : List Task
  pub users : List User
  pub audit : List Audit
