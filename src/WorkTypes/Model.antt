-- ===== src/WorkTypes/Model.antt =====
-- The data of work-types.reconcile.ts, and the models Subproject, Project, ProjectTeam, WorkType and
-- TeamWorkType of packages/db/prisma/schema.prisma. Ids, names and teams are opaque numbers.
use timetrack.Prelude.{ℕ, Bool, Option, List}

pub record DesiredWorkType : Type 0 where
  pub id : ℕ
  pub name : ℕ

pub record ReconcileProject : Type 0 where
  pub id : ℕ
  pub team_ids : List ℕ

-- A row of subprojects.
pub record ExistingSubproject : Type 0 where
  pub id : ℕ
  pub project_id : ℕ
  pub name : ℕ
  pub archived : Bool
  pub is_default : Bool
  pub work_type_id : Option ℕ

pub record Create : Type 0 where
  pub project_id : ℕ
  pub work_type_id : ℕ
  pub name : ℕ

-- The adoption of a row made by hand.
pub record Link : Type 0 where
  pub id : ℕ
  pub work_type_id : ℕ
  pub name : ℕ

pub record Rename : Type 0 where
  pub id : ℕ
  pub name : ℕ

pub record ReconcilePlan : Type 0 where
  pub create : List Create
  pub link : List Link
  pub restore : List ℕ
  pub rename : List Rename
  pub archive : List ℕ

pub record Project : Type 0 where
  pub id : ℕ
  pub team_id : ℕ

pub record ProjectTeam : Type 0 where
  pub project_id : ℕ
  pub team_id : ℕ

pub record WorkType : Type 0 where
  pub id : ℕ
  pub name : ℕ
  pub archived : Bool

pub record TeamWorkType : Type 0 where
  pub team_id : ℕ
  pub work_type_id : ℕ

pub record ReconcileCounts : Type 0 where
  pub projects : ℕ
  pub created : ℕ
  pub linked : ℕ
  pub restored : ℕ
  pub renamed : ℕ
  pub archived : ℕ

-- The rows of the audit log.
pub data CatalogAudit : Type 0 where
  reconciled : ReconcileCounts → CatalogAudit
  work_types_set : (team_id : ℕ) (before after : List ℕ) → CatalogAudit
  updated : (before after : WorkType) → CatalogAudit
  created : (id name : ℕ) → CatalogAudit

-- The tables that a reconciling transaction reads and writes.
pub record Catalog : Type 0 where
  pub projects : List Project
  pub project_teams : List ProjectTeam
  pub work_types : List WorkType
  pub team_work_types : List TeamWorkType
  pub subprojects : List ExistingSubproject
  pub audit : List CatalogAudit
