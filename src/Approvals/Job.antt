-- ===== src/Approvals/Job.antt =====
-- autoApprovePendingTimesheets, from what its query found. The candidates are a snapshot: the table
-- that the writes meet may differ from the one that was queried.
use timetrack.Prelude.{
  ℕ, suc, ◌*◌, Bool, true, false, ◌&&◌, Option, none, some, List, [], ◌∷◌, ◌==◌, ltb, if◌then◌else◌,
}

pub data ApprovalStatus : Type 0 where
  pending approved flagged : ApprovalStatus

abbrev pub is_pending : ApprovalStatus → Bool
is_pending ApprovalStatus.pending = true
is_pending s = false

-- A row of timesheet_approvals.
pub record Timesheet : Type 0 where
  pub id : ℕ
  pub user_id : ℕ
  pub period_start : ℕ
  pub period_end : ℕ
  pub status : ApprovalStatus
  pub total_seconds : Option ℕ
  pub reviewer_id : Option ℕ
  pub decided_at : Option ℕ
  pub note : Option ℕ

-- The settings of the team, as parsed.
pub record Settings : Type 0 where
  pub timesheet_reminder_hours : ℕ
  pub auto_approve_max_hours : ℕ
  pub auto_approve_after_days : ℕ

pub record Candidate : Type 0 where
  pub id : ℕ
  pub settings : Settings
  pub tracked_seconds : ℕ
  pub unresolved_idle : ℕ

pub data SkipReason : Type 0 where
  unresolved_idle below_floor above_ceiling : SkipReason

pub record Approval : Type 0 where
  pub target_id : ℕ
  pub total_seconds : ℕ

pub record AutoApproveOutcome : Type 0 where
  pub approved : ℕ
  pub unresolved_idle : ℕ
  pub below_floor : ℕ
  pub above_ceiling : ℕ

-- The hours are tracked_seconds / 3600.
unfoldable pub skip_reason_for : (unresolved tracked_seconds : ℕ) → Settings → Option SkipReason
skip_reason_for unresolved tracked_seconds s =
    if ltb 0 unresolved
    then some SkipReason.unresolved_idle
    else if ltb 0 s.timesheet_reminder_hours
        && ltb tracked_seconds (s.timesheet_reminder_hours * 3600)
    then some SkipReason.below_floor
    else if ltb (s.auto_approve_max_hours * 3600) tracked_seconds
    then some SkipReason.above_ceiling
    else none

-- The row as the job approves it; the note names the days of grace.
abbrev pub approved_row : (now : ℕ) → Candidate → Timesheet → Timesheet
approved_row now c t = record t {
  status = ApprovalStatus.approved;
  total_seconds = some c.tracked_seconds;
  decided_at = some now;
  reviewer_id = none;
  note = some c.settings.auto_approve_after_days;
}

unfoldable pub find_timesheet : ℕ → List Timesheet → Option Timesheet
find_timesheet id [] = none
find_timesheet id (t ∷ rows) = if t.id == id then some t else find_timesheet id rows

abbrev pub is_claimed : Candidate → Timesheet → Bool
is_claimed c t = (t.id == c.id) && is_pending t.status

-- updateMany where { id, status: 'PENDING' }: the rows, and how many matched
unfoldable pub update_pending : (now : ℕ) → Candidate → List Timesheet → List Timesheet × ℕ
update_pending now c [] = ([], 0)
update_pending now c (t ∷ rows) =
    let (rows', n) = update_pending now c rows in
    if is_claimed c t then (approved_row now c t ∷ rows', suc n) else (t ∷ rows', n)

pub record Progress : Type 0 where
  pub rows : List Timesheet
  pub audit : List Approval
  pub outcome : AutoApproveOutcome

unfoldable pub skipped : SkipReason → AutoApproveOutcome → AutoApproveOutcome
skipped SkipReason.unresolved_idle o = record o { unresolved_idle = suc o.unresolved_idle }
skipped SkipReason.below_floor o = record o { below_floor = suc o.below_floor }
skipped SkipReason.above_ceiling o = record o { above_ceiling = suc o.above_ceiling }

-- The transaction of one candidate.
unfoldable pub approve : (now : ℕ) → Candidate → Progress → Progress
unfolding update_pending
approve now c p =
    if ltb 0 (update_pending now c p.rows).1
    then record {
      rows = (update_pending now c p.rows).0;
      audit = record { target_id = c.id; total_seconds = c.tracked_seconds } ∷ p.audit;
      outcome = record p.outcome { approved = suc p.outcome.approved };
    }
    else p

unfoldable pub decide : (now : ℕ) → Candidate → Progress → Progress
unfolding approve skipped skip_reason_for
decide now c p = elim (skip_reason_for c.unresolved_idle c.tracked_seconds c.settings) [
  | some reason ↦ record p { outcome = skipped reason p.outcome }
  | none ↦ approve now c p
]

-- The loop over the candidates.
unfoldable pub auto_approve : (now : ℕ) → List Candidate → Progress → Progress
auto_approve now [] p = p
auto_approve now (c ∷ candidates) p = auto_approve now candidates (decide now c p)
