-- ===== src/Approvals/Tests.antt =====
-- One pending and one decided timesheet, the job, and a manager.
use timetrack.Prelude.{some, All, ◌==◌, if◌then◌else◌, ℕ, ◌≡◌, refl, none, some, List, [], ◌∷◌}
use timetrack.Approvals.Job.{ApprovalStatus, Timesheet, Candidate, Progress, find_timesheet}
use timetrack.Access.{Role, User, SessionUser, is_in_team, assert_can_access_user}
use timetrack.Errors.{ok}
use timetrack.Approvals.Reviews.{
  list, resolve_scope, in_scope, Decision, Board, reviewed, review, update_timesheet,
}
use timetrack.Approvals.Scopes.{IsAccessible, list-IsAccessible, review-decides}

abbrev sheet : (id : ℕ) → ApprovalStatus → Timesheet
sheet id status = record {
  id = id;
  user_id = 7;
  period_start = 0;
  period_end = 604800;
  status = status;
  total_seconds = none;
  reviewer_id = none;
  decided_at = none;
  note = none;
}

abbrev candidate : (id tracked : ℕ) → Candidate
candidate id tracked = record {
  id = id;
  settings = record {
    timesheet_reminder_hours = 30;
    auto_approve_max_hours = 60;
    auto_approve_after_days = 3;
  };
  tracked_seconds = tracked;
  unresolved_idle = 0;
}

abbrev candidates : List Candidate
candidates = candidate 1 144000 ∷ candidate 2 144000 ∷ candidate 3 3600 ∷ []

abbrev start : Progress
start = record {
  rows = sheet 1 ApprovalStatus.pending ∷ sheet 2 ApprovalStatus.flagged ∷ [];
  audit = [];
  outcome = record { approved = 0; unresolved_idle = 0; below_floor = 0; above_ceiling = 0 };
}

abbrev manager : SessionUser
manager = record { id = 5; role = Role.manager; team_id = 1 }

abbrev people : List User
people = record { id = 7; team_id = 1 } ∷ record { id = 5; team_id = 1 } ∷ []

lists : list none none manager people start.rows ≡ ok start.rows
unfolding list resolve_scope in_scope
lists = refl

list-IsAccessible_example : All (IsAccessible people manager) start.rows
list-IsAccessible_example =
    list-IsAccessible none none manager people start.rows {shown = start.rows} lists

abbrev flag : Decision
flag = record { status = ApprovalStatus.flagged; note = some 4 }

abbrev board : Board
board = record { rows = start.rows; audit = [] }

abbrev flat : (user_id from to : ℕ) → ℕ
flat user_id from to = 144000

abbrev after : Board
after = record {
  rows =
      reviewed 9 144000 flag 5 (sheet 1 ApprovalStatus.pending)
      ∷ sheet 2 ApprovalStatus.flagged
      ∷ [];
  audit =
      record {
        actor_id = 5;
        target_id = 1;
        before = ApprovalStatus.pending;
        after = ApprovalStatus.flagged;
      }
      ∷ [];
}

reviews : review flat 9 1 flag manager people board ≡ ok after
unfolding review find_timesheet assert_can_access_user is_in_team update_timesheet
reviews = refl

review-decides_example :
    (t : Timesheet) × (find_timesheet 1 board.rows ≡ some t)
    × IsAccessible people manager t
    × (find_timesheet 1 after.rows
        ≡ some (
            if 1 == 1
            then record (sheet 1 ApprovalStatus.pending) {
              status = flag.status;
              note = flag.note;
              reviewer_id = some 5;
              total_seconds = some (flat t.user_id t.period_start t.period_end);
              decided_at = some 9;
            }
            else sheet 1 ApprovalStatus.pending))
    × (after.audit
        ≡ record { actor_id = 5; target_id = 1; before = t.status; after = ApprovalStatus.flagged }
          ∷ [])
review-decides_example =
    review-decides flat 9 1 1 flag manager people board {board' = after}
      {other = sheet 1 ApprovalStatus.pending} (unfold find_timesheet in refl) reviews
