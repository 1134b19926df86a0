-- ===== src/Approvals/Decisions.antt =====
-- Which timesheets the job decides, and how it counts them.
use timetrack.Prelude.{ℕ, suc, ◌+◌, ◌*◌, ◌≤◌, ◌≡◌, ◌⊎◌, List, [], ◌∷◌, arith, Any, length}
use timetrack.Approvals.Job.{
  ApprovalStatus, Timesheet, Candidate, AutoApproveOutcome, approved_row, Progress, skipped,
  approve, decide, auto_approve,
}

-- No idle time is unresolved, and the tracked hours lie between the floor and the ceiling.
abbrev pub IsSound : Candidate → Type 0
IsSound c =
    (c.unresolved_idle ≡ 0)
    × (c.settings.timesheet_reminder_hours * 3600 ≤ c.tracked_seconds)
    × (c.tracked_seconds ≤ c.settings.auto_approve_max_hours * 3600)

-- The row stays as it was, or was pending and is approved for a sound candidate.
abbrev pub Decided : (now : ℕ) → List Candidate → Timesheet → Timesheet → Type 0
Decided now candidates t t' =
    (t' ≡ t)
    ⊎ (t.status ≡ ApprovalStatus.pending)
      × Any (λ c. (c.id ≡ t.id) × IsSound c × (t' ≡ approved_row now c t)) candidates

abbrev pub skips : AutoApproveOutcome → ℕ
skips o = o.unresolved_idle + o.below_floor + o.above_ceiling

decide-counts :
    (now : ℕ) (c : Candidate) (p : Progress)
    → (length (decide now c p).audit + p.outcome.approved
        ≡ length p.audit + (decide now c p).outcome.approved)
      × ((decide now c p).outcome.approved + skips (decide now c p).outcome
          ≤ suc (p.outcome.approved + skips p.outcome))
unfolding decide approve skipped
decide-counts now c p = ground arith

-- The job counts as approved exactly the approvals that it put on the audit log, and it counts no
-- candidate twice.
pub auto_approve-counts :
    (now : ℕ) (candidates : List Candidate) (p : Progress)
    → (length (auto_approve now candidates p).audit + p.outcome.approved
        ≡ length p.audit + (auto_approve now candidates p).outcome.approved)
      × ((auto_approve now candidates p).outcome.approved
            + skips (auto_approve now candidates p).outcome
          ≤ length candidates + (p.outcome.approved + skips p.outcome))
unfolding auto_approve
auto_approve-counts now [] p = (omega arith, omega arith)
auto_approve-counts now (c ∷ candidates) p = (
  omega (arith, (decide-counts now c p).0, (auto_approve-counts now candidates (decide now c p)).0),
  omega (arith, (decide-counts now c p).1, (auto_approve-counts now candidates (decide now c p)).1),
)
