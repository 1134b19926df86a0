-- ===== src/Approvals/Reviews.antt =====
-- approvals.service.ts and approvals.repository.ts: what a caller lists, and the decision of a
-- reviewer. The tracked time of a period, which SQL sums, is an argument.
use timetrack.Prelude.{
  ℕ, Bool, true, false, ◌&&◌, Option, none, some, List, ◌∷◌, ◌==◌, if◌then◌else◌, any, filter, map,
}
use timetrack.Errors.{Result, ok, err, ◌>>=◌, ◌>>◌, forbidden_team, timesheet_not_found}
use timetrack.Access.{Role, is_admin, is_manager, User, SessionUser, assert_can_access_user}
use timetrack.Approvals.Job.{ApprovalStatus, Timesheet, find_timesheet}

pub data ApprovalScope : Type 0 where
  user : ℕ → ApprovalScope
  team : ℕ → ApprovalScope
  all : ApprovalScope

abbrev is_employee : Role → Bool
is_employee Role.employee = true
is_employee r = false

-- resolveScope, of a caller who is no employee and names no team
abbrev default_scope : SessionUser → ApprovalScope
default_scope u = if is_admin u.role then all else team u.team_id

unfoldable pub resolve_scope : (team_id : Option ℕ) → SessionUser → Result ApprovalScope
resolve_scope team_id u = if is_employee u.role then ok (user u.id) else elim team_id [
  | none ↦ ok (default_scope u)
  | some t ↦
      if is_admin u.role
      then ok (team t)
      else if is_manager u.role && (t == u.team_id)
      then ok (team u.team_id)
      else err forbidden_team
]

abbrev pub same_status : ApprovalStatus → ApprovalStatus → Bool
same_status ApprovalStatus.pending ApprovalStatus.pending = true
same_status ApprovalStatus.approved ApprovalStatus.approved = true
same_status ApprovalStatus.flagged ApprovalStatus.flagged = true
same_status s s' = false

-- scopeSql, on a row joined with its user
unfoldable pub in_scope : ApprovalScope → List User → Timesheet → Bool
in_scope (user id) users t = any (λ u. (u.id == t.user_id) && (t.user_id == id)) users
in_scope (team id) users t = any (λ u. (u.id == t.user_id) && (u.team_id == id)) users
in_scope all users t = any (λ u. u.id == t.user_id) users

abbrev pub has_status : Option ApprovalStatus → Timesheet → Bool
has_status none t = true
has_status (some s) t = same_status t.status s

-- The rows that `list` selects, in the table's order.
unfoldable pub list :
    (team_id : Option ℕ)
    → Option ApprovalStatus
    → SessionUser
    → List User
    → List Timesheet
    → Result (List Timesheet)
unfolding in_scope
list team_id status u users rows = do
  scope ← resolve_scope team_id u
  ok (filter (λ t. in_scope scope users t && has_status status t) rows)

pub record Decision : Type 0 where
  pub status : ApprovalStatus
  pub note : Option ℕ

pub record Review : Type 0 where
  pub actor_id : ℕ
  pub target_id : ℕ
  pub before : ApprovalStatus
  pub after : ApprovalStatus

pub record Board : Type 0 where
  pub rows : List Timesheet
  pub audit : List Review

abbrev pub reviewed : (now total : ℕ) → Decision → (reviewer : ℕ) → Timesheet → Timesheet
reviewed now total dto reviewer t = record t {
  status = dto.status;
  note = dto.note;
  reviewer_id = some reviewer;
  total_seconds = some total;
  decided_at = some now;
}

-- The update of the transaction.
unfoldable pub update_timesheet : ℕ → (Timesheet → Timesheet) → List Timesheet → List Timesheet
update_timesheet id f rows = map (λ t. if t.id == id then f t else t) rows

-- findById of the service, with its 404.
abbrev pub found_or_404 : Option Timesheet → Result Timesheet
found_or_404 none = err timesheet_not_found
found_or_404 (some t) = ok t

unfoldable pub review :
    (tracked : (user_id start end : ℕ) → ℕ) (now id : ℕ)
    → Decision
    → SessionUser
    → List User
    → Board
    → Result Board
unfolding update_timesheet
review tracked now id dto u users board = do
  t ← found_or_404 (find_timesheet id board.rows)
  assert_can_access_user users u t.user_id
  ok (record {
    rows =
        update_timesheet id (reviewed now (tracked t.user_id t.period_start t.period_end) dto u.id)
          board.rows;
    audit =
        record { actor_id = u.id; target_id = id; before = t.status; after = dto.status }
        ∷ board.audit;
  })
