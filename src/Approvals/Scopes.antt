-- ===== src/Approvals/Scopes.antt =====
-- Whose timesheets a caller sees and decides.
use timetrack.Prelude.{
  ℕ, ◌≡◌, ◌⊎◌, refl, subst, true, Bool, ◌&&◌, Option, some, List, [], ◌∷◌, arith, ◌==◌, ltb,
  if◌then◌else◌, Option-cases, inl, inr, any, filter, All, count,
}
use timetrack.Errors.{ok, err, forbidden_user, >>=-eq-ok}
use timetrack.Access.{is_admin, is_manager, User, SessionUser, is_in_team, assert_can_access_user}
use timetrack.Approvals.Job.{ApprovalStatus, Timesheet, find_timesheet}
use timetrack.Approvals.Reviews.{
  ApprovalScope, resolve_scope, in_scope, has_status, list, Decision, Board, reviewed,
  update_timesheet, review,
}

-- The caller may touch the data of this row's user.
abbrev pub IsAccessible : List User → SessionUser → Timesheet → Type 0
IsAccessible users u t = assert_can_access_user users u t.user_id ≡ ok tt

any-count :
    (p : User → Bool) (users : List User) → any p users ≡ true → ltb 0 (count p users) ≡ true
any-count p [] h = cc
any-count p (x ∷ users) h = ground (arith, any-count p users)

Access-cases :
    (users : List User) (u : SessionUser) (id : ℕ)
    → (assert_can_access_user users u id ≡ err forbidden_user)
      ⊎ (assert_can_access_user users u id ≡ ok tt)
unfolding assert_can_access_user
Access-cases users u id = ground arith

scope-cases :
    (team_id : Option ℕ) (u : SessionUser) {scope : ApprovalScope}
    → resolve_scope team_id u ≡ ok scope
    → (scope ≡ ApprovalScope.user u.id)
      ⊎ (is_admin u.role ≡ true)
      ⊎ (is_manager u.role ≡ true) × (scope ≡ ApprovalScope.team u.team_id)
unfolding resolve_scope
scope-cases team_id u {scope = scope} r = ground arith

own-row : (k id : ℕ) (users : List User) → any (λ x. (x.id == k) && (k == id)) users ≡ true → k ≡ id
own-row k id [] h = cc
own-row k id (x ∷ users) h = ground (arith, own-row k id users)

scope-IsAccessible :
    (team_id : Option ℕ) (u : SessionUser) (users : List User) (t : Timesheet)
    {scope : ApprovalScope}
    → resolve_scope team_id u ≡ ok scope
    → in_scope scope users t ≡ true
    → IsAccessible users u t
unfolding in_scope assert_can_access_user is_in_team
scope-IsAccessible team_id u users t {scope = scope} r h =
    elim (scope-cases team_id u {scope = scope} r) [
      | inl own ↦
          let q = own-row t.user_id u.id users (subst (λ s. in_scope s users t ≡ true) own h) in
          ground arith
      | inr (inl admin) ↦ ground arith
      | inr (inr (manager, team)) ↦
          let q =
            any-count (λ x. (x.id == t.user_id) && (x.team_id == u.team_id)) users
              (subst (λ s. in_scope s users t ≡ true) team h) in
          ground arith
    ]

All-visible :
    (P : Timesheet → Type 0) (p q : Timesheet → Bool) (rows : List Timesheet)
    → ((t : Timesheet) → p t ≡ true → P t)
    → All P (filter (λ t. p t && q t) rows)
All-visible P p q [] h = tt
All-visible P p q (t ∷ rows) h = ground (arith, h t, All-visible P p q rows h)

-- Every timesheet that a caller is shown, whatever team and status they ask for, is that of a user
-- whom the caller may access.
pub list-IsAccessible :
    (team_id : Option ℕ) (status : Option ApprovalStatus) (u : SessionUser) (users : List User)
    (rows : List Timesheet) {shown : List Timesheet}
    → list team_id status u users rows ≡ ok shown
    → All (IsAccessible users u) shown
unfolding list
list-IsAccessible team_id status u users rows {shown = shown} w =
    let (scope, r, same) =
      >>=-eq-ok (resolve_scope team_id u)
        (λ scope. ok (filter (λ t. in_scope scope users t && has_status status t) rows)) w in
    let all =
      All-visible (IsAccessible users u) (in_scope scope users) (has_status status) rows
        (λ t. scope-IsAccessible team_id u users t {scope = scope} r) in
    let eq : filter (λ t. in_scope scope users t && has_status status t) rows ≡ shown = cc same in
    subst (All (IsAccessible users u)) eq all

find-update :
    (id k : ℕ) (f : Timesheet → Timesheet) (rows : List Timesheet) {t : Timesheet}
    → ((x : Timesheet) → (f x).id ≡ x.id)
    → find_timesheet k rows ≡ some t
    → find_timesheet k (update_timesheet id f rows) ≡ some (if t.id == id then f t else t)
unfolding find_timesheet update_timesheet
find-update id k f [] keep found = cc
find-update id k f (r ∷ rows) {t = t} keep found =
    ground (arith, keep r, find-update id k f rows {t = t} keep)

-- A decision that succeeds was made on a stored timesheet of a user whom the reviewer may access. It
-- leaves that timesheet with the status and the note of the decision, the reviewer, the tracked time
-- of its period and the time of the decision, its other columns as they were; it leaves every other timesheet as it was, and it adds one audit row, of the
-- reviewer.
pub review-decides :
    (tracked : (user_id start end : ℕ) → ℕ) (now id k : ℕ) (dto : Decision) (u : SessionUser)
    (users : List User) (board : Board) {board' : Board} {other : Timesheet}
    → find_timesheet k board.rows ≡ some other
    → review tracked now id dto u users board ≡ ok board'
    → (t : Timesheet) × (find_timesheet id board.rows ≡ some t)
      × IsAccessible users u t
      × (find_timesheet k board'.rows
          ≡ some (
              if other.id == id
              then record other {
                status = dto.status;
                note = dto.note;
                reviewer_id = some u.id;
                total_seconds = some (tracked t.user_id t.period_start t.period_end);
                decided_at = some now;
              }
              else other))
      × (board'.audit
          ≡ record { actor_id = u.id; target_id = id; before = t.status; after = dto.status }
            ∷ board.audit)
unfolding review
review-decides tracked now id k dto u users board {board' = board'} {other = other} found w =
    elim (Option-cases (find_timesheet id board.rows)) [
      | inl missing ↦ ground arith
      | inr (t, there) ↦
          let f = reviewed now (tracked t.user_id t.period_start t.period_end) dto u.id in
          elim (Access-cases users u t.user_id) [
            | inl refused ↦ ground arith
            | inr granted ↦ (
              t,
              there,
              granted,
              ground (arith, find-update id k f board.rows {t = other} (λ x. refl) found),
              ground arith,
            )
          ]
    ]
