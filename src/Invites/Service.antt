-- ===== src/Invites/Service.antt =====
-- invites.service.ts, with accept as a request that interleaves with others. The hash of a token
-- and whether the queue takes a message are arguments.
use timetrack.Prelude.{ℕ, zero, suc, ◌+◌, ◌*◌, Bool, not, none, some, List, [], ◌∷◌, if◌then◌else◌}
use timetrack.Errors.{
  Error, Result, ok, err, throw_if, ◌>>◌, admin_only, team_unknown, email_in_use, invite_pending,
  enqueue_failed, record_taken, invalid_invite,
}
use timetrack.Access.{is_admin, SessionUser}
use timetrack.Invites.Model.{
  Invite, Register, CreateInviteInput, AcceptedInvite, InviteUser, CreatedInvite,
}
use timetrack.Invites.Store.{
  create_invite, team_exists, email_exists_as_user, has_active_pending_invite, list_pending,
  find_acceptable, consume,
}

-- The guards of create.
unfoldable pub may_invite : (now : ℕ) → InviteUser → SessionUser → Register → Result (Unit {0})
unfolding has_active_pending_invite
may_invite now dto actor reg = do
  throw_if (not (is_admin actor.role)) admin_only
  throw_if (not (team_exists reg dto.team_id)) team_unknown
  throw_if (email_exists_as_user reg dto.email) email_in_use
  throw_if (has_active_pending_invite reg dto.email now) invite_pending

-- What create draws: the id of the row, the token, and what the queue says.
pub record Draw : Type 0 where
  pub id : ℕ
  pub token : ℕ
  pub now : ℕ
  pub enqueued : Bool

-- An accept: before its read, before its writes, and answered. It keeps its token and what it
-- draws: the time, the hash of the password and the id of a new user.
pub data Stage : Type 0 where
  accepting : (token name password_hash now : ℕ) → Stage
  acceptable : (token name password_hash now : ℕ) → Invite → Stage
  accepted : (token : ℕ) → AcceptedInvite → Stage
  refused : (token : ℕ) → Error → Stage

-- What happens: an invite is created, an accept comes in, an accept takes its next step.
pub data Event : Type 0 where
  inviting : Draw → InviteUser → SessionUser → Event
  arriving : (token name password_hash now : ℕ) → Event
  turning : (position user_id : ℕ) → Event

module _ (hash_token : ℕ → ℕ) (ttl_days : ℕ) where
  abbrev pub input_of : Draw → InviteUser → CreateInviteInput
  input_of d dto = record {
    email = dto.email;
    role = dto.role;
    team_id = dto.team_id;
    token_hash = hash_token d.token;
    expires_at = d.now + ttl_days * 24 * 60 * 60 * 1000;
  }

  -- The row is committed before the message is enqueued, so it stays when that fails.
  unfoldable pub create :
      Draw → InviteUser → SessionUser → Register → Result CreatedInvite × Register
  unfolding may_invite create_invite
  create d dto actor reg = elim (may_invite d.now dto actor reg) [
    | err e ↦ (err e, reg)
    | ok u ↦ elim (create_invite d.id d.now (input_of d dto) reg.invites) [
      | none ↦ (err record_taken, reg)
      | some rows ↦ (
        if d.enqueued
            then ok (record {
              id = d.id;
              email = dto.email;
              role = dto.role;
              team_id = dto.team_id;
              expires_at = (input_of d dto).expires_at;
              token = d.token;
            })
            else err enqueue_failed,
        record reg { invites = rows },
      )
    ]
  ]

  unfoldable pub pending : (now : ℕ) → SessionUser → Register → Result (List Invite)
  unfolding list_pending
  pending now actor reg = do
    throw_if (not (is_admin actor.role)) admin_only
    ok (list_pending reg now)

  unfoldable pub advance : (user_id : ℕ) → Stage → Register → Stage × Register
  unfolding find_acceptable consume
  advance user_id (accepting token name password_hash now) reg = (
    elim (find_acceptable (hash_token token) now reg) [
      | none ↦ refused token invalid_invite
      | some i ↦ acceptable token name password_hash now i
    ],
    reg,
  )
  advance user_id (acceptable token name password_hash now i) reg =
      let (answer, after) = consume user_id name password_hash now i reg in
      (elim answer [ none ↦ refused token invalid_invite | some a ↦ accepted token a ], after)
  advance user_id (accepted token a) reg = (accepted token a, reg)
  advance user_id (refused token e) reg = (refused token e, reg)

  unfoldable pub advance_at : (position user_id : ℕ) → List Stage → Register → List Stage × Register
  unfolding advance
  advance_at k u [] reg = ([], reg)
  advance_at zero u (s ∷ pool) reg = let (s', reg') = advance u s reg in (s' ∷ pool, reg')
  advance_at (suc k) u (s ∷ pool) reg =
      let (pool', reg') = advance_at k u pool reg in (s ∷ pool', reg')

  unfoldable pub play : List Event → List Stage → Register → List Stage × Register
  unfolding create advance_at
  play [] pool reg = (pool, reg)
  play (inviting d dto actor ∷ events) pool reg = play events pool (create d dto actor reg).1
  play (arriving token name password_hash now ∷ events) pool reg =
      play events (accepting token name password_hash now ∷ pool) reg
  play (turning k u ∷ events) pool reg =
      let (pool', reg') = advance_at k u pool reg in play events pool' reg'
