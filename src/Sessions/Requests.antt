-- ===== src/Sessions/Requests.antt =====
-- auth.service.ts: refresh and logout, statement by statement. A request stands at a stage, and a
-- step runs its code up to the end of its next call of the repository, so that requests interleave
-- as those calls do. The transaction of rotateRefreshToken is one step; the record of the calling
-- client is left out.
use timetrack.Prelude.{
  ℕ, ◌+◌, ◌*◌, Bool, ◌||◌, not, Option, none, some, List, [], ◌∷◌, leb, if◌then◌else◌, is_some,
}
use timetrack.Errors.{Error, invalid_token, record_taken}
use timetrack.Sessions.Model.{Token, AuthIdentity, JwtClaims, TokenPair, Store, Config, Draw}
use timetrack.Sessions.Store.{
  find_refresh_token, find_identity_by_id, create_refresh_token, revoke_refresh_token,
  rotate_refresh_token, revoke_family, Rotation,
}

pub data Stage : Type 0 where
  -- refresh, before its first statement
  refreshing : (token : ℕ) → Stage
  -- the token was found, not expired at `now`
  presented : (token : ℕ) (stored : Token) (now : ℕ) → Stage
  -- it was acceptable, and its user is active
  identified : (token : ℕ) (stored : Token) (now : ℕ) (identity : AuthIdentity) → Stage
  -- the claim of the rotation matched no row
  lost : (token now : ℕ) (identity : AuthIdentity) → Stage
  -- about to mint a pair in a family
  issuing : (identity : AuthIdentity) (family_id : ℕ) → Stage
  served : TokenPair → Stage
  refused : Error → Stage
  -- logout, before its first statement and before its second
  leaving : (token : ℕ) → Stage
  revoking : (id : ℕ) → Stage
  left : Stage

module _ (cfg : Config) where
  abbrev pub claims_of : AuthIdentity → JwtClaims
  claims_of i = record { sub = i.id; role = i.role; team_id = i.team_id }

  abbrev pub pair : AuthIdentity → (secret : ℕ) → TokenPair
  pair i secret = record {
    access_token = cfg.sign (claims_of i);
    refresh_token = secret;
    expires_in = cfg.access_ttl_seconds;
  }

  -- now - revokedAt <= graceMs
  abbrev pub within_grace : (now revoked_at : ℕ) → Bool
  within_grace now revoked_at = leb now (revoked_at + cfg.grace_seconds * 1000)

  -- issueTokens
  unfoldable pub issue_tokens : Draw → AuthIdentity → (family_id : ℕ) → Store → Stage × Store
  issue_tokens d identity family_id st =
      elim (create_refresh_token d.fresh_id identity.id (cfg.hash d.secret)
        (d.now + cfg.refresh_ttl_seconds * 1000) family_id st.tokens) [
          | none ↦ (Stage.refused record_taken, st)
          | some rows ↦ (Stage.served (pair identity d.secret), record st { tokens = rows })
        ]

  -- findIdentityById, and the check of the user
  unfoldable pub identify : (token : ℕ) → Token → (now : ℕ) → Store → Stage × Store
  identify token stored now st = elim (find_identity_by_id stored.user_id st.users) [
    | none ↦ (Stage.refused invalid_token, st)
    | some i ↦ (
      if is_some i.deactivated_at
          then Stage.refused invalid_token
          else Stage.identified token stored now i,
      st,
    )
  ]

  -- The rules on a token that was revoked at `at`: a rotated one is graced for a while, and trips
  -- the reuse detection after it.
  unfoldable pub judge_revoked : (token : ℕ) → Token → (at now : ℕ) → Store → Stage × Store
  unfolding identify
  judge_revoked token stored at now st =
      if is_some stored.replaced_by_id
      then if within_grace now at then identify token stored now st else (
        Stage.refused invalid_token,
        record st { tokens = revoke_family stored.family_id now st.tokens },
      )
      else (Stage.refused invalid_token, st)

  unfoldable pub judge : (token : ℕ) → Token → (now : ℕ) → Store → Stage × Store
  unfolding judge_revoked identify
  judge token stored now st = elim stored.revoked_at [
    | none ↦ identify token stored now st
    | some at ↦ judge_revoked token stored at now st
  ]

  unfoldable pub settle_rotation :
      (token now : ℕ) → AuthIdentity → (secret : ℕ) → Store → Rotation → Stage × Store
  settle_rotation token now identity secret st Rotation.beaten = (Stage.lost token now identity, st)
  settle_rotation token now identity secret st Rotation.taken = (Stage.refused record_taken, st)
  settle_rotation token now identity secret st (Rotation.rotated rows) =
      (Stage.served (pair identity secret), record st { tokens = rows })

  -- The rotation, or the grace path, which does not link.
  unfoldable pub rotate :
      Draw → (token : ℕ) → Token → (now : ℕ) → AuthIdentity → Store → Stage × Store
  unfolding issue_tokens settle_rotation
  rotate d token stored now identity st =
      if is_some stored.revoked_at
      then issue_tokens d identity stored.family_id st
      else settle_rotation token now identity d.secret st (
          rotate_refresh_token stored.id d.fresh_id identity.id (cfg.hash d.secret)
            (d.now + cfg.refresh_ttl_seconds * 1000) now stored.family_id st.tokens)

  -- The rules once more, on what revoked the token in the meantime.
  unfoldable pub after_loss : (now : ℕ) → AuthIdentity → Option Token → Stage
  after_loss now identity none = Stage.refused invalid_token
  after_loss now identity (some after) = elim after.revoked_at [
    | none ↦ Stage.refused invalid_token
    | some at ↦
        if not (is_some after.replaced_by_id) || not (within_grace now at)
        then Stage.refused invalid_token
        else Stage.issuing identity after.family_id
  ]

  unfoldable pub look_up : (token now : ℕ) → Store → Stage
  look_up token now st = elim (find_refresh_token (cfg.hash token) st.tokens) [
    | none ↦ Stage.refused invalid_token
    | some t ↦
        if leb t.expires_at now then Stage.refused invalid_token else Stage.presented token t now
  ]

  unfoldable pub begin_logout : Option Token → Stage
  begin_logout none = Stage.left
  begin_logout (some t) = if is_some t.revoked_at then Stage.left else Stage.revoking t.id

  unfoldable pub advance : Draw → Stage → Store → Stage × Store
  unfolding judge rotate after_loss look_up begin_logout issue_tokens
  advance d (Stage.refreshing token) st = (look_up token d.now st, st)
  advance d (Stage.presented token stored now) st = judge token stored now st
  advance d (Stage.identified token stored now identity) st = rotate d token stored now identity st
  advance d (Stage.lost token now identity) st =
      (after_loss now identity (find_refresh_token (cfg.hash token) st.tokens), st)
  advance d (Stage.issuing identity family_id) st = issue_tokens d identity family_id st
  advance d (Stage.leaving token) st =
      (begin_logout (find_refresh_token (cfg.hash token) st.tokens), st)
  advance d (Stage.revoking id) st =
      (Stage.left, record st { tokens = revoke_refresh_token id d.now st.tokens })
  advance d s st = (s, st)

-- A turn of one request among others: its own next step, or a step of any other request.
pub data Turn : Type 0 where
  own : Draw → Turn
  other : Draw → Stage → Turn

module _ (cfg : Config) where
  unfoldable pub play : List Turn → Stage → Store → Stage × Store
  play [] s st = (s, st)
  play (Turn.own d ∷ turns) s st = let (s', st') = advance cfg d s st in play turns s' st'
  play (Turn.other d o ∷ turns) s st = play turns s (advance cfg d o st).1

  -- The request on its own, from its first statement to its answer.
  unfoldable pub run : List Draw → Stage → Store → Stage × Store
  run [] s st = (s, st)
  run (d ∷ draws) s st = let (s', st') = advance cfg d s st in run draws s' st'
