-- ===== src/Sessions/Races.antt =====
-- Requests for one token that overtake each other.
use timetrack.Prelude.{
  ℕ, ◌+◌, ◌*◌, ◌<◌, ◌≤◌, ◌≡◌, true, none, some, [], ◌∷◌, arith, is_some, if◌then◌else◌, ◌==◌,
}
use timetrack.Sessions.Model.{Token, AuthIdentity, Store, Draw, Config}
use timetrack.Sessions.Store.{
  find_refresh_token, rotate_refresh_token, revoke_refresh_token, revoked,
}
use timetrack.Sessions.Requests.{
  Stage, judge, identify, rotate, settle_rotation, after_loss, advance, run, pair,
}
use timetrack.Sessions.Keys.{IsKeyed, find-by_id, find-map}
use timetrack.Sessions.Monotone.{revoke-Keeps}
use timetrack.Sessions.Rotation.{IsActive, IsFresh, successor, issue-eq, run-graced, fresh-revoke}

module _ (cfg : Config) where
  -- A refresh that read its token live, and finds when it claims it that another refresh rotated it
  -- within the grace: it is served too, with one more token in the family, and changes no other row.
  pub run-raced :
      (d₁ d₂ d₃ d₄ : Draw) (st : Store) (token now at : ℕ) (stored t : Token) (i : AuthIdentity)
      → IsKeyed st.tokens
      → find_refresh_token (cfg.hash token) st.tokens ≡ some t
      → (stored.id ≡ t.id) × (stored.user_id ≡ t.user_id) × (stored.revoked_at ≡ none)
      → t.revoked_at ≡ some at
      → is_some t.replaced_by_id ≡ true
      → now ≤ at + cfg.grace_seconds * 1000
      → IsActive st t i
      → IsFresh cfg d₄ st
      → run cfg (d₁ ∷ d₂ ∷ d₃ ∷ d₄ ∷ []) (Stage.presented token stored now) st ≡ (
        Stage.served (pair cfg i d₄.secret),
        record st { tokens = successor cfg d₄ i t.family_id ∷ st.tokens },
      )
  unfolding run advance judge identify rotate settle_rotation after_loss rotate_refresh_token
  run-raced d₁ d₂ d₃ d₄ st token now at stored t i keyed found snapshot was linked recent active
        fresh =
      ground (
        arith,
        find-by_id (cfg.hash token) st.tokens {t = t} keyed found,
        issue-eq cfg d₄ i t.family_id st fresh,
      )

  -- The tables after the last statement of a logout.
  abbrev pub logged_out : Draw → (id : ℕ) → Store → Store
  logged_out d id st = (advance cfg d (Stage.revoking id) st).1

  -- Let a logout stand before its write, and let its token have been rotated by then. The write
  -- lands on the rotated row, so a refresh of the token, which its user has logged out, is served
  -- within the grace of the logout, however long ago the rotation was.
  pub logout-overtaken :
      (d d₁ d₂ d₃ : Draw) (st : Store) (token : ℕ) (t : Token) (i : AuthIdentity)
      → find_refresh_token (cfg.hash token) st.tokens ≡ some t
      → is_some t.replaced_by_id ≡ true
      → d₁.now < t.expires_at
      → d₁.now ≤ d.now + cfg.grace_seconds * 1000
      → IsActive st t i
      → IsFresh cfg d₃ st
      → (run cfg (d₁ ∷ d₂ ∷ d₃ ∷ []) (Stage.refreshing token) (logged_out d t.id st)).0
        ≡ Stage.served (pair cfg i d₃.secret)
  unfolding advance revoke_refresh_token
  logout-overtaken d d₁ d₂ d₃ st token t i found linked valid recent active fresh =
      let there =
        find-map (λ x. if x.id == t.id then revoked d.now x else x) (cfg.hash token) st.tokens
          {t = t} (revoke-Keeps d.now t.id) found in
      let free = fresh-revoke cfg d₃.fresh_id (cfg.hash d₃.secret) d.now t.id st.tokens in
      ground (
        arith,
        there,
        free,
        run-graced cfg d₁ d₂ d₃ (logged_out d t.id st) token d.now (revoked d.now t) i,
      )
