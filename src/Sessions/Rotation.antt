-- ===== src/Sessions/Rotation.antt =====
-- A refresh on its own: the rotation of a live token, and the grace of one rotated a moment ago.
use timetrack.Prelude.{
  All, filter, not, ℕ, ◌+◌, ◌*◌, ◌<◌, ◌≤◌, ◌≡◌, ◌≢◌, refl, true, false, ◌||◌, none, some, List, [],
  ◌∷◌, arith, is_some, if◌then◌else◌, subst, any, ◌==◌,
}
use timetrack.Sessions.Model.{Token, AuthIdentity, Store, Draw, Config}
use timetrack.Sessions.Store.{
  find_refresh_token, find_by_id, find_identity_by_id, create_refresh_token, rotate_refresh_token,
  revoke_refresh_token, link_successor, rotated, minted, revoked,
}
use timetrack.Sessions.Requests.{
  Stage, issue_tokens, judge, rotate, settle_rotation, advance, run, judge_revoked, identify,
  look_up, pair,
}
use timetrack.Sessions.Keys.{IsKeyed, Distinct, find-Distinct, find-by_id}
use timetrack.Sessions.Monotone.{rotated-find, linked_row}

-- The tokens of other hashes.
abbrev pub others : (token_hash : ℕ) → List Token → List Token
others h rows = filter (λ t. not (t.token_hash == h)) rows

-- Neither the id nor the hash of the secret is taken.
abbrev pub IsFresh : Config → Draw → Store → Type 0
IsFresh cfg d st =
    any (λ t. (t.id == d.fresh_id) || (t.token_hash == cfg.hash d.secret)) st.tokens ≡ false

-- The user of the token is there and active.
abbrev pub IsActive : Store → Token → AuthIdentity → Type 0
IsActive st t i = (find_identity_by_id t.user_id st.users ≡ some i) × (i.deactivated_at ≡ none)

-- The token that a statement of the refresh mints in a family.
abbrev pub successor : Config → Draw → AuthIdentity → (family_id : ℕ) → Token
successor cfg d i family_id =
    minted d.fresh_id i.id (cfg.hash d.secret) (d.now + cfg.refresh_ttl_seconds * 1000) family_id

module _ (cfg : Config) where
  pub issue-eq :
      (d : Draw) (i : AuthIdentity) (family_id : ℕ) (st : Store)
      → IsFresh cfg d st
      → issue_tokens cfg d i family_id st ≡ (
        Stage.served (pair cfg i d.secret),
        record st { tokens = successor cfg d i family_id ∷ st.tokens },
      )
  unfolding issue_tokens create_refresh_token
  issue-eq d i family_id st fresh = rw (fresh, issue_tokens, create_refresh_token) refl

  -- A token rotated within the grace, its user being active: the refresh is served a sibling in the
  -- same family, and the row of the token is as it was, so the window does not slide.
  pub run-graced :
      (d₁ d₂ d₃ : Draw) (st : Store) (token at : ℕ) (t : Token) (i : AuthIdentity)
      → find_refresh_token (cfg.hash token) st.tokens ≡ some t
      → d₁.now < t.expires_at
      → t.revoked_at ≡ some at
      → is_some t.replaced_by_id ≡ true
      → d₁.now ≤ at + cfg.grace_seconds * 1000
      → IsActive st t i
      → IsFresh cfg d₃ st
      → run cfg (d₁ ∷ d₂ ∷ d₃ ∷ []) (Stage.refreshing token) st ≡ (
        Stage.served (pair cfg i d₃.secret),
        record st { tokens = successor cfg d₃ i t.family_id ∷ st.tokens },
      )
  unfolding run advance look_up judge judge_revoked identify rotate
  run-graced d₁ d₂ d₃ st token at t i found valid was linked recent active fresh =
      ground (arith, issue-eq d₃ i t.family_id st fresh)

  -- The rows after the rotation of a live token.
  abbrev pub rotation : Draw → (now : ℕ) → Token → AuthIdentity → Store → List Token
  rotation d now t i st =
      link_successor t.id d.fresh_id
        (successor cfg d i t.family_id ∷ revoke_refresh_token t.id now st.tokens)

  pub fresh-revoke :
      (id hash at k : ℕ) (rows : List Token)
      → any (λ t. (t.id == id) || (t.token_hash == hash)) (revoke_refresh_token k at rows)
        ≡ any (λ t. (t.id == id) || (t.token_hash == hash)) rows
  unfolding revoke_refresh_token
  fresh-revoke id hash at k [] = refl
  fresh-revoke id hash at k (t ∷ rows) = ground (arith, fresh-revoke id hash at k rows)

  rotate-eq :
      (d : Draw) (now : ℕ) (st : Store) (t : Token) (i : AuthIdentity)
      → find_by_id t.id st.tokens ≡ some t
      → t.revoked_at ≡ none
      → IsFresh cfg d st
      → rotate_refresh_token t.id d.fresh_id i.id
          (cfg.hash d.secret)
          (d.now + cfg.refresh_ttl_seconds * 1000)
          now
          t.family_id
          st.tokens
        ≡ rotated (rotation d now t i st)
  unfolding rotate_refresh_token create_refresh_token
  rotate-eq d now st t i there live fresh =
      ground (arith, fresh-revoke d.fresh_id (cfg.hash d.secret) now t.id st.tokens)

  run-rotates_eq :
      (d₁ d₂ d₃ : Draw) (st : Store) (token : ℕ) (t : Token) (i : AuthIdentity)
      → IsKeyed st.tokens
      → find_refresh_token (cfg.hash token) st.tokens ≡ some t
      → d₁.now < t.expires_at
      → t.revoked_at ≡ none
      → IsActive st t i
      → IsFresh cfg d₃ st
      → run cfg (d₁ ∷ d₂ ∷ d₃ ∷ []) (Stage.refreshing token) st
        ≡ (Stage.served (pair cfg i d₃.secret), record st { tokens = rotation d₃ d₁.now t i st })
  unfolding run advance look_up judge identify rotate settle_rotation
  run-rotates_eq d₁ d₂ d₃ st token t i keyed found valid live active fresh = ground (
    arith,
    rotate-eq d₃ d₁.now st t i (find-by_id (cfg.hash token) st.tokens {t = t} keyed found) live
        fresh,
  )

  rotation-find :
      (d : Draw) (now : ℕ) (st : Store) (t : Token) (i : AuthIdentity) (k : ℕ) {r : Token}
      → rotate_refresh_token t.id d.fresh_id i.id
          (cfg.hash d.secret)
          (d.now + cfg.refresh_ttl_seconds * 1000)
          now
          t.family_id
          st.tokens
        ≡ rotated (rotation d now t i st)
      → find_refresh_token k st.tokens ≡ some r
      → find_refresh_token k (rotation d now t i st)
        ≡ some (linked_row t.id d.fresh_id (if r.id == t.id then revoked now r else r))
  rotation-find d now st t i k {r = r} done there =
      rotated-find t.id d.fresh_id i.id (cfg.hash d.secret) (d.now + cfg.refresh_ttl_seconds * 1000)
        now t.family_id k st.tokens {t = r} there done

  fresh-id :
      (h id hash : ℕ) (rows : List Token) {t : Token}
      → any (λ r. (r.id == id) || (r.token_hash == hash)) rows ≡ false
      → find_refresh_token h rows ≡ some t
      → id ≢ t.id
  unfolding find_refresh_token
  fresh-id h id hash [] fresh found = cc
  fresh-id h id hash (r ∷ rows) {t = t} fresh found =
      ground (arith, fresh-id h id hash rows {t = t})

  -- The claim and the link pass over the rows of other ids.
  untouched :
      (now s : ℕ) (r : Token) (rows : List Token)
      → All (Distinct r) rows
      → link_successor r.id s (revoke_refresh_token r.id now rows) ≡ rows
  unfolding link_successor revoke_refresh_token
  untouched now s r [] h = refl
  untouched now s r (x ∷ rows) h = ground (arith, untouched now s r rows)

  untouched_at :
      (now s : ℕ) (r : Token) (id : ℕ) (rows : List Token)
      → All (Distinct r) rows
      → r.id ≡ id
      → link_successor id s (revoke_refresh_token id now rows) ≡ rows
  untouched_at now s r id rows h q =
      subst (λ k. link_successor k s (revoke_refresh_token k now rows) ≡ rows) q
        (untouched now s r rows h)

  others-rotated :
      (h now s : ℕ) (rows : List Token) {t : Token}
      → IsKeyed rows
      → find_refresh_token h rows ≡ some t
      → others h (link_successor t.id s (revoke_refresh_token t.id now rows)) ≡ others h rows
  unfolding link_successor revoke_refresh_token find_refresh_token
  others-rotated h now s [] keyed found = cc
  others-rotated h now s (r ∷ rows) {t = t} keyed found = ground (
    arith,
    untouched_at now s r t.id rows keyed.0,
    find-Distinct h r rows {t = t} keyed.0,
    others-rotated h now s rows {t = t} keyed.1,
  )

  -- A live token, not expired, of an active user: the refresh is served a pair, the token is revoked
  -- with the new one as its successor, the new one is live in the same family and for the same user,
  -- and every other token is as it was.
  pub run-rotates :
      (d₁ d₂ d₃ : Draw) (st : Store) (token : ℕ) (t : Token) (i : AuthIdentity)
      → IsKeyed st.tokens
      → find_refresh_token (cfg.hash token) st.tokens ≡ some t
      → d₁.now < t.expires_at
      → t.revoked_at ≡ none
      → IsActive st t i
      → IsFresh cfg d₃ st
      → (rows : List Token) × (run cfg (d₁ ∷ d₂ ∷ d₃ ∷ []) (Stage.refreshing token) st
          ≡ (Stage.served (pair cfg i d₃.secret), record st { tokens = rows }))
        × (find_refresh_token (cfg.hash token) rows
            ≡ some (record t { revoked_at = some d₁.now; replaced_by_id = some d₃.fresh_id }))
        × (find_refresh_token (cfg.hash d₃.secret) rows ≡ some (successor cfg d₃ i t.family_id))
        × (others (cfg.hash token) rows
            ≡ others (cfg.hash token) (successor cfg d₃ i t.family_id ∷ st.tokens))
  run-rotates d₁ d₂ d₃ st token t i keyed found valid live active fresh =
      let done =
        rotate-eq d₃ d₁.now st t i (find-by_id (cfg.hash token) st.tokens {t = t} keyed found) live
          fresh in
      (
        rotation d₃ d₁.now t i st,
        run-rotates_eq d₁ d₂ d₃ st token t i keyed found valid live active fresh,
        ground (arith, rotation-find d₃ d₁.now st t i (cfg.hash token) {r = t} done found),
        unfold link_successor find_refresh_token in
            ground (
              arith,
              fresh-id (cfg.hash token) d₃.fresh_id (cfg.hash d₃.secret) st.tokens {t = t} fresh
                  found,
            ),
        unfold link_successor in
            ground (
              arith,
              fresh-id (cfg.hash token) d₃.fresh_id (cfg.hash d₃.secret) st.tokens {t = t} fresh
                  found,
              others-rotated (cfg.hash token) d₁.now d₃.fresh_id st.tokens {t = t} keyed found,
            ),
      )
