-- ===== src/Sessions/Interleaving.antt =====
-- Refreshes and logouts whose statements interleave: what every step, and so every schedule, keeps.
use timetrack.Prelude.{
  ℕ, ◌+◌, ◌*◌, ◌≡◌, ◌⊎◌, refl, sym, some, List, [], ◌∷◌, arith, is_some, Option-cases, Bool-cases,
  inl, inr, subst,
}
use timetrack.Sessions.Model.{Token, AuthIdentity, Store, Draw, Config}
use timetrack.Sessions.Store.{
  find_refresh_token, create_refresh_token, revoke_refresh_token, rotate_refresh_token,
  revoke_family, Rotation, rotated, beaten, taken,
}
use timetrack.Sessions.Requests.{
  Stage, Turn, issue_tokens, judge, rotate, settle_rotation, advance, play, judge_revoked, identify,
}
use timetrack.Sessions.Keys.{IsKeyed, map-IsKeyed, find-map, create-IsKeyed, find-create}
use timetrack.Sessions.Monotone.{
  Stays-refl, Stays-trans, Found, revoke-Stays, family-Stays, revoke-Keeps, family-Keeps,
  rotated-IsKeyed, rotated-Found,
}

-- The keys of the rows stay unique, and a row that is found by its hash is still there.
abbrev Safe : List Token → List Token → Type 0
Safe rows rows' =
    IsKeyed rows' × ((h : ℕ) (t : Token) → find_refresh_token h rows ≡ some t → Found h t rows')

Safe-refl : (rows : List Token) → IsKeyed rows → Safe rows rows
Safe-refl rows k = (k, λ h t found. (t, found, Stays-refl t))

create-Safe :
    (id user_id token_hash expires_at family_id : ℕ) (rows : List Token) {rows' : List Token}
    → IsKeyed rows
    → create_refresh_token id user_id token_hash expires_at family_id rows ≡ some rows'
    → Safe rows rows'
create-Safe id user_id token_hash expires_at family_id rows {rows' = rows'} k made = (
  create-IsKeyed id user_id token_hash expires_at family_id rows {rows' = rows'} k made,
  λ h t found. (
    t,
    find-create id user_id token_hash expires_at family_id h rows {rows' = rows'} made found,
    Stays-refl t,
  ),
)

rotate-Safe :
    (id successor user_id token_hash expires_at at family_id : ℕ) (rows : List Token)
    {rows' : List Token}
    → IsKeyed rows
    → rotate_refresh_token id successor user_id token_hash expires_at at family_id rows
      ≡ rotated rows'
    → Safe rows rows'
rotate-Safe id successor user_id token_hash expires_at at family_id rows {rows' = rows'} k done = (
  rotated-IsKeyed id successor user_id token_hash expires_at at family_id rows {rows' = rows'} k
      done,
  λ h t found.
      rotated-Found id successor user_id token_hash expires_at at family_id h rows {rows' = rows'}
        {t = t} k found done,
)

revoke-Safe :
    (id at : ℕ) (rows : List Token) → IsKeyed rows → Safe rows (revoke_refresh_token id at rows)
unfolding revoke_refresh_token
revoke-Safe id at rows k = (
  map-IsKeyed _ rows (revoke-Keeps at id) k,
  λ h t found. (_, find-map _ h rows {t = t} (revoke-Keeps at id) found, revoke-Stays at id t),
)

family-Safe : (f at : ℕ) (rows : List Token) → IsKeyed rows → Safe rows (revoke_family f at rows)
unfolding revoke_family
family-Safe f at rows k = (
  map-IsKeyed _ rows (family-Keeps at f) k,
  λ h t found. (_, find-map _ h rows {t = t} (family-Keeps at f) found, family-Stays at f t),
)

module _ (cfg : Config) where
  issue-Safe :
      (d : Draw) (identity : AuthIdentity) (family_id : ℕ) (st : Store)
      → IsKeyed st.tokens
      → Safe st.tokens (issue_tokens cfg d identity family_id st).1.tokens
  unfolding issue_tokens
  issue-Safe d identity family_id st k =
      elim (Option-cases (
        create_refresh_token d.fresh_id identity.id (cfg.hash d.secret)
          (d.now + cfg.refresh_ttl_seconds * 1000) family_id st.tokens)) [
            | inl refused ↦ rw (refused, issue_tokens) (Safe-refl st.tokens k)
            | inr (rows, made) ↦
                rw (made, issue_tokens)
                  (create-Safe d.fresh_id identity.id (cfg.hash d.secret)
                    (d.now + cfg.refresh_ttl_seconds * 1000) family_id st.tokens {rows' = rows} k
                    made)
          ]

  settle-Safe :
      (token now : ℕ) (identity : AuthIdentity) (secret : ℕ) (st : Store) (r : Rotation)
      → IsKeyed st.tokens
      → ((rows : List Token) → r ≡ rotated rows → Safe st.tokens rows)
      → Safe st.tokens (settle_rotation cfg token now identity secret st r).1.tokens
  unfolding settle_rotation
  settle-Safe token now identity secret st beaten k h = Safe-refl st.tokens k
  settle-Safe token now identity secret st taken k h = Safe-refl st.tokens k
  settle-Safe token now identity secret st (rotated rows) k h = h rows refl

  rotation-Safe :
      (d : Draw) (token : ℕ) (stored : Token) (now : ℕ) (identity : AuthIdentity) (st : Store)
      → IsKeyed st.tokens
      → Safe st.tokens (rotate cfg d token stored now identity st).1.tokens
  unfolding rotate
  rotation-Safe d token stored now identity st k = elim (Bool-cases (is_some stored.revoked_at)) [
    | inl graced ↦ rw (graced, rotate) (issue-Safe d identity stored.family_id st k)
    | inr live ↦
        rw (live, rotate)
          (settle-Safe token now identity d.secret st _ k (λ rows done.
            rotate-Safe stored.id d.fresh_id identity.id (cfg.hash d.secret)
              (d.now + cfg.refresh_ttl_seconds * 1000) now stored.family_id st.tokens {rows' = rows}
              k done))
  ]

  judge-tokens :
      (token : ℕ) (stored : Token) (now : ℕ) (st : Store)
      → ((judge cfg token stored now st).1.tokens ≡ st.tokens)
        ⊎ ((judge cfg token stored now st).1.tokens ≡ revoke_family stored.family_id now st.tokens)
  unfolding judge judge_revoked identify
  judge-tokens token stored now st = ground arith

  judge-Safe :
      (token : ℕ) (stored : Token) (now : ℕ) (st : Store)
      → IsKeyed st.tokens
      → Safe st.tokens (judge cfg token stored now st).1.tokens
  judge-Safe token stored now st k = elim (judge-tokens token stored now st) [
    | inl same ↦ subst (Safe st.tokens) (sym same) (Safe-refl st.tokens k)
    | inr killed ↦
        subst (Safe st.tokens) (sym killed) (family-Safe stored.family_id now st.tokens k)
  ]

  advance-Safe :
      (d : Draw) (s : Stage) (st : Store)
      → IsKeyed st.tokens
      → Safe st.tokens (advance cfg d s st).1.tokens
  unfolding advance
  advance-Safe d (Stage.refreshing token) st k = Safe-refl st.tokens k
  advance-Safe d (Stage.presented token stored now) st k = judge-Safe token stored now st k
  advance-Safe d (Stage.identified token stored now identity) st k =
      rotation-Safe d token stored now identity st k
  advance-Safe d (Stage.lost token now identity) st k = Safe-refl st.tokens k
  advance-Safe d (Stage.issuing identity family_id) st k = issue-Safe d identity family_id st k
  advance-Safe d (Stage.served p) st k = Safe-refl st.tokens k
  advance-Safe d (Stage.refused e) st k = Safe-refl st.tokens k
  advance-Safe d (Stage.leaving token) st k = Safe-refl st.tokens k
  advance-Safe d (Stage.revoking id) st k = revoke-Safe id d.now st.tokens k
  advance-Safe d Stage.left st k = Safe-refl st.tokens k

  -- Whatever refreshes and logouts interleave, ids and hashes stay unique, and a token that was
  -- issued stays stored with its user, its family and its expiry. Once revoked it stays revoked, and
  -- its successor never changes.
  pub play-Stays :
      (turns : List Turn) (s : Stage) (st : Store) (h : ℕ) (t : Token)
      → IsKeyed st.tokens
      → find_refresh_token h st.tokens ≡ some t
      → IsKeyed (play cfg turns s st).1.tokens × Found h t (play cfg turns s st).1.tokens
  unfolding play
  play-Stays [] s st h t k found = (k, (t, found, Stays-refl t))
  play-Stays (Turn.own d ∷ turns) s st h t k found =
      let (k', keep) = advance-Safe d s st k in
      let (t', found', stays) = keep h t found in
      let (k'', (t'', found'', stays')) =
        play-Stays turns (advance cfg d s st).0 (advance cfg d s st).1 h t' k' found' in
      (k'', (t'', found'', Stays-trans t t' t'' stays stays'))
  play-Stays (Turn.other d o ∷ turns) s st h t k found =
      let (k', keep) = advance-Safe d o st k in
      let (t', found', stays) = keep h t found in
      let (k'', (t'', found'', stays')) =
        play-Stays turns s (advance cfg d o st).1 h t' k' found' in
      (k'', (t'', found'', Stays-trans t t' t'' stays stays'))
