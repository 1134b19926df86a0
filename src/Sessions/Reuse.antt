-- ===== src/Sessions/Reuse.antt =====
-- A rotated token that comes back after the grace.
use timetrack.Prelude.{
  ◌&&◌, false, ℕ, ◌+◌, ◌*◌, ◌<◌, ◌≡◌, refl, true, not, some, List, [], ◌∷◌, arith, is_some, ◌==◌,
  filter, All,
}
use timetrack.Errors.{invalid_token}
use timetrack.Sessions.Model.{Token, Store, Draw, Config}
use timetrack.Sessions.Store.{find_refresh_token, revoke_family}
use timetrack.Sessions.Requests.{Stage, judge, advance, run, judge_revoked, look_up}

-- Not a live token of the family.
abbrev pub IsDead : (family_id : ℕ) → Token → Type 0
IsDead f t = ((t.family_id == f) && not (is_some t.revoked_at)) ≡ false

-- The tokens of the other families.
abbrev pub outside : (family_id : ℕ) → List Token → List Token
outside f rows = filter (λ t. not (t.family_id == f)) rows

revoke_family-IsDead : (f at : ℕ) (rows : List Token) → All (IsDead f) (revoke_family f at rows)
unfolding revoke_family
revoke_family-IsDead f at [] = tt
revoke_family-IsDead f at (t ∷ rows) = ground (arith, revoke_family-IsDead f at rows)

outside-revoke_family :
    (f at : ℕ) (rows : List Token) → outside f (revoke_family f at rows) ≡ outside f rows
unfolding revoke_family
outside-revoke_family f at [] = refl
outside-revoke_family f at (t ∷ rows) = ground (arith, outside-revoke_family f at rows)

-- A rotated token that is presented after the grace is refused with the 401, after which every token
-- of its family is revoked, and the tokens of all other families are as they were.
pub run-reuse :
    (cfg : Config) (d₁ d₂ : Draw) (st : Store) (token at : ℕ) (t : Token)
    → find_refresh_token (cfg.hash token) st.tokens ≡ some t
    → d₁.now < t.expires_at
    → t.revoked_at ≡ some at
    → is_some t.replaced_by_id ≡ true
    → at + cfg.grace_seconds * 1000 < d₁.now
    → (rows : List Token) × (run cfg (d₁ ∷ d₂ ∷ []) (Stage.refreshing token) st
        ≡ (Stage.refused invalid_token, record st { tokens = rows }))
      × All (IsDead t.family_id) rows
      × (outside t.family_id rows ≡ outside t.family_id st.tokens)
unfolding run advance look_up judge judge_revoked
run-reuse cfg d₁ d₂ st token at t found valid was linked late = (
  revoke_family t.family_id d₁.now st.tokens,
  ground arith,
  revoke_family-IsDead t.family_id d₁.now st.tokens,
  outside-revoke_family t.family_id d₁.now st.tokens,
)
