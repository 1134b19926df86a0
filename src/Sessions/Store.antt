-- ===== src/Sessions/Store.antt =====
-- auth.repository.ts: the statements on refresh_tokens. Each function is one statement or one
-- transaction; id and token_hash are unique, and `none` is the refusal of a key that is taken.
use timetrack.Prelude.{
  ℕ, ◌&&◌, ◌||◌, not, Option, none, some, List, [], ◌∷◌, map, ◌==◌, if◌then◌else◌, any, is_some,
}
use timetrack.Sessions.Model.{Token, AuthIdentity}

-- findRefreshToken
unfoldable pub find_refresh_token : (token_hash : ℕ) → List Token → Option Token
find_refresh_token h [] = none
find_refresh_token h (t ∷ rows) = if t.token_hash == h then some t else find_refresh_token h rows

-- The row that `where: { id }` selects.
unfoldable pub find_by_id : (id : ℕ) → List Token → Option Token
find_by_id id [] = none
find_by_id id (t ∷ rows) = if t.id == id then some t else find_by_id id rows

-- findIdentityById
unfoldable pub find_identity_by_id : (id : ℕ) → List AuthIdentity → Option AuthIdentity
find_identity_by_id id [] = none
find_identity_by_id id (u ∷ users) = if u.id == id then some u else find_identity_by_id id users

-- data: { userId, tokenHash, expiresAt, familyId }
abbrev pub minted : (id user_id token_hash expires_at family_id : ℕ) → Token
minted id user_id token_hash expires_at family_id = record {
  id = id;
  user_id = user_id;
  token_hash = token_hash;
  expires_at = expires_at;
  family_id = family_id;
  revoked_at = none;
  replaced_by_id = none;
}

-- createRefreshToken
unfoldable pub create_refresh_token :
    (id user_id token_hash expires_at family_id : ℕ) → List Token → Option (List Token)
create_refresh_token id user_id token_hash expires_at family_id rows =
    if any (λ t. (t.id == id) || (t.token_hash == token_hash)) rows
    then none
    else some (minted id user_id token_hash expires_at family_id ∷ rows)

-- data: { revokedAt }
abbrev pub revoked : (revoked_at : ℕ) → Token → Token
revoked at t = record t { revoked_at = some at }

-- revokeRefreshToken: written whatever the row says by now
unfoldable pub revoke_refresh_token : (id revoked_at : ℕ) → List Token → List Token
revoke_refresh_token id at rows = map (λ t. if t.id == id then revoked at t else t) rows

-- data: { replacedById }
unfoldable pub link_successor : (id successor : ℕ) → List Token → List Token
link_successor id successor rows =
    map (λ t. if t.id == id then record t { replaced_by_id = some successor } else t) rows

-- What a rotation comes to: the claim matched no row, or a successor stands.
pub data Rotation : Type 0 where
  beaten : Rotation
  taken : Rotation
  rotated : List Token → Rotation

abbrev pub linked : (id successor : ℕ) → Option (List Token) → Rotation
linked id successor none = taken
linked id successor (some rows) = rotated (link_successor id successor rows)

-- rotateRefreshToken: the claim is the UPDATE under `revokedAt: null`.
unfoldable pub rotate_refresh_token :
    (id successor user_id token_hash expires_at revoked_at family_id : ℕ) → List Token → Rotation
rotate_refresh_token id successor user_id token_hash expires_at at family_id rows =
    elim (find_by_id id rows) [
      | none ↦ beaten
      | some t ↦
          if is_some t.revoked_at
          then beaten
          else linked id successor (
              create_refresh_token successor user_id token_hash expires_at family_id
                (revoke_refresh_token id at rows))
    ]

-- revokeFamily
unfoldable pub revoke_family : (family_id revoked_at : ℕ) → List Token → List Token
revoke_family family_id at rows =
    map (λ t. if (t.family_id == family_id) && not (is_some t.revoked_at) then revoked at t else t)
      rows
