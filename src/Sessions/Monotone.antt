-- ===== src/Sessions/Monotone.antt =====
-- What no step of any refresh or logout takes back.
use timetrack.Prelude.{
  ℕ, ◌≡◌, sym, true, false, not, ◌&&◌, some, List, arith, ◌==◌, is_some, if◌then◌else◌,
  Option-cases, inl, inr, subst,
}
use timetrack.Sessions.Model.{Token}
use timetrack.Sessions.Store.{
  find_refresh_token, find_by_id, create_refresh_token, revoke_refresh_token, link_successor,
  rotate_refresh_token, revoked, rotated,
}
use timetrack.Sessions.Keys.{
  IsKeyed, Keeps, map-IsKeyed, find-map, create-IsKeyed, find-create, find-by_id,
}

-- The row keeps what it was issued with; once revoked it stays revoked, with the same successor.
pub record Stays (t t' : Token) : Type 0 where
  pub same_id : t'.id ≡ t.id
  pub same_hash : t'.token_hash ≡ t.token_hash
  pub same_user : t'.user_id ≡ t.user_id
  pub same_family : t'.family_id ≡ t.family_id
  pub same_expiry : t'.expires_at ≡ t.expires_at
  pub stays_revoked : is_some t.revoked_at ≡ true → is_some t'.revoked_at ≡ true
  pub same_successor : is_some t.revoked_at ≡ true → t'.replaced_by_id ≡ t.replaced_by_id

pub Stays-refl : (t : Token) → Stays t t
Stays-refl t = ground arith

pub Stays-trans : (t u v : Token) → Stays t u → Stays u v → Stays t v
Stays-trans t u v h k = ground arith

-- The row found by its hash is still there.
abbrev pub Found : (h : ℕ) → Token → List Token → Type 0
Found h t rows = (t' : Token) × (find_refresh_token h rows ≡ some t') × Stays t t'

pub revoke-Stays : (at id : ℕ) (t : Token) → Stays t (if t.id == id then revoked at t else t)
revoke-Stays at id t = ground arith

pub family-Stays :
    (at f : ℕ) (t : Token)
    → Stays t (if (t.family_id == f) && not (is_some t.revoked_at) then revoked at t else t)
family-Stays at f t = ground arith

pub revoke-Keeps : (at id : ℕ) → Keeps (λ t. if t.id == id then revoked at t else t)
revoke-Keeps at id = λ t. ground arith

pub family-Keeps :
    (at f : ℕ)
    → Keeps (λ t. if (t.family_id == f) && not (is_some t.revoked_at) then revoked at t else t)
family-Keeps at f = λ t. ground arith

abbrev pub linked_row : (id successor : ℕ) → Token → Token
linked_row id successor t = if t.id == id then record t { replaced_by_id = some successor } else t

link-Keeps : (id successor : ℕ) → Keeps (linked_row id successor)
link-Keeps id successor = λ t. ground arith

-- A rotation of a row that is not revoked, or of another row.
claim-Stays :
    (id successor at : ℕ) (t : Token)
    → (t.id ≡ id → is_some t.revoked_at ≡ false)
    → Stays t (linked_row id successor (if t.id == id then revoked at t else t))
claim-Stays id successor at t h = ground arith

module _ (id successor user_id token_hash expires_at at family_id : ℕ) where
  -- What a rotation that took place did.
  pub rotated-eq :
      (rows : List Token) {rows' : List Token}
      → rotate_refresh_token id successor user_id token_hash expires_at at family_id rows
        ≡ rotated rows'
      → (r : Token) × (find_by_id id rows ≡ some r)
        × (is_some r.revoked_at ≡ false)
        × (new : List Token) × (create_refresh_token successor user_id token_hash expires_at
              family_id
              (revoke_refresh_token id at rows)
            ≡ some new)
        × (rows' ≡ link_successor id successor new)
  unfolding rotate_refresh_token
  rotated-eq rows {rows' = rows'} done = elim (Option-cases (find_by_id id rows)) [
    | inl gone ↦ ground arith
    | inr (r, there) ↦
        elim (Option-cases (
          create_refresh_token successor user_id token_hash expires_at family_id
            (revoke_refresh_token id at rows))) [
              | inl refused ↦ ground arith
              | inr (new, made) ↦ ground arith
            ]
  ]

  pub rotated-IsKeyed :
      (rows : List Token) {rows' : List Token}
      → IsKeyed rows
      → rotate_refresh_token id successor user_id token_hash expires_at at family_id rows
        ≡ rotated rows'
      → IsKeyed rows'
  unfolding revoke_refresh_token link_successor
  rotated-IsKeyed rows k done =
      let (r, there, live, new, made, same) = rotated-eq rows done in
      subst IsKeyed (sym same) (
        map-IsKeyed (linked_row id successor) new (link-Keeps id successor) (
          create-IsKeyed successor user_id token_hash expires_at family_id
            (revoke_refresh_token id at rows) {rows' = new}
            (map-IsKeyed _ rows (revoke-Keeps at id) k) made))

  pub rotated-find :
      (h : ℕ) (rows : List Token) {rows' : List Token} {t : Token}
      → find_refresh_token h rows ≡ some t
      → rotate_refresh_token id successor user_id token_hash expires_at at family_id rows
        ≡ rotated rows'
      → find_refresh_token h rows'
        ≡ some (linked_row id successor (if t.id == id then revoked at t else t))
  unfolding revoke_refresh_token link_successor
  rotated-find h rows {t = t} found done =
      let (r, there, live, new, made, same) = rotated-eq rows done in
      subst
        (λ l.
          find_refresh_token h l
          ≡ some (linked_row id successor (if t.id == id then revoked at t else t)))
        (sym same)
        (find-map (linked_row id successor) h new (link-Keeps id successor) (
          find-create successor user_id token_hash expires_at family_id h
            (revoke_refresh_token id at rows) {rows' = new} made
            (find-map _ h rows (revoke-Keeps at id) found)))

  pub rotated-Found :
      (h : ℕ) (rows : List Token) {rows' : List Token} {t : Token}
      → IsKeyed rows
      → find_refresh_token h rows ≡ some t
      → rotate_refresh_token id successor user_id token_hash expires_at at family_id rows
        ≡ rotated rows'
      → Found h t rows'
  rotated-Found h rows {t = t} k found done =
      let (r, there, live, new, made, same) = rotated-eq rows done in
      let own = find-by_id h rows {t = t} k found in
      (
        linked_row id successor (if t.id == id then revoked at t else t),
        rotated-find h rows {t = t} found done,
        claim-Stays id successor at t
            (λ q. ground (arith, subst (λ i. find_by_id i rows ≡ some t) q own)),
      )
