-- ===== src/Sessions/Keys.antt =====
-- The unique columns of refresh_tokens, and how the statements treat a row that is found by its hash.
use timetrack.Prelude.{
  ℕ, ◌≡◌, ◌≢◌, false, ◌||◌, some, List, [], ◌∷◌, map, arith, All, Pairs, any, ◌==◌,
}
use timetrack.Sessions.Model.{Token}
use timetrack.Sessions.Store.{find_refresh_token, find_by_id, create_refresh_token, minted}

abbrev pub Distinct : Token → Token → Type 0
Distinct t r = (r.id ≢ t.id) × (r.token_hash ≢ t.token_hash)

-- Ids and hashes are unique.
abbrev pub IsKeyed : List Token → Type 0
IsKeyed rows = Pairs Distinct rows

-- The update leaves the keys alone.
abbrev pub Keeps : (Token → Token) → Type 0
Keeps f = (t : Token) → ((f t).id ≡ t.id) × ((f t).token_hash ≡ t.token_hash)

Distinct-map :
    (f : Token → Token) (t : Token) (rows : List Token)
    → Keeps f
    → All (Distinct t) rows
    → All (Distinct (f t)) (map f rows)
Distinct-map f t [] k h = tt
Distinct-map f t (r ∷ rows) k h = ground (arith, k t, k r, Distinct-map f t rows k)

pub map-IsKeyed :
    (f : Token → Token) (rows : List Token) → Keeps f → IsKeyed rows → IsKeyed (map f rows)
map-IsKeyed f [] k h = tt
map-IsKeyed f (t ∷ rows) k h = (Distinct-map f t rows k h.0, map-IsKeyed f rows k h.1)

pub find-map :
    (f : Token → Token) (h : ℕ) (rows : List Token) {t : Token}
    → Keeps f
    → find_refresh_token h rows ≡ some t
    → find_refresh_token h (map f rows) ≡ some (f t)
unfolding find_refresh_token
find-map f h [] k found = cc
find-map f h (r ∷ rows) {t = t} k found = ground (arith, k r, find-map f h rows {t = t} k)

fresh-Distinct :
    (t : Token) (rows : List Token)
    → any (λ r. (r.id == t.id) || (r.token_hash == t.token_hash)) rows ≡ false
    → All (Distinct t) rows
fresh-Distinct t [] h = tt
fresh-Distinct t (r ∷ rows) h = ground (arith, fresh-Distinct t rows)

module _ (id user_id token_hash expires_at family_id : ℕ) where
  pub create-IsKeyed :
      (rows : List Token) {rows' : List Token}
      → IsKeyed rows
      → create_refresh_token id user_id token_hash expires_at family_id rows ≡ some rows'
      → IsKeyed rows'
  unfolding create_refresh_token
  create-IsKeyed rows h made =
      ground (arith, fresh-Distinct (minted id user_id token_hash expires_at family_id) rows)

find-other :
    (h id hash : ℕ) (rows : List Token) {t : Token}
    → any (λ r. (r.id == id) || (r.token_hash == hash)) rows ≡ false
    → find_refresh_token h rows ≡ some t
    → h ≢ hash
unfolding find_refresh_token
find-other h id hash [] new found = cc
find-other h id hash (r ∷ rows) {t = t} new found =
    ground (arith, find-other h id hash rows {t = t})

module _ (id user_id token_hash expires_at family_id : ℕ) where
  pub find-create :
      (h : ℕ) (rows : List Token) {rows' : List Token} {t : Token}
      → create_refresh_token id user_id token_hash expires_at family_id rows ≡ some rows'
      → find_refresh_token h rows ≡ some t
      → find_refresh_token h rows' ≡ some t
  unfolding create_refresh_token find_refresh_token
  find-create h rows {t = t} made found = ground (arith, find-other h id token_hash rows {t = t})

pub find-Distinct :
    (h : ℕ) (r : Token) (rows : List Token) {t : Token}
    → All (Distinct r) rows
    → find_refresh_token h rows ≡ some t
    → r.id ≢ t.id
unfolding find_refresh_token
find-Distinct h r [] a found = cc
find-Distinct h r (x ∷ rows) {t = t} a found = ground (arith, find-Distinct h r rows {t = t})

-- A row found by its hash is the row of its id.
pub find-by_id :
    (h : ℕ) (rows : List Token) {t : Token}
    → IsKeyed rows
    → find_refresh_token h rows ≡ some t
    → find_by_id t.id rows ≡ some t
unfolding find_refresh_token find_by_id
find-by_id h [] k found = cc
find-by_id h (r ∷ rows) {t = t} k found =
    ground (arith, find-Distinct h r rows {t = t}, find-by_id h rows {t = t})

pub find-hash :
    (h : ℕ) (rows : List Token) {t : Token} → find_refresh_token h rows ≡ some t → t.token_hash ≡ h
unfolding find_refresh_token
find-hash h [] found = cc
find-hash h (r ∷ rows) {t = t} found = ground (arith, find-hash h rows {t = t})
