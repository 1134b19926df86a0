-- ===== src/Invites/Rows.antt =====
-- The table of invites: its keys, what a consume does to it, and what every step keeps.
use timetrack.Prelude.{
  ◌⊎◌, ℕ, ◌≡◌, refl, subst, true, false, Bool, ◌&&◌, some, List, [], ◌∷◌, map, any, any-eq-false,
  arith, ◌==◌, ==→eq, is_some, All, Any, Pairs, Bool-cases, inl, inr,
}
use timetrack.Errors.{Error, Result, ok, err}
use timetrack.Invites.Model.{Invite}
use timetrack.Invites.Store.{has_key, find_by_hash, is_unconsumed, consumed_row}

abbrev Differ : Invite → Invite → Type 0
Differ a b = has_key a b ≡ false

-- Ids and hashes are unique.
abbrev pub IsKeyed : List Invite → Type 0
IsKeyed rows = Pairs Differ rows

abbrev pub is_consumed : (token_hash : ℕ) → List Invite → Bool
is_consumed h rows = any (λ r. (r.token_hash == h) && is_some r.accepted_at) rows

-- The row of an invite, whatever became of it.
abbrev pub RowOf : Invite → Invite → Type 0
RowOf i r = (r.id ≡ i.id) × (r.token_hash ≡ i.token_hash)

-- What every step keeps of the table.
pub record Extends (rows rows' : List Invite) : Type 0 where
  pub keyed : IsKeyed rows'
  pub consumed : (h : ℕ) → is_consumed h rows ≡ true → is_consumed h rows' ≡ true
  pub there : (i : Invite) → Any (RowOf i) rows → Any (RowOf i) rows'

pub Extends-refl : (rows : List Invite) → IsKeyed rows → Extends rows rows
Extends-refl rows k = record { keyed = k; consumed = λ h q. q; there = λ i q. q }

pub find_by_hash-some :
    (h : ℕ) (rows : List Invite) {i : Invite}
    → find_by_hash h rows ≡ some i
    → (i.token_hash ≡ h) × Any (RowOf i) rows
unfolding find_by_hash
find_by_hash-some h [] e = cc
find_by_hash-some h (r ∷ rows) {i = i} e = elim (Bool-cases (r.token_hash == h)) [
  | inl hit ↦
      let q : r ≡ i = ground (arith, hit, e) in
      (
        subst (λ x. x.token_hash ≡ h) q (==→eq r.token_hash h hit),
        inl (subst (λ x. RowOf x r) q (refl, refl)),
      )
  | inr miss ↦
      let (a, b) = find_by_hash-some h rows {i = i} (rw (miss, find_by_hash) at e) in (a, inr b)
]

-- Consuming keeps the keys.
consumed-All :
    (id now : ℕ) (a : Invite) (rows : List Invite)
    → All (Differ a) rows
    → All (Differ (consumed_row id now a)) (map (consumed_row id now) rows)
consumed-All id now a [] h = tt
consumed-All id now a (r ∷ rows) h = ground (arith, h, consumed-All id now a rows h.1)

consumed-Keyed :
    (id now : ℕ) (rows : List Invite) → IsKeyed rows → IsKeyed (map (consumed_row id now) rows)
consumed-Keyed id now [] k = tt
consumed-Keyed id now (r ∷ rows) k =
    (consumed-All id now r rows k.0, consumed-Keyed id now rows k.1)

consumed_stays :
    (id now h : ℕ) (rows : List Invite)
    → is_consumed h rows ≡ true
    → is_consumed h (map (consumed_row id now) rows) ≡ true
consumed_stays id now h [] q = q
consumed_stays id now h (r ∷ rows) q = ground (arith, q, consumed_stays id now h rows)

consumed-there :
    (id now : ℕ) (i : Invite) (rows : List Invite)
    → Any (RowOf i) rows
    → Any (RowOf i) (map (consumed_row id now) rows)
consumed-there id now i [] q = elim q [ ]
consumed-there id now i (r ∷ rows) q = ground (arith, q, consumed-there id now i rows)

pub consume-Extends :
    (id now : ℕ) (rows : List Invite) → IsKeyed rows → Extends rows (map (consumed_row id now) rows)
consume-Extends id now rows k = record {
  keyed = consumed-Keyed id now rows k;
  consumed = λ h. consumed_stays id now h rows;
  there = λ i. consumed-there id now i rows;
}

-- The row that a consume finds was not consumed before, and is afterwards.
apart_unconsumed :
    (i r : Invite) (rows : List Invite)
    → RowOf i r
    → All (Differ r) rows
    → is_consumed i.token_hash rows ≡ false
apart_unconsumed i r [] q h = refl
apart_unconsumed i r (x ∷ rows) q h = ground (arith, q, h, apart_unconsumed i r rows q h.1)

apart_idle :
    (i r : Invite) (rows : List Invite)
    → RowOf i r
    → All (Differ r) rows
    → any (is_unconsumed i.id) rows ≡ false
apart_idle i r [] q h = refl
apart_idle i r (x ∷ rows) q h = ground (arith, q, h, apart_idle i r rows q h.1)

other_head :
    (i r : Invite) (rows : List Invite)
    → Any (RowOf i) rows
    → All (Differ r) rows
    → ((r.id == i.id) ≡ false) × ((r.token_hash == i.token_hash) ≡ false)
other_head i r [] q h = elim q [ ]
other_head i r (x ∷ rows) (inl q) h = (ground (arith, q, h), ground (arith, q, h))
other_head i r (x ∷ rows) (inr q) h = other_head i r rows q h.1

pub not_consumed :
    (i : Invite) (rows : List Invite)
    → IsKeyed rows
    → Any (RowOf i) rows
    → any (is_unconsumed i.id) rows ≡ true
    → is_consumed i.token_hash rows ≡ false
not_consumed i [] k q u = elim q [ ]
not_consumed i (r ∷ rows) k (inl q) u =
    ground (arith, q, u, apart_idle i r rows q k.0, apart_unconsumed i r rows q k.0)
not_consumed i (r ∷ rows) k (inr q) u =
    let o = other_head i r rows q k.0 in
    ground (arith, o, not_consumed i rows k.1 q (ground (arith, o, u)))

pub now_consumed :
    (i : Invite) (now : ℕ) (rows : List Invite)
    → IsKeyed rows
    → Any (RowOf i) rows
    → any (is_unconsumed i.id) rows ≡ true
    → is_consumed i.token_hash (map (consumed_row i.id now) rows) ≡ true
now_consumed i now [] k q u = elim q [ ]
now_consumed i now (r ∷ rows) k (inl q) u = ground (arith, q, u, apart_idle i r rows q k.0)
now_consumed i now (r ∷ rows) k (inr q) u =
    let o = other_head i r rows q k.0 in
    ground (arith, o, now_consumed i now rows k.1 q (ground (arith, o, u)))

pub create-Extends :
    (i : Invite) (rows : List Invite)
    → IsKeyed rows
    → any (has_key i) rows ≡ false
    → Extends rows (i ∷ rows)
create-Extends i rows k clear = record {
  keyed = (any-eq-false (has_key i) rows clear, k);
  consumed = λ h q. ground (arith, q);
  there = λ x q. inr q;
}

pub Result-cases :
    (r : Result (Unit {0})) → ((e : Error) × (r ≡ err e)) ⊎ ((u : Unit {0}) × (r ≡ ok u))
Result-cases (err e) = inl (e, refl)
Result-cases (ok u) = inr (u, refl)
