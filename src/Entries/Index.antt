-- ===== src/Entries/Index.antt =====
-- The constraints of the table as a property of its rows, and the writes that keep it.
use timetrack.Prelude.{
  ℕ, ◌≡◌, ◌≢◌, refl, true, false, ◌&&◌, not, none, some, List, [], ◌∷◌, arith, All, Pairs, any,
  All-map, Bool-cases, inl, inr, subst,
}
use timetrack.Access.{User}
use timetrack.Entries.Model.{Entry}
use timetrack.Entries.Table.{
  is_open, has_id, runs_for, find_row, modify_row, stamp_team, insert_row, delete_row,
}

-- Two rows differ in their id, and do not both run for one user.
abbrev pub Apart : Entry → Entry → Type 0
Apart e r = (r.id ≢ e.id) × (e.end_time ≡ none → r.end_time ≡ none → r.user_id ≢ e.user_id)

-- Ids are unique, and no user has two open entries.
abbrev pub IsIndexed : List Entry → Type 0
IsIndexed rows = Pairs Apart rows

-- The row keeps its identity and its owner, and is not opened again.
abbrev pub Closes : Entry → Entry → Type 0
Closes e e' = (e'.id ≡ e.id) × (e'.user_id ≡ e.user_id) × (e'.end_time ≡ none → e.end_time ≡ none)

Apart-Closes : (e e' r r' : Entry) → Closes e e' → Closes r r' → Apart e r → Apart e' r'
Apart-Closes e e' r r' c d h =
    (λ q. h.0 (cc (c.0, d.0)), λ p q s. h.1 (c.2 p) (d.2 q) (cc (c.1, d.1)))

insert-Apart :
    (e' : Entry) (rows : List Entry)
    → any (has_id e'.id) rows ≡ false
    → (is_open e' && any (runs_for e'.user_id) rows) ≡ false
    → All (Apart e') rows
insert-Apart e' [] p q = tt
insert-Apart e' (r ∷ rows) p q = ground (arith, insert-Apart e' rows)

stamp_team-Closes : (users : List User) (e : Entry) → Closes e (stamp_team users e)
unfolding stamp_team
stamp_team-Closes users e = ground arith

Closes-refl : (e : Entry) → Closes e e
Closes-refl e = (refl, refl, λ p. p)

All-Apart-Closes :
    (e e' : Entry) (rows : List Entry) → Closes e e' → All (Apart e) rows → All (Apart e') rows
All-Apart-Closes e e' rows c h =
    All-map (Apart e) (Apart e') rows (λ r. Apart-Closes e e' r r c (Closes-refl r)) h

pub insert_row-IsIndexed :
    (users : List User) (e : Entry) (rows : List Entry) {rows' : List Entry}
    → IsIndexed rows
    → insert_row users e rows ≡ some rows'
    → IsIndexed rows'
unfolding insert_row
insert_row-IsIndexed users e rows h w = ground (
  arith,
  insert-Apart e rows,
  All-Apart-Closes e (stamp_team users e) rows (stamp_team-Closes users e),
)

-- A table whose rows were each kept, or closed where they stand.
abbrev pub Synced : List Entry → List Entry → Type 0
Synced [] [] = Unit
Synced (e ∷ rows) (e' ∷ rows') = Closes e e' × Synced rows rows'
Synced _ _ = ⊥

All-Apart-Synced :
    (e e' : Entry) (rows rows' : List Entry)
    → Closes e e'
    → Synced rows rows'
    → All (Apart e) rows
    → All (Apart e') rows'
All-Apart-Synced e e' [] [] c s h = tt
All-Apart-Synced e e' (r ∷ rows) (r' ∷ rows') c s h =
    (Apart-Closes e e' r r' c s.0 h.0, All-Apart-Synced e e' rows rows' c s.1 h.1)
All-Apart-Synced e e' _ _ c s h = absurd s

pub Synced-IsIndexed :
    (rows rows' : List Entry) → Synced rows rows' → IsIndexed rows → IsIndexed rows'
Synced-IsIndexed [] [] s h = tt
Synced-IsIndexed (e ∷ rows) (e' ∷ rows') s h =
    (All-Apart-Synced e e' rows rows' s.0 s.1 h.0, Synced-IsIndexed rows rows' s.1 h.1)
Synced-IsIndexed _ _ s h = absurd s

All-Apart-delete :
    (id : ℕ) (e : Entry) (rows : List Entry)
    → All (Apart e) rows
    → All (Apart e) (delete_row id rows)
unfolding delete_row
All-Apart-delete id e [] h = tt
All-Apart-delete id e (r ∷ rows) h = ground (arith, All-Apart-delete id e rows)

pub delete_row-IsIndexed :
    (id : ℕ) (rows : List Entry) → IsIndexed rows → IsIndexed (delete_row id rows)
unfolding delete_row
delete_row-IsIndexed id [] h = tt
delete_row-IsIndexed id (e ∷ rows) h =
    ground (arith, delete_row-IsIndexed id rows, All-Apart-delete id e rows)

pub modify_row-absent :
    (id : ℕ) (f : Entry → Entry) (rows : List Entry)
    → All (λ r. r.id ≢ id) rows
    → modify_row id f rows ≡ rows
unfolding modify_row
modify_row-absent id f [] h = refl
modify_row-absent id f (r ∷ rows) h = ground (arith, modify_row-absent id f rows)

pub delete_row-absent :
    (id : ℕ) (rows : List Entry) → All (λ r. r.id ≢ id) rows → delete_row id rows ≡ rows
unfolding delete_row
delete_row-absent id [] h = refl
delete_row-absent id (r ∷ rows) h = ground (arith, delete_row-absent id rows)

-- Rows apart from `e` have other ids.
pub absent_of : (e : Entry) (rows : List Entry) → All (Apart e) rows → All (λ r. r.id ≢ e.id) rows
absent_of e rows h = All-map (Apart e) (λ r. r.id ≢ e.id) rows (λ r a. a.0) h

-- An update of the row `e` that keeps its identity and passes the index.
module _ (e : Entry) (f : Entry → Entry)
    (keeps : ((f e).id ≡ e.id) × ((f e).user_id ≡ e.user_id)) where
  -- The index finds no other running row beside the updated one.
  abbrev Passes : List Entry → Type 0
  Passes rows =
      (is_open (f e) && any (λ r. not (has_id e.id r) && runs_for (f e).user_id r) rows) ≡ false

  Passes-tail : (r : Entry) (rows : List Entry) → Passes (r ∷ rows) → Passes rows
  Passes-tail r rows p = ground arith

  updated-Apart : (rows : List Entry) → All (Apart e) rows → Passes rows → All (Apart (f e)) rows
  updated-Apart [] h p = tt
  updated-Apart (r ∷ rows) h p = ground (arith, updated-Apart rows)

  absent : (rows : List Entry) → All (Apart e) rows → modify_row e.id f rows ≡ rows
  absent rows a = modify_row-absent e.id f rows (absent_of e rows a)

  -- The first row of the table, if it has the updated id, is the updated row.
  first :
      (x : Entry) (rows : List Entry)
      → find_row e.id (x ∷ rows) ≡ some e
      → has_id e.id x ≡ true
      → x ≡ e
  unfolding find_row
  first x rows found same = ground arith

  modify-Apart :
      (r : Entry) (rows : List Entry)
      → r.id ≢ e.id
      → Passes (r ∷ [])
      → find_row e.id rows ≡ some e
      → IsIndexed rows
      → All (Apart r) rows
      → All (Apart r) (modify_row e.id f rows)
  unfolding find_row modify_row
  modify-Apart r [] ne p found h a = tt
  modify-Apart r (x ∷ rows) ne p found h a = elim (Bool-cases (has_id e.id x)) [
    | inl same ↦
        let q = first x rows found same in
        rw same
          (rw q (rw (absent rows (subst (λ y. All (Apart y) rows) q h.0)) (ground arith, a.1)))
    | inr other ↦ ground (arith, modify-Apart r rows)
  ]

  pub update-IsIndexed :
      (rows : List Entry)
      → find_row e.id rows ≡ some e
      → Passes rows
      → IsIndexed rows
      → IsIndexed (modify_row e.id f rows)
  unfolding find_row modify_row
  update-IsIndexed [] found p h = tt
  update-IsIndexed (x ∷ rows) found p h = elim (Bool-cases (has_id e.id x)) [
    | inl same ↦
        let q = first x rows found same in
        let a = subst (λ y. All (Apart y) rows) q h.0 in
        rw same (rw q (rw (absent rows a) (updated-Apart rows a (Passes-tail x rows p), h.1)))
    | inr other ↦ ground (arith, modify-Apart x rows, update-IsIndexed rows, Passes-tail x rows)
  ]
