-- ===== src/Trim/Rows.antt =====
-- The table after the transaction of one repair: which rows there are, and what they cover.
use timetrack.Prelude.{
  ℕ, ◌≡◌, ◌≢◌, ◌↔◌, ◌⊎◌, inl, inr, refl, sym, subst, some, List, [], ◌∷◌, map, arith, Any, All,
  Option-cases, Bool-cases,
}
use mathlib.Core.Option.{some-injective}
use timetrack.Access.{User}
use timetrack.Entries.Model.{Entry, Db}
use timetrack.Entries.Table.{has_id, find_row, modify_row, stamp_team, insert_row}
use timetrack.Entries.Index.{IsIndexed, Apart, absent_of, modify_row-absent}
use timetrack.Entries.Overlap.{Covers}
use timetrack.Trim.Stretches.{Stretch}
use timetrack.Trim.Cover.{Holds}
use timetrack.Trim.Repair.{piece, shortened, insert_rows, apply_repair}

-- The row is the user's and covers the instant.
abbrev pub Tracks : (user_id t : ℕ) → Entry → Type 0
Tracks user_id t e = (e.user_id ≡ user_id) × Covers e t

-- The same, of a row other than the one of an id.
abbrev pub TracksBeside : (id user_id t : ℕ) → Entry → Type 0
TracksBeside id user_id t e = (e.id ≢ id) × Tracks user_id t e

insert_row-eq :
    (users : List User) (e : Entry) (rows : List Entry) {rows' : List Entry}
    → insert_row users e rows ≡ some rows'
    → rows' ≡ stamp_team users e ∷ rows
unfolding insert_row
insert_row-eq users e rows w = ground arith

module _ (user_id t : ℕ) where
  stamped-Tracks :
      (users : List User) (e : Entry) → Tracks user_id t (stamp_team users e) ↔ Tracks user_id t e
  unfolding stamp_team
  stamped-Tracks users e = ground arith

  beside-of :
      (e : Entry) (rows : List Entry)
      → All (Apart e) rows
      → Any (Tracks user_id t) rows ↔ Any (TracksBeside e.id user_id t) rows
  beside-of e [] h = (λ m. m, λ m. m)
  beside-of e (r ∷ rows) h = ground (arith, beside-of e rows)

  modified-Tracks :
      (e : Entry) (f : Entry → Entry) (rows : List Entry)
      → find_row e.id rows ≡ some e
      → IsIndexed rows
      → Any (Tracks user_id t) (modify_row e.id f rows)
        ↔ (Tracks user_id t (f e) ⊎ Any (TracksBeside e.id user_id t) rows)
  unfolding find_row modify_row
  modified-Tracks e f [] found h = cc
  modified-Tracks e f (r ∷ rows) found h = elim (Bool-cases (has_id e.id r)) [
    | inl same ↦
        let q : r ≡ e = ground arith in
        let a = subst (λ y. All (Apart y) rows) q h.0 in
        let beside = beside-of e rows a in
        rw same (
          rw q (
            rw (modify_row-absent e.id f rows (absent_of e rows a)) (
              λ m. elim m [ inl p ↦ inl p | inr k ↦ inr (inr (beside.0 k)) ],
              λ m. elim m [
                | inl p ↦ inl p
                | inr (inl p) ↦ absurd (p.0 refl)
                | inr (inr k) ↦ inr (beside.1 k)
              ],
            )))
    | inr other ↦ ground (arith, modified-Tracks e f rows (ground arith) h.1)
  ]

  -- Inserted rows cover what they covered before they were stamped.
  inserted-Tracks :
      (users : List User) (new rows : List Entry) {rows' : List Entry}
      → insert_rows users new rows ≡ some rows'
      → Any (Tracks user_id t) rows' ↔ (Any (Tracks user_id t) new ⊎ Any (Tracks user_id t) rows)
  unfolding insert_rows
  inserted-Tracks users [] rows {rows' = rows'} w =
      subst (λ x. Any (Tracks user_id t) x ↔ (⊥ ⊎ Any (Tracks user_id t) rows))
        (some-injective rows rows' w) (λ m. inr m, λ m. elim m [ inl x ↦ absurd x | inr k ↦ k ])
  inserted-Tracks users (e ∷ new) rows {rows' = rows'} w =
      elim (Option-cases (insert_row users e rows)) [
        | inl refused ↦ ground arith
        | inr (one, written) ↦ ground (
          arith,
          insert_row-eq users e rows {rows' = one} written,
          stamped-Tracks users e,
          inserted-Tracks users new one {rows' = rows'} (ground arith),
        )
      ]

module _ (mint : (entry_id start : ℕ) → ℕ) (now t : ℕ) (e : Entry) where
  -- The new rows of a repair cover what their stretches hold.
  pieces-Tracks :
      (rest : List Stretch)
      → Any (Tracks e.user_id t) (map (piece mint now e) rest) ↔ Any (Holds t) rest
  pieces-Tracks [] = (λ m. m, λ m. m)
  pieces-Tracks (s ∷ rest) = ground (arith, pieces-Tracks rest)

  -- So does the shortened row, if the first stretch begins where the entry does.
  shortened-Tracks :
      (s : Stretch) → s.start ≡ e.start_time → Tracks e.user_id t (shortened now s e) ↔ Holds t s
  shortened-Tracks s q = ground arith

  -- The tables after the transaction: the user's tracked instants are those that the stretches hold
  -- and those of the user's other entries.
  pub apply_repair-Tracks :
      (removed_ms : ℕ) (first : Stretch) (rest : List Stretch) (db : Db) {db' : Db}
      → find_row e.id db.entries ≡ some e
      → IsIndexed db.entries
      → first.start ≡ e.start_time
      → apply_repair mint now removed_ms e (first ∷ rest) db ≡ some db'
      → Any (Tracks e.user_id t) db'.entries
        ↔ (Any (Holds t) (first ∷ rest) ⊎ Any (TracksBeside e.id e.user_id t) db.entries)
  unfolding apply_repair
  apply_repair-Tracks removed_ms first rest db {db' = db'} found h q w =
      let old = modify_row e.id (shortened now first) db.entries in
      let new = map (piece mint now e) rest in
      elim (Option-cases (insert_rows db.users new old)) [
        | inl refused ↦ ground arith
        | inr (rows, written) ↦
            let same : db'.entries ≡ rows = ground arith in
            let inserted = inserted-Tracks e.user_id t db.users new old {rows' = rows} written in
            let modified = modified-Tracks e.user_id t e (shortened now first) db.entries found h in
            let pieces = pieces-Tracks rest in
            let head = shortened-Tracks first q in
            subst
              (λ x.
                Any (Tracks e.user_id t) x
                ↔ (Any (Holds t) (first ∷ rest) ⊎ Any (TracksBeside e.id e.user_id t) db.entries))
              (sym same) (ground (arith, inserted, modified, pieces, head))
      ]
