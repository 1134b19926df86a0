-- ===== src/Entries/Overlap.antt =====
-- The overlap test against the instants that two entries share.
use timetrack.Prelude.{
  ℕ, ◌≤◌, ◌<◌, ◌≡◌, ◌≢◌, ◌↔◌, true, ◌&&◌, Option, none, some, List, [], ◌∷◌, arith, ltb, any, Any,
  leb, if◌then◌else◌,
}
use timetrack.Entries.Model.{Entry, Db}
use timetrack.Entries.Repository.Reads.{ends_after, overlaps, has_overlap}

-- The instant lies in the entry: from its start on, and before its end if it has one.
abbrev pub EndsAfter : ℕ → Option ℕ → Type 0
EndsAfter t none = Unit
EndsAfter t (some end) = t < end

abbrev pub Covers : Entry → ℕ → Type 0
Covers e t = (e.start_time ≤ t) × EndsAfter t e.end_time

-- Another entry of the user, with an instant in common with the half-open window.
abbrev pub Clashes : (user_id exclude_id start_time end_time : ℕ) → Entry → Type 0
Clashes user_id exclude_id start_time end_time e =
    (e.user_id ≡ user_id)
    × (e.id ≢ exclude_id)
    × ((t : ℕ) × (start_time ≤ t) × (t < end_time) × Covers e t)

-- The later of two starts, the first instant that both can have.
abbrev later : ℕ → ℕ → ℕ
later a b = if leb a b then b else a

shared_iff :
    (start_time end_time from : ℕ) (until : Option ℕ)
    → start_time < end_time
    → ((ltb from end_time && (ends_after start_time until && ends_after from until)) ≡ true)
      ↔ ((t : ℕ) × (start_time ≤ t) × (t < end_time) × (from ≤ t) × EndsAfter t until)
shared_iff start_time end_time from none h = (
  λ o. (later start_time from, ground arith, ground arith, ground arith, tt),
  λ s. let (t, above, below, began, ends) = s in ground arith,
)
shared_iff start_time end_time from (some until) h = (
  λ o. (later start_time from, ground arith, ground arith, ground arith, ground arith),
  λ s. let (t, above, below, began, ends) = s in ground arith,
)

module _ (user_id exclude_id start_time end_time : ℕ) (h : start_time < end_time) where
  overlaps_iff :
      (e : Entry)
      → (overlaps user_id exclude_id start_time end_time e ≡ true)
        ↔ Clashes user_id exclude_id start_time end_time e
  unfolding overlaps
  overlaps_iff e =
      let shared = shared_iff start_time end_time e.start_time e.end_time h in
      (
        λ o.
            let (t, above, below, began, ends) = shared.0 (ground arith) in
            (ground arith, ground arith, (t, above, below, (began, ends))),
        λ c.
            let (t, above, below, covers) = c.2 in
            ground (arith, shared.1 (t, above, below, covers.0, covers.1), c.0, c.1),
      )

  any_iff :
      (rows : List Entry)
      → (any (overlaps user_id exclude_id start_time end_time) rows ≡ true)
        ↔ Any (Clashes user_id exclude_id start_time end_time) rows
  any_iff [] = (λ o. cc, λ m. absurd m)
  any_iff (e ∷ rows) = ground (arith, overlaps_iff e, any_iff rows)

  -- For a window of positive length, the overlap test answers yes exactly when another entry of the
  -- user shares an instant with the window; entries without extent share none.
  pub has_overlap_iff :
      (db : Db)
      → (has_overlap user_id exclude_id start_time end_time db ≡ true)
        ↔ Any (Clashes user_id exclude_id start_time end_time) db.entries
  unfolding has_overlap
  has_overlap_iff db = any_iff db.entries
