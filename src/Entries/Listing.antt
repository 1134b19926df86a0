-- ===== src/Entries/Listing.antt =====
-- The list of a window: which instants its clipped rows cover, and where they lie.
use timetrack.Prelude.{
  ℕ, ◌≤◌, ◌<◌, ◌≡◌, ◌↔◌, ◌⊎◌, inl, inr, refl, Bool, true, Option, none, some, List, [], ◌∷◌, arith,
  leb, ltb, map, filter, All, Any, Any-filter, Any-map, Any-iff, if◌then◌else◌, Bool-cases,
}
use timetrack.Entries.Model.{Entry}
use timetrack.Entries.Repository.Reads.{
  ends_after, has_extent, in_project, in_window, clip_end, clip, insert_by_start, sort_by_start,
  list_rows,
}
use timetrack.Entries.Overlap.{Covers, EndsAfter}

Any-insert :
    (P : Entry → Type 0) (e : Entry) (rows : List Entry)
    → Any P (insert_by_start e rows) ↔ (P e ⊎ Any P rows)
unfolding insert_by_start
Any-insert P e [] = (λ m. m, λ m. m)
Any-insert P e (r ∷ rows) = ground (arith, Any-insert P e rows)

Any-sort : (P : Entry → Type 0) (rows : List Entry) → Any P (sort_by_start rows) ↔ Any P rows
unfolding sort_by_start
Any-sort P [] = (λ m. m, λ m. m)
Any-sort P (e ∷ rows) = ground (arith, Any-sort P rows, Any-insert P e (sort_by_start rows))

-- The end of a row, for an instant inside the window.
clipped-end :
    (start from to t : ℕ) (until : Option ℕ)
    → from ≤ t
    → t < to
    → start ≤ t
    → ((ends_after from until ≡ true)
        × (ends_after start until ≡ true)
        × (ends_after (if ltb start from then from else start) (clip_end to until) ≡ true)
        × EndsAfter t (clip_end to until))
      ↔ EndsAfter t until
clipped-end start from to t none p q s = (λ h. tt, λ h. (refl, refl, refl, tt))
clipped-end start from to t (some end) p q s = ground arith

-- The rows of the user that the query asks for.
abbrev pub Asked : (user_id : ℕ) (project_id : Option ℕ) → Entry → Type 0
Asked user_id project_id e = (e.user_id ≡ user_id) × (in_project project_id e.project_id ≡ true)

module _ (user_id from to t : ℕ) (project_id : Option ℕ) (p : from ≤ t) (q : t < to) where
  row_iff :
      (e : Entry)
      → ((in_window user_id from to project_id e ≡ true)
          × ((has_extent e ≡ true)
              × ((has_extent (clip from to e) ≡ true) × Covers (clip from to e) t)))
        ↔ (Asked user_id project_id e × Covers e t)
  unfolding in_window clip
  row_iff e =
      let end = clipped-end e.start_time from to t e.end_time p q in
      ground (arith, end, Bool-cases (leb e.start_time t))

iff_trans : {A B C : Type 0} → A ↔ B → B ↔ C → A ↔ C
iff_trans f g = (λ a. g.0 (f.0 a), λ c. f.1 (g.1 c))

-- Some entry that the query asks for covers the instant.
abbrev pub Tracked : (user_id : ℕ) (project_id : Option ℕ) (t : ℕ) → List Entry → Type 0
Tracked user_id project_id t rows = Any (λ e. Asked user_id project_id e × Covers e t) rows

-- An instant of the window, the window's end excepted, is covered by a listed row exactly when it
-- is covered by some entry of the user, in the project if the query names one: clipping and the
-- dropping of empty rows lose no tracked instant and invent none.
pub list_rows-Covers :
    (user_id from to : ℕ) (project_id : Option ℕ) (rows : List Entry) (t : ℕ)
    → from ≤ t
    → t < to
    → Any (λ r. Covers r t) (list_rows user_id from to project_id rows)
      ↔ Tracked user_id project_id t rows
unfolding list_rows
list_rows-Covers user_id from to project_id rows t p q =
    let shown = filter (in_window user_id from to project_id) rows in
    let lasting = filter has_extent (sort_by_start shown) in
    iff_trans (Any-filter (λ r. Covers r t) has_extent (map (clip from to) lasting)) (
      iff_trans (Any-map (λ r. (has_extent r ≡ true) × Covers r t) (clip from to) lasting) (
        iff_trans
          (Any-filter (λ e. (has_extent (clip from to e) ≡ true) × Covers (clip from to e) t)
            has_extent (sort_by_start shown))
          (iff_trans
            (Any-sort
              (λ e.
                (has_extent e ≡ true)
                × ((has_extent (clip from to e) ≡ true) × Covers (clip from to e) t))
              shown)
            (iff_trans
              (Any-filter
                (λ e.
                  (has_extent e ≡ true)
                  × ((has_extent (clip from to e) ≡ true) × Covers (clip from to e) t))
                (in_window user_id from to project_id) rows)
              (Any-iff
                (λ e.
                  (in_window user_id from to project_id e ≡ true)
                  × ((has_extent e ≡ true)
                      × ((has_extent (clip from to e) ≡ true) × Covers (clip from to e) t)))
                (λ e. Asked user_id project_id e × Covers e t) rows
                (row_iff user_id from to t project_id p q))))))

-- The row has a positive length and lies in the window; an open row begins in it.
abbrev pub EndsWithin : (start to : ℕ) → Option ℕ → Type 0
EndsWithin start to none = Unit
EndsWithin start to (some end) = (start < end) × (end ≤ to)

abbrev pub Within : (from to : ℕ) → Entry → Type 0
Within from to r =
    (from ≤ r.start_time) × (r.start_time ≤ to) × EndsWithin r.start_time to r.end_time

ends_within :
    (from to start : ℕ) (until : Option ℕ)
    → ends_after (if ltb start from then from else start) (clip_end to until) ≡ true
    → EndsWithin (if ltb start from then from else start) to (clip_end to until)
ends_within from to start none h = tt
ends_within from to start (some end) h = ground arith

module _ (user_id from to : ℕ) (project_id : Option ℕ) (h : from ≤ to) where
  clip-Within :
      (e : Entry)
      → e.start_time ≤ to
      → has_extent (clip from to e) ≡ true
      → Within from to (clip from to e)
  unfolding clip
  clip-Within e p x = (ground arith, ground arith, ends_within from to e.start_time e.end_time x)

  clipped-Within :
      (rows : List Entry)
      → All (λ e. e.start_time ≤ to) rows
      → All (Within from to) (filter has_extent (map (clip from to) rows))
  clipped-Within [] a = tt
  clipped-Within (e ∷ rows) a = elim (Bool-cases (has_extent (clip from to e))) [
    | inl lasting ↦ rw lasting (clip-Within e a.0 lasting, clipped-Within rows a.1)
    | inr empty ↦ rw empty (clipped-Within rows a.1)
  ]

  begun-insert :
      (e : Entry) (rows : List Entry)
      → e.start_time ≤ to
      → All (λ r. r.start_time ≤ to) rows
      → All (λ r. r.start_time ≤ to) (insert_by_start e rows)
  unfolding insert_by_start
  begun-insert e [] p a = (p, tt)
  begun-insert e (r ∷ rows) p a = ground (arith, begun-insert e rows)

  begun-sort :
      (rows : List Entry)
      → All (λ r. r.start_time ≤ to) rows
      → All (λ r. r.start_time ≤ to) (sort_by_start rows)
  unfolding sort_by_start
  begun-sort [] a = tt
  begun-sort (e ∷ rows) a = begun-insert e (sort_by_start rows) a.0 (begun-sort rows a.1)

  begun-filter :
      (p : Entry → Bool) (rows : List Entry)
      → All (λ r. r.start_time ≤ to) rows
      → All (λ r. r.start_time ≤ to) (filter p rows)
  begun-filter p [] a = tt
  begun-filter p (e ∷ rows) a = ground (arith, begun-filter p rows)

  begun-window :
      (rows : List Entry)
      → All (λ r. r.start_time ≤ to) (filter (in_window user_id from to project_id) rows)
  unfolding in_window
  begun-window [] = tt
  begun-window (e ∷ rows) = ground (arith, begun-window rows)

  -- Every listed row begins in the window; if it has an end, its length is positive and its end is
  -- in the window too.
  pub list_rows-Within :
      (rows : List Entry) → All (Within from to) (list_rows user_id from to project_id rows)
  unfolding list_rows
  list_rows-Within rows =
      clipped-Within
        (filter has_extent (sort_by_start (filter (in_window user_id from to project_id) rows)))
        (begun-filter has_extent
          (sort_by_start (filter (in_window user_id from to project_id) rows))
          (begun-sort (filter (in_window user_id from to project_id) rows) (begun-window rows)))
