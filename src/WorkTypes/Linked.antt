-- ===== src/WorkTypes/Linked.antt =====
-- The map from work types to the rows of a project that planReconcile builds.
use timetrack.Prelude.{
  ℕ, ◌≡◌, ◌⊎◌, refl, sym, true, false, none, some, List, [], ◌∷◌, arith, ◌==◌, Any, All, inl, inr,
  subst, put, get, get-put, All-put, Option-cases, any,
}
use timetrack.WorkTypes.Model.{ExistingSubproject, DesiredWorkType}
use timetrack.WorkTypes.Apply.{has_type, is_in}
use timetrack.WorkTypes.Plan.{set_linked, plan_archive}
use timetrack.WorkTypes.Rows.{In, IsKeyed, Apart}

-- An entry of the map: a row of the table under its work type.
abbrev pub LinkedRow : List ExistingSubproject → ℕ × ExistingSubproject → Type 0
LinkedRow rows e = In e.1 rows × (e.1.work_type_id ≡ some e.0)

set_linked-All :
    (P : ℕ × ExistingSubproject → Type 0) (rows : List ExistingSubproject)
    (m : List (ℕ × ExistingSubproject))
    → ((r : ExistingSubproject) (w : ℕ) → In r rows → r.work_type_id ≡ some w → P (w, r))
    → All P m
    → All P (set_linked rows m)
unfolding set_linked
set_linked-All P [] m f h = h
set_linked-All P (r ∷ rows) m f h =
    set_linked-All P rows (elim r.work_type_id [ none ↦ m | some w ↦ put w r m ])
      (λ x w n q. f x w (inr n) q)
      (elim (Option-cases r.work_type_id) [
        | inl free ↦ rw free h
        | inr (w, linked) ↦ rw linked (All-put P w r m (f r w (inl refl) linked) h)
      ])

pub linked-LinkedRow : (rows : List ExistingSubproject) → All (LinkedRow rows) (set_linked rows [])
linked-LinkedRow rows = set_linked-All (LinkedRow rows) rows [] (λ r w n q. (n, q)) tt

-- Rows of other work types leave an entry alone.
get-later :
    (w : ℕ) (rows : List ExistingSubproject) (m : List (ℕ × ExistingSubproject))
    → All (λ r. has_type w r ≡ false) rows
    → get w (set_linked rows m) ≡ get w m
unfolding set_linked
get-later w [] m h = refl
get-later w (r ∷ rows) m h = elim (Option-cases r.work_type_id) [
  | inl free ↦ rw (free, set_linked) (get-later w rows m h.1)
  | inr (v, linked) ↦
      rw (linked, set_linked) (ground (arith, get-later w rows (put v r m), get-put v w r m))
]

-- Every row of one project.
abbrev pub OfProject : (project_id : ℕ) → ExistingSubproject → Type 0
OfProject p r = r.project_id ≡ p

Apart-type :
    (p w : ℕ) (r x : ExistingSubproject)
    → OfProject p r
    → OfProject p x
    → r.work_type_id ≡ some w
    → Apart r x
    → has_type w x ≡ false
Apart-type p w r x a b q h = ground arith

Apart-types :
    (p w : ℕ) (r : ExistingSubproject) (rows : List ExistingSubproject)
    → OfProject p r
    → All (OfProject p) rows
    → r.work_type_id ≡ some w
    → All (Apart r) rows
    → All (λ x. has_type w x ≡ false) rows
Apart-types p w r [] a b q h = tt
Apart-types p w r (x ∷ rows) a b q h =
    (Apart-type p w r x a b.0 q h.0, Apart-types p w r rows a b.1 q h.1)

-- The map gives each linked row under its work type.
pub get-linked :
    (p w : ℕ) (r : ExistingSubproject) (rows : List ExistingSubproject)
    (m : List (ℕ × ExistingSubproject))
    → IsKeyed rows
    → All (OfProject p) rows
    → In r rows
    → r.work_type_id ≡ some w
    → get w (set_linked rows m) ≡ some r
unfolding set_linked
get-linked p w r [] m k a n q = elim n [ ]
get-linked p w r (x ∷ rows) m k a (inr n) q =
    get-linked p w r rows (elim x.work_type_id [ none ↦ m | some v ↦ put v x m ]) k.1 a.1 n q
get-linked p w r (x ∷ rows) m k a (inl same) q =
    let own : x.work_type_id ≡ some w = subst (λ y. y.work_type_id ≡ some w) (sym same) q in
    rw (own, set_linked)
      (ground (
        arith,
        get-later w rows (put w x m) (Apart-types p w x rows a.0 a.1 own k.0),
        get-put w w x m,
      ))

-- Rule 4 archives the live rows of types that are not desired, and no other.
pub archive-In :
    (desired : List DesiredWorkType) (P : ℕ → Type 0) (linked : List (ℕ × ExistingSubproject))
    → All (λ e. any (λ wt. wt.id == e.0) desired ≡ false → e.1.archived ≡ false → P e.1.id) linked
    → All P (plan_archive desired linked)
unfolding plan_archive
archive-In desired P [] h = tt
archive-In desired P ((w, r) ∷ linked) h = ground (arith, archive-In desired P linked)

pub archive_complete :
    (desired : List DesiredWorkType) (w : ℕ) (r : ExistingSubproject)
    (linked : List (ℕ × ExistingSubproject))
    → Any (λ e. (e.0 ≡ w) × (e.1 ≡ r)) linked
    → any (λ wt. wt.id == w) desired ≡ false
    → r.archived ≡ false
    → is_in (plan_archive desired linked) r.id ≡ true
unfolding plan_archive
archive_complete desired w r [] m h live = elim m [ ]
archive_complete desired w r ((v, x) ∷ linked) (inr m) h live =
    ground (arith, archive_complete desired w r linked m h live)
archive_complete desired w r ((v, x) ∷ linked) (inl (a, b)) h live = ground arith

-- Nothing is archived where every live entry is desired.
pub archive-empty :
    (desired : List DesiredWorkType) (linked : List (ℕ × ExistingSubproject))
    → All (λ e. (any (λ wt. wt.id == e.0) desired ≡ true) ⊎ (e.1.archived ≡ true)) linked
    → plan_archive desired linked ≡ []
unfolding plan_archive
archive-empty desired [] h = refl
archive-empty desired ((w, r) ∷ linked) h = ground (arith, archive-empty desired linked)
