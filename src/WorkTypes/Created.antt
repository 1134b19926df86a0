-- ===== src/WorkTypes/Created.antt =====
-- The rows that a reconcile inserts: createMany with skipDuplicates.
use timetrack.Prelude.{
  ℕ, ◌≡◌, ◌≢◌, ◌⊎◌, refl, true, List, [], ◌∷◌, arith, ◌==◌, ==→eq, All, inl, inr, subst, Bool-cases,
}
use timetrack.WorkTypes.Model.{ExistingSubproject, Create}
use timetrack.WorkTypes.Apply.{carries, new_row, is_duplicate, create_rows}
use timetrack.WorkTypes.Rows.{In}

module _ (mint : (project_id work_type_id : ℕ) → ℕ) where
  -- Rows that were there stay.
  pub create_rows-In :
      (creates : List Create) (rows : List ExistingSubproject) (r : ExistingSubproject)
      → In r rows
      → In r (create_rows mint creates rows).0
  unfolding create_rows
  create_rows-In [] rows r m = m
  create_rows-In (c ∷ creates) rows r m = elim (Bool-cases (is_duplicate mint c rows)) [
    | inl dup ↦ rw (dup, create_rows) (create_rows-In creates rows r m)
    | inr new ↦ rw (new, create_rows) (create_rows-In creates (new_row mint c ∷ rows) r (inr m))
  ]

  pub create_rows-All :
      (P : ExistingSubproject → Type 0) (creates : List Create) (rows : List ExistingSubproject)
      → All (λ c. P (new_row mint c)) creates
      → All P rows
      → All P (create_rows mint creates rows).0
  unfolding create_rows
  create_rows-All P [] rows h q = q
  create_rows-All P (c ∷ creates) rows h q = elim (Bool-cases (is_duplicate mint c rows)) [
    | inl dup ↦ rw (dup, create_rows) (create_rows-All P creates rows h.1 q)
    | inr new ↦
        rw (new, create_rows) (create_rows-All P creates (new_row mint c ∷ rows) h.1 (h.0, q))
  ]

  -- A row that was inserted, or one with an id that no insert gives.
  abbrev pub Stocked : List ExistingSubproject → List Create → ExistingSubproject → Type 0
  Stocked table all r = In r table ⊎ ((c : Create) × In c all × (r ≡ new_row mint c))

  module _ (table : List ExistingSubproject)
      (fresh : (p w : ℕ) (r : ExistingSubproject) → In r table → r.id ≢ mint p w)
      (apart : (p w q v : ℕ) → mint p w ≡ mint q v → (p ≡ q) × (w ≡ v)) where
    duplicate-carries :
        (all : List Create) (c : Create) (rows : List ExistingSubproject)
        → All (Stocked table all) rows
        → is_duplicate mint c rows ≡ true
        → (r : ExistingSubproject) × In r rows × (carries c.project_id c.work_type_id r ≡ true)
    duplicate-carries all c [] h d = cc
    duplicate-carries all c (x ∷ rows) h d =
        elim (Bool-cases (carries c.project_id c.work_type_id x)) [
          | inl hit ↦ (x, inl refl, hit)
          | inr miss ↦ elim (Bool-cases (x.id == mint c.project_id c.work_type_id)) [
            | inl same ↦ elim h.0 [
              | inl old ↦ absurd (
                  fresh c.project_id c.work_type_id x old
                    (==→eq x.id (mint c.project_id c.work_type_id) same))
              | inr (b, m, q) ↦
                  let e = apart b.project_id b.work_type_id c.project_id c.work_type_id (
                    subst (λ y. y.id ≡ mint c.project_id c.work_type_id) q
                      (==→eq x.id (mint c.project_id c.work_type_id) same)) in
                  absurd (ground (arith, e, miss, q))
            ]
            | inr other ↦
                let (r, m, q) = duplicate-carries all c rows h.1 (ground (arith, d, miss, other)) in
                (r, inr m, q)
          ]
        ]

    -- Every create has its row afterwards.
    pub create_rows-carries :
        (all creates : List Create) (rows : List ExistingSubproject) (c : Create)
        → All (Stocked table all) rows
        → ((b : Create) → In b creates → In b all)
        → In c creates
        → (r : ExistingSubproject) × In r (create_rows mint creates rows).0
          × (carries c.project_id c.work_type_id r ≡ true)
    unfolding create_rows
    create_rows-carries all [] rows c h s m = elim m [ ]
    create_rows-carries all (b ∷ creates) rows c h s (inl q) =
        elim (Bool-cases (is_duplicate mint b rows)) [
          | inl dup ↦
              let (r, n, k) = duplicate-carries all b rows h dup in
              rw (dup, create_rows)
                (
                  r,
                  create_rows-In creates rows r n,
                  subst (λ y. carries y.project_id y.work_type_id r ≡ true) q k,
                )
          | inr new ↦
              rw (new, create_rows)
                (
                  new_row mint b,
                  create_rows-In creates (new_row mint b ∷ rows) (new_row mint b) (inl refl),
                  subst (λ y. carries y.project_id y.work_type_id (new_row mint b) ≡ true) q
                      (ground arith),
                )
        ]
    create_rows-carries all (b ∷ creates) rows c h s (inr n) =
        elim (Bool-cases (is_duplicate mint b rows)) [
          | inl dup ↦
              rw (dup, create_rows)
                (create_rows-carries all creates rows c h (λ x m. s x (inr m)) n)
          | inr new ↦
              rw (new, create_rows)
                (create_rows-carries all creates (new_row mint b ∷ rows) c
                  (inr (b, s b (inl refl), refl), h) (λ x m. s x (inr m)) n)
        ]
