-- ===== src/WorkTypes/Succeeds.antt =====
-- The links of a plan meet no conflict.
use timetrack.Prelude.{
  ℕ, ◌≡◌, ◌≢◌, ◌⊎◌, refl, sym, ap, ◌∙◌, true, false, Bool, ◌&&◌, not, none, some, List, [], ◌∷◌,
  map, arith, ◌==◌, ==→eq, Any, All, All-map, inl, inr, subst, Bool-cases, any,
}
use timetrack.WorkTypes.Model.{ExistingSubproject, DesiredWorkType, Create, Link, ReconcilePlan}
use timetrack.WorkTypes.Apply.{
  carries, new_row, create_rows, find_sub, linked_row, apply_link, apply_links, apply_plan,
}
use timetrack.WorkTypes.Plan.{find_adoptee}
use timetrack.WorkTypes.Rows.{All-map-All, In-Any, In, IsKeyed, All-In, In-All, id-eq}
use timetrack.WorkTypes.Planned.{Planned, LinkOf, CreateOf, rows_of}
use timetrack.WorkTypes.Created.{Stocked, create_rows-In, create_rows-All}

find_sub-some :
    (i : ℕ) (rows : List ExistingSubproject)
    → Any (λ x. x.id ≡ i) rows
    → (t : ExistingSubproject) × (find_sub i rows ≡ some t) × In t rows × (t.id ≡ i)
unfolding find_sub
find_sub-some i [] h = elim h [ ]
find_sub-some i (x ∷ rows) h = elim (Bool-cases (x.id == i)) [
  | inl hit ↦ (x, rw (hit, find_sub) refl, inl refl, ==→eq x.id i hit)
  | inr miss ↦
      let (t, e, m, q) = find_sub-some i rows (ground (arith, h, miss)) in
      (t, rw (miss, find_sub) e, inr m, q)
]

any-none :
    {A : Type 0} (f : A → Bool) (xs : List A) → ((x : A) → In x xs → f x ≡ false) → any f xs ≡ false
any-none f [] h = refl
any-none f (x ∷ xs) h = ground (arith, h x (inl refl), any-none f xs (λ y m. h y (inr m)))

has-linked :
    (i : ℕ) (l : Link) (rows : List ExistingSubproject)
    → Any (λ x. x.id ≡ i) rows
    → Any (λ x. x.id ≡ i) (map (linked_row l) rows)
has-linked i l [] h = elim h [ ]
has-linked i l (x ∷ rows) h = ground (arith, has-linked i l rows)

module _ (name_key : ℕ → ℕ) (mint : (project_id work_type_id : ℕ) → ℕ)
    (want : ℕ → List DesiredWorkType) (table mine : List ExistingSubproject) (plan : ReconcilePlan)
    (planned : Planned name_key want mine plan) (keyed : IsKeyed table)
    (sub : (r : ExistingSubproject) → In r mine → In r table)
    (own_rows : (a r : ExistingSubproject)
      → In a mine
      → In r table
      → r.project_id ≡ a.project_id
      → In r mine)
    (one_id : (p : ℕ) (a b : DesiredWorkType) → In a (want p) → In b (want p) → a.id ≡ b.id → a ≡ b)
    (fresh : (p w : ℕ) (r : ExistingSubproject) → In r table → r.id ≢ mint p w) where
  -- A row while the links are made: its work type is its own or that of a link of the plan.
  Traced : ExistingSubproject → Type 0
  Traced x =
      (y : ExistingSubproject) × Stocked mint table plan.create y
      × (x.id ≡ y.id)
      × (x.project_id ≡ y.project_id)
      × ((x.work_type_id ≡ y.work_type_id)
          ⊎ ((l : Link) × In l plan.link × (l.id ≡ y.id) × (x.work_type_id ≡ some l.work_type_id)))

  linked-Traced :
      (l : Link) (x : ExistingSubproject) → In l plan.link → Traced x → Traced (linked_row l x)
  unfolding Traced
  linked-Traced l x m (y, s, i, p, h) = elim (Bool-cases (x.id == l.id)) [
    | inl hit ↦ (
      y,
      s,
      ground (arith, hit, i),
      ground (arith, hit, p),
      inr (l, m, ground (arith, hit, i), ground (arith, hit)),
    )
    | inr miss ↦ rw miss (y, s, i, p, h)
  ]

  old-row :
      (a y : ExistingSubproject)
      → In a mine
      → Stocked mint table plan.create y
      → a.id ≡ y.id
      → y ≡ a
  old-row a y m (inl n) e = id-eq y a table keyed n (sub a m) (sym e)
  old-row a y m (inr (b, n, new)) e = absurd (
      fresh b.project_id b.work_type_id a (sub a m) (e ∙ ap (λ (r : ExistingSubproject). r.id) new))

  -- A row of the project that has the work type of the link is the row that the link adopts.
  other-free :
      (l : Link) (t x : ExistingSubproject)
      → In l plan.link
      → Traced t
      → t.id ≡ l.id
      → Traced x
      → carries t.project_id l.work_type_id x ≡ true
      → x.id ≡ l.id
  unfolding Traced
  other-free l t x m (yt, st, it, pt, ht) tid (y, s, i, p, h) hit =
      let (a, wt, n, j, c, e, bare, found) =
        All-In (LinkOf name_key want mine) l plan.link planned.link m in
      let lid = ap (λ (k : Link). k.id) e in
      let lw = ap (λ (k : Link). k.work_type_id) e in
      let ya = old-row a yt n st (sym lid ∙ sym tid ∙ it) in
      let at_a : x.project_id ≡ a.project_id = ground (arith, hit, pt, ya) in
      let typed : x.work_type_id ≡ some wt.id = ground (arith, hit, lw) in
      elim h [
        | inl own ↦ elim s [
          | inl old ↦
              let q = bare y (own_rows a y n old (sym p ∙ at_a)) in
              absurd (ground (arith, q, own, typed, at_a, p))
          | inr (b, k, new) ↦
              let (v, z, f, free, alone) =
                All-In (CreateOf name_key want mine) b plan.create planned.create k in
              let at_b : b.project_id ≡ a.project_id = ground (arith, new, p, at_a) in
              let one : v ≡ wt =
                one_id a.project_id v wt (subst (λ q. In v (want q)) at_b z) j
                  (sym (ap (λ (k : Create). k.work_type_id) f) ∙ ground (arith, new, own, typed)) in
              let none_found : find_adoptee name_key (rows_of mine a.project_id) wt.name ≡ none =
                subst (λ u. find_adoptee name_key (rows_of mine a.project_id) u.name ≡ none) one
                  (subst (λ q. find_adoptee name_key (rows_of mine q) v.name ≡ none) at_b alone) in
              cc (none_found, found)
        ]
        | inr (l', m', i', w') ↦
            let (a', u, n', z, c', e', bare', found') =
              All-In (LinkOf name_key want mine) l' plan.link planned.link m' in
            let y_a = old-row a' y n' s (sym (ap (λ (k : Link). k.id) e') ∙ i') in
            let at_b : a'.project_id ≡ a.project_id = ground (arith, y_a, p, at_a) in
            let one : u ≡ wt =
              one_id a.project_id u wt (subst (λ q. In u (want q)) at_b z) j
                (sym (ap (λ (k : Link). k.work_type_id) e') ∙ ground (arith, w', typed)) in
            let again : find_adoptee name_key (rows_of mine a.project_id) wt.name ≡ some a' =
              subst (λ k. find_adoptee name_key (rows_of mine a.project_id) k.name ≡ some a') one
                (subst (λ q. find_adoptee name_key (rows_of mine q) u.name ≡ some a') at_b
                  found') in
            let same : a' ≡ a = cc (again, found) in ground (arith, i, y_a, same, lid)
      ]

  apply_link-some :
      (l : Link) (rows : List ExistingSubproject)
      → In l plan.link
      → All Traced rows
      → Any (λ x. x.id ≡ l.id) rows
      → apply_link l rows ≡ some (map (linked_row l) rows)
  unfolding apply_link
  apply_link-some l rows m h there =
      let (t, e, n, q) = find_sub-some l.id rows there in
      let quiet =
        any-none (λ r. not (r.id == l.id) && carries t.project_id l.work_type_id r) rows
          (λ x k. elim (Bool-cases (carries t.project_id l.work_type_id x)) [
            | inr miss ↦ ground (arith, miss)
            | inl hit ↦
                let same =
                  other-free l t x m (All-In Traced t rows h n) q (All-In Traced x rows h k) hit in
                ground (arith, same)
          ]) in
      rw (e, quiet, apply_link) refl

  apply_links-some :
      (links : List Link) (rows : List ExistingSubproject)
      → ((l : Link) → In l links → In l plan.link)
      → All Traced rows
      → All (λ l. Any (λ x. x.id ≡ l.id) rows) links
      → (after : List ExistingSubproject) × (apply_links links rows ≡ some after)
  unfolding apply_links
  apply_links-some [] rows s h there = (rows, refl)
  apply_links-some (l ∷ links) rows s h there =
      let m = s l (inl refl) in
      let e = apply_link-some l rows m h there.0 in
      let (after, q) =
        apply_links-some links (map (linked_row l) rows) (λ x k. s x (inr k))
          (All-map-All Traced (linked_row l) rows
            (All-map Traced (λ x. Traced (linked_row l x)) rows (λ x k. linked-Traced l x m k) h))
          (All-map (λ x. Any (λ r. r.id ≡ x.id) rows)
            (λ x. Any (λ r. r.id ≡ x.id) (map (linked_row l) rows)) links
            (λ x k. has-linked x.id l rows k) there.1) in
      (after, rw (e, apply_links) q)

  -- The writes of the plan succeed.
  pub apply_plan-some :
      (after : List ExistingSubproject × ℕ) × (apply_plan mint plan table ≡ some after)
  unfolding apply_plan Traced
  apply_plan-some =
      let rows = (create_rows mint plan.create table).0 in
      let own : (y : ExistingSubproject) → Stocked mint table plan.create y → Traced y =
        λ y s. (y, s, refl, refl, inl refl) in
      let (linked, e) =
        apply_links-some plan.link rows (λ l m. m)
          (create_rows-All mint Traced plan.create table
            (In-All (λ c. Traced (new_row mint c)) plan.create
              (λ c m. own (new_row mint c) (inr (c, m, refl))))
            (In-All Traced table (λ r m. own r (inl m))))
          (All-map (LinkOf name_key want mine) (λ l. Any (λ x. x.id ≡ l.id) rows) plan.link
            (λ l (a, wt, n, j, c, d, bare, found).
              In-Any (λ x. x.id ≡ l.id) a rows (create_rows-In mint plan.create table a (sub a n))
                (sym (ap (λ (k : Link). k.id) d)))
            planned.link) in
      rw (e, apply_plan) (_, refl)
