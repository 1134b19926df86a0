-- ===== src/WorkTypes/Refines.antt =====
-- What a reconcile leaves, against the promise.
use timetrack.Prelude.{
  ℕ, ◌≡◌, ◌≢◌, ◌⊎◌, refl, sym, ap, ◌∙◌, true, false, none, some, List, [], ◌∷◌, map, arith, ◌==◌,
  ==→eq, Any, All, All-map, inl, inr, subst, Option-cases, Bool-cases, any,
}
use timetrack.WorkTypes.Model.{ExistingSubproject, DesiredWorkType, Create, Link, ReconcilePlan}
use timetrack.WorkTypes.Apply.{is_in, carries, new_row, create_rows}
use timetrack.WorkTypes.Plan.{is_candidate}
use timetrack.WorkTypes.Rows.{
  any-In, Any-map-In, All-map-All, In-Any, In, IsKeyed, All-In, In-All, id-eq,
}
use timetrack.WorkTypes.Planned.{Planned, LinkOf, CreateOf, RestoreOf, RenameOf, ArchiveOf}
use timetrack.WorkTypes.Synced.{is_wanted, Keeps, Settled, SettledIn, IsSynced}
use timetrack.WorkTypes.Updated.{
  updated-Keeps, updated-keys, updated-archived, Settled-typed, Settled-free,
}
use timetrack.WorkTypes.Writes.{
  link_all, link_all-keys, link_all-other, link_all-LinkedAs, updated, In-is_in, is_in-In,
}
use timetrack.WorkTypes.Created.{Stocked, create_rows-In, create_rows-All, create_rows-carries}
use timetrack.WorkTypes.Complete.{HasRow, Adopts, Serves}

wanted-In :
    (wts : List DesiredWorkType) (wt : DesiredWorkType) → In wt wts → is_wanted wts wt.id ≡ true
wanted-In [] wt m = elim m [ ]
wanted-In (x ∷ wts) wt (inl q) = ground (arith, q)
wanted-In (x ∷ wts) wt (inr m) = ground (arith, wanted-In wts wt m)

any-other :
    (i : ℕ) (links : List Link) → any (λ l. l.id == i) links ≡ false → All (λ l. l.id ≢ i) links
any-other i [] h = tt
any-other i (l ∷ links) h = (λ q. ground (arith, q, h), any-other i links (ground (arith, h)))

-- A plan of which every entry is due and that leaves nothing out, for rows of a table, and work
-- types that each project wants under one id and one key.
module _ (name_key : ℕ → ℕ) (mint : (project_id work_type_id : ℕ) → ℕ)
    (want : ℕ → List DesiredWorkType) (table mine : List ExistingSubproject) (plan : ReconcilePlan)
    (planned : Planned name_key want mine plan) (keyed : IsKeyed table)
    (sub : (r : ExistingSubproject) → In r mine → In r table)
    (one_id : (p : ℕ) (a b : DesiredWorkType) → In a (want p) → In b (want p) → a.id ≡ b.id → a ≡ b)
    (one_key : (p : ℕ) (a b : DesiredWorkType)
      → In a (want p)
      → In b (want p)
      → name_key a.name ≡ name_key b.name
      → a ≡ b)
    (fresh : (p w : ℕ) (r : ExistingSubproject) → In r table → r.id ≢ mint p w) where
  same-row : (r a : ExistingSubproject) → In r table → In a mine → a.id ≡ r.id → a ≡ r
  same-row r a m n e = id-eq a r table keyed (sub a n) m e

  -- No link touches a row that has a work type.
  typed-links :
      (r : ExistingSubproject) (w : ℕ)
      → In r table
      → r.work_type_id ≡ some w
      → All (λ l. l.id ≢ r.id) plan.link
  typed-links r w m typed =
      All-map (LinkOf name_key want mine) (λ l. l.id ≢ r.id) plan.link
        (λ l (a, wt, n, i, c, e, bare, found) same.
          let q = same-row r a m n (ground (arith, e, same)) in ground (arith, c, q, typed))
        planned.link

  -- All renames of a row of a work type give it the type's name.
  typed-renames :
      (p : ℕ) (r : ExistingSubproject) (wt : DesiredWorkType)
      → In r table
      → r.project_id ≡ p
      → r.work_type_id ≡ some wt.id
      → In wt (want p)
      → All (λ x. (x.id ≢ r.id) ⊎ (x.name ≡ wt.name)) plan.rename
  typed-renames p r wt m own typed i =
      All-map (RenameOf name_key want mine) (λ x. (x.id ≢ r.id) ⊎ (x.name ≡ wt.name)) plan.rename
        (λ x (a, u, n, j, e, t, due). elim (Bool-cases (x.id == r.id)) [
          | inr other ↦ inl (ground (arith, other))
          | inl hit ↦
              let q = same-row r a m n (ground (arith, e, hit)) in
              let one : u ≡ wt =
                one_id p u wt (subst (λ y. In u (want y)) (cc (q, own)) j) i
                  (ground (arith, q, t, typed)) in
              inr (ground (arith, e, one))
        ])
        planned.rename

  -- A row of a desired work type is not archived.
  typed-archive :
      (p : ℕ) (r : ExistingSubproject) (wt : DesiredWorkType)
      → In r table
      → r.project_id ≡ p
      → r.work_type_id ≡ some wt.id
      → In wt (want p)
      → is_in plan.archive r.id ≡ false
  typed-archive p r wt m own typed i = elim (Bool-cases (is_in plan.archive r.id)) [
    | inr out ↦ out
    | inl hit ↦
        let (a, w, n, e, t, u, live) =
          All-In (ArchiveOf name_key want mine) r.id plan.archive planned.archive
            (is_in-In r.id plan.archive hit) in
        let q = same-row r a m n e in
        let same : w ≡ wt.id = ground (arith, q, t, typed) in
        absurd (
          cc (
            wanted-In (want p) wt i,
            subst (λ y. is_wanted (want p) y ≡ false) same
                (subst (λ y. is_wanted (want y) w ≡ false) (cc (q, own)) u),
          ))
  ]

  -- No rename touches a row that no work type has, and no archiving does.
  free-renames :
      (r : ExistingSubproject)
      → ((a : ExistingSubproject) → In a mine → a.id ≡ r.id → a.work_type_id ≡ none)
      → All (λ x. x.id ≢ r.id) plan.rename
  free-renames r free =
      All-map (RenameOf name_key want mine) (λ x. x.id ≢ r.id) plan.rename
        (λ x (a, u, n, j, e, t, due) same. let q = free a n (ground (arith, e, same)) in cc (q, t))
        planned.rename

  free-archive :
      (r : ExistingSubproject)
      → ((a : ExistingSubproject) → In a mine → a.id ≡ r.id → a.work_type_id ≡ none)
      → is_in plan.archive r.id ≡ false
  free-archive r free = elim (Bool-cases (is_in plan.archive r.id)) [
    | inr out ↦ out
    | inl hit ↦
        let (a, w, n, e, t, u, live) =
          All-In (ArchiveOf name_key want mine) r.id plan.archive planned.archive
            (is_in-In r.id plan.archive hit) in
        let q = free a n e in cc (q, t)
  ]

  adopted-links :
      (p : ℕ) (a : ExistingSubproject) (wt : DesiredWorkType)
      → In a table
      → a.project_id ≡ p
      → In wt (want p)
      → is_candidate name_key wt.name a ≡ true
      → All (λ l. (l.id ≢ a.id) ⊎ ((l.work_type_id ≡ wt.id) × (l.name ≡ wt.name))) plan.link
  adopted-links p a wt m own i c =
      All-map (LinkOf name_key want mine)
        (λ l. (l.id ≢ a.id) ⊎ ((l.work_type_id ≡ wt.id) × (l.name ≡ wt.name))) plan.link
        (λ l (b, u, n, j, d, e, bare, found). elim (Bool-cases (l.id == a.id)) [
          | inr other ↦ inl (ground (arith, other))
          | inl hit ↦
              let q = same-row a b m n (ground (arith, e, hit)) in
              let one : u ≡ wt =
                one_key p u wt (subst (λ y. In u (want y)) (cc (q, own)) j) i
                  (ground (arith, q, c, d)) in
              inr (ground (arith, e, one))
        ])
        planned.link

  -- The plan's own link says that the row it adopts is a candidate.
  adopted-candidate :
      (p : ℕ) (a : ExistingSubproject) (wt : DesiredWorkType)
      → In a table
      → a.project_id ≡ p
      → In wt (want p)
      → In (record { id = a.id; work_type_id = wt.id; name = wt.name }) plan.link
      → is_candidate name_key wt.name a ≡ true
  adopted-candidate p a wt m own i due =
      let (b, u, n, j, d, e, bare, found) =
        All-In (LinkOf name_key want mine)
          (record { id = a.id; work_type_id = wt.id; name = wt.name }) plan.link planned.link due in
      let q = same-row a b m n (sym (ap (λ (l : Link). l.id) e)) in
      subst (λ y. is_candidate name_key wt.name y ≡ true) q
        (subst (λ y. is_candidate name_key y b ≡ true) (sym (ap (λ (l : Link). l.name) e)) d)

  kept-row :
      (p : ℕ) (wt : DesiredWorkType)
      → In wt (want p)
      → (h : HasRow mine plan p wt) → Keeps p wt (updated plan h.row)
  kept-row p wt i h =
      let r = h.row in
      let m = sub r h.there in
      let e : r ≡ link_all plan.link r =
        sym (link_all-other plan.link r (typed-links r wt.id m h.typed)) in
      updated-Keeps plan p wt r (subst (λ y. y.project_id ≡ p) e h.own)
        (subst (λ y. y.work_type_id ≡ some wt.id) e h.typed)
        (subst (λ y. (y.archived ≡ false) ⊎ In y.id plan.restore) e h.live)
        (subst (λ y. All (λ x. (x.id ≢ y.id) ⊎ (x.name ≡ wt.name)) plan.rename) e
          (typed-renames p r wt m h.own h.typed i))
        (subst (λ y. Any (λ x. x.id ≡ y.id) plan.rename ⊎ (y.name ≡ wt.name)) e
          (elim h.called [
            | inl q ↦ inr q
            | inr due ↦ inl (
                In-Any (λ x. x.id ≡ r.id) (record { id = r.id; name = wt.name }) plan.rename due
                  refl)
          ]))
        (subst (λ y. is_in plan.archive y.id ≡ false) e (typed-archive p r wt m h.own h.typed i))

  adopted-row :
      (p : ℕ) (wt : DesiredWorkType)
      → In wt (want p)
      → (h : Adopts mine plan p wt) → Keeps p wt (updated plan h.row)
  adopted-row p wt i h =
      let r = h.row in
      let m = sub r h.there in
      let c = adopted-candidate p r wt m h.own i h.due in
      let free : (a : ExistingSubproject) → In a mine → a.id ≡ r.id → a.work_type_id ≡ none =
        λ a n same. let q = same-row r a m n same in ground (arith, q, c) in
      let after = link_all-LinkedAs wt.id wt.name plan.link r (adopted-links p r wt m h.own i c) (
        inl (
          In-Any (λ l. l.id ≡ r.id) (record { id = r.id; work_type_id = wt.id; name = wt.name })
            plan.link h.due refl)) in
      let k = link_all-keys plan.link r in
      updated-Keeps plan p wt r (k.1 ∙ h.own) after.0 (inl after.2)
        (subst (λ y. All (λ x. (x.id ≢ y) ⊎ (x.name ≡ wt.name)) plan.rename) (sym k.0)
          (All-map (λ x. x.id ≢ r.id) (λ x. (x.id ≢ r.id) ⊎ (x.name ≡ wt.name)) plan.rename
            (λ x q. inl q) (free-renames r free)))
        (inr after.1) (subst (λ y. is_in plan.archive y ≡ false) (sym k.0) (free-archive r free))

  -- An inserted row is left alone by the updates.
  new_links : (b : Create) → All (λ l. l.id ≢ (new_row mint b).id) plan.link
  new_links b =
      All-map (LinkOf name_key want mine) (λ l. l.id ≢ (new_row mint b).id) plan.link
        (λ l (a, u, n, j, d, e, bare, found) same.
          fresh b.project_id b.work_type_id a (sub a n) (sym (ap (λ (x : Link). x.id) e) ∙ same))
        planned.link

  new-Keeps :
      (p : ℕ) (wt : DesiredWorkType) (b : Create)
      → b.project_id ≡ p
      → b.work_type_id ≡ wt.id
      → b.name ≡ wt.name
      → Keeps p wt (updated plan (new_row mint b))
  new-Keeps p wt b own typed called =
      let r = new_row mint b in
      let e : r ≡ link_all plan.link r = sym (link_all-other plan.link r (new_links b)) in
      let free : (a : ExistingSubproject) → In a mine → a.id ≡ r.id → a.work_type_id ≡ none =
        λ a n same. absurd (fresh b.project_id b.work_type_id a (sub a n) same) in
      updated-Keeps plan p wt r (subst (λ y. y.project_id ≡ p) e own)
        (subst (λ y. y.work_type_id ≡ some wt.id) e (ap (λ w. some w) typed))
        (inl (subst (λ y. y.archived ≡ false) e refl))
        (subst (λ y. All (λ x. (x.id ≢ y.id) ⊎ (x.name ≡ wt.name)) plan.rename) e
          (All-map (λ x. x.id ≢ r.id) (λ x. (x.id ≢ r.id) ⊎ (x.name ≡ wt.name)) plan.rename
            (λ x q. inl q) (free-renames r free)))
        (inr (subst (λ y. y.name ≡ wt.name) e called))
        (subst (λ y. is_in plan.archive y.id ≡ false) e (free-archive r free))

  module _ (p : ℕ) (own_rows : (r : ExistingSubproject) → In r table → r.project_id ≡ p → In r mine)
      (serves : Serves mine plan p (want p))
      (apart : (p w q v : ℕ) → mint p w ≡ mint q v → (p ≡ q) × (w ≡ v)) where
    stocked : All (Stocked mint table plan.create) (create_rows mint plan.create table).0
    stocked =
        create_rows-All mint (Stocked mint table plan.create) plan.create table
          (In-All (λ c. Stocked mint table plan.create (new_row mint c)) plan.create
            (λ c m. inr (c, m, refl)))
          (In-All (Stocked mint table plan.create) table (λ r m. inl m))

    created-Keeps :
        (wt : DesiredWorkType)
        → In wt (want p)
        → In (record { project_id = p; work_type_id = wt.id; name = wt.name }) plan.create
        → Any (Keeps p wt) (map (updated plan) (create_rows mint plan.create table).0)
    created-Keeps wt i due =
        let c : Create = record { project_id = p; work_type_id = wt.id; name = wt.name } in
        let rows = (create_rows mint plan.create table).0 in
        let (r, m, hit) =
          create_rows-carries mint table fresh apart plan.create plan.create table c
            (In-All (Stocked mint table plan.create) table (λ x n. inl n)) (λ b n. n) due in
        let (u, j, e, bare, found) =
          All-In (CreateOf name_key want mine) c plan.create planned.create due in
        Any-map-In (Keeps p wt) (updated plan) r rows m
          (elim (All-In (Stocked mint table plan.create) r rows stocked m) [
            | inl old ↦
                let q = bare r (own_rows r old (ground (arith, hit))) in
                let same : wt.id ≡ u.id = ap (λ (x : Create). x.work_type_id) e in
                cc (hit, subst (λ y. carries p y r ≡ false) (sym same) q)
            | inr (b, n, new) ↦
                let (v, k, f, none_yet, found) =
                  All-In (CreateOf name_key want mine) b plan.create planned.create n in
                let at_p : b.project_id ≡ p = ground (arith, hit, new) in
                let typed : b.work_type_id ≡ wt.id = ground (arith, hit, new) in
                let one : v ≡ wt =
                  one_id p v wt (subst (λ y. In v (want y)) at_p k) i
                    (sym (ap (λ (x : Create). x.work_type_id) f) ∙ typed) in
                subst (λ y. Keeps p wt (updated plan y)) (sym new)
                  (new-Keeps p wt b at_p typed
                    (ap (λ (x : Create). x.name) f ∙ ap (λ (x : DesiredWorkType). x.name) one))
          ])

    kept-All :
        All
          (λ wt. Any (Keeps p wt) (map (updated plan) (create_rows mint plan.create table).0))
          (want p)
    kept-All =
        In-All (λ wt. Any (Keeps p wt) (map (updated plan) (create_rows mint plan.create table).0))
          (want p)
          (λ wt i. elim (serves.covers wt i) [
            | inl h ↦
                Any-map-In (Keeps p wt) (updated plan) h.row (create_rows mint plan.create table).0
                  (create_rows-In mint plan.create table h.row (sub h.row h.there))
                  (kept-row p wt i h)
            | inr (inl h) ↦
                Any-map-In (Keeps p wt) (updated plan) h.row (create_rows mint plan.create table).0
                  (create_rows-In mint plan.create table h.row (sub h.row h.there))
                  (adopted-row p wt i h)
            | inr (inr due) ↦ created-Keeps wt i due
          ])

    stays_archived :
        (w : ℕ) (r : ExistingSubproject)
        → In r table
        → r.project_id ≡ p
        → r.work_type_id ≡ some w
        → is_wanted (want p) w ≡ false
        → r.archived ≡ true
        → is_in plan.restore r.id ≡ false
    stays_archived w r m own typed u dead = elim (Bool-cases (is_in plan.restore r.id)) [
      | inr out ↦ out
      | inl hit ↦
          let (a, wt, n, i, e, t, d) =
            All-In (RestoreOf name_key want mine) r.id plan.restore planned.restore
              (is_in-In r.id plan.restore hit) in
          let q = same-row r a m n e in
          let same : wt.id ≡ w = ground (arith, q, t, typed) in
          cc (
            u,
            subst (λ y. is_wanted (want p) y ≡ true) same
                (wanted-In (want p) wt (subst (λ y. In wt (want y)) (cc (q, own)) i)),
          )
    ]

    -- A row of an unwanted work type ends archived.
    unwanted-archived :
        (w : ℕ) (r : ExistingSubproject)
        → In r table
        → r.project_id ≡ p
        → r.work_type_id ≡ some w
        → link_all plan.link r ≡ r
        → is_wanted (want p) w ≡ false
        → (updated plan r).archived ≡ true
    unwanted-archived w r m own typed e u =
        updated-archived plan r
        ∙ rw e (elim (Bool-cases r.archived) [
          | inl dead ↦ ground (arith, dead, stays_archived w r m own typed u dead)
          | inr live ↦ ground (
            arith,
            In-is_in r.id plan.archive (serves.archives w r (own_rows r m own) own typed u live),
          )
        ])

    unlinked-Settled :
        (r : ExistingSubproject)
        → In r table
        → r.project_id ≡ p
        → link_all plan.link r ≡ r
        → Settled (want p) (updated plan r)
    unlinked-Settled r m own e =
        let k = (updated-keys plan r).2 ∙ ap (λ (y : ExistingSubproject). y.work_type_id) e in
        elim (Option-cases r.work_type_id) [
          | inl free ↦ Settled-free (want p) (updated plan r) (k ∙ free)
          | inr (w, typed) ↦
              Settled-typed (want p) w (updated plan r) (k ∙ typed)
                (elim (Bool-cases (is_wanted (want p) w)) [
                  | inl wanted ↦ inl wanted
                  | inr u ↦ inr (unwanted-archived w r m own typed e u)
                ])
        ]

    linked-Settled :
        (r : ExistingSubproject) (l : Link)
        → In r table
        → r.project_id ≡ p
        → In l plan.link
        → l.id ≡ r.id
        → Settled (want p) (updated plan r)
    linked-Settled r l m own there same =
        let (a, u, n, j, d, e, bare, found) =
          All-In (LinkOf name_key want mine) l plan.link planned.link there in
        let q = same-row r a m n (sym (ap (λ (x : Link). x.id) e) ∙ same) in
        let i : In u (want p) = subst (λ y. In u (want y)) (cc (q, own)) j in
        let after =
          link_all-LinkedAs u.id u.name plan.link r
            (adopted-links p r u m own i (subst (λ y. is_candidate name_key u.name y ≡ true) q d))
            (inl (In-Any (λ x. x.id ≡ r.id) l plan.link there same)) in
        Settled-typed (want p) u.id (updated plan r) ((updated-keys plan r).2 ∙ after.0)
          (inl (wanted-In (want p) u i))

    settled-row :
        (r : ExistingSubproject)
        → Stocked mint table plan.create r
        → SettledIn p (want p) (updated plan r)
    settled-row r h =
        let k = (updated-keys plan r).1 ∙ (link_all-keys plan.link r).1 in
        elim (Bool-cases (r.project_id == p)) [
          | inr other ↦ inl (λ q. ground (arith, other, k, q))
          | inl same ↦ elim h [
            | inl old ↦ elim (Bool-cases (any (λ l. l.id == r.id) plan.link)) [
              | inl hit ↦
                  let (l, m, e) = any-In (λ (x : Link). x.id == r.id) plan.link hit in
                  inr (linked-Settled r l old (==→eq r.project_id p same) m (==→eq l.id r.id e))
              | inr miss ↦ inr (
                  unlinked-Settled r old (==→eq r.project_id p same)
                    (link_all-other plan.link r (any-other r.id plan.link miss)))
            ]
            | inr (b, n, new) ↦
                let (v, i, f, bare, found) =
                  All-In (CreateOf name_key want mine) b plan.create planned.create n in
                let at_p : b.project_id ≡ p = ground (arith, new, same) in
                let e =
                  (updated-keys plan (new_row mint b)).2
                  ∙ ap (λ (y : ExistingSubproject). y.work_type_id)
                      (link_all-other plan.link (new_row mint b) (new_links b))
                  ∙ ap (λ (x : Create). some x.work_type_id) f in
                inr (
                  Settled-typed (want p) v.id (updated plan r)
                    (subst (λ y. (updated plan y).work_type_id ≡ some v.id) (sym new) e)
                    (inl (wanted-In (want p) v (subst (λ y. In v (want y)) at_p i))))
          ]
        ]

    pub updated-IsSynced :
        IsSynced p (want p) (map (updated plan) (create_rows mint plan.create table).0)
    updated-IsSynced = record {
      kept = kept-All;
      rest =
          All-map-All (SettledIn p (want p)) (updated plan) (create_rows mint plan.create table).0 (
            All-map (Stocked mint table plan.create) (λ r. SettledIn p (want p) (updated plan r))
              (create_rows mint plan.create table).0 settled-row stocked);
    }
