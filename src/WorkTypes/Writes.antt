-- ===== src/WorkTypes/Writes.antt =====
-- What the updates of a plan make of one row.
use timetrack.Prelude.{
  ℕ, ◌≡◌, ◌≢◌, ◌⊎◌, refl, sym, ◌∙◌, ap, true, false, ◌||◌, Option, some, List, [], ◌∷◌, ◌++◌, map,
  arith, ◌==◌, Any, All, inl, inr, subst, put, get, get-All, All-put, or_else, Bool-cases,
  Option-cases,
}
use timetrack.WorkTypes.Model.{ExistingSubproject, Link, Rename, ReconcilePlan}
use timetrack.WorkTypes.Apply.{
  is_in, set_archived, linked_row, apply_link, apply_links, group_renames, named, apply_renames,
  create_rows, apply_plan,
}
use timetrack.WorkTypes.Rows.{In}

pub In-is_in : (i : ℕ) (ids : List ℕ) → In i ids → is_in ids i ≡ true
In-is_in i [] m = elim m [ ]
In-is_in i (x ∷ ids) (inl q) = ground arith
In-is_in i (x ∷ ids) (inr m) = ground (arith, In-is_in i ids m)

pub is_in-In : (i : ℕ) (ids : List ℕ) → is_in ids i ≡ true → In i ids
is_in-In i [] m = cc
is_in-In i (x ∷ ids) m = ground (arith, is_in-In i ids)

map-map :
    {A B C : Type 0} (f : A → B) (g : B → C) (xs : List A)
    → map g (map f xs) ≡ map (λ x. g (f x)) xs
map-map f g [] = refl
map-map f g (x ∷ xs) = ap (λ ys. g (f x) ∷ ys) (map-map f g xs)

map_same : {A : Type 0} (xs : List A) → xs ≡ map (λ x. x) xs
map_same [] = refl
map_same (x ∷ xs) = ap (λ ys. x ∷ ys) (map_same xs)

-- The links, one after the other.
unfoldable pub link_all : List Link → ExistingSubproject → ExistingSubproject
link_all [] r = r
link_all (l ∷ links) r = link_all links (linked_row l r)

apply_link-eq :
    (l : Link) (rows : List ExistingSubproject) {after : List ExistingSubproject}
    → apply_link l rows ≡ some after
    → after ≡ map (linked_row l) rows
unfolding apply_link
apply_link-eq l rows {after = after} h = ground arith

apply_links-eq :
    (links : List Link) (rows : List ExistingSubproject) {after : List ExistingSubproject}
    → apply_links links rows ≡ some after
    → after ≡ map (link_all links) rows
unfolding apply_links link_all
apply_links-eq [] rows {after = after} h = let e : after ≡ rows = cc in e ∙ map_same rows
apply_links-eq (l ∷ links) rows {after = after} h = elim (Option-cases (apply_link l rows)) [
  | inl conflict ↦ cc (rw (conflict, apply_links) at h)
  | inr (mid, ok) ↦
      apply_links-eq links mid {after = after} (rw (ok, apply_links) at h)
      ∙ ap (map (link_all links)) (apply_link-eq l rows {after = mid} ok)
      ∙ map-map (linked_row l) (link_all links) rows
]

abbrev pub LinkedAs : (w n : ℕ) → ExistingSubproject → Type 0
LinkedAs w n r = (r.work_type_id ≡ some w) × (r.name ≡ n) × (r.archived ≡ false)

-- The row keeps its id and its project.
pub link_all-keys :
    (links : List Link) (r : ExistingSubproject)
    → ((link_all links r).id ≡ r.id) × ((link_all links r).project_id ≡ r.project_id)
unfolding link_all
link_all-keys [] r = (refl, refl)
link_all-keys (l ∷ links) r = ground (arith, link_all-keys links (linked_row l r))

pub link_all-other :
    (links : List Link) (r : ExistingSubproject)
    → All (λ l. l.id ≢ r.id) links
    → link_all links r ≡ r
unfolding link_all
link_all-other [] r h = refl
link_all-other (l ∷ links) r h = ground (arith, link_all-other links r)

pub link_all-LinkedAs :
    (w n : ℕ) (links : List Link) (r : ExistingSubproject)
    → All (λ l. (l.id ≢ r.id) ⊎ ((l.work_type_id ≡ w) × (l.name ≡ n))) links
    → Any (λ l. l.id ≡ r.id) links ⊎ LinkedAs w n r
    → LinkedAs w n (link_all links r)
unfolding link_all
link_all-LinkedAs w n [] r h (inl q) = elim q [ ]
link_all-LinkedAs w n [] r h (inr q) = q
link_all-LinkedAs w n (l ∷ links) r h q = elim (Bool-cases (r.id == l.id)) [
  | inl own ↦
      let x : ExistingSubproject = record r {
        work_type_id = some l.work_type_id;
        name = l.name;
        archived = false;
      } in
      let e : x ≡ linked_row l r = rw own refl in
      let agreed : (l.work_type_id ≡ w) × (l.name ≡ n) = ground (arith, own, h.0) in
      subst (λ y. LinkedAs w n (link_all links y)) e
        (link_all-LinkedAs w n links x h.1 (inr (ap (λ v. some v) agreed.0, agreed.1, refl)))
  | inr other ↦ rw (other, link_all) (link_all-LinkedAs w n links r h.1 (ground (arith, q)))
]

-- The groups of renames, one after the other.
unfoldable pub rename_all : List (ℕ × List ℕ) → ExistingSubproject → ExistingSubproject
rename_all [] r = r
rename_all (g ∷ groups) r = rename_all groups (named g.0 g.1 r)

apply_renames-eq :
    (groups : List (ℕ × List ℕ)) (rows : List ExistingSubproject)
    → apply_renames groups rows ≡ map (rename_all groups) rows
unfolding apply_renames rename_all
apply_renames-eq [] rows = map_same rows
apply_renames-eq ((n, ids) ∷ groups) rows =
    apply_renames-eq groups (map (named n ids) rows)
    ∙ map-map (named n ids) (rename_all groups) rows

pub rename_all-keys :
    (groups : List (ℕ × List ℕ)) (r : ExistingSubproject)
    → ((rename_all groups r).id ≡ r.id)
      × ((rename_all groups r).project_id ≡ r.project_id)
      × ((rename_all groups r).work_type_id ≡ r.work_type_id)
      × ((rename_all groups r).archived ≡ r.archived)
unfolding rename_all
rename_all-keys [] r = (refl, refl, refl, refl)
rename_all-keys (g ∷ groups) r = ground (arith, rename_all-keys groups (named g.0 g.1 r))

-- Every group that holds the id has the name.
abbrev pub NamesAs : (i n : ℕ) → ℕ × List ℕ → Type 0
NamesAs i n g = (is_in g.1 i ≡ false) ⊎ (g.0 ≡ n)

rename_all-name :
    (n : ℕ) (groups : List (ℕ × List ℕ)) (r : ExistingSubproject)
    → All (NamesAs r.id n) groups
    → Any (λ g. is_in g.1 r.id ≡ true) groups ⊎ (r.name ≡ n)
    → (rename_all groups r).name ≡ n
unfolding rename_all
rename_all-name n [] r h (inl q) = elim q [ ]
rename_all-name n [] r h (inr q) = q
rename_all-name n (g ∷ groups) r h q = ground (arith, rename_all-name n groups (named g.0 g.1 r))

is_in_last : (i j : ℕ) (ids : List ℕ) → is_in (ids ++ (j ∷ [])) i ≡ (is_in ids i || (j == i))
is_in_last i j [] = ground arith
is_in_last i j (x ∷ ids) = ground (arith, is_in_last i j ids)

group_keeps :
    (i n : ℕ) (x : Rename) (old : List ℕ)
    → (x.id ≢ i) ⊎ (x.name ≡ n)
    → NamesAs i n (x.name, old)
    → NamesAs i n (x.name, old ++ (x.id ∷ []))
group_keeps i n x old h q = ground (arith, is_in_last i x.id old)

groups-NamesAs :
    (i n : ℕ) (renames : List Rename) (groups : List (ℕ × List ℕ))
    → All (λ x. (x.id ≢ i) ⊎ (x.name ≡ n)) renames
    → All (NamesAs i n) groups
    → All (NamesAs i n) (group_renames renames groups)
unfolding group_renames
groups-NamesAs i n [] groups h q = q
groups-NamesAs i n (x ∷ renames) groups h q =
    let old = or_else (get x.name groups) [] in
    let own : NamesAs i n (x.name, old) = elim (Option-cases (get x.name groups)) [
      | inl free ↦ rw free (inl refl)
      | inr (ids, found) ↦ rw found (get-All (NamesAs i n) x.name groups {v = ids} q found)
    ] in
    groups-NamesAs i n renames (put x.name (old ++ (x.id ∷ [])) groups) h.1
      (All-put (NamesAs i n) x.name (old ++ (x.id ∷ [])) groups (group_keeps i n x old h.0 own) q)

abbrev pub Holds : ℕ → ℕ × List ℕ → Type 0
Holds i g = is_in g.1 i ≡ true

put-Holds :
    (i k : ℕ) (ids : List ℕ) (groups : List (ℕ × List ℕ))
    → is_in ids i ≡ true
    → Any (Holds i) (put k ids groups)
unfolding put
put-Holds i k ids [] h = inl h
put-Holds i k ids (g ∷ groups) h = ground (arith, put-Holds i k ids groups)

Any-Holds-put :
    (i k j : ℕ) (groups : List (ℕ × List ℕ))
    → Any (Holds i) groups
    → Any (Holds i) (put k (or_else (get k groups) [] ++ (j ∷ [])) groups)
unfolding put get
Any-Holds-put i k j [] h = elim h [ ]
Any-Holds-put i k j (g ∷ groups) h = ground (arith, Any-Holds-put i k j groups, is_in_last i j g.1)

groups-Holds :
    (i : ℕ) (renames : List Rename) (groups : List (ℕ × List ℕ))
    → Any (λ x. x.id ≡ i) renames ⊎ Any (Holds i) groups
    → Any (Holds i) (group_renames renames groups)
unfolding group_renames
groups-Holds i [] groups (inl h) = elim h [ ]
groups-Holds i [] groups (inr h) = h
groups-Holds i (x ∷ renames) groups h =
    let ids = or_else (get x.name groups) [] ++ (x.id ∷ []) in
    groups-Holds i renames (put x.name ids groups) (elim h [
      | inl (inl own) ↦ inr (
          put-Holds i x.name ids groups
            (is_in_last i x.id (or_else (get x.name groups) []) ∙ ground (arith, own)))
      | inl (inr later) ↦ inl later
      | inr old ↦ inr (Any-Holds-put i x.name x.id groups old)
    ])

-- The name of a row that all renames of it agree on.
pub renamed-name :
    (n : ℕ) (renames : List Rename) (r : ExistingSubproject)
    → All (λ x. (x.id ≢ r.id) ⊎ (x.name ≡ n)) renames
    → Any (λ x. x.id ≡ r.id) renames ⊎ (r.name ≡ n)
    → (rename_all (group_renames renames []) r).name ≡ n
renamed-name n renames r h q =
    rename_all-name n (group_renames renames []) r (groups-NamesAs r.id n renames [] h tt)
      (elim q [ inl due ↦ inl (groups-Holds r.id renames [] (inl due)) | inr own ↦ inr own ])

-- The updates of a plan, in the order of the code.
abbrev pub updated : ReconcilePlan → ExistingSubproject → ExistingSubproject
updated plan r = set_archived true plan.archive (
    rename_all (group_renames plan.rename [])
      (set_archived false plan.restore (link_all plan.link r)))

some-pair :
    {a a' : List ExistingSubproject} {b b' : ℕ}
    → ◌≡◌ {A = Option (List ExistingSubproject × ℕ)} (some (a, b)) (some (a', b'))
    → a ≡ a'
some-pair h = cc

fused :
    (plan : ReconcilePlan) (rows : List ExistingSubproject)
    → map (set_archived true plan.archive) (
        map
          (rename_all (group_renames plan.rename []))
          (map (set_archived false plan.restore) (map (link_all plan.link) rows)))
      ≡ map (updated plan) rows
fused plan [] = refl
fused plan (r ∷ rows) = ap (λ ys. updated plan r ∷ ys) (fused plan rows)

-- What the writes of a plan that succeed leave.
pub apply_plan-eq :
    (mint : ℕ → ℕ → ℕ) (plan : ReconcilePlan) (table : List ExistingSubproject)
    {after : List ExistingSubproject} {n : ℕ}
    → apply_plan mint plan table ≡ some (after, n)
    → after ≡ map (updated plan) (create_rows mint plan.create table).0
unfolding apply_plan
apply_plan-eq mint plan table {after = after} {n = n} h =
    elim (Option-cases (apply_links plan.link (create_rows mint plan.create table).0)) [
      | inl conflict ↦ cc (rw (conflict, apply_plan) at h)
      | inr (linked, ok) ↦
          let e = some-pair (rw (ok, apply_plan) at h) in
          let names = group_renames plan.rename [] in
          sym e
          ∙ ap (map (set_archived true plan.archive)) (
              apply_renames-eq names (map (set_archived false plan.restore) linked)
              ∙ ap (λ ys. map (rename_all names) (map (set_archived false plan.restore) ys))
                  (apply_links-eq plan.link (create_rows mint plan.create table).0 {after = linked}
                    ok))
          ∙ fused plan (create_rows mint plan.create table).0
    ]
