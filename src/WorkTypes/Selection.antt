-- ===== src/WorkTypes/Selection.antt =====
-- The work types that a project's teams select, as a function of the project.
use timetrack.Prelude.{
  ℕ, ◌≡◌, ◌≢◌, ◌⊎◌, refl, Bool, ◌&&◌, not, List, [], ◌∷◌, map, filter, arith, ◌==◌, if◌then◌else◌,
  All, All-append, Pairs, put, All-put, Bool-cases, inl, inr,
}
use timetrack.WorkTypes.Model.{
  DesiredWorkType, ReconcileProject, Project, WorkType, TeamWorkType, Catalog,
}
use timetrack.WorkTypes.Plan.{set_types, union_of, desired_of}
use timetrack.WorkTypes.Apply.{selected_types, desired_by_team, teams_of, is_in}
use timetrack.WorkTypes.Rows.{In, All-In, In-All}

-- The projects that a reconcile reads.
abbrev pub listed : (project_ids : List ℕ) → Catalog → List ReconcileProject
listed project_ids cat =
    map (λ p. record { id = p.id; team_ids = teams_of cat.project_teams p })
      (filter (λ p. is_in project_ids p.id) cat.projects)

abbrev pub selection : Catalog → (team_id : ℕ) → List DesiredWorkType
selection cat = desired_by_team cat.work_types cat.team_work_types

unfoldable pub wants : (ℕ → List DesiredWorkType) → List ReconcileProject → ℕ → List DesiredWorkType
wants dbt [] i = []
wants dbt (q ∷ qs) i = if q.id == i then desired_of dbt q else wants dbt qs i

abbrev pub OtherId : ReconcileProject → ReconcileProject → Type 0
OtherId a b = b.id ≢ a.id

-- A project that is listed once wants what its teams select.
pub wants-eq :
    (dbt : ℕ → List DesiredWorkType) (qs : List ReconcileProject)
    → Pairs OtherId qs
    → All (λ q. wants dbt qs q.id ≡ desired_of dbt q) qs
unfolding wants
wants-eq dbt [] h = tt
wants-eq dbt (q ∷ qs) h = (
  ground arith,
  In-All (λ x. wants dbt (q ∷ qs) x.id ≡ desired_of dbt x) qs
      (λ x m. ground (
        arith,
        All-In (OtherId q) x qs h.0 m,
        All-In (λ y. wants dbt qs y.id ≡ desired_of dbt y) x qs (wants-eq dbt qs h.1) m,
      )),
)

pub wants-In :
    (dbt : ℕ → List DesiredWorkType) (qs : List ReconcileProject) (i : ℕ) (wt : DesiredWorkType)
    → In wt (wants dbt qs i)
    → (q : ReconcileProject) × In wt (desired_of dbt q)
unfolding wants
wants-In dbt [] i wt m = elim m [ ]
wants-In dbt (q ∷ qs) i wt m = elim (Bool-cases (q.id == i)) [
  | inl hit ↦ (q, rw (hit, wants) at m)
  | inr miss ↦ wants-In dbt qs i wt (rw (miss, wants) at m)
]

-- Ids of projects are unique.
abbrev pub OtherProject : Project → Project → Type 0
OtherProject a b = b.id ≢ a.id

listed-other :
    (f : Project → List ℕ) (t : Project → Bool) (a : Project) (ps : List Project)
    → All (OtherProject a) ps
    → All
        (OtherId (record { id = a.id; team_ids = f a }))
        (map (λ p. record { id = p.id; team_ids = f p }) (filter t ps))
listed-other f t a [] h = tt
listed-other f t a (p ∷ ps) h = elim (Bool-cases (t p)) [
  | inl keep ↦ rw keep (h.0, listed-other f t a ps h.1)
  | inr drop ↦ rw drop (listed-other f t a ps h.1)
]

pub listed-Pairs :
    (f : Project → List ℕ) (t : Project → Bool) (ps : List Project)
    → Pairs OtherProject ps
    → Pairs OtherId (map (λ p. record { id = p.id; team_ids = f p }) (filter t ps))
listed-Pairs f t [] h = tt
listed-Pairs f t (p ∷ ps) h = elim (Bool-cases (t p)) [
  | inl keep ↦ rw keep (listed-other f t p ps h.0, listed-Pairs f t ps h.1)
  | inr drop ↦ rw drop (listed-Pairs f t ps h.1)
]

-- A type of the catalog.
abbrev pub FromCatalog : List WorkType → DesiredWorkType → Type 0
FromCatalog types wt = (w : WorkType) × In w types × (wt ≡ record { id = w.id; name = w.name })

selected-FromCatalog :
    (types part : List WorkType) (i : ℕ)
    → ((w : WorkType) → In w part → In w types)
    → All (FromCatalog types) (selected_types part i)
unfolding selected_types
selected-FromCatalog types [] i s = tt
selected-FromCatalog types (w ∷ part) i s =
    let later = selected-FromCatalog types part i (λ x m. s x (inr m)) in
    elim (Bool-cases ((w.id == i) && not w.archived)) [
      | inl hit ↦ rw (hit, selected_types) ((w, s w (inl refl), refl), later)
      | inr miss ↦ rw (miss, selected_types) later
    ]

by_team-FromCatalog :
    (types : List WorkType) (selections : List TeamWorkType) (t : ℕ)
    → All (FromCatalog types) (desired_by_team types selections t)
unfolding desired_by_team
by_team-FromCatalog types [] t = tt
by_team-FromCatalog types (s ∷ selections) t =
    let later = by_team-FromCatalog types selections t in
    elim (Bool-cases (s.team_id == t)) [
      | inl hit ↦
          rw (hit, desired_by_team)
            (All-append (FromCatalog types) (selected_types types s.work_type_id)
              (desired_by_team types selections t)
              (selected-FromCatalog types types s.work_type_id (λ w m. m)) later)
      | inr miss ↦ rw (miss, desired_by_team) later
    ]

set_types-All :
    (P : DesiredWorkType → Type 0) (wts : List DesiredWorkType) (m : List (ℕ × DesiredWorkType))
    → All P wts
    → All (λ e. P e.1) m
    → All (λ e. P e.1) (set_types wts m)
unfolding set_types
set_types-All P [] m h q = q
set_types-All P (wt ∷ wts) m h q =
    set_types-All P wts (put wt.id wt m) h.1 (All-put (λ e. P e.1) wt.id wt m h.0 q)

union_of-All :
    (P : DesiredWorkType → Type 0) (dbt : ℕ → List DesiredWorkType) (teams : List ℕ)
    (m : List (ℕ × DesiredWorkType))
    → ((t : ℕ) → All P (dbt t))
    → All (λ e. P e.1) m
    → All (λ e. P e.1) (union_of dbt teams m)
unfolding union_of
union_of-All P dbt [] m h q = q
union_of-All P dbt (t ∷ teams) m h q =
    union_of-All P dbt teams (set_types (dbt t) m) h (set_types-All P (dbt t) m (h t) q)

values-All :
    (P : DesiredWorkType → Type 0) (m : List (ℕ × DesiredWorkType))
    → All (λ e. P e.1) m
    → All P (map (λ e. e.1) m)
values-All P [] h = tt
values-All P (e ∷ m) h = (h.0, values-All P m h.1)

pub wants-FromCatalog :
    (cat : Catalog) (qs : List ReconcileProject) (i : ℕ) (wt : DesiredWorkType)
    → In wt (wants (selection cat) qs i)
    → FromCatalog cat.work_types wt
unfolding desired_of
wants-FromCatalog cat qs i wt m =
    let (q, n) = wants-In (selection cat) qs i wt m in
    All-In (FromCatalog cat.work_types) wt (desired_of (selection cat) q)
      (values-All (FromCatalog cat.work_types) (union_of (selection cat) q.team_ids []) (
        union_of-All (FromCatalog cat.work_types) (selection cat) q.team_ids []
          (by_team-FromCatalog cat.work_types cat.team_work_types) tt))
      n

-- Ids of work types are unique, and so are the keys of their names.
abbrev pub OtherType : (name_key : ℕ → ℕ) → WorkType → WorkType → Type 0
OtherType name_key a b = (b.id ≢ a.id) × (name_key b.name ≢ name_key a.name)

pub type-eq :
    (name_key : ℕ → ℕ) (a b : WorkType) (types : List WorkType)
    → Pairs (OtherType name_key) types
    → In a types
    → In b types
    → (a.id ≡ b.id) ⊎ (name_key a.name ≡ name_key b.name)
    → a ≡ b
type-eq name_key a b [] h m n q = elim m [ ]
type-eq name_key a b (w ∷ types) h (inl x) (inl y) q = cc
type-eq name_key a b (w ∷ types) h (inl x) (inr n) q =
    let o = All-In (OtherType name_key w) b types h.0 n in
    elim q [ inl i ↦ absurd (o.0 (cc (x, i))) | inr k ↦ absurd (o.1 (cc (x, k))) ]
type-eq name_key a b (w ∷ types) h (inr m) (inl y) q =
    let o = All-In (OtherType name_key w) a types h.0 m in
    elim q [ inl i ↦ absurd (o.0 (cc (y, i))) | inr k ↦ absurd (o.1 (cc (y, k))) ]
type-eq name_key a b (w ∷ types) h (inr m) (inr n) q = type-eq name_key a b types h.1 m n q
