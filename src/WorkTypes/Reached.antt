-- ===== src/WorkTypes/Reached.antt =====
-- The projects that linkedProjectIds finds, and the ids that `distinct` keeps.
use timetrack.Prelude.{
  ℕ, ◌≡◌, refl, Bool, true, ◌&&◌, ◌||◌, List, [], ◌∷◌, ◌++◌, map, filter, any, arith, ◌==◌,
  Bool-cases, inl, inr, ap,
}
use timetrack.WorkTypes.Model.{ReconcileProject, Project, ProjectTeam, Catalog}
use timetrack.WorkTypes.Rows.{In}
use timetrack.WorkTypes.Apply.{is_in, distinct, teams_of}
use timetrack.WorkTypes.Edits.{linked_project_ids}
use timetrack.WorkTypes.Selection.{listed}

pub is_in-append : (a b : List ℕ) (i : ℕ) → is_in (a ++ b) i ≡ (is_in a i || is_in b i)
is_in-append [] b i = refl
is_in-append (x ∷ a) b i = ground (arith, is_in-append a b i)

is_in-eq : (ids : List ℕ) (x i : ℕ) → x ≡ i → is_in ids x ≡ is_in ids i
is_in-eq ids x i h = ap (is_in ids) h

-- Ids that were seen, or are kept, are those that were seen or listed.
pub is_in-distinct :
    (seen ids : List ℕ) (i : ℕ)
    → (is_in seen i || is_in (distinct seen ids) i) ≡ (is_in seen i || is_in ids i)
unfolding distinct
is_in-distinct seen [] i = refl
is_in-distinct seen (x ∷ ids) i = elim (Bool-cases (is_in seen x)) [
  | inl old ↦ rw (old, distinct) (ground (arith, old, is_in-distinct seen ids i, is_in-eq seen x i))
  | inr new ↦ rw (new, distinct) (ground (arith, is_in-distinct (x ∷ seen) ids i))
]

-- Is the project of a team, as its home or by a link?
abbrev pub is_linked : (team : ℕ → Bool) → List ProjectTeam → Project → Bool
is_linked team links p = team p.team_id || any (λ l. team l.team_id && (l.project_id == p.id)) links

linked-is_in :
    (team : ℕ → Bool) (team_ids : List ℕ) (links : List ProjectTeam) (i : ℕ)
    → ((t : ℕ) → team t ≡ true → is_in team_ids t ≡ true)
    → any (λ l. team l.team_id && (l.project_id == i)) links ≡ true
    → is_in (map (λ l. l.project_id) (filter (λ l. is_in team_ids l.team_id) links)) i ≡ true
linked-is_in team team_ids [] i s h = cc
linked-is_in team team_ids (l ∷ links) i s h =
    let later = linked-is_in team team_ids links i s in
    elim (Bool-cases (team l.team_id)) [
      | inl ours ↦ ground (arith, ours, s l.team_id ours, later)
      | inr other ↦ ground (arith, other, later)
    ]

home-is_in :
    (team_ids : List ℕ) (p : Project) (ps : List Project)
    → In p ps
    → is_in team_ids p.team_id ≡ true
    → is_in (map (λ q. q.id) (filter (λ q. is_in team_ids q.team_id) ps)) p.id ≡ true
home-is_in team_ids p [] m h = elim m [ ]
home-is_in team_ids p (q ∷ ps) (inl same) h = ground (arith, same)
home-is_in team_ids p (q ∷ ps) (inr m) h = ground (arith, home-is_in team_ids p ps m h)

pub linked_project_ids-is_in :
    (cat : Catalog) (team : ℕ → Bool) (team_ids : List ℕ) (p : Project)
    → ((t : ℕ) → team t ≡ true → is_in team_ids t ≡ true)
    → In p cat.projects
    → is_linked team cat.project_teams p ≡ true
    → is_in (linked_project_ids cat team_ids) p.id ≡ true
unfolding linked_project_ids
linked_project_ids-is_in cat team team_ids p s m h =
    let linked =
      map (λ l. l.project_id) (filter (λ l. is_in team_ids l.team_id) cat.project_teams) in
    let home = map (λ q. q.id) (filter (λ q. is_in team_ids q.team_id) cat.projects) in
    rw (is_in-distinct [] (linked ++ home) p.id, is_in-append linked home p.id)
      (elim (Bool-cases (team p.team_id)) [
        | inl ours ↦ ground (arith, home-is_in team_ids p cat.projects m (s p.team_id ours))
        | inr other ↦ ground (arith, other, linked-is_in team team_ids cat.project_teams p.id s)
      ])

-- A project as a reconcile reads it.
abbrev pub read_as : List ProjectTeam → Project → ReconcileProject
read_as links p = record { id = p.id; team_ids = teams_of links p }

In-read :
    (f : Project → Bool) (g : Project → ReconcileProject) (p : Project) (ps : List Project)
    → In p ps
    → f p ≡ true
    → In (g p) (map g (filter f ps))
In-read f g p [] m h = elim m [ ]
In-read f g p (q ∷ ps) (inl same) h = elim (Bool-cases (f q)) [
  | inl keep ↦ rw keep (inl (ap g same))
  | inr drop ↦ absurd (ground (arith, drop, h, ap f same))
]
In-read f g p (q ∷ ps) (inr m) h = elim (Bool-cases (f q)) [
  | inl keep ↦ rw keep (inr (In-read f g p ps m h))
  | inr drop ↦ rw drop (In-read f g p ps m h)
]

pub In-listed :
    (ids : List ℕ) (cat : Catalog) (p : Project)
    → In p cat.projects
    → is_in ids p.id ≡ true
    → In (read_as cat.project_teams p) (listed ids cat)
In-listed ids cat p m h =
    In-read (λ q. is_in ids q.id) (read_as cat.project_teams) p cat.projects m h
