-- ===== src/WorkTypes/Rows.antt =====
-- Rows of a table of subprojects, and what its unique indexes say of them.
use timetrack.Prelude.{
  ℕ, ◌≡◌, ◌≢◌, ◌⊎◌, refl, sym, true, false, Bool, ◌&&◌, Option, none, some, List, [], ◌∷◌, arith,
  ◌==◌, Bool-cases, Any, All, Pairs, inl, inr, subst, filter, map, any,
}
use timetrack.WorkTypes.Model.{ExistingSubproject}

-- The row is one of the table.
abbrev pub In : {A : Type 0} → A → List A → Type 0
In a [] = ⊥
In a (x ∷ xs) = (x ≡ a) ⊎ In a xs

-- Two rows of one project for one work type.
abbrev pub same_type : Option ℕ → Option ℕ → Bool
same_type none w = false
same_type (some v) none = false
same_type (some v) (some w) = v == w

abbrev pub is_twin : ExistingSubproject → ExistingSubproject → Bool
is_twin a b = (b.project_id == a.project_id) && same_type a.work_type_id b.work_type_id

abbrev pub Apart : ExistingSubproject → ExistingSubproject → Type 0
Apart a b = (b.id ≢ a.id) × (is_twin a b ≡ false)

-- Ids are unique, and no project has two rows of one work type.
abbrev pub IsKeyed : List ExistingSubproject → Type 0
IsKeyed rows = Pairs Apart rows

module _ {A : Type 0} where
  pub All-In : (P : A → Type 0) (a : A) (xs : List A) → All P xs → In a xs → P a
  All-In P a [] h m = elim m [ ]
  All-In P a (x ∷ xs) h (inl q) = subst P q h.0
  All-In P a (x ∷ xs) h (inr m) = All-In P a xs h.1 m

  pub In-All : (P : A → Type 0) (xs : List A) → ((a : A) → In a xs → P a) → All P xs
  In-All P [] h = tt
  In-All P (x ∷ xs) h = (h x (inl refl), In-All P xs (λ a m. h a (inr m)))

  pub In-filter : (p : A → Bool) (a : A) (xs : List A) → In a (filter p xs) → In a xs × (p a ≡ true)
  In-filter p a [] m = elim m [ ]
  In-filter p a (x ∷ xs) m = elim (Bool-cases (p x)) [
    | inl keep ↦ elim (rw keep at m) [
      | inl q ↦ (inl q, subst (λ y. p y ≡ true) q keep)
      | inr n ↦ (inr (In-filter p a xs n).0, (In-filter p a xs n).1)
    ]
    | inr drop ↦ let n = In-filter p a xs (rw drop at m) in (inr n.0, n.1)
  ]

  pub filter-In : (p : A → Bool) (a : A) (xs : List A) → In a xs → p a ≡ true → In a (filter p xs)
  filter-In p a [] m h = elim m [ ]
  filter-In p a (x ∷ xs) (inl q) h =
      let keep : p x ≡ true = subst (λ y. p y ≡ true) (sym q) h in rw keep (inl q)
  filter-In p a (x ∷ xs) (inr n) h = elim (Bool-cases (p x)) [
    | inl keep ↦ rw keep (inr (filter-In p a xs n h))
    | inr drop ↦ rw drop (filter-In p a xs n h)
  ]

-- Rows that are not apart are one row.
pub id-eq :
    (a b : ExistingSubproject) (rows : List ExistingSubproject)
    → IsKeyed rows
    → In a rows
    → In b rows
    → a.id ≡ b.id
    → a ≡ b
id-eq a b [] k m n h = elim m [ ]
id-eq a b (x ∷ rows) k (inl p) (inl q) h = cc
id-eq a b (x ∷ rows) k (inl p) (inr n) h = absurd ((All-In (Apart x) b rows k.0 n).0 (cc (p, h)))
id-eq a b (x ∷ rows) k (inr m) (inl q) h = absurd ((All-In (Apart x) a rows k.0 m).0 (cc (q, h)))
id-eq a b (x ∷ rows) k (inr m) (inr n) h = id-eq a b rows k.1 m n h

twin_sym : (a b : ExistingSubproject) → is_twin a b ≡ true → is_twin b a ≡ true
twin_sym a b h = ground arith

pub twin-eq :
    (a b : ExistingSubproject) (rows : List ExistingSubproject)
    → IsKeyed rows
    → In a rows
    → In b rows
    → is_twin a b ≡ true
    → a ≡ b
twin-eq a b [] k m n h = elim m [ ]
twin-eq a b (x ∷ rows) k (inl p) (inl q) h = cc
twin-eq a b (x ∷ rows) k (inl p) (inr n) h =
    let o = (All-In (Apart x) b rows k.0 n).1 in cc (subst (λ r. is_twin r b ≡ false) p o, h)
twin-eq a b (x ∷ rows) k (inr m) (inl q) h =
    let o = (All-In (Apart x) a rows k.0 m).1 in
    cc (subst (λ r. is_twin r a ≡ false) q o, twin_sym a b h)
twin-eq a b (x ∷ rows) k (inr m) (inr n) h = twin-eq a b rows k.1 m n h

filter-Apart :
    (p : ExistingSubproject → Bool) (r : ExistingSubproject) (rows : List ExistingSubproject)
    → All (Apart r) rows
    → All (Apart r) (filter p rows)
filter-Apart p r [] h = tt
filter-Apart p r (x ∷ rows) h = elim (Bool-cases (p x)) [
  | inl keep ↦ rw keep (h.0, filter-Apart p r rows h.1)
  | inr drop ↦ rw drop (filter-Apart p r rows h.1)
]

pub filter-Keyed :
    (p : ExistingSubproject → Bool) (rows : List ExistingSubproject)
    → IsKeyed rows
    → IsKeyed (filter p rows)
filter-Keyed p [] k = tt
filter-Keyed p (x ∷ rows) k = elim (Bool-cases (p x)) [
  | inl keep ↦ rw keep (filter-Apart p x rows k.0, filter-Keyed p rows k.1)
  | inr drop ↦ rw drop (filter-Keyed p rows k.1)
]

pub All-map-All :
    {A B : Type 0} (P : B → Type 0) (f : A → B) (xs : List A)
    → All (λ x. P (f x)) xs
    → All P (map f xs)
All-map-All P f [] h = tt
All-map-All P f (x ∷ xs) h = (h.0, All-map-All P f xs h.1)

pub In-Any : {A : Type 0} (P : A → Type 0) (a : A) (xs : List A) → In a xs → P a → Any P xs
In-Any P a [] m h = elim m [ ]
In-Any P a (x ∷ xs) (inl q) h = inl (subst P (sym q) h)
In-Any P a (x ∷ xs) (inr m) h = inr (In-Any P a xs m h)

pub Any-map-In :
    {A B : Type 0} (P : B → Type 0) (f : A → B) (a : A) (xs : List A)
    → In a xs
    → P (f a)
    → Any P (map f xs)
Any-map-In P f a [] m h = elim m [ ]
Any-map-In P f a (x ∷ xs) (inl q) h = inl (subst (λ y. P (f y)) (sym q) h)
Any-map-In P f a (x ∷ xs) (inr m) h = inr (Any-map-In P f a xs m h)

pub any-In :
    {A : Type 0} (f : A → Bool) (xs : List A) → any f xs ≡ true → (a : A) × In a xs × (f a ≡ true)
any-In f [] h = cc
any-In f (x ∷ xs) h = elim (Bool-cases (f x)) [
  | inl hit ↦ (x, inl refl, hit)
  | inr miss ↦ let (a, m, q) = any-In f xs (ground (arith, h, miss)) in (a, inr m, q)
]
