-- ===== src/Trim/Anchors.antt =====
-- The anchors of a span: what sorting and filtering keep, and in which order.
use timetrack.Prelude.{ℕ, ◌≤◌, ◌≡◌, true, Bool, ◌↔◌, ◌⊎◌, List, [], ◌∷◌, arith, filter, All, Any}
use timetrack.Trim.Stretches.{insert, sort}

-- The list rises from `lo`, and its last member is at most `cap`.
abbrev pub Ascends : ℕ → ℕ → List ℕ → Type 0
Ascends lo cap [] = lo ≤ cap
Ascends lo cap (t ∷ ts) = (lo ≤ t) × Ascends t cap ts

pub Ascends-le : (lo cap : ℕ) (ts : List ℕ) → Ascends lo cap ts → lo ≤ cap
Ascends-le lo cap [] h = h
Ascends-le lo cap (t ∷ ts) h = omega (arith, Ascends-le t cap ts h.1)

Ascends-insert :
    (lo cap a : ℕ) (bs : List ℕ)
    → lo ≤ a
    → a ≤ cap
    → Ascends lo cap bs
    → Ascends lo cap (insert a bs)
unfolding insert
Ascends-insert lo cap a [] p q h = (p, q)
Ascends-insert lo cap a (b ∷ bs) p q h = ground (arith, Ascends-insert b cap a bs)

pub Ascends-sort :
    (lo cap : ℕ) (as' : List ℕ)
    → lo ≤ cap
    → All (λ a. (lo ≤ a) × (a ≤ cap)) as'
    → Ascends lo cap (sort as')
unfolding sort
Ascends-sort lo cap [] p h = p
Ascends-sort lo cap (a ∷ as') p h =
    Ascends-insert lo cap a (sort as') h.0.0 h.0.1 (Ascends-sort lo cap as' p h.1)

module _ (P : ℕ → Type 0) where
  Any-insert : (a : ℕ) (bs : List ℕ) → Any P (insert a bs) ↔ (P a ⊎ Any P bs)
  unfolding insert
  Any-insert a [] = (λ m. m, λ m. m)
  Any-insert a (b ∷ bs) = ground (arith, Any-insert a bs)

  pub Any-sort : (as' : List ℕ) → Any P (sort as') ↔ Any P as'
  unfolding sort
  Any-sort [] = (λ m. m, λ m. m)
  Any-sort (a ∷ as') = ground (arith, Any-sort as', Any-insert a (sort as'))

pub All-filter {ℓ} :
    {A : Type ℓ} (Q : A → Type 0) (p : A → Bool) (xs : List A)
    → ((x : A) → p x ≡ true → Q x)
    → All Q (filter p xs)
All-filter Q p [] f = tt
All-filter Q p (x ∷ xs) f = ground (arith, All-filter Q p xs f, f x)
