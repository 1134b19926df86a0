-- ===== src/Prelude/Maps.antt =====
-- A `Map` that is keyed by numbers: its entries in the order of their first insertion.
use Prim.Native.Nat.{ℕ}
use mathlib.Core.Path.{◌≡◌, refl, subst}
use mathlib.Core.Logic.{◌≢◌, inl, inr}
use mathlib.Core.Option.{Option, none, some}
use mathlib.Core.List.{List, [], ◌∷◌}
use native.Mathlib.Omega.{arith}
use timetrack.Prelude.Tests.{◌==◌, if◌then◌else◌, ==→eq, Bool-cases}
use timetrack.Prelude.Lists.{All, Any, Pairs}

module _ {V : Type 0} where
  -- map.set(k, v)
  unfoldable pub put : ℕ → V → List (ℕ × V) → List (ℕ × V)
  put k v [] = (k, v) ∷ []
  put k v ((j, w) ∷ m) = if j == k then (k, v) ∷ m else (j, w) ∷ put k v m

  -- map.get(k)
  unfoldable pub get : ℕ → List (ℕ × V) → Option V
  get k [] = none
  get k ((j, w) ∷ m) = if j == k then some w else get k m

  pub get-put :
      (k j : ℕ) (v : V) (m : List (ℕ × V))
      → get j (put k v m) ≡ (if k == j then some v else get j m)
  unfolding get put
  get-put k j v [] = refl
  get-put k j v ((i, w) ∷ m) = ground (arith, get-put k j v m)

  -- What holds of every old entry and of the new one.
  pub All-put :
      (P : ℕ × V → Type 0) (k : ℕ) (v : V) (m : List (ℕ × V))
      → P (k, v)
      → All P m
      → All P (put k v m)
  unfolding put
  All-put P k v [] p h = (p, tt)
  All-put P k v ((j, w) ∷ m) p h = ground (arith, All-put P k v m p)

  -- What is looked up stands in an entry.
  pub get-Any :
      (k : ℕ) (m : List (ℕ × V)) {v : V} → get k m ≡ some v → Any (λ e. (e.0 ≡ k) × (e.1 ≡ v)) m
  unfolding get
  get-Any k [] h = cc
  get-Any k ((j, w) ∷ m) {v = v} h = ground (arith, get-Any k m {v = v})

  pub get-All :
      (P : ℕ × V → Type 0) (k : ℕ) (m : List (ℕ × V)) {v : V}
      → All P m
      → get k m ≡ some v
      → P (k, v)
  unfolding get
  get-All P k [] a h = cc
  get-All P k ((j, w) ∷ m) {v = v} a h = ground (arith, get-All P k m {v = v})

  abbrev pub Other : ℕ × V → ℕ × V → Type 0
  Other e d = d.0 ≢ e.0

  All-Other :
      (e : ℕ × V) (k : ℕ) (v : V) (m : List (ℕ × V))
      → k ≢ e.0
      → All (Other e) m
      → All (Other e) (put k v m)
  unfolding put
  All-Other e k v [] p h = (p, tt)
  All-Other e k v ((j, w) ∷ m) p h = ground (arith, All-Other e k v m p)

  -- Every key has one entry.
  pub Pairs-put : (k : ℕ) (v : V) (m : List (ℕ × V)) → Pairs Other m → Pairs Other (put k v m)
  unfolding put
  Pairs-put k v [] h = (tt, tt)
  Pairs-put k v ((j, w) ∷ m) h = elim (Bool-cases (j == k)) [
    | inl same ↦ rw (same, put) ((subst (λ i. All (λ d. d.0 ≢ i) m) (==→eq j k same) h.0, h.1))
    | inr other ↦ rw (other, put) ((All-Other (j, w) k v m (ground arith) h.0, Pairs-put k v m h.1))
  ]
