-- ===== src/Trim/Head.antt =====
-- The first reconstructed stretch: there is one, and it begins where the span begins.
use timetrack.Prelude.{ℕ, ◌*◌, ◌≤◌, ◌<◌, ◌≡◌, inl, inr, refl, List, [], ◌∷◌, arith, Any}
use timetrack.Trim.Stretches.{Stretch, reconstruct_stretches}
use timetrack.Trim.Cover.{Holds, Supported, reconstruct_stretches-covers}
use timetrack.Trim.Separated.{Separated, reconstruct_stretches-Separated}

-- A covered instant is not before the list begins.
held-ge : (lo hi x : ℕ) (out : List Stretch) → Separated lo hi out → Any (Holds x) out → lo ≤ x
held-ge lo hi x [] h m = absurd m
held-ge lo hi x (s ∷ out) h (inl p) = omega arith
held-ge lo hi x (s ∷ out) h (inr m) = omega (arith, held-ge s.end hi x out h.2 m)

head-start :
    (lo hi : ℕ) (out : List Stretch)
    → Separated lo hi out
    → Any (Holds lo) out
    → (s : Stretch) × (rest : List Stretch) × (out ≡ s ∷ rest)
      × (s.start ≡ lo)
      × Separated s.end hi rest
head-start lo hi [] h m = absurd m
head-start lo hi (s ∷ out) h (inl p) = (s, out, refl, omega arith, h.2)
head-start lo hi (s ∷ out) h (inr m) = absurd (omega (arith, held-ge s.end hi lo out h.2 m))

-- With a positive threshold, the reconstruction of a span of positive length is not empty: its first
-- stretch begins with the span, and the others come after it, disjoint and in order.
pub reconstruct_stretches-head :
    (span : Stretch) (active_at : List ℕ) (threshold_seconds : ℕ)
    → span.start < span.end
    → 0 < threshold_seconds
    → (s : Stretch) × (rest : List Stretch) × (reconstruct_stretches span active_at
          threshold_seconds
        ≡ s ∷ rest)
      × (s.start ≡ span.start)
      × Separated s.end span.end rest
reconstruct_stretches-head span active_at threshold_seconds long positive =
    let out = reconstruct_stretches span active_at threshold_seconds in
    let h : span.start ≤ span.end = omega arith in
    let supported : Supported (threshold_seconds * 1000) span.start span active_at =
      (omega arith, long, inl (omega arith, omega arith)) in
    head-start span.start span.end out
      (reconstruct_stretches-Separated span active_at threshold_seconds h).0
      ((reconstruct_stretches-covers span active_at threshold_seconds span.start h).1 supported)
