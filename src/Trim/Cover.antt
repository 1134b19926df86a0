-- ===== src/Trim/Cover.antt =====
-- Which instants the reconstructed stretches cover.
use timetrack.Prelude.{
  ℕ, ◌+◌, ◌*◌, ◌≤◌, ◌<◌, ◌≡◌, refl, ◌↔◌, ◌⊎◌, inl, inr, List, [], ◌∷◌, arith, leb, Any, Any-filter,
  Bool, true, filter, ◌&&◌, Any-imp,
}
use timetrack.Trim.Stretches.{
  Stretch, anchors, walk, walk_anchors, is_positive, reconstruct_stretches,
}
use timetrack.Trim.Anchors.{Ascends, Ascends-le, Ascends-sort, Any-sort, All-filter}

-- The instant lies in the half-open stretch.
abbrev pub Holds : ℕ → Stretch → Type 0
Holds x s = (s.start ≤ x) × (x < s.end)

-- The evidence at `a` is less than a threshold old at `x`.
abbrev pub Recent : (threshold x : ℕ) → ℕ → Type 0
Recent threshold x a = (a ≤ x) × (x < a + threshold)

module _ (threshold cap x : ℕ) where
  walk-covers :
      (stretch_start prev : ℕ) (ts : List ℕ)
      → stretch_start ≤ prev
      → Ascends prev cap ts
      → Any (Holds x) (walk threshold cap stretch_start prev ts)
        ↔ ((stretch_start ≤ x) × (x < prev) ⊎ (x < cap) × Any (Recent threshold x) (prev ∷ ts))
  unfolding walk
  walk-covers stretch_start prev [] p h = ground arith
  walk-covers stretch_start prev (t ∷ ts) p h =
      ground (arith, Ascends-le t cap ts h.1, walk-covers t t ts, walk-covers stretch_start t ts)

-- The filter on positive length drops no covered instant.
filter-covers :
    (x : ℕ) (out : List Stretch) → Any (Holds x) (filter is_positive out) ↔ Any (Holds x) out
unfolding is_positive
filter-covers x [] = (λ m. m, λ m. m)
filter-covers x (s ∷ out) = ground (arith, filter-covers x out)

module _ (threshold x : ℕ) (span : Stretch) where
  abbrev in_span : ℕ → Bool
  in_span t = leb span.start t && leb t span.end

  -- An instant of the span that recent evidence supports, the span's start being evidence.
  abbrev pub Supported : List ℕ → Type 0
  Supported active_at =
      (span.start ≤ x) × (x < span.end) × Any (Recent threshold x) (span.start ∷ active_at)

  -- A sample from before the span adds nothing that the span's start does not.
  inside_supports :
      (active_at : List ℕ)
      → span.start ≤ x
      → x < span.end
      → Any (Recent threshold x) active_at
      → Recent threshold x span.start
        ⊎ Any (λ a. (in_span a ≡ true) × Recent threshold x a) active_at
  inside_supports [] p q m = absurd m
  inside_supports (a ∷ as') p q (inl r) = ground arith
  inside_supports (a ∷ as') p q (inr m) = ground (arith, inside_supports as' p q m)

  anchors-supports :
      (active_at : List ℕ)
      → span.start ≤ x
      → x < span.end
      → Any (Recent threshold x) (anchors span active_at)
        ↔ Any (Recent threshold x) (span.start ∷ active_at)
  unfolding anchors
  anchors-supports active_at p q = (
    λ m.
        Any-imp (λ a. (in_span a ≡ true) × Recent threshold x a) (Recent threshold x)
          (span.start ∷ active_at) (λ a h. h.1)
          ((Any-filter (Recent threshold x) in_span (span.start ∷ active_at)).0
            ((Any-sort (Recent threshold x) (filter in_span (span.start ∷ active_at))).0 m)),
    λ m. (Any-sort (Recent threshold x) (filter in_span (span.start ∷ active_at))).1 (
        (Any-filter (Recent threshold x) in_span (span.start ∷ active_at)).1 (elim m [
          | inl r ↦ inl (ground arith, r)
          | inr k ↦ ground (arith, inside_supports active_at p q k)
        ])),
  )

  pub anchors-Ascends :
      (active_at : List ℕ)
      → span.start ≤ span.end
      → Ascends span.start span.end (anchors span active_at)
  unfolding anchors
  anchors-Ascends active_at h =
      Ascends-sort span.start span.end (filter in_span (span.start ∷ active_at)) h (
        All-filter (λ a. (span.start ≤ a) × (a ≤ span.end)) in_span (span.start ∷ active_at)
          (λ a e. ground arith))

  Recent-ge :
      (lo : ℕ) (as' : List ℕ) → Ascends lo span.end as' → Any (Recent threshold x) as' → lo ≤ x
  Recent-ge lo [] h m = absurd m
  Recent-ge lo (a ∷ as') h (inl r) = omega arith
  Recent-ge lo (a ∷ as') h (inr m) = omega (arith, Recent-ge a as' h.1 m)

  walk_anchors-covers :
      (as' : List ℕ)
      → Ascends span.start span.end as'
      → Any (λ a. a ≡ span.start) as'
      → Any (Holds x) (walk_anchors threshold span as')
        ↔ ((x < span.end) × Any (Recent threshold x) as')
  unfolding walk_anchors
  walk_anchors-covers [] h m = absurd m
  walk_anchors-covers (a ∷ as') h m = ground (arith, walk-covers threshold span.end x a a as')

  anchors-start :
      (active_at : List ℕ)
      → span.start ≤ span.end
      → Any (λ a. a ≡ span.start) (anchors span active_at)
  unfolding anchors
  anchors-start active_at h =
      (Any-sort (λ a. a ≡ span.start) (filter in_span (span.start ∷ active_at))).1 (
        (Any-filter (λ a. a ≡ span.start) in_span (span.start ∷ active_at)).1
          (inl (ground arith, refl)))

module _ (span : Stretch) (active_at : List ℕ) (threshold_seconds x : ℕ)
    (h : span.start ≤ span.end) where
  -- Of a span that is not inverted, the reconstruction keeps exactly the instants inside the span
  -- that come less than the threshold after some evidence, the evidence being the span's start and
  -- the active samples: no supported instant is dropped and no unattended one is kept.
  pub reconstruct_stretches-covers :
      Any (Holds x) (reconstruct_stretches span active_at threshold_seconds)
      ↔ Supported (threshold_seconds * 1000) x span active_at
  unfolding reconstruct_stretches
  reconstruct_stretches-covers =
      let threshold = threshold_seconds * 1000 in
      let list = anchors span active_at in
      let rising = anchors-Ascends threshold x span active_at h in
      let kept = filter-covers x (walk_anchors threshold span list) in
      let walked =
        walk_anchors-covers threshold x span list rising
          (anchors-start threshold x span active_at h) in
      (
        λ m.
            let (below, recent) = walked.0 (kept.0 m) in
            let above = Recent-ge threshold x span span.start list rising recent in
            (above, below, (anchors-supports threshold x span active_at above below).0 recent),
        λ s. kept.1 (walked.1 (s.1, (anchors-supports threshold x span active_at s.0 s.1).1 s.2)),
      )
