-- ===== src/Trim/Separated.antt =====
-- The reconstructed stretches are disjoint, in order, and inside the span.
use timetrack.Prelude.{ℕ, ◌+◌, ◌-◌, ◌*◌, ◌≤◌, ◌<◌, min, List, [], ◌∷◌, arith, filter, sum_by}
use timetrack.Trim.Stretches.{
  Stretch, anchors, walk, walk_anchors, is_positive, reconstruct_stretches,
}
use timetrack.Trim.Anchors.{Ascends, Ascends-le}
use timetrack.Trim.Cover.{anchors-Ascends}

-- Stretches of positive length, from `lo` to `hi`, each ending before the next begins.
abbrev pub Separated : ℕ → ℕ → List Stretch → Type 0
Separated lo hi [] = lo ≤ hi
Separated lo hi (s ∷ out) = (lo ≤ s.start) × (s.start < s.end) × Separated s.end hi out

-- The same, where a stretch may be empty.
abbrev Ordered : ℕ → ℕ → List Stretch → Type 0
Ordered lo hi [] = lo ≤ hi
Ordered lo hi (s ∷ out) = (lo ≤ s.start) × (s.start ≤ s.end) × Ordered s.end hi out

Ordered-weaken :
    (lo mid hi : ℕ) (out : List Stretch) → lo ≤ mid → Ordered mid hi out → Ordered lo hi out
Ordered-weaken lo mid hi [] p h = omega arith
Ordered-weaken lo mid hi (s ∷ out) p h = (omega arith, h.1, h.2)

walk-Ordered :
    (threshold cap stretch_start prev : ℕ) (ts : List ℕ)
    → stretch_start ≤ prev
    → Ascends prev cap ts
    → Ordered stretch_start cap (walk threshold cap stretch_start prev ts)
unfolding walk
walk-Ordered threshold cap stretch_start prev [] p h = ground arith
walk-Ordered threshold cap stretch_start prev (t ∷ ts) p h = ground (
  arith,
  Ascends-le t cap ts h.1,
  walk-Ordered threshold cap t t ts,
  walk-Ordered threshold cap stretch_start t ts,
  Ordered-weaken (min (prev + threshold) cap) t cap (walk threshold cap t t ts),
)

filter-Separated :
    (lo hi : ℕ) (out : List Stretch) → Ordered lo hi out → Separated lo hi (filter is_positive out)
unfolding is_positive
filter-Separated lo hi [] h = h
filter-Separated lo hi (s ∷ out) h = ground (
  arith,
  filter-Separated s.end hi out,
  filter-Separated lo hi out,
  Ordered-weaken lo s.end hi out,
)

-- The time that a stretch credits, in milliseconds.
abbrev pub duration : Stretch → ℕ
duration s = s.end - s.start

pub duration-le :
    (lo hi : ℕ) (out : List Stretch) → Separated lo hi out → lo + sum_by duration out ≤ hi
duration-le lo hi [] h = omega arith
duration-le lo hi (s ∷ out) h = omega (arith, duration-le s.end hi out h.2)

walk_anchors-Ordered :
    (threshold : ℕ) (span : Stretch) (as' : List ℕ)
    → span.start ≤ span.end
    → Ascends span.start span.end as'
    → Ordered span.start span.end (walk_anchors threshold span as')
unfolding walk_anchors
walk_anchors-Ordered threshold span [] p h =
    walk-Ordered threshold span.end span.start span.start [] (omega arith) p
walk_anchors-Ordered threshold span (a ∷ as') p h =
    Ordered-weaken span.start a span.end (walk threshold span.end a a as') h.0
      (walk-Ordered threshold span.end a a as' (omega arith) h.1)

-- Of a span that is not inverted, the stretches have positive length, lie inside the span, and
-- each ends no later than the next begins, so that together they credit at most the span's time.
pub reconstruct_stretches-Separated :
    (span : Stretch) (active_at : List ℕ) (threshold_seconds : ℕ)
    → span.start ≤ span.end
    → Separated span.start span.end (reconstruct_stretches span active_at threshold_seconds)
      × (span.start + sum_by duration (reconstruct_stretches span active_at threshold_seconds)
          ≤ span.end)
unfolding reconstruct_stretches
reconstruct_stretches-Separated span active_at threshold_seconds h =
    let threshold = threshold_seconds * 1000 in
    let list = walk_anchors threshold span (anchors span active_at) in
    let separated = filter-Separated span.start span.end list (
      walk_anchors-Ordered threshold span (anchors span active_at) h
        (anchors-Ascends threshold 0 span active_at h)) in
    (separated, duration-le span.start span.end (filter is_positive list) separated)
