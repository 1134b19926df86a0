-- ===== src/Trim/Stretches.antt =====
-- reconstructStretches of apps/worker/src/processors/runaway-entry-trim.ts: one runaway span, split
-- into the stretches that have evidence behind them. Instants are milliseconds since the epoch.
use timetrack.Prelude.{
  ℕ, ◌+◌, ◌*◌, min, Bool, true, false, ◌&&◌, List, [], ◌∷◌, leb, ltb, if◌then◌else◌, filter,
}

pub record Stretch : Type 0 where
  pub start : ℕ
  pub end : ℕ

-- `.sort((a, b) => a - b)` on numbers.
unfoldable pub insert : ℕ → List ℕ → List ℕ
insert a [] = a ∷ []
insert a (b ∷ bs) = if leb a b then a ∷ b ∷ bs else b ∷ insert a bs

unfoldable pub sort : List ℕ → List ℕ
sort [] = []
sort (a ∷ as') = insert a (sort as')

-- The span's start and the active samples, those inside the span, ascending.
unfoldable pub anchors : Stretch → List ℕ → List ℕ
anchors span active_at =
    sort (filter (λ t. leb span.start t && leb t span.end) (span.start ∷ active_at))

-- The loop over the anchors after the first, with the tail that is pushed behind it.
unfoldable pub walk : (threshold cap stretch_start prev : ℕ) → List ℕ → List Stretch
walk threshold cap stretch_start prev [] =
    record {
      start = stretch_start;
      end = if leb (prev + threshold) cap then min (prev + threshold) cap else cap;
    }
    ∷ []
walk threshold cap stretch_start prev (t ∷ ts) = elim (leb (prev + threshold) t) [
  | true ↦
      record { start = stretch_start; end = min (prev + threshold) cap } ∷ walk threshold cap t t ts
  | false ↦ walk threshold cap stretch_start t ts
]

-- `anchors[0] ?? span.start`, and the walk from there.
unfoldable pub walk_anchors : (threshold : ℕ) → Stretch → List ℕ → List Stretch
walk_anchors threshold span [] = walk threshold span.end span.start span.start []
walk_anchors threshold span (a ∷ as') = walk threshold span.end a a as'

unfoldable pub is_positive : Stretch → Bool
is_positive s = ltb s.start s.end

unfoldable pub reconstruct_stretches : Stretch → List ℕ → (threshold_seconds : ℕ) → List Stretch
unfolding walk_anchors anchors is_positive
reconstruct_stretches span active_at threshold_seconds =
    filter is_positive (walk_anchors (threshold_seconds * 1000) span (anchors span active_at))
