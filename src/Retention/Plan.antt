-- ===== src/Retention/Plan.antt =====
-- retention.util.ts. A comparison with the cut-off, `now` less some days, adds the days on the other
-- side, since the cut-off may lie before 1970. The instant of a UTC month is a parameter.
use timetrack.Prelude.{
  ℕ, ◌+◌, ◌-◌, ◌*◌, max, Bool, ◌||◌, not, Option, none, some, List, [], ◌∷◌, map, filter, ltb, leb,
  ◌==◌, if◌then◌else◌, length,
}

abbrev pub day_ms : ℕ
day_ms = 86400000

pub record TeamRetention : Type 0 where
  pub id : ℕ
  pub days : ℕ
  pub forever : Bool

pub record Sweep : Type 0 where
  pub id : ℕ
  pub days : ℕ

pub record RetentionPlan : Type 0 where
  pub drop_after_days : Option ℕ
  pub sweep : List Sweep

-- Math.max(...)
unfoldable pub max_days : List Sweep → ℕ
max_days [] = 0
max_days (s ∷ sweep) = max s.days (max_days sweep)

abbrev pub sweep_of : List TeamRetention → List Sweep
sweep_of teams = map (λ t. record { id = t.id; days = t.days }) (filter (λ t. not t.forever) teams)

unfoldable pub plan_retention : List TeamRetention → RetentionPlan
unfolding max_days
plan_retention teams = record {
  drop_after_days =
      if ltb (length (sweep_of teams)) (length teams) || (length (sweep_of teams) == 0)
      then none
      else some (max_days (sweep_of teams));
  sweep = sweep_of teams;
}

-- instant < retentionCutoff(now, days)
abbrev pub is_before_cutoff : (now days instant : ℕ) → Bool
is_before_cutoff now days t = ltb (t + days * day_ms) now

-- A name that PARTITION_NAME_RE accepts, by its year and month, or another.
pub data PartitionName : Type 0 where
  monthly : (year month : ℕ) → PartitionName
  other : (name : ℕ) → PartitionName

pub record Bounds : Type 0 where
  pub from : ℕ
  pub to : ℕ

module _ (utc : (year month_index : ℕ) → ℕ) where
  unfoldable pub partition_bounds : (year month : ℕ) → Bounds
  partition_bounds year month = record { from = utc year (month - 1); to = utc year month }

-- bounds.to <= retentionCutoff(now, days)
abbrev pub is_droppable : Bounds → (now days : ℕ) → Bool
is_droppable b now days = leb (b.to + days * day_ms) now
