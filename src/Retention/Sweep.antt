-- ===== src/Retention/Sweep.antt =====
-- retention-cleanup.processor.ts: sweepTable. What the object store and the statements on the
-- database answer are arguments: a failure of either defers the unit. A unit is one step: no row
-- arrives between the deletion of its objects and that of its rows.
use timetrack.Prelude.{
  ℕ, ◌+◌, Bool, true, ◌&&◌, not, Option, none, some, List, [], ◌∷◌, ◌++◌, map, filter, any, ◌==◌,
  if◌then◌else◌, length,
}
use timetrack.Access.{User, is_in_team}
use timetrack.Retention.Plan.{
  TeamRetention, RetentionPlan, plan_retention, is_before_cutoff, PartitionName, monthly, other,
  partition_bounds, is_droppable,
}
use timetrack.Retention.Plan

pub record Row : Type 0 where
  pub user_id : ℕ
  pub timestamp : ℕ
  pub storage_key : ℕ
  pub thumbnail_key : Option ℕ

pub record Partition : Type 0 where
  pub name : PartitionName
  pub rows : List Row

pub data DeferredUnit : Type 0 where
  partition : PartitionName → DeferredUnit
  team : (id : ℕ) → DeferredUnit

pub record TableReport : Type 0 where
  pub dropped_partitions : List PartitionName
  pub deleted_rows : ℕ
  pub deleted_objects : ℕ
  pub deferred : List DeferredUnit
  pub kept_forever : List ℕ

-- One table, the objects in the store, and the report so far.
pub record State : Type 0 where
  pub partitions : List Partition
  pub objects : List ℕ
  pub report : TableReport

-- [storageKey, thumbnailKey ?? ''] of every row, without the empty
unfoldable pub keys_of : List Row → List ℕ
keys_of [] = []
keys_of (r ∷ rows) = elim r.thumbnail_key [
  | none ↦ r.storage_key ∷ keys_of rows
  | some k ↦ r.storage_key ∷ k ∷ keys_of rows
]

abbrev pub defer : DeferredUnit → State → State
defer u st = record st { report = record st.report { deferred = st.report.deferred ++ (u ∷ []) } }

abbrev pub blank : (kept_forever : List ℕ) → TableReport
blank kept = record {
  dropped_partitions = [];
  deleted_rows = 0;
  deleted_objects = 0;
  deferred = [];
  kept_forever = kept;
}

-- What the world outside answers: deleteObjects, with whether it returned and the objects that are
-- left, and whether a DROP and a DELETE went through.
pub record World : Type 0 where
  pub delete_objects : (keys objects : List ℕ) → Bool × List ℕ
  pub drops : PartitionName → Bool
  pub deletes : (team_id : ℕ) → Bool

module _ (users : List User) (now : ℕ) where
  -- A row of the team past its cut-off.
  abbrev pub is_straggler : Plan.Sweep → Row → Bool
  is_straggler t r = is_in_team users r.user_id t.id && is_before_cutoff now t.days r.timestamp

  unfoldable pub stragglers : Plan.Sweep → List Partition → List Row
  stragglers t [] = []
  stragglers t (p ∷ ps) = filter (is_straggler t) p.rows ++ stragglers t ps

  abbrev pub without_stragglers : Plan.Sweep → Partition → Partition
  without_stragglers t p = record p { rows = filter (λ r. not (is_straggler t r)) p.rows }

module _ (utc : (year month_index : ℕ) → ℕ) (world : World) (has_objects : Bool) (users : List User)
    (now : ℕ) where
  abbrev pub dropped : Partition → (deleted : ℕ) → State → State
  dropped p deleted st = record st {
    report = record st.report {
      deleted_objects = st.report.deleted_objects + deleted;
      deleted_rows = st.report.deleted_rows + length p.rows;
      dropped_partitions = st.report.dropped_partitions ++ (p.name ∷ []);
    };
  }

  abbrev pub keep : Partition → State → State
  keep p st = record st { partitions = p ∷ st.partitions }

  -- The deletion of some objects, if the table has any: whether it returned, and what is left.
  abbrev pub clear_objects : (keys : List ℕ) → State → Bool × State
  clear_objects keys st =
      if has_objects
      then (
        (world.delete_objects keys st.objects).0,
        record st { objects = (world.delete_objects keys st.objects).1 },
      )
      else (true, st)

  abbrev pub deleted_count : (keys : List ℕ) → ℕ
  deleted_count keys = if has_objects then length keys else 0

  -- One partition: kept, dropped, or deferred. The partitions of the state are those passed and kept.
  unfoldable pub drop_partition : (drop_after_days : ℕ) → Partition → State → State
  unfolding partition_bounds keys_of
  drop_partition days p st = elim p.name [
    | other n ↦ keep p st
    | monthly y m ↦
        let (returned, after) = clear_objects (keys_of p.rows) st in
        if not (is_droppable (partition_bounds utc y m) now days)
        then keep p st
        else if not returned
        then keep p (defer (partition p.name) after)
        else if not (world.drops p.name)
        then keep p (
            defer (partition p.name) (record after {
              report = record after.report {
                deleted_objects = after.report.deleted_objects + deleted_count (keys_of p.rows);
              };
            }))
        else dropped p (deleted_count (keys_of p.rows)) after
  ]

  unfoldable pub drop_partitions : (drop_after_days : ℕ) → List Partition → State → State
  unfolding drop_partition
  drop_partitions days [] st = st
  drop_partitions days (p ∷ ps) st = drop_partitions days ps (drop_partition days p st)

  -- The objects of the team's stragglers; no call where there is none.
  abbrev pub clear_stragglers : Plan.Sweep → State → Bool × State
  clear_stragglers t st =
      if length (stragglers users now t st.partitions) == 0
      then (true, st)
      else clear_objects (keys_of (stragglers users now t st.partitions)) st

  unfoldable pub sweep_team : Plan.Sweep → State → State
  unfolding stragglers keys_of
  sweep_team t st =
      let (returned, after) = clear_stragglers t st in
      let counted = record after {
        report = record after.report {
          deleted_objects =
              after.report.deleted_objects
              + deleted_count (keys_of (stragglers users now t st.partitions));
        };
      } in
      if not returned
      then defer (team t.id) after
      else if not (world.deletes t.id)
      then defer (team t.id) counted
      else record counted {
        partitions = map (without_stragglers users now t) counted.partitions;
        report = record counted.report {
          deleted_rows =
              counted.report.deleted_rows + length (stragglers users now t st.partitions);
        };
      }

  unfoldable pub sweep_teams : List Plan.Sweep → State → State
  unfolding sweep_team
  sweep_teams [] st = st
  sweep_teams (t ∷ teams) st = sweep_teams teams (sweep_team t st)

  abbrev pub kept_forever : List TeamRetention → List ℕ
  kept_forever teams =
      map (λ t. t.id)
        (filter (λ t. not (any (λ s. s.id == t.id) (plan_retention teams).sweep)) teams)

  -- The partitions are looked at one after the other, so those kept come out in reverse order.
  unfoldable pub sweep_table : List TeamRetention → List Partition → (objects : List ℕ) → State
  unfolding drop_partitions sweep_teams plan_retention
  sweep_table teams ps objects =
      sweep_teams (plan_retention teams).sweep (elim (plan_retention teams).drop_after_days [
        | none ↦ record { partitions = ps; objects = objects; report = blank (kept_forever teams) }
        | some days ↦
            drop_partitions days ps
              (record { partitions = []; objects = objects; report = blank (kept_forever teams) })
      ])
