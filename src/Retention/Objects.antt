-- ===== src/Retention/Objects.antt =====
-- Objects go before their rows.
use timetrack.Prelude.{
  ℕ, ◌≡◌, ◌⊎◌, sym, subst, Bool, true, false, some, List, [], ◌∷◌, ◌++◌, filter, any, Any, arith,
  ◌==◌, length, Bool-cases, Option-cases, inl, inr,
}
use timetrack.Access.{User}
use timetrack.Retention.Plan.{
  TeamRetention, plan_retention, sweep_of, PartitionName, monthly, other, partition_bounds,
  is_droppable,
}
use timetrack.Retention.Plan
use timetrack.Retention.Sweep.{
  Row, Partition, State, World, drop_partition, drop_partitions, sweep_team, sweep_teams,
  sweep_table, is_straggler, stragglers, clear_stragglers, keys_of, blank, kept_forever,
}
use timetrack.Retention.Kept.{Has, without-Has, stragglers-partitions}

-- The object under the key is not in the store.
abbrev pub Gone : (key : ℕ) → List ℕ → Type 0
Gone k objects = any (λ i. i == k) objects ≡ false

-- The key of an object of the row.
abbrev pub IsKeyOf : ℕ → Row → Type 0
IsKeyOf k r = (r.storage_key ≡ k) ⊎ (r.thumbnail_key ≡ some k)

keys-any :
    (k : ℕ) (r : Row) (rows : List Row)
    → IsKeyOf k r
    → Any (λ x. x ≡ r) rows
    → any (λ i. i == k) (keys_of rows) ≡ true
unfolding keys_of
keys-any k r [] h q = elim q [ ]
keys-any k r (x ∷ rows) h (inl e) =
    let own = subst (IsKeyOf k) (sym e) h in
    elim (Option-cases x.thumbnail_key) [
      | inl bare ↦ rw (bare, keys_of) (ground (arith, own, bare))
      | inr (t, pictured) ↦ rw (pictured, keys_of) (ground (arith, own, pictured))
    ]
keys-any k r (x ∷ rows) h (inr q) =
    let rest = keys-any k r rows h q in
    elim (Option-cases x.thumbnail_key) [
      | inl bare ↦ rw (bare, keys_of) (ground (arith, rest))
      | inr (t, pictured) ↦ rw (pictured, keys_of) (ground (arith, rest))
    ]

filter-Any :
    (f : Row → Bool) (r : Row) (rows : List Row)
    → f r ≡ true
    → Any (λ x. x ≡ r) rows
    → Any (λ x. x ≡ r) (filter f rows)
filter-Any f r [] h q = elim q [ ]
filter-Any f r (x ∷ rows) h (inl e) =
    let stays : f x ≡ true = subst (λ y. f y ≡ true) (sym e) h in rw stays (inl e)
filter-Any f r (x ∷ rows) h (inr q) = elim (Bool-cases (f x)) [
  | inl stays ↦ rw stays (inr (filter-Any f r rows h q))
  | inr goes ↦ rw goes (filter-Any f r rows h q)
]

Any-left : (r : Row) (xs ys : List Row) → Any (λ x. x ≡ r) xs → Any (λ x. x ≡ r) (xs ++ ys)
Any-left r [] ys q = elim q [ ]
Any-left r (x ∷ xs) ys (inl e) = inl e
Any-left r (x ∷ xs) ys (inr q) = inr (Any-left r xs ys q)

Any-right : (r : Row) (xs ys : List Row) → Any (λ x. x ≡ r) ys → Any (λ x. x ≡ r) (xs ++ ys)
Any-right r [] ys q = q
Any-right r (x ∷ xs) ys q = inr (Any-right r xs ys q)

straggler-Any :
    (users : List User) (now : ℕ) (s : Plan.Sweep) (r : Row) (ps : List Partition)
    → is_straggler users now s r ≡ true
    → Has r ps
    → Any (λ x. x ≡ r) (stragglers users now s ps)
unfolding stragglers
straggler-Any users now s r [] h q = elim q [ ]
straggler-Any users now s r (p ∷ ps) h (inl q) =
    Any-left r (filter (is_straggler users now s) p.rows) (stragglers users now s ps)
      (filter-Any (is_straggler users now s) r p.rows h q)
straggler-Any users now s r (p ∷ ps) h (inr q) =
    Any-right r (filter (is_straggler users now s) p.rows) (stragglers users now s ps)
      (straggler-Any users now s r ps h q)

nonempty : (r : Row) (rows : List Row) → Any (λ x. x ≡ r) rows → (length rows == 0) ≡ false
nonempty r [] q = elim q [ ]
nonempty r (x ∷ rows) q = ground arith

module _ (utc : (year month_index : ℕ) → ℕ) (world : World) (users : List User) (now : ℕ) (r : Row)
    (k : ℕ) (of_row : IsKeyOf k r)
    (deletes : (keys objects : List ℕ)
      → (world.delete_objects keys objects).0 ≡ true
      → any (λ i. i == k) keys ≡ true
      → Gone k (world.delete_objects keys objects).1)
    (shrinks : (keys objects : List ℕ)
      → Gone k objects
      → Gone k (world.delete_objects keys objects).1) where
  -- The row is there, or its object is not.
  Backed : State → Type 0
  Backed st = Has r st.partitions ⊎ Gone k st.objects

  drop_partition-Backed :
      (days : ℕ) (name : PartitionName) (rows : List Row) (st : State)
      → Any (λ x. x ≡ r) rows ⊎ Backed st
      → Backed
          (drop_partition utc world true users now days (record { name = name; rows = rows }) st)
  unfolding drop_partition Backed
  drop_partition-Backed days (other n) rows st (inl q) = inl (inl q)
  drop_partition-Backed days (other n) rows st (inr (inl q)) = inl (inr q)
  drop_partition-Backed days (other n) rows st (inr (inr q)) = inr q
  drop_partition-Backed days (monthly y m) rows st q =
      let deletion = world.delete_objects (keys_of rows) st.objects in
      elim (Bool-cases (is_droppable (partition_bounds utc y m) now days)) [
        | inr young ↦ rw (young, drop_partition) (kept q)
        | inl due ↦ elim (Bool-cases deletion.0) [
          | inr failed ↦ rw (due, failed, drop_partition) (kept_objects q)
          | inl returned ↦ elim (Bool-cases (world.drops (monthly y m))) [
            | inr refused ↦ rw (due, returned, refused, drop_partition) (kept_objects q)
            | inl gone ↦
                rw (due, returned, gone, drop_partition)
                  (elim q [
                    | inl own ↦
                        inr (
                          deletes (keys_of rows) st.objects returned (keys-any k r rows of_row own))
                    | inr (inl old) ↦ inl old
                    | inr (inr out) ↦ inr (shrinks (keys_of rows) st.objects out)
                  ])
          ]
        ]
      ]
    where
      kept :
          Any (λ x. x ≡ r) rows ⊎ Backed st
          → (Any (λ x. x ≡ r) rows ⊎ Has r st.partitions) ⊎ Gone k st.objects
      kept (inl own) = inl (inl own)
      kept (inr (inl old)) = inl (inr old)
      kept (inr (inr out)) = inr out

      kept_objects :
          Any (λ x. x ≡ r) rows ⊎ Backed st
          → (Any (λ x. x ≡ r) rows ⊎ Has r st.partitions)
            ⊎ Gone k (world.delete_objects (keys_of rows) st.objects).1
      kept_objects (inl own) = inl (inl own)
      kept_objects (inr (inl old)) = inl (inr old)
      kept_objects (inr (inr out)) = inr (shrinks (keys_of rows) st.objects out)

  drop_partitions-Backed :
      (days : ℕ) (ps : List Partition) (st : State)
      → Has r ps ⊎ Backed st
      → Backed (drop_partitions utc world true users now days ps st)
  unfolding drop_partitions
  drop_partitions-Backed days [] st (inl q) = elim q [ ]
  drop_partitions-Backed days [] st (inr q) = q
  drop_partitions-Backed days (p ∷ ps) st q =
      drop_partitions-Backed days ps (drop_partition utc world true users now days p st) (elim q [
        | inl (inl own) ↦ inr (drop_partition-Backed days p.name p.rows st (inl own))
        | inl (inr later) ↦ inl later
        | inr old ↦ inr (drop_partition-Backed days p.name p.rows st (inr old))
      ])

  -- The deletion of a team's objects leaves no object of a straggler, and brings none back.
  cleared-Gone :
      (s : Plan.Sweep) (st : State)
      → Gone k st.objects
      → Gone k (clear_stragglers utc world true users now s st).1.objects
  cleared-Gone s st q = elim (Bool-cases (length (stragglers users now s st.partitions) == 0)) [
    | inl quiet ↦ rw quiet q
    | inr busy ↦ rw busy (shrinks (keys_of (stragglers users now s st.partitions)) st.objects q)
  ]

  cleared-straggler :
      (s : Plan.Sweep) (st : State)
      → (clear_stragglers utc world true users now s st).0 ≡ true
      → is_straggler users now s r ≡ true
      → Has r st.partitions
      → Gone k (clear_stragglers utc world true users now s st).1.objects
  cleared-straggler s st returned h q =
      let rows = stragglers users now s st.partitions in
      let there = straggler-Any users now s r st.partitions h q in
      let busy = nonempty r rows there in
      rw busy
        (deletes (keys_of rows) st.objects (rw busy at returned) (keys-any k r rows of_row there))

  same_partitions :
      (s : Plan.Sweep) (st : State)
      → (clear_stragglers utc world true users now s st).1.partitions ≡ st.partitions
  same_partitions s st = stragglers-partitions utc world true users now r s st

  sweep_team-Backed :
      (s : Plan.Sweep) (st : State) → Backed st → Backed (sweep_team utc world true users now s st)
  unfolding sweep_team Backed
  sweep_team-Backed s st (inr out) =
      let cleared = clear_stragglers utc world true users now s st in
      let gone = cleared-Gone s st out in
      elim (Bool-cases cleared.0) [
        | inr failed ↦ rw (failed, sweep_team) (inr gone)
        | inl returned ↦ elim (Bool-cases (world.deletes s.id)) [
          | inr refused ↦ rw (returned, refused, sweep_team) (inr gone)
          | inl deleted ↦ rw (returned, deleted, sweep_team) (inr gone)
        ]
      ]
  sweep_team-Backed s st (inl q) =
      let cleared = clear_stragglers utc world true users now s st in
      let there : Has r cleared.1.partitions = subst (Has r) (sym (same_partitions s st)) q in
      elim (Bool-cases cleared.0) [
        | inr failed ↦ rw (failed, sweep_team) (inl there)
        | inl returned ↦ elim (Bool-cases (world.deletes s.id)) [
          | inr refused ↦ rw (returned, refused, sweep_team) (inl there)
          | inl deleted ↦ elim (Bool-cases (is_straggler users now s r)) [
            | inr young ↦
                rw (returned, deleted, sweep_team)
                  (inl (without-Has users now s r cleared.1.partitions young there))
            | inl due ↦
                rw (returned, deleted, sweep_team) (inr (cleared-straggler s st returned due q))
          ]
        ]
      ]

  sweep_teams-Backed :
      (sweep : List Plan.Sweep) (st : State)
      → Backed st
      → Backed (sweep_teams utc world true users now sweep st)
  unfolding sweep_teams
  sweep_teams-Backed [] st q = q
  sweep_teams-Backed (s ∷ sweep) st q =
      sweep_teams-Backed sweep (sweep_team utc world true users now s st) (sweep_team-Backed s st q)

  -- A clean-up of a table with objects deletes no row before its objects: a row that was there is
  -- still there, or the object under a key of it is not, whatever fails. It relies on an object
  -- store that has deleted the objects under all keys when it returns, and that makes none.
  pub sweep_table-Gone :
      (teams : List TeamRetention) (ps : List Partition) (objects : List ℕ)
      → Has r ps
      → Has r (sweep_table utc world true users now teams ps objects).partitions
        ⊎ Gone k (sweep_table utc world true users now teams ps objects).objects
  unfolding sweep_table plan_retention Backed
  sweep_table-Gone teams ps objects q =
      let report = blank (kept_forever utc world true users now teams) in
      elim (Option-cases (plan_retention teams).drop_after_days) [
        | inl held ↦ rw held (
            sweep_teams-Backed (sweep_of teams)
              (record { partitions = ps; objects = objects; report = report }) (inl q))
        | inr (days, due) ↦
            let st : State = record { partitions = []; objects = objects; report = report } in
            rw due (
              sweep_teams-Backed (sweep_of teams)
                (drop_partitions utc world true users now days ps st)
                (drop_partitions-Backed days ps st (inl q)))
      ]
