-- ===== src/Retention/Kept.antt =====
-- What the clean-up leaves alone.
use timetrack.Prelude.{
  ℕ, ◌+◌, ◌*◌, ◌≤◌, ◌<◌, ◌≡◌, ◌⊎◌, refl, sym, subst, Bool, true, false, ◌&&◌, not, some, List, [],
  ◌∷◌, map, filter, any, All, Any, arith, ltb, ◌==◌, length, Bool-cases, Option-cases, inl, inr,
}
use timetrack.Access.{User, is_in_team}
use timetrack.Retention.Plan.{
  day_ms, TeamRetention, RetentionPlan, plan_retention, sweep_of, max_days, is_before_cutoff,
  PartitionName, monthly, other, partition_bounds, is_droppable,
}
use timetrack.Retention.Plan
use timetrack.Retention.Sweep.{
  Row, Partition, State, World, drop_partition, drop_partitions, sweep_team, sweep_teams,
  sweep_table, is_straggler, without_stragglers, stragglers, clear_objects, clear_stragglers,
  keys_of, blank, kept_forever,
}

-- The row is of a user of the team and past the team's cut-off.
abbrev pub is_expired : List User → (now : ℕ) → Row → TeamRetention → Bool
is_expired users now r t =
    is_in_team users r.user_id t.id && (not t.forever && is_before_cutoff now t.days r.timestamp)

-- A row of a user of some team, past no team's cut-off.
abbrev pub IsRetained : List User → (now : ℕ) → List TeamRetention → Row → Type 0
IsRetained users now teams r =
    (any (λ t. is_in_team users r.user_id t.id) teams ≡ true)
    × (any (is_expired users now r) teams ≡ false)

abbrev pub Has : Row → List Partition → Type 0
Has r ps = Any (λ p. Any (λ x. x ≡ r) p.rows) ps

-- The rows of a month's partition lie before the end of the month.
abbrev pub IsBounded : (utc : ℕ → ℕ → ℕ) → Partition → Type 0
IsBounded utc p = elim p.name [
  | other n ↦ Unit
  | monthly y m ↦ All (λ r. r.timestamp < (partition_bounds utc y m).to) p.rows
]

length-sweep_of : (teams : List TeamRetention) → length (sweep_of teams) ≤ length teams
length-sweep_of [] = omega arith
length-sweep_of (t ∷ teams) = elim (Bool-cases t.forever) [
  | inl kept ↦ ground (arith, kept, length-sweep_of teams)
  | inr swept ↦ ground (arith, swept, length-sweep_of teams)
]

none_forever :
    (teams : List TeamRetention)
    → ltb (length (sweep_of teams)) (length teams) ≡ false
    → any (λ t. t.forever) teams ≡ false
none_forever [] h = refl
none_forever (t ∷ teams) h = elim (Bool-cases t.forever) [
  | inl kept ↦ ground (arith, rw kept at h, length-sweep_of teams)
  | inr swept ↦ ground (arith, swept, none_forever teams (ground (arith, rw swept at h)))
]

-- While partitions are dropped, a retained row is younger than the longest retention.
horizon :
    (users : List User) (now days : ℕ) (r : Row) (teams : List TeamRetention)
    → any (λ t. t.forever) teams ≡ false
    → IsRetained users now teams r
    → now ≤ r.timestamp + max_days (sweep_of teams) * day_ms
unfolding max_days
horizon users now days r [] f h = cc (h.0)
horizon users now days r (t ∷ teams) f h =
    let swept : t.forever ≡ false = ground (arith, f) in
    elim (Bool-cases (is_in_team users r.user_id t.id)) [
      | inl own ↦
          let young : is_before_cutoff now t.days r.timestamp ≡ false =
            ground (arith, own, swept, h.1) in
          rw swept (ground (arith, young))
      | inr strange ↦
          let rest =
            horizon users now days r teams (ground (arith, f))
              (ground (arith, strange, h.0), ground (arith, strange, h.1)) in
          rw swept (ground (arith, rest))
    ]

-- No team that is swept takes a retained row for a straggler.
no_straggler :
    (users : List User) (now : ℕ) (r : Row) (teams : List TeamRetention)
    → any (is_expired users now r) teams ≡ false
    → All (λ s. is_straggler users now s r ≡ false) (sweep_of teams)
no_straggler users now r [] h = tt
no_straggler users now r (t ∷ teams) h = elim (Bool-cases t.forever) [
  | inl kept ↦ rw kept (no_straggler users now r teams (ground (arith, h)))
  | inr swept ↦
      rw swept (ground (arith, swept, h), no_straggler users now r teams (ground (arith, h)))
]

pub without-Has :
    (users : List User) (now : ℕ) (s : Plan.Sweep) (r : Row) (ps : List Partition)
    → is_straggler users now s r ≡ false
    → Has r ps
    → Has r (map (without_stragglers users now s) ps)
without-Has users now s r [] h q = elim q [ ]
without-Has users now s r (p ∷ ps) h (inl q) = inl (filter-has p.rows q)
  where
    filter-has :
        (rows : List Row)
        → Any (λ x. x ≡ r) rows
        → Any (λ x. x ≡ r) (filter (λ x. not (is_straggler users now s x)) rows)
    filter-has [] m = elim m [ ]
    filter-has (x ∷ rows) (inl e) =
        let stays : is_straggler users now s x ≡ false =
          subst (λ y. is_straggler users now s y ≡ false) (sym e) h in
        rw stays (inl e)
    filter-has (x ∷ rows) (inr m) = elim (Bool-cases (is_straggler users now s x)) [
      | inl goes ↦ rw goes (filter-has rows m)
      | inr stays ↦ rw stays (inr (filter-has rows m))
    ]
without-Has users now s r (p ∷ ps) h (inr q) = inr (without-Has users now s r ps h q)

max-eq :
    (teams : List TeamRetention) {days : ℕ}
    → (plan_retention teams).drop_after_days ≡ some days
    → (any (λ t. t.forever) teams ≡ false) × (max_days (sweep_of teams) ≡ days)
unfolding plan_retention
max-eq teams {days = days} h = elim (Bool-cases (ltb (length (sweep_of teams)) (length teams))) [
  | inl some_kept ↦ ground (arith, rw some_kept at h)
  | inr all_swept ↦ (none_forever teams all_swept, ground (arith, rw all_swept at h))
]

module _ (utc : (year month_index : ℕ) → ℕ) (world : World) (has_objects : Bool) (users : List User)
    (now : ℕ) (r : Row) where
  clear-partitions :
      (keys : List ℕ) (st : State)
      → (clear_objects utc world has_objects users now keys st).1.partitions ≡ st.partitions
  clear-partitions keys st = ground arith

  too_young :
      (y m days : ℕ) (rows : List Row)
      → now ≤ r.timestamp + days * day_ms
      → All (λ x. x.timestamp < (partition_bounds utc y m).to) rows
      → Any (λ x. x ≡ r) rows
      → is_droppable (partition_bounds utc y m) now days ≡ false
  too_young y m days [] h b q = elim q [ ]
  too_young y m days (x ∷ rows) h b (inl e) =
      let before = subst (λ z. z.timestamp < (partition_bounds utc y m).to) e b.0 in
      ground (arith, before, h)
  too_young y m days (x ∷ rows) h b (inr q) = too_young y m days rows h b.1 q

  drop_partition-Has :
      (days : ℕ) (name : PartitionName) (rows : List Row) (st : State)
      → now ≤ r.timestamp + days * day_ms
      → IsBounded utc (record { name = name; rows = rows })
      → Any (λ x. x ≡ r) rows ⊎ Has r st.partitions
      → Has r
          (drop_partition utc world has_objects users now days
            (record { name = name; rows = rows })
            st).partitions
  unfolding drop_partition
  drop_partition-Has days (other n) rows st h b q = q
  drop_partition-Has days (monthly y m) rows st h b (inl q) =
      rw (too_young y m days rows h b q, drop_partition) (inl q)
  drop_partition-Has days (monthly y m) rows st h b (inr q) =
      let cleared = clear_objects utc world has_objects users now (keys_of rows) st in
      let there : Has r cleared.1.partitions =
        subst (Has r) (sym (clear-partitions (keys_of rows) st)) q in
      elim (Bool-cases (is_droppable (partition_bounds utc y m) now days)) [
        | inr young ↦ rw (young, drop_partition) (inr q)
        | inl due ↦ elim (Bool-cases cleared.0) [
          | inr failed ↦ rw (due, failed, drop_partition) (inr there)
          | inl returned ↦ elim (Bool-cases (world.drops (monthly y m))) [
            | inr refused ↦ rw (due, returned, refused, drop_partition) (inr there)
            | inl gone ↦ rw (due, returned, gone, drop_partition) there
          ]
        ]
      ]

  drop_partitions-Has :
      (days : ℕ) (ps : List Partition) (st : State)
      → now ≤ r.timestamp + days * day_ms
      → All (IsBounded utc) ps
      → Has r ps ⊎ Has r st.partitions
      → Has r (drop_partitions utc world has_objects users now days ps st).partitions
  unfolding drop_partitions
  drop_partitions-Has days [] st h b (inl q) = elim q [ ]
  drop_partitions-Has days [] st h b (inr q) = q
  drop_partitions-Has days (p ∷ ps) st h b q =
      drop_partitions-Has days ps (drop_partition utc world has_objects users now days p st) h b.1
        (elim q [
          | inl (inl own) ↦ inr (drop_partition-Has days p.name p.rows st h b.0 (inl own))
          | inl (inr later) ↦ inl later
          | inr old ↦ inr (drop_partition-Has days p.name p.rows st h b.0 (inr old))
        ])

  pub stragglers-partitions :
      (s : Plan.Sweep) (st : State)
      → (clear_stragglers utc world has_objects users now s st).1.partitions ≡ st.partitions
  stragglers-partitions s st =
      elim (Bool-cases (length (stragglers users now s st.partitions) == 0)) [
        | inl quiet ↦ rw quiet refl
        | inr busy ↦ rw busy (clear-partitions (keys_of (stragglers users now s st.partitions)) st)
      ]

  sweep_team-Has :
      (s : Plan.Sweep) (st : State)
      → is_straggler users now s r ≡ false
      → Has r st.partitions
      → Has r (sweep_team utc world has_objects users now s st).partitions
  unfolding sweep_team
  sweep_team-Has s st h q =
      let cleared = clear_stragglers utc world has_objects users now s st in
      let there : Has r cleared.1.partitions = subst (Has r) (sym (stragglers-partitions s st)) q in
      elim (Bool-cases cleared.0) [
        | inr failed ↦ rw (failed, sweep_team) there
        | inl returned ↦ elim (Bool-cases (world.deletes s.id)) [
          | inr refused ↦ rw (returned, refused, sweep_team) there
          | inl gone ↦
              rw (returned, gone, sweep_team)
                (without-Has users now s r cleared.1.partitions h there)
        ]
      ]

  sweep_teams-Has :
      (sweep : List Plan.Sweep) (st : State)
      → All (λ s. is_straggler users now s r ≡ false) sweep
      → Has r st.partitions
      → Has r (sweep_teams utc world has_objects users now sweep st).partitions
  unfolding sweep_teams
  sweep_teams-Has [] st h q = q
  sweep_teams-Has (s ∷ sweep) st h q =
      sweep_teams-Has sweep (sweep_team utc world has_objects users now s st) h.1
        (sweep_team-Has s st h.0 q)

  -- Whatever the object store and the database answer, a clean-up keeps every row of a user of some
  -- team that is past the cut-off of no team, which a team that keeps its rows forever does not have.
  -- The rows of a month's partition lie before the end of the month.
  pub sweep_table-keeps :
      (teams : List TeamRetention) (ps : List Partition) (objects : List ℕ)
      → All (IsBounded utc) ps
      → IsRetained users now teams r
      → Has r ps
      → Has r (sweep_table utc world has_objects users now teams ps objects).partitions
  unfolding sweep_table plan_retention
  sweep_table-keeps teams ps objects b k q =
      elim (Option-cases (plan_retention teams).drop_after_days) [
        | inl held ↦ rw held (
            sweep_teams-Has (sweep_of teams)
              (record {
                partitions = ps;
                objects = objects;
                report = blank (kept_forever utc world has_objects users now teams);
              })
              (no_straggler users now r teams k.1) q)
        | inr (days, due) ↦
            let (swept, e) = max-eq teams {days = days} due in
            let young : now ≤ r.timestamp + days * day_ms =
              subst (λ d. now ≤ r.timestamp + d * day_ms) e
                (horizon users now days r teams swept k) in
            let st : State = record {
              partitions = [];
              objects = objects;
              report = blank (kept_forever utc world has_objects users now teams);
            } in
            rw due (
              sweep_teams-Has (sweep_of teams)
                (drop_partitions utc world has_objects users now days ps st)
                (no_straggler users now r teams k.1)
                (drop_partitions-Has days ps st young b (inl q)))
      ]
