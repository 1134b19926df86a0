-- ===== src/Retention/Tests.antt =====
-- A clean-up of two partitions: one of them expired.
use timetrack.Prelude.{
  ℕ, ◌+◌, ◌*◌, ◌≡◌, ◌⊎◌, refl, subst, ==→eq, Bool, true, false, not, none, some, List, [], ◌∷◌,
  filter, any, arith, ◌==◌, inl, inr, Bool-cases,
}
use timetrack.Access.{User, is_in_team}
use timetrack.Retention.Plan.{TeamRetention, monthly, other, partition_bounds}
use timetrack.Retention.Sweep.{Row, Partition, World, sweep_table}
use timetrack.Retention.Kept.{Has, sweep_table-keeps}
use timetrack.Retention.Objects.{Gone, sweep_table-Gone}

abbrev utc : ℕ → ℕ → ℕ
utc year month = (year * 12 + month) * 1000

abbrev is_in : List ℕ → ℕ → Bool
is_in keys i = any (λ j. j == i) keys

-- A store that deletes what it is told to.
abbrev world : World
world = record {
  delete_objects = λ keys objects. (true, filter (λ i. not (is_in keys i)) objects);
  drops = λ n. true;
  deletes = λ t. true;
}

abbrev users : List User
users = record { id = 5; team_id = 1 } ∷ record { id = 6; team_id = 2 } ∷ []

abbrev teams : List TeamRetention
teams =
    record { id = 1; days = 1; forever = false } ∷ record { id = 2; days = 1; forever = false } ∷ []

abbrev old_row : Row
old_row = record { user_id = 5; timestamp = 500; storage_key = 11; thumbnail_key = some 12 }

abbrev new_row : Row
new_row = record { user_id = 6; timestamp = 50000000; storage_key = 13; thumbnail_key = none }

abbrev partitions : List Partition
partitions =
    record { name = monthly 0 1; rows = old_row ∷ [] }
    ∷ record { name = monthly 8000 6; rows = new_row ∷ [] }
    ∷ record { name = other 9; rows = [] }
    ∷ []

abbrev now : ℕ
now = 86500000

test_dropped :
    (sweep_table utc world true users now teams partitions (11 ∷ 12 ∷ 13 ∷ [])).objects ≡ 13 ∷ []
unfolding sweep_table is_in_team
test_dropped = refl

sweep_table-keeps_example :
    Has new_row
      (sweep_table utc world true users now teams partitions (11 ∷ 12 ∷ 13 ∷ [])).partitions
unfolding partition_bounds is_in_team
sweep_table-keeps_example =
    sweep_table-keeps utc world true users now new_row teams partitions (11 ∷ 12 ∷ 13 ∷ [])
      ((omega arith, tt), ((omega arith, tt), (tt, tt))) (refl, refl) (inr (inl (inl refl)))

cleared :
    (k : ℕ) (keys objects : List ℕ)
    → is_in keys k ≡ true
    → Gone k (filter (λ i. not (is_in keys i)) objects)
cleared k keys [] h = refl
cleared k keys (i ∷ objects) h = elim (Bool-cases (is_in keys i)) [
  | inl listed ↦ rw listed (cleared k keys objects h)
  | inr kept ↦ rw kept (differs kept (cleared k keys objects h))
]
  where
    differs :
        is_in keys i ≡ false
        → Gone k (filter (λ i. not (is_in keys i)) objects)
        → Gone k (i ∷ filter (λ i. not (is_in keys i)) objects)
    differs kept rest = elim (Bool-cases (i == k)) [
      | inl same ↦
          let clash : is_in keys k ≡ false =
            subst (λ x. is_in keys x ≡ false) (==→eq i k same) kept in
          cc (h, clash)
      | inr apart ↦ ground (arith, apart, rest)
    ]

shrunk :
    (k : ℕ) (keys objects : List ℕ)
    → Gone k objects
    → Gone k (filter (λ i. not (is_in keys i)) objects)
shrunk k keys [] h = refl
shrunk k keys (i ∷ objects) h = elim (Bool-cases (is_in keys i)) [
  | inl listed ↦ rw listed (shrunk k keys objects (ground (arith, h)))
  | inr kept ↦ rw kept (ground (arith, h, shrunk k keys objects (ground (arith, h))))
]

sweep_table-Gone_example :
    Has old_row
      (sweep_table utc world true users now teams partitions (11 ∷ 12 ∷ 13 ∷ [])).partitions
    ⊎ Gone 12 (sweep_table utc world true users now teams partitions (11 ∷ 12 ∷ 13 ∷ [])).objects
sweep_table-Gone_example =
    sweep_table-Gone utc world users now old_row 12 (inr refl)
      (λ keys objects e h. cleared 12 keys objects h) (λ keys objects h. shrunk 12 keys objects h)
      teams partitions (11 ∷ 12 ∷ 13 ∷ []) (inl (inl refl))
