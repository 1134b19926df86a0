-- ===== src/Trim/Effects.antt =====
-- What one round of the repair does to the tables, and what the report adds up.
use timetrack.Prelude.{
  ℕ, ◌+◌, ◌*◌, ◌≤◌, ◌<◌, ◌≡◌, ◌↔◌, ◌⊎◌, inl, inr, refl, sym, subst, ◌∙◌, true, false, Option, none,
  some, List, [], ◌∷◌, arith, Any, All, Option-cases, length, count, sum_by, is_some, filter, Bool,
  ◌&&◌, ◌==◌, false, ltb,
}
use timetrack.Entries.Model.{Entry, Db}
use timetrack.Entries.Table.{find_row}
use timetrack.Entries.Index.{IsIndexed}
use timetrack.Entries.Repository.Reads.{insert_by_start, sort_by_start}
use timetrack.Trim.Anchors.{All-filter}
use timetrack.Trim.Stretches.{reconstruct_stretches}
use timetrack.Trim.Cover.{Holds, Supported, reconstruct_stretches-covers}
use timetrack.Trim.Separated.{duration, reconstruct_stretches-Separated}
use timetrack.Trim.Head.{reconstruct_stretches-head}
use timetrack.Trim.Rows.{Tracks, TracksBeside, apply_repair-Tracks}
use timetrack.Trim.Repair.{
  Sample, EntryOutcome, TrimReport, Options, is_candidate, span_of, samples_of, active_at,
  stretches_of, removed_of, apply_repair, trim_entry, trim_entries, is_repaired, report,
  trim_runaway_entries,
}

candidate-long :
    (min_hours : ℕ) (e : Entry)
    → is_candidate min_hours e ≡ true
    → (span_of e).start < (span_of e).end
unfolding is_candidate
candidate-long min_hours e h = elim (Option-cases e.end_time) [
  | inl running ↦ ground arith
  | inr (end, ended) ↦ ground arith
]

module _ (threshold_minutes : ℕ → ℕ) (mint : (entry_id start : ℕ) → ℕ) where
  -- A skipped entry, and every entry on a dry run, leaves the tables as they are.
  trim_entry-unchanged :
      (opts : Options) (samples : List Sample) (e : Entry) (db : Db) {r : EntryOutcome × Db}
      → (opts.apply ≡ false) ⊎ (is_some r.0.skipped ≡ true)
      → trim_entry threshold_minutes mint opts samples e db ≡ some r
      → r.1 ≡ db
  unfolding trim_entry
  trim_entry-unchanged opts samples e db {r = r} h w = ground arith

  -- The tables after a repair that went ahead.
  trim_entry-applied :
      (opts : Options) (samples : List Sample) (e : Entry) (db : Db) {r : EntryOutcome × Db}
      → opts.apply ≡ true
      → r.0.skipped ≡ none
      → trim_entry threshold_minutes mint opts samples e db ≡ some r
      → apply_repair mint opts.now
          (removed_of threshold_minutes samples e)
          e
          (stretches_of threshold_minutes samples e)
          db
        ≡ some r.1
  unfolding trim_entry
  trim_entry-applied opts samples e db {r = r} h s w = ground arith

-- Let a candidate of the table be repaired, its user's threshold being at least a minute. Then, at
-- every instant, the user is tracked afterwards exactly if another entry of theirs tracked it
-- before, or if it lies in the repaired span less than the threshold after some evidence. So the
-- repair removes unattended time only, and all of it.
pub trim_entry-Tracks :
    (threshold_minutes : ℕ → ℕ) (mint : (entry_id start : ℕ) → ℕ) (opts : Options)
    (samples : List Sample) (e : Entry) (db : Db) (t : ℕ) {r : EntryOutcome × Db}
    → IsIndexed db.entries
    → find_row e.id db.entries ≡ some e
    → is_candidate opts.min_hours e ≡ true
    → 0 < threshold_minutes e.user_id
    → opts.apply ≡ true
    → r.0.skipped ≡ none
    → trim_entry threshold_minutes mint opts samples e db ≡ some r
    → Any (Tracks e.user_id t) r.1.entries ↔ (
        Supported
          (threshold_minutes e.user_id * 60 * 1000)
          t
          (span_of e)
          (active_at (samples_of samples e))
        ⊎ Any (TracksBeside e.id e.user_id t) db.entries)
unfolding stretches_of
trim_entry-Tracks threshold_minutes mint opts samples e db t {r = r} h found c positive applying
      repaired w =
    let seconds = threshold_minutes e.user_id * 60 in
    let evidence = active_at (samples_of samples e) in
    let long = candidate-long opts.min_hours e c in
    let (first, rest, split, begins, after) =
      reconstruct_stretches-head (span_of e) evidence seconds long (omega arith) in
    let out = reconstruct_stretches (span_of e) evidence seconds in
    let removed = removed_of threshold_minutes samples e in
    let done =
      trim_entry-applied threshold_minutes mint opts samples e db {r = r} applying repaired w in
    let tracks =
      apply_repair-Tracks mint opts.now t e removed first rest db {db' = r.1} found h begins
        (subst (λ l. apply_repair mint opts.now removed e l db ≡ some r.1) split done) in
    let covers =
      subst (λ l. Any (Holds t) l ↔ Supported (seconds * 1000) t (span_of e) evidence) split
        (reconstruct_stretches-covers (span_of e) evidence seconds t (omega (arith, long))) in
    (
      λ m. elim (tracks.0 m) [ inl k ↦ inl (covers.0 k) | inr k ↦ inr k ],
      λ m. elim m [ inl k ↦ tracks.1 (inl (covers.1 k)) | inr k ↦ tracks.1 (inr k) ],
    )

-- A closed entry that lasted longer than the hours.
abbrev pub outlasts : (min_hours : ℕ) → Entry → Bool
outlasts min_hours e = elim e.end_time [
  | none ↦ false
  | some end ↦ ltb (e.start_time + min_hours * 3600000) end
]

-- The removed time and the kept stretches make up the span of a repaired entry; a skipped entry
-- loses nothing.
abbrev pub IsBalanced : EntryOutcome → Type 0
IsBalanced o =
    (o.removed_ms + sum_by duration o.stretches ≡ o.original_ms)
    ⊎ (is_some o.skipped ≡ true) × (o.removed_ms ≡ 0)

-- Every outcome of a run that did not throw is balanced.
abbrev OutcomesBalanced : Option (List EntryOutcome) → Type 0
OutcomesBalanced none = Unit
OutcomesBalanced (some os) = All IsBalanced os

cons-balanced :
    (o : EntryOutcome) (os : Option (List EntryOutcome))
    → IsBalanced o
    → OutcomesBalanced os
    → OutcomesBalanced (elim os [ none ↦ none | some rest ↦ some (o ∷ rest) ])
cons-balanced o none b h = tt
cons-balanced o (some rest) b h = (b, h)

module _ (threshold_minutes : ℕ → ℕ) (mint : (entry_id start : ℕ) → ℕ) (opts : Options)
    (samples : List Sample) where
  kept-le :
      (e : Entry)
      → is_candidate opts.min_hours e ≡ true
      → sum_by duration (stretches_of threshold_minutes samples e) ≤ duration (span_of e)
  unfolding stretches_of
  kept-le e c = omega (
    arith,
    candidate-long opts.min_hours e c,
    (reconstruct_stretches-Separated (span_of e) (active_at (samples_of samples e))
        (threshold_minutes e.user_id * 60) (omega (arith, candidate-long opts.min_hours e c))).1,
  )

  trim_entry-IsBalanced :
      (e : Entry) (db : Db) {r : EntryOutcome × Db}
      → is_candidate opts.min_hours e ≡ true
      → trim_entry threshold_minutes mint opts samples e db ≡ some r
      → IsBalanced r.0
  unfolding trim_entry removed_of
  trim_entry-IsBalanced e db {r = r} c w = ground (arith, kept-le e c)

  trim_entries-IsBalanced :
      (es : List Entry) (db : Db)
      → All (λ e. is_candidate opts.min_hours e ≡ true) es
      → OutcomesBalanced (trim_entries threshold_minutes mint opts samples es db).0
  unfolding trim_entries
  trim_entries-IsBalanced [] db c = tt
  trim_entries-IsBalanced (e ∷ es) db c =
      elim (Option-cases (trim_entry threshold_minutes mint opts samples e db)) [
        | inl threw ↦ rw (threw, trim_entries) tt
        | inr ((o, db'), done) ↦
            rw (done, trim_entries)
              (cons-balanced o (trim_entries threshold_minutes mint opts samples es db').0
                (trim_entry-IsBalanced e db {r = (o, db')} c.0 done)
                (trim_entries-IsBalanced es db' c.1))
      ]

  candidates-insert :
      (e : Entry) (es : List Entry)
      → is_candidate opts.min_hours e ≡ true
      → All (λ x. is_candidate opts.min_hours x ≡ true) es
      → All (λ x. is_candidate opts.min_hours x ≡ true) (insert_by_start e es)
  unfolding insert_by_start
  candidates-insert e [] c h = (c, tt)
  candidates-insert e (x ∷ es) c h = ground (arith, candidates-insert e es)

  candidates-sort :
      (es : List Entry)
      → All (λ x. is_candidate opts.min_hours x ≡ true) es
      → All (λ x. is_candidate opts.min_hours x ≡ true) (sort_by_start es)
  unfolding sort_by_start
  candidates-sort [] h = tt
  candidates-sort (e ∷ es) h = candidates-insert e (sort_by_start es) h.0 (candidates-sort es h.1)

  counts :
      (os : List EntryOutcome)
      → length os ≡ count is_repaired os + count (λ o. is_some o.skipped) os
  counts [] = omega arith
  counts (o ∷ os) = ground (arith, counts os)

  count-insert :
      (p : Entry → Bool) (e : Entry) (es : List Entry)
      → count p (insert_by_start e es) ≡ count p (e ∷ es)
  unfolding insert_by_start
  count-insert p e [] = refl
  count-insert p e (x ∷ es) = ground (arith, count-insert p e es)

  count-sort : (p : Entry → Bool) (es : List Entry) → count p (sort_by_start es) ≡ count p es
  unfolding sort_by_start
  count-sort p [] = refl
  count-sort p (e ∷ es) = count-insert p e (sort_by_start es) ∙ ground (arith, count-sort p es)

  count-candidates :
      (k : ℕ) (es : List Entry)
      → count (λ e. e.id == k) (filter (is_candidate opts.min_hours) es)
        ≡ count (λ e. (e.id == k) && outlasts opts.min_hours e) es
  unfolding is_candidate
  count-candidates k [] = refl
  count-candidates k (e ∷ es) = elim (Option-cases e.end_time) [
    | inl running ↦ ground (arith, count-candidates k es)
    | inr (end, ended) ↦ ground (arith, count-candidates k es)
  ]

  trim_entry-id :
      (e : Entry) (db : Db) {r : EntryOutcome × Db}
      → trim_entry threshold_minutes mint opts samples e db ≡ some r
      → r.0.entry_id ≡ e.id
  unfolding trim_entry
  trim_entry-id e db {r = r} w = ground arith

  trim_entries-count :
      (k : ℕ) (es : List Entry) (db : Db) {os : List EntryOutcome}
      → (trim_entries threshold_minutes mint opts samples es db).0 ≡ some os
      → count (λ o. o.entry_id == k) os ≡ count (λ e. e.id == k) es
  unfolding trim_entries
  trim_entries-count k [] db {os = os} w = ground arith
  trim_entries-count k (e ∷ es) db {os = os} w =
      elim (Option-cases (trim_entry threshold_minutes mint opts samples e db)) [
        | inl threw ↦ ground (arith, threw)
        | inr ((o, db'), done) ↦
            elim (Option-cases (trim_entries threshold_minutes mint opts samples es db').0) [
              | inl threw ↦ ground (arith, done, threw)
              | inr (rest, next) ↦ ground (
                arith,
                done,
                next,
                trim_entry-id e db {r = (o, db')} done,
                trim_entries-count k es db' {os = rest} next,
              )
            ]
      ]

  -- A run that does not throw has one outcome for each closed entry that lasted longer than the
  -- hours, and no other: as many under an id as there are such entries with the id. Every outcome is
  -- counted as repaired or as skipped, and in each the removed time and the kept stretches make up
  -- the entry's span, or the entry was skipped and lost nothing.
  pub trim_runaway_entries-balances :
      (db : Db) (k : ℕ) {rep : TrimReport}
      → (trim_runaway_entries threshold_minutes mint opts samples db).0 ≡ some rep
      → (count (λ o. o.entry_id == k) rep.outcomes
          ≡ count (λ e. (e.id == k) && outlasts opts.min_hours e) db.entries)
        × (length rep.outcomes ≡ rep.repaired + rep.skipped)
        × (rep.candidates ≡ rep.repaired + rep.skipped)
        × All IsBalanced rep.outcomes
  unfolding trim_runaway_entries
  trim_runaway_entries-balances db k {rep = rep} w =
      let chosen = filter (is_candidate opts.min_hours) db.entries in
      let es = sort_by_start chosen in
      let all = candidates-sort chosen (
        All-filter (λ x. is_candidate opts.min_hours x ≡ true) (is_candidate opts.min_hours)
          db.entries (λ x h. h)) in
      let balanced = trim_entries-IsBalanced es db all in
      elim (Option-cases (trim_entries threshold_minutes mint opts samples es db).0) [
        | inl threw ↦ ground arith
        | inr (os, done) ↦
            let q : rep ≡ report opts.apply os = ground arith in
            let counted =
              trim_entries-count k es db {os = os} done
              ∙ count-sort (λ e. e.id == k) chosen
              ∙ count-candidates k db.entries in
            subst
              (λ x.
                (count (λ o. o.entry_id == k) x.outcomes
                  ≡ count (λ e. (e.id == k) && outlasts opts.min_hours e) db.entries)
                × (length x.outcomes ≡ x.repaired + x.skipped)
                × (x.candidates ≡ x.repaired + x.skipped)
                × All IsBalanced x.outcomes)
              (sym q)
              (unfold report in
                (counted, counts os, counts os, subst OutcomesBalanced done balanced))
      ]

  trim_entries-dry :
      (es : List Entry) (db : Db)
      → opts.apply ≡ false
      → (trim_entries threshold_minutes mint opts samples es db).1 ≡ db
  unfolding trim_entries
  trim_entries-dry [] db h = refl
  trim_entries-dry (e ∷ es) db h =
      elim (Option-cases (trim_entry threshold_minutes mint opts samples e db)) [
        | inl threw ↦ rw (threw, trim_entries) refl
        | inr ((o, db'), done) ↦
            rw (done, trim_entries)
              (trim_entries-dry es db' h
                ∙ trim_entry-unchanged threshold_minutes mint opts samples e db {r = (o, db')}
                    (inl h) done)
      ]

  -- A dry run changes no table.
  pub trim_runaway_entries-dry :
      (db : Db)
      → opts.apply ≡ false
      → (trim_runaway_entries threshold_minutes mint opts samples db).1 ≡ db
  unfolding trim_runaway_entries
  trim_runaway_entries-dry db h =
      trim_entries-dry (sort_by_start (filter (is_candidate opts.min_hours) db.entries)) db h
