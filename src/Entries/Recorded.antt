-- ===== src/Entries/Recorded.antt =====
-- What an edit records: the old and the new value of each column that it changes.
use timetrack.Prelude.{
  ℕ, ◌≡◌, refl, subst, Bool, true, false, Option, none, some, or_else, inl, inr, if◌then◌else◌, ◌⊎◌,
  Bool-cases,
}
use timetrack.Errors.{Result, ok, err, ◌>>=◌}
use timetrack.Entries.Model.{Iso, Entry, TimeEntry, UpdateTimeEntry, Changes, Db}
use timetrack.Entries.Repository.Rows.{iso, iso?, at?, at??, serialize}
use timetrack.Entries.Repository.Writes.{edited_row}
use timetrack.Entries.Service.{strict, resolve_subproject}
use timetrack.Entries.Edit.{
  same_id, next_if_changed, prev_if_changed, present, with_subproject, diff_after, diff_before,
  reassigns, full_diff,
}

-- Both sides of a diff are silent about a column, or the old side has its value.
abbrev Paired {ℓ} : {A : Type ℓ} → (before after : Option A) → A → Type ℓ
Paired {A = A} before after prev =
    ((before ≡ none) × (after ≡ none)) ⊎ ((x : A) × (before ≡ some prev) × (after ≡ some x))

changed-Paired {ℓ} :
    {A : Type ℓ} (same : A → A → Bool) (next : Option A) (prev : A)
    → Paired (prev_if_changed same next prev) (next_if_changed same next prev) prev
changed-Paired same none prev = inl (refl, refl)
changed-Paired same (some next) prev = elim (Bool-cases (same next prev)) [
  | inl unchanged ↦ rw unchanged (inl (refl, refl))
  | inr changed ↦ rw changed (inr (next, refl, refl))
]

pub record IsPaired (current : TimeEntry) (d : Changes × Changes) : Type 0 where
  project_id : Paired d.0.project_id d.1.project_id current.project_id
  task_id : Paired d.0.task_id d.1.task_id current.task_id
  subproject_id : Paired d.0.subproject_id d.1.subproject_id current.subproject_id
  start_time : Paired d.0.start_time d.1.start_time current.start_time
  end_time : Paired d.0.end_time d.1.end_time current.end_time
  source : Paired d.0.source d.1.source current.source
  note : Paired d.0.note d.1.note current.note

diff-IsPaired :
    (current : TimeEntry) (dto : UpdateTimeEntry)
    → IsPaired current (diff_before current dto, diff_after current dto)
unfolding diff_before diff_after
diff-IsPaired current dto = record {
  project_id = changed-Paired _ dto.project_id current.project_id;
  task_id = changed-Paired _ dto.task_id current.task_id;
  subproject_id = inl (refl, refl);
  start_time = changed-Paired _ dto.start_time current.start_time;
  end_time = changed-Paired _ dto.end_time current.end_time;
  source = changed-Paired _ dto.source current.source;
  note = changed-Paired _ (present dto.note) current.note;
}

with_subproject-IsPaired :
    (current : TimeEntry) (resolved : Option ℕ) (before after : Changes)
    → IsPaired current (before, after)
    → IsPaired current (with_subproject current.subproject_id resolved before after)
unfolding with_subproject
with_subproject-IsPaired current resolved before after p =
    elim (Bool-cases (same_id resolved current.subproject_id)) [
      | inl unchanged ↦ rw unchanged p
      | inr changed ↦ rw changed (record {
        project_id = p.project_id;
        task_id = p.task_id;
        subproject_id = inr (resolved, refl, refl);
        start_time = p.start_time;
        end_time = p.end_time;
        source = p.source;
        note = p.note;
      })
    ]

ok-pair : (c d : Changes × Changes) → ok c ≡ ok d → c ≡ d
ok-pair c d h = cc

split-IsPaired :
    (b : Bool) (m : Result (Option ℕ)) (current : TimeEntry) (before after : Changes)
    (d : Changes × Changes)
    → IsPaired current (before, after)
    → (if b
        then (m >>= λ r. ok (with_subproject current.subproject_id r before after))
        else ok (before, after))
      ≡ ok d
    → IsPaired current d
split-IsPaired true (ok r) current before after d p h =
    subst (IsPaired current) (ok-pair (with_subproject current.subproject_id r before after) d h)
      (with_subproject-IsPaired current r before after p)
split-IsPaired true (err e) current before after d p h = cc
split-IsPaired false m current before after d p h =
    subst (IsPaired current) (ok-pair (before, after) d h) p

pub full_diff-IsPaired :
    (current : TimeEntry) (dto : UpdateTimeEntry) (db : Db) (d : Changes × Changes)
    → full_diff current dto db ≡ ok d
    → IsPaired current d
unfolding full_diff
full_diff-IsPaired current dto db d h =
    split-IsPaired (reassigns dto (diff_after current dto))
      (resolve_subproject (or_else dto.project_id current.project_id)
        (or_else dto.task_id current.task_id) (or_else dto.subproject_id none) strict db)
      current (diff_before current dto) (diff_after current dto) d (diff-IsPaired current dto) h

-- A column of the audit row: it is absent and the column is kept, or it has the old and the new
-- value, where `value` reads the recorded form.
abbrev pub Column : {A B : Type 0} → (A → B) → (before after : Option A) → (old new : B) → Type 0
Column {A = A} value before after old new =
    ((before ≡ none) × (after ≡ none) × (new ≡ old))
    ⊎ ((y x : A) × (before ≡ some y) × (after ≡ some x) × (value y ≡ old) × (value x ≡ new))

abbrev pub plain : {A : Type 0} → A → A
plain a = a

-- The audit row of an edit against the row before and after it.
pub record IsRecorded (before after : Changes) (old new : Entry) : Type 0 where
  pub project_id : Column plain before.project_id after.project_id old.project_id new.project_id
  pub task_id : Column plain before.task_id after.task_id old.task_id new.task_id
  pub subproject_id :
      Column plain before.subproject_id after.subproject_id old.subproject_id new.subproject_id
  pub start_time :
      Column (λ i. i.at) before.start_time after.start_time old.start_time new.start_time
  pub end_time : Column at? before.end_time after.end_time old.end_time new.end_time
  pub source : Column plain before.source after.source old.source new.source
  pub note : Column plain before.note after.note old.note new.note

plain-Column :
    {A : Type 0} (before after : Option A) (prev : A)
    → Paired before after prev
    → Column plain before after prev (or_else after prev)
plain-Column before after prev (inl (b, a)) = inl (b, a, rw a refl)
plain-Column before after prev (inr (x, b, a)) = inr (prev, x, b, a, refl, rw a refl)

start-Column :
    (before after : Option Iso) (prev : ℕ)
    → Paired before after (iso prev)
    → Column (λ i. i.at) before after prev (or_else (at? after) prev)
start-Column before after prev (inl (b, a)) = inl (b, a, rw a refl)
start-Column before after prev (inr (x, b, a)) = inr (iso prev, x, b, a, refl, rw a refl)

at-iso : (t : Option ℕ) → at? (iso? t) ≡ t
at-iso none = refl
at-iso (some t) = refl

end-Column :
    (before after : Option (Option Iso)) (prev : Option ℕ)
    → Paired before after (iso? prev)
    → Column at? before after prev (or_else (at?? after) prev)
end-Column before after prev (inl (b, a)) = inl (b, a, rw a refl)
end-Column before after prev (inr (x, b, a)) = inr (iso? prev, x, b, a, at-iso prev, rw a refl)

pub edited_row-IsRecorded :
    (now actor_id : ℕ) (e : Entry) (before after : Changes)
    → IsPaired (serialize e) (before, after)
    → IsRecorded before after e (edited_row after actor_id now e)
unfolding edited_row serialize
edited_row-IsRecorded now actor_id e before after p = record {
  project_id = plain-Column before.project_id after.project_id e.project_id p.project_id;
  task_id = plain-Column before.task_id after.task_id e.task_id p.task_id;
  subproject_id =
      plain-Column before.subproject_id after.subproject_id e.subproject_id p.subproject_id;
  start_time = start-Column before.start_time after.start_time e.start_time p.start_time;
  end_time = end-Column before.end_time after.end_time e.end_time p.end_time;
  source = plain-Column before.source after.source e.source p.source;
  note = plain-Column before.note after.note e.note p.note;
}
