-- ===== src/Entries/Applies.antt =====
-- What a successful edit writes: the patch over the stored entry, field by field.
use timetrack.Prelude.{
  ℕ, ◌≡◌, refl, sym, ap, subst, Bool, true, false, Option, none, some, arith, eq_iff, String,
  or_else, inl, inr, if◌then◌else◌, ◌⊎◌, Bool-cases,
}
use timetrack.Errors.{Result, ok, err, ◌>>=◌}
use timetrack.Entries.Model.{EntrySource, Iso, Entry, TimeEntry, UpdateTimeEntry, Changes, Db}
use timetrack.Entries.Repository.Rows.{iso, iso?, at?, at??, serialize}
use timetrack.Entries.Repository.Writes.{edited_row}
use timetrack.Entries.Service.{strict, resolve_subproject}
use timetrack.Entries.Edit.{
  same_id, same_iso, same_iso?, same_source, same_note, next_if_changed, present, with_subproject,
  diff_after, diff_before, reassigns, full_diff,
}

same_id-eq : (a b : Option ℕ) → same_id a b ≡ true → a ≡ b
same_id-eq none none h = refl
same_id-eq none (some b) h = cc
same_id-eq (some a) none h = cc
same_id-eq (some a) (some b) h = ground arith

same_source-eq : (a b : EntrySource) → same_source a b ≡ true → a ≡ b
same_source-eq EntrySource.manual EntrySource.manual h = refl
same_source-eq EntrySource.manual EntrySource.auto h = cc
same_source-eq EntrySource.auto EntrySource.manual h = cc
same_source-eq EntrySource.auto EntrySource.auto h = refl

same_note-eq : (a b : Option String) → same_note a b ≡ true → a ≡ b
same_note-eq none none h = refl
same_note-eq none (some b) h = cc
same_note-eq (some a) none h = cc
same_note-eq (some a) (some b) h = ground (arith, eq_iff a b)

-- Writing the changed value is writing the patched one, where `===` tells values apart.
merged {ℓ} :
    {A : Type ℓ} (same : A → A → Bool) (sound : (a b : A) → same a b ≡ true → a ≡ b)
    (next : Option A) (prev : A)
    → or_else (next_if_changed same next prev) prev ≡ or_else next prev
merged same sound none prev = refl
merged same sound (some next) prev = elim (Bool-cases (same next prev)) [
  | inl unchanged ↦ rw unchanged (sym (sound next prev unchanged))
  | inr changed ↦ rw changed refl
]

merged_start :
    (next : Option Iso) (prev : ℕ)
    → or_else (at? (next_if_changed same_iso next (iso prev))) prev ≡ (or_else next (iso prev)).at
merged_start none prev = refl
merged_start (some next) prev = ground arith

merged_end :
    (next : Option (Option Iso)) (prev : Option ℕ)
    → or_else (at?? (next_if_changed same_iso? next (iso? prev))) prev
      ≡ at? (or_else next (iso? prev))
merged_end none none = refl
merged_end none (some prev) = refl
merged_end (some none) none = refl
merged_end (some none) (some prev) = refl
merged_end (some (some next)) none = refl
merged_end (some (some next)) (some prev) = ground arith

-- The assignment after the patch, as the subproject resolution reads it.
abbrev pub reassigned : UpdateTimeEntry → Entry → Db → Result (Option ℕ)
reassigned dto e db =
    resolve_subproject (or_else dto.project_id e.project_id) (or_else dto.task_id e.task_id)
      (or_else dto.subproject_id none) strict db

-- The edited row `e'` against the stored row `e`: each patched field has the patch's value, the
-- others are kept, and the editor is stamped. The subproject is kept, or it is resolved anew from
-- the patched assignment.
pub record Applied (now : ℕ) (dto : UpdateTimeEntry) (actor_id : ℕ) (db : Db) (e e' : Entry)
    : Type 0 where
  pub id : e'.id ≡ e.id
  pub user_id : e'.user_id ≡ e.user_id
  pub project_id : e'.project_id ≡ or_else dto.project_id e.project_id
  pub task_id : e'.task_id ≡ or_else dto.task_id e.task_id
  pub subproject_id :
      (e'.subproject_id ≡ e.subproject_id) ⊎ (reassigned dto e db ≡ ok e'.subproject_id)
  pub start_time : e'.start_time ≡ (or_else dto.start_time (iso e.start_time)).at
  pub end_time : e'.end_time ≡ at? (or_else dto.end_time (iso? e.end_time))
  pub source : e'.source ≡ or_else dto.source e.source
  pub note : e'.note ≡ or_else (present dto.note) e.note
  pub edited_by_id : e'.edited_by_id ≡ some actor_id
  pub edited_at : e'.edited_at ≡ some now
  pub heartbeat_at : e'.heartbeat_at ≡ e.heartbeat_at
  pub platform : e'.platform ≡ e.platform
  pub team_id : e'.team_id ≡ e.team_id

-- The two sides of a diff agree but for the subproject.
pub record SameBut (after after' : Changes) : Type 0 where
  pub project_id : after'.project_id ≡ after.project_id
  pub task_id : after'.task_id ≡ after.task_id
  pub start_time : after'.start_time ≡ after.start_time
  pub end_time : after'.end_time ≡ after.end_time
  pub source : after'.source ≡ after.source
  pub note : after'.note ≡ after.note

with_subproject-SameBut :
    (stored resolved : Option ℕ) (before after : Changes)
    → SameBut after (with_subproject stored resolved before after).1
unfolding with_subproject
with_subproject-SameBut stored resolved before after = ground arith

-- The subproject that an edit leaves: the resolved one.
with_subproject-value :
    (stored resolved : Option ℕ) (before after : Changes)
    → after.subproject_id ≡ none
    → or_else (with_subproject stored resolved before after).1.subproject_id stored ≡ resolved
unfolding with_subproject
with_subproject-value stored resolved before after h = elim (Bool-cases (same_id resolved stored)) [
  | inl unchanged ↦ ground (arith, same_id-eq resolved stored unchanged)
  | inr changed ↦ ground arith
]

ok-injective : (c d : Changes × Changes) → ok c ≡ ok d → c ≡ d
ok-injective c d h = cc

SameBut-refl : (after : Changes) → SameBut after after
SameBut-refl after = ground arith

-- How the resolved subproject enters the diff.
abbrev pub Resolves : Result (Option ℕ) → Option ℕ → Changes → Type 0
Resolves m stored after =
    (after.subproject_id ≡ none) ⊎ (m ≡ ok (or_else after.subproject_id stored))

split_diff :
    (b : Bool) (m : Result (Option ℕ)) (stored : Option ℕ) (before after : Changes)
    (d : Changes × Changes)
    → after.subproject_id ≡ none
    → (if b then (m >>= λ r. ok (with_subproject stored r before after)) else ok (before, after))
      ≡ ok d
    → SameBut after d.1 × Resolves m stored d.1
split_diff true (ok r) stored before after d n h =
    let c = with_subproject stored r before after in
    let q = ok-injective c d h in
    subst (λ x. SameBut after x.1 × Resolves (ok r) stored x.1) q
      (
        with_subproject-SameBut stored r before after,
        inr (ap ok (sym (with_subproject-value stored r before after n))),
      )
split_diff true (err e) stored before after d n h = cc
split_diff false m stored before after d n h =
    subst (λ x. SameBut after x.1 × Resolves m stored x.1) (ok-injective (before, after) d h)
      (SameBut-refl after, inl n)

pub full_diff-SameBut :
    (current : TimeEntry) (dto : UpdateTimeEntry) (db : Db) {d : Changes × Changes}
    → full_diff current dto db ≡ ok d
    → SameBut (diff_after current dto) d.1
      × Resolves
          (resolve_subproject
            (or_else dto.project_id current.project_id)
            (or_else dto.task_id current.task_id)
            (or_else dto.subproject_id none)
            strict
            db)
          current.subproject_id
          d.1
unfolding full_diff
full_diff-SameBut current dto db {d = d} h =
    split_diff (reassigns dto (diff_after current dto))
      (resolve_subproject (or_else dto.project_id current.project_id)
        (or_else dto.task_id current.task_id) (or_else dto.subproject_id none) strict db)
      current.subproject_id (diff_before current dto) (diff_after current dto) d
      (unfold diff_after in refl) h

-- The written row, for a diff of the stored row.
pub edited_row-Applied :
    (now : ℕ) (dto : UpdateTimeEntry) (actor_id : ℕ) (db : Db) (e : Entry) (after : Changes)
    → SameBut (diff_after (serialize e) dto) after
    → Resolves (reassigned dto e db) e.subproject_id after
    → Applied now dto actor_id db e (edited_row after actor_id now e)
unfolding edited_row diff_after serialize
edited_row-Applied now dto actor_id db e after s r = record {
  id = refl;
  user_id = refl;
  project_id = rw s.project_id (merged same_id same_id-eq dto.project_id e.project_id);
  task_id = rw s.task_id (merged same_id same_id-eq dto.task_id e.task_id);
  subproject_id = elim r [ inl kept ↦ inl (rw kept refl) | inr found ↦ inr found ];
  start_time = rw s.start_time (merged_start dto.start_time e.start_time);
  end_time = rw s.end_time (merged_end dto.end_time e.end_time);
  source = rw s.source (merged same_source same_source-eq dto.source e.source);
  note = rw s.note (merged same_note same_note-eq (present dto.note) e.note);
  edited_by_id = refl;
  edited_at = refl;
  heartbeat_at = refl;
  platform = refl;
  team_id = refl;
}
