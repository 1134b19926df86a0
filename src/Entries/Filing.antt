-- ===== src/Entries/Filing.antt =====
-- What a hand-entered span has passed, and that no instant of it is counted twice.
use timetrack.Prelude.{
  ℕ, ◌+◌, ◌≤◌, ◌<◌, ◌≡◌, ◌⊎◌, inl, inr, sym, subst, ◌∙◌, true, false, Option, some, List, [], ◌∷◌,
  arith, any, All, Any, Pairs,
}
use timetrack.Errors.{ok}
use timetrack.Access.{SessionUser, assert_can_access_user}
use timetrack.Entries.Model.{
  EntrySource, Entry, TimeEntry, CreateManualTimeEntry, Db, user, created,
}
use timetrack.Entries.Schema.{manual_accepts}
use timetrack.Entries.Table.{has_id, stamp_team}
use timetrack.Entries.Repository.Writes
use timetrack.Entries.Repository.Writes.{manual_row}
use timetrack.Entries.Service
use timetrack.Entries.Service.{target_user, may_write_for, future_tolerance_ms}
use timetrack.Entries.Inversion.{create_manual-inv}
use timetrack.Entries.Overlap.{Covers, Clashes, has_overlap_iff}

-- Two entries of one user have no instant in common.
abbrev pub Disjoint : Entry → Entry → Type 0
Disjoint a b = a.user_id ≡ b.user_id → (t : ℕ) → Covers a t → Covers b t → ⊥

-- No instant is covered by two entries of one user.
abbrev pub IsDisjoint : List Entry → Type 0
IsDisjoint rows = Pairs Disjoint rows

-- The stored row of a filed entry.
abbrev pub filed_row : (now : ℕ) → CreateManualTimeEntry → SessionUser → Option ℕ → Db → Entry
filed_row now dto actor subproject_id db =
    stamp_team db.users (manual_row dto (target_user dto actor) actor.id subproject_id now)

written_rows :
    (now : ℕ) (dto : CreateManualTimeEntry) (actor : SessionUser) (s : Option ℕ) (db : Db)
    {reply : TimeEntry × Db}
    → Writes.create_manual now dto (target_user dto actor) actor.id s db ≡ ok reply
    → (reply.1.entries ≡ filed_row now dto actor s db ∷ db.entries)
      × (any (has_id dto.id) db.entries ≡ false)
unfolding Writes.create_manual
written_rows now dto actor s db {reply = reply} w = ground arith

-- The instants of a filed entry are those of its body.
filed-Covers :
    (now : ℕ) (dto : CreateManualTimeEntry) (actor : SessionUser) (s : Option ℕ) (db : Db) (t : ℕ)
    → Covers (filed_row now dto actor s db) t
    → (dto.start_time.at ≤ t) × (t < dto.end_time.at)
unfolding stamp_team manual_row
filed-Covers now dto actor s db t c = ground arith

filed-owner :
    (now : ℕ) (dto : CreateManualTimeEntry) (actor : SessionUser) (s : Option ℕ) (db : Db)
    → (filed_row now dto actor s db).user_id ≡ target_user dto actor
unfolding stamp_team manual_row
filed-owner now dto actor s db = ground arith

module _ (now : ℕ) (dto : CreateManualTimeEntry) (actor : SessionUser) (s : Option ℕ)
    (db : Db) where
  filed-Disjoint :
      (rows : List Entry)
      → any (has_id dto.id) rows ≡ false
      → ¬ Any (Clashes (target_user dto actor) dto.id dto.start_time.at dto.end_time.at) rows
      → All (Disjoint (filed_row now dto actor s db)) rows
  filed-Disjoint [] fresh free = tt
  filed-Disjoint (e ∷ rows) fresh free = (
    λ own t mine theirs.
        let (above, below) = filed-Covers now dto actor s db t mine in
        free (
          inl (
            sym own ∙ filed-owner now dto actor s db,
            λ q. ground arith,
            (t, above, below, theirs),
          )),
    filed-Disjoint rows (ground arith) (λ m. free (inr m)),
  )

-- If no instant was counted twice for any user, an accepted manual entry keeps it so.
pub create_manual-IsDisjoint :
    (now : ℕ) (dto : CreateManualTimeEntry) (actor : SessionUser) (db : Db) {reply : TimeEntry × Db}
    → manual_accepts dto ≡ true
    → IsDisjoint db.entries
    → Service.create_manual now dto actor db ≡ ok reply
    → IsDisjoint reply.1.entries
unfolding manual_accepts
create_manual-IsDisjoint now dto actor db {reply = reply} accepted h w =
    let c = create_manual-inv now dto actor db w in
    let (rows, fresh) = written_rows now dto actor c.subproject_id db c.written in
    let long : dto.start_time.at < dto.end_time.at = ground arith in
    let overlap =
      has_overlap_iff (target_user dto actor) dto.id dto.start_time.at dto.end_time.at long db in
    subst IsDisjoint (sym rows) (
      filed-Disjoint now dto actor c.subproject_id db db.entries fresh
          (λ m. false-ne (sym c.free ∙ overlap.1 m)),
      h,
    )
  where
    false-ne : false ≡ true → ⊥
    false-ne q = cc

-- The outcome of a manual entry.
pub record IsFiled (now : ℕ) (dto : CreateManualTimeEntry) (actor : SessionUser) (db : Db)
    (reply : TimeEntry × Db) : Type 0 where
  pub not_future : dto.end_time.at ≤ now + 60000
  pub permitted :
      (target_user dto actor ≡ actor.id)
      ⊎ (assert_can_access_user db.users actor (target_user dto actor) ≡ ok tt)
  pub row : Entry
  pub rows : reply.1.entries ≡ row ∷ db.entries
  pub fresh : any (has_id dto.id) db.entries ≡ false
  pub owner : row.user_id ≡ target_user dto actor
  pub source : row.source ≡ EntrySource.manual
  pub end_time : row.end_time ≡ some dto.end_time.at
  pub editor : row.edited_by_id ≡ some actor.id
  pub subproject_id : Option ℕ
  pub log :
      reply.1.audit
      ≡ record {
        actor = user actor.id;
        target_id = dto.id;
        diff =
            created
              (target_user dto actor)
              dto.start_time
              dto.end_time
              dto.project_id
              dto.task_id
              subproject_id;
      }
        ∷ db.audit

permitted_lem :
    (target : ℕ) (actor : SessionUser) (db : Db)
    → may_write_for target actor db ≡ ok tt
    → (target ≡ actor.id) ⊎ (assert_can_access_user db.users actor target ≡ ok tt)
unfolding may_write_for
permitted_lem target actor db h = ground arith

-- A manual entry that was accepted ends no more than a minute after the clock, was filed by its
-- owner or by someone who may access the owner, is stored closed under the manual source as the one
-- new row, and left one audit row that names the actor and the owner.
pub create_manual-IsFiled :
    (now : ℕ) (dto : CreateManualTimeEntry) (actor : SessionUser) (db : Db) {reply : TimeEntry × Db}
    → Service.create_manual now dto actor db ≡ ok reply
    → IsFiled now dto actor db reply
unfolding Writes.create_manual stamp_team
create_manual-IsFiled now dto actor db {reply = reply} w =
    let c = create_manual-inv now dto actor db w in
    let (rows, fresh) = written_rows now dto actor c.subproject_id db c.written in
    let early = c.not_future in
    let written = c.written in
    record {
      not_future = ground arith;
      permitted = permitted_lem (target_user dto actor) actor db c.allowed;
      row = filed_row now dto actor c.subproject_id db;
      rows = rows;
      fresh = fresh;
      owner = filed-owner now dto actor c.subproject_id db;
      source = ground arith;
      end_time = ground arith;
      editor = ground arith;
      subproject_id = c.subproject_id;
      log = ground arith;
    }
