-- ===== src/Entries/Isolation/Requests.antt =====
-- No request changes the entries of a user whom its actor may not access.
use timetrack.Prelude.{ℕ, ◌≡◌, ◌≢◌, sym, subst, ◌∙◌, some, List, arith, Option-cases, inl, inr}
use timetrack.Errors.{ok, err, forbidden_user}
use timetrack.Access.{User, SessionUser, assert_can_access_user}
use timetrack.Entries.Model.{Entry, TimeEntry, Db}
use timetrack.Entries.Table.{find_row}
use timetrack.Entries.Repository.Rows.{serialize}
use timetrack.Entries.Repository.Reads.{find_for_edit}
use timetrack.Entries.Service.{target_user, may_write_for}
use timetrack.Entries.Requests.{Request, handle}
use timetrack.Entries.Index.{IsIndexed}
use timetrack.Entries.Inversion.{upsert-inv, create_manual-inv, remove-inv, edit-inv}
use timetrack.Entries.Serving.{handle-upsert, handle-create_manual, handle-edit, handle-remove}
use timetrack.Entries.Isolation.{
  owned, owned-upsert, owned-create_manual, owned-remove, owned-update,
}

-- The user is out of the actor's reach.
abbrev pub IsForbidden : List User → SessionUser → ℕ → Type 0
IsForbidden users actor u = assert_can_access_user users actor u ≡ err forbidden_user

self-ne :
    (users : List User) (actor : SessionUser) (u : ℕ) → IsForbidden users actor u → actor.id ≢ u
unfolding assert_can_access_user
self-ne users actor u barred q = ground arith

allowed-ne :
    (users : List User) (actor : SessionUser) (u target : ℕ)
    → IsForbidden users actor u
    → assert_can_access_user users actor target ≡ ok tt
    → target ≢ u
allowed-ne users actor u target barred granted q =
    cc (subst (λ t. assert_can_access_user users actor t ≡ ok tt) q granted)

may_write-ne :
    (actor : SessionUser) (u target : ℕ) (db : Db)
    → IsForbidden db.users actor u
    → may_write_for target actor db ≡ ok tt
    → target ≢ u
unfolding may_write_for
may_write-ne actor u target db barred granted =
    ground (arith, self-ne db.users actor u barred, allowed-ne db.users actor u target barred)

-- The row behind what `find_for_edit` returns.
found_row :
    (id : ℕ) (db : Db) (current : TimeEntry)
    → find_for_edit id db ≡ some current
    → (e : Entry) × (find_row id db.entries ≡ some e) × (e.user_id ≡ current.user_id)
unfolding find_for_edit serialize
found_row id db current h = elim (Option-cases (find_row id db.entries)) [
  | inl missing ↦ ground arith
  | inr (e, found) ↦ (e, found, ground arith)
]

-- A request that succeeds leaves the entries of every user whom its actor may not access exactly
-- as they were, in a table that satisfies its constraints.
pub handle-isolates :
    (freshness_seconds now : ℕ) (actor : SessionUser) (request : Request) (db : Db) {db' : Db}
    (u : ℕ)
    → IsIndexed db.entries
    → IsForbidden db.users actor u
    → handle freshness_seconds now actor request db ≡ ok db'
    → owned u db'.entries ≡ owned u db.entries
handle-isolates freshness_seconds now actor (Request.upsert dto) db u h barred w =
    let (reply, done, same) = handle-upsert freshness_seconds now actor dto db w in
    let (sub, written) = upsert-inv freshness_seconds now dto actor db done in
    subst (λ d. owned u d.entries ≡ owned u db.entries) same
      (owned-upsert u freshness_seconds now dto actor.id sub db (self-ne db.users actor u barred) h
        written)
handle-isolates freshness_seconds now actor (Request.create_manual dto) db u h barred w =
    let (reply, done, same) = handle-create_manual freshness_seconds now actor dto db w in
    let c = create_manual-inv now dto actor db done in
    subst (λ d. owned u d.entries ≡ owned u db.entries) same
      (owned-create_manual u now dto (target_user dto actor) actor.id c.subproject_id db
        (may_write-ne actor u (target_user dto actor) db barred c.allowed) c.written)
handle-isolates freshness_seconds now actor (Request.edit id dto) db u h barred w =
    let (reply, done, same) = handle-edit freshness_seconds now actor id dto db w in
    let c = edit-inv now id dto actor db done in
    let (e, found, own) = found_row id db c.current c.found in
    subst (λ d. owned u d.entries ≡ owned u db.entries) same
      (owned-update u now id c.after c.before actor.id db e found
        (λ q. allowed-ne db.users actor u c.current.user_id barred c.allowed (sym own ∙ q)) h
        c.written)
handle-isolates freshness_seconds now actor (Request.remove id) db u h barred w =
    let (reply, done, same) = handle-remove freshness_seconds now actor id db w in
    let c = remove-inv id actor db done in
    let (e, found, own) = found_row id db c.current c.found in
    subst (λ d. owned u d.entries ≡ owned u db.entries) same
      (owned-remove u id actor.id db e found
        (λ q. allowed-ne db.users actor u c.current.user_id barred c.allowed (sym own ∙ q)) h
        c.written)
