-- ===== src/Entries/Serving.antt =====
-- Whatever the requests, ids stay unique and no user has two open entries.
use timetrack.Prelude.{ℕ, ◌≡◌, refl, List, [], ◌∷◌, subst, not}
use timetrack.Errors.{Result, ok, err, ◌>>=◌, throw_if-eq-ok, invalid_body}
use timetrack.Access.{SessionUser}
use timetrack.Entries.Model.{CreateTimeEntry, CreateManualTimeEntry, UpdateTimeEntry, Db}
use timetrack.Entries.Schema.{create_accepts, update_accepts, manual_accepts}
use timetrack.Entries.Service
use timetrack.Entries.Service.{target_user}
use timetrack.Entries.Edit
use timetrack.Entries.Requests.{Request, Call, handle, settle, serve}
use timetrack.Entries.Index.{IsIndexed}
use timetrack.Entries.Invariant.{
  upsert-IsIndexed, create_manual-IsIndexed, remove-IsIndexed, update_lem-IsIndexed,
}
use timetrack.Entries.Inversion.{upsert-inv, create_manual-inv, remove-inv, edit-inv}

-- A reply of the service whose tables are those that the route returns.
abbrev Answers {ℓ} : {A : Type ℓ} → Result (A × Db) → Db → Type ℓ
Answers {A = A} m db' = (reply : A × Db) × (m ≡ ok reply) × (reply.1 ≡ db')

answers {ℓ} :
    {A : Type ℓ} (m : Result (A × Db)) {db' : Db}
    → (m >>= λ (r : A × Db). ok r.1) ≡ ok db'
    → Answers m db'
answers (ok r) h = (r, refl, cc)
answers (err e) h = cc

-- A request that succeeds has passed its body check, and has the tables of the service's reply.
pub handle-upsert :
    (freshness_seconds now : ℕ) (actor : SessionUser) (dto : CreateTimeEntry) (db : Db) {db' : Db}
    → handle freshness_seconds now actor (Request.upsert dto) db ≡ ok db'
    → Answers (Service.upsert freshness_seconds now dto actor db) db'
unfolding handle
handle-upsert freshness_seconds now actor dto db h =
    answers (Service.upsert freshness_seconds now dto actor db)
      (throw_if-eq-ok (not (create_accepts dto)) invalid_body
        (Service.upsert freshness_seconds now dto actor db >>= λ r. ok r.1) h).1

pub handle-create_manual :
    (freshness_seconds now : ℕ) (actor : SessionUser) (dto : CreateManualTimeEntry) (db : Db)
    {db' : Db}
    → handle freshness_seconds now actor (Request.create_manual dto) db ≡ ok db'
    → Answers (Service.create_manual now dto actor db) db'
unfolding handle
handle-create_manual freshness_seconds now actor dto db h =
    answers (Service.create_manual now dto actor db)
      (throw_if-eq-ok (not (manual_accepts dto)) invalid_body
        (Service.create_manual now dto actor db >>= λ r. ok r.1) h).1

pub handle-edit :
    (freshness_seconds now : ℕ) (actor : SessionUser) (id : ℕ) (dto : UpdateTimeEntry) (db : Db)
    {db' : Db}
    → handle freshness_seconds now actor (Request.edit id dto) db ≡ ok db'
    → Answers (Edit.edit now id dto actor db) db'
unfolding handle
handle-edit freshness_seconds now actor id dto db h =
    answers (Edit.edit now id dto actor db)
      (throw_if-eq-ok (not (update_accepts dto)) invalid_body
        (Edit.edit now id dto actor db >>= λ r. ok r.1) h).1

pub handle-remove :
    (freshness_seconds now : ℕ) (actor : SessionUser) (id : ℕ) (db : Db) {db' : Db}
    → handle freshness_seconds now actor (Request.remove id) db ≡ ok db'
    → Answers (Service.remove id actor db) db'
unfolding handle
handle-remove freshness_seconds now actor id db h = answers (Service.remove id actor db) h

handle-IsIndexed :
    (freshness_seconds now : ℕ) (actor : SessionUser) (request : Request) (db : Db) {db' : Db}
    → IsIndexed db.entries
    → handle freshness_seconds now actor request db ≡ ok db'
    → IsIndexed db'.entries
handle-IsIndexed freshness_seconds now actor (Request.upsert dto) db h w =
    let (reply, done, same) = handle-upsert freshness_seconds now actor dto db w in
    let (sub, written) = upsert-inv freshness_seconds now dto actor db done in
    subst (λ d. IsIndexed d.entries) same
      (upsert-IsIndexed freshness_seconds now dto actor.id sub db h written)
handle-IsIndexed freshness_seconds now actor (Request.create_manual dto) db h w =
    let (reply, done, same) = handle-create_manual freshness_seconds now actor dto db w in
    let c = create_manual-inv now dto actor db done in
    subst (λ d. IsIndexed d.entries) same
      (create_manual-IsIndexed now dto (target_user dto actor) actor.id c.subproject_id db h
        c.written)
handle-IsIndexed freshness_seconds now actor (Request.edit id dto) db h w =
    let (reply, done, same) = handle-edit freshness_seconds now actor id dto db w in
    let c = edit-inv now id dto actor db done in
    subst (λ d. IsIndexed d.entries) same
      (update_lem-IsIndexed now id c.after c.before actor.id db h c.written)
handle-IsIndexed freshness_seconds now actor (Request.remove id) db h w =
    let (reply, done, same) = handle-remove freshness_seconds now actor id db w in
    let c = remove-inv id actor db done in
    subst (λ d. IsIndexed d.entries) same (remove-IsIndexed id actor.id db h c.written)

settle-IsIndexed :
    (db : Db) (r : Result Db)
    → IsIndexed db.entries
    → ((db' : Db) → r ≡ ok db' → IsIndexed db'.entries)
    → IsIndexed (settle db r).entries
settle-IsIndexed db (ok db') h k = k db' refl
settle-IsIndexed db (err e) h k = h

-- From tables in which ids are unique and no user has two open entries, any sequence of syncs,
-- manual entries, edits and deletions, by any actors, accepted or refused, leads to such tables.
pub serve-IsIndexed :
    (freshness_seconds : ℕ) (calls : List Call) (db : Db)
    → IsIndexed db.entries
    → IsIndexed (serve freshness_seconds calls db).entries
unfolding serve
serve-IsIndexed freshness_seconds [] db h = h
serve-IsIndexed freshness_seconds (c ∷ calls) db h =
    let r = handle freshness_seconds c.now c.actor c.request db in
    serve-IsIndexed freshness_seconds calls (settle db r) (
      settle-IsIndexed db r h (λ db' done.
        handle-IsIndexed freshness_seconds c.now c.actor c.request db {db' = db'} h done))
