-- ===== src/Entries/Requests.antt =====
-- apps/api/src/modules/time-entries/time-entries.controller.ts: the four writing routes behind
-- their body checks, and a server that handles one request after the other.
use timetrack.Prelude.{ℕ, List, [], ◌∷◌, not}
use timetrack.Errors.{Result, ok, err, ◌>>=◌, ◌>>◌, throw_if, invalid_body}
use timetrack.Access.{SessionUser}
use timetrack.Entries.Model.{CreateTimeEntry, CreateManualTimeEntry, UpdateTimeEntry, Db}
use timetrack.Entries.Schema.{create_accepts, update_accepts, manual_accepts}
use timetrack.Entries.Service
use timetrack.Entries.Edit

pub data Request : Type 0 where
  upsert : CreateTimeEntry → Request
  create_manual : CreateManualTimeEntry → Request
  edit : ℕ → UpdateTimeEntry → Request
  remove : ℕ → Request

-- The new tables, or the error.
unfoldable pub handle : (freshness_seconds now : ℕ) → SessionUser → Request → Db → Result Db
handle freshness_seconds now actor (upsert dto) db = do
  throw_if (not (create_accepts dto)) invalid_body
  (entry, db') ← Service.upsert freshness_seconds now dto actor db
  ok db'
handle freshness_seconds now actor (create_manual dto) db = do
  throw_if (not (manual_accepts dto)) invalid_body
  (entry, db') ← Service.create_manual now dto actor db
  ok db'
handle freshness_seconds now actor (edit id dto) db = do
  throw_if (not (update_accepts dto)) invalid_body
  (entry, db') ← Edit.edit now id dto actor db
  ok db'
handle freshness_seconds now actor (remove id) db = do
  (done, db') ← Service.remove id actor db
  ok db'

-- A request as it arrives: the clock, the session and the body.
pub record Call : Type 0 where
  pub now : ℕ
  pub actor : SessionUser
  pub request : Request

-- After an error the tables are those from before.
abbrev pub settle : Db → Result Db → Db
settle db (ok db') = db'
settle db (err e) = db

unfoldable pub serve : (freshness_seconds : ℕ) → List Call → Db → Db
serve freshness_seconds [] db = db
serve freshness_seconds (c ∷ calls) db =
    serve freshness_seconds calls (settle db (handle freshness_seconds c.now c.actor c.request db))
