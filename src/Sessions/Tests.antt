-- ===== src/Sessions/Tests.antt =====
-- The refresh tokens at concrete inputs: one user, signed in on one machine.
use timetrack.Prelude.{ℕ, ◌+◌, ◌≡◌, ◌≢◌, refl, Option, none, some, List, [], ◌∷◌, arith, All}
use timetrack.Access.{Role}
use timetrack.Errors.{invalid_token}
use timetrack.Sessions.Model.{Token, AuthIdentity, Store, Draw, Config}
use timetrack.Sessions.Store.{find_refresh_token, find_identity_by_id}
use timetrack.Sessions.Requests.{Stage, Turn, play, run, pair}
use timetrack.Sessions.Keys.{IsKeyed}
use timetrack.Sessions.Monotone.{Found}
use timetrack.Sessions.Interleaving.{play-Stays}
use timetrack.Sessions.Logout.{play-logged_out}
use timetrack.Sessions.Rotation.{others, successor, run-rotates, run-graced}
use timetrack.Sessions.Reuse.{IsDead, outside, run-reuse}
use timetrack.Sessions.Races.{run-raced, logout-overtaken, logged_out}

abbrev cfg : Config
cfg = record {
  hash = λ x. 1000 + x;
  sign = λ c. c.sub;
  access_ttl_seconds = 900;
  refresh_ttl_seconds = 3600;
  grace_seconds = 10;
}

abbrev draw : (now secret id : ℕ) → Draw
draw now secret id = record { now = now; secret = secret; fresh_id = id }

-- The token 5 of user 7, in its family.
abbrev row : (revoked_at replaced_by_id : Option ℕ) → Token
row revoked_at replaced_by_id = record {
  id = 1;
  user_id = 7;
  token_hash = 1005;
  expires_at = 500000;
  family_id = 3;
  revoked_at = revoked_at;
  replaced_by_id = replaced_by_id;
}

-- A token of another sign-in.
abbrev elsewhere : Token
elsewhere = record {
  id = 2;
  user_id = 7;
  token_hash = 1006;
  expires_at = 500000;
  family_id = 4;
  revoked_at = none;
  replaced_by_id = none;
}

abbrev alice : AuthIdentity
alice = record { id = 7; role = Role.employee; team_id = 1; deactivated_at = none }

abbrev store : Token → Store
store t = record { tokens = t ∷ elsewhere ∷ []; users = alice ∷ [] }

abbrev live : Token
live = row none none

abbrev rotated_row : Token
rotated_row = row (some 20000) (some 8)

abbrev logged_out_row : Token
logged_out_row = row (some 20000) none

-- A refresh of the token, with a logout of it among its statements.
abbrev turns : List Turn
turns =
    Turn.own (draw 21000 0 0)
    ∷ Turn.other (draw 22000 0 0) (Stage.revoking 1)
    ∷ Turn.own (draw 23000 0 0)
    ∷ Turn.own (draw 24000 31 9)
    ∷ Turn.own (draw 25000 0 0)
    ∷ Turn.own (draw 26000 33 10)
    ∷ []

keyed : (t : Token) → t.id ≢ 2 → t.token_hash ≢ 1006 → IsKeyed (store t).tokens
keyed t h k = ground arith

play-Stays_example :
    IsKeyed (play cfg turns (Stage.refreshing 5) (store live)).1.tokens
    × Found 1005 live (play cfg turns (Stage.refreshing 5) (store live)).1.tokens
play-Stays_example =
    play-Stays cfg turns (Stage.refreshing 5) (store live) 1005 live
      (keyed live (omega arith) (omega arith)) (unfold find_refresh_token in refl)

play-logged_out_example :
    (play cfg turns (Stage.presented 5 live 21000) (store logged_out_row)).0
    ≡ Stage.refused invalid_token
play-logged_out_example =
    play-logged_out cfg turns (Stage.presented 5 live 21000) (store logged_out_row) 5 logged_out_row
      (keyed logged_out_row (omega arith) (omega arith)) (unfold find_refresh_token in refl)
      (refl, refl) (refl, refl, refl) (omega arith)

run-rotates_example :
    (rows : List Token) × (run cfg
        (draw 21000 0 0 ∷ draw 21001 0 0 ∷ draw 21002 31 9 ∷ [])
        (Stage.refreshing 5)
        (store live)
      ≡ (Stage.served (pair cfg alice 31), record (store live) { tokens = rows }))
    × (find_refresh_token 1005 rows
        ≡ some (record live { revoked_at = some 21000; replaced_by_id = some 9 }))
    × (find_refresh_token 1031 rows ≡ some (successor cfg (draw 21002 31 9) alice 3))
    × (others 1005 rows
        ≡ others 1005 (successor cfg (draw 21002 31 9) alice 3 ∷ (store live).tokens))
run-rotates_example =
    run-rotates cfg (draw 21000 0 0) (draw 21001 0 0) (draw 21002 31 9) (store live) 5 live alice
      (keyed live (omega arith) (omega arith)) (unfold find_refresh_token in refl) (omega arith)
      refl (unfold find_identity_by_id in (refl, refl)) refl

run-graced_example :
    run cfg
      (draw 29000 0 0 ∷ draw 29001 0 0 ∷ draw 29002 31 9 ∷ [])
      (Stage.refreshing 5)
      (store rotated_row)
    ≡ (
      Stage.served (pair cfg alice 31),
      record (store rotated_row) {
        tokens = successor cfg (draw 29002 31 9) alice 3 ∷ (store rotated_row).tokens;
      },
    )
run-graced_example =
    run-graced cfg (draw 29000 0 0) (draw 29001 0 0) (draw 29002 31 9) (store rotated_row) 5 20000
      rotated_row alice (unfold find_refresh_token in refl) (omega arith) refl refl (omega arith)
      (unfold find_identity_by_id in (refl, refl)) refl

run-reuse_example :
    (rows : List Token) × (run cfg
        (draw 40000 0 0 ∷ draw 40001 0 0 ∷ [])
        (Stage.refreshing 5)
        (store rotated_row)
      ≡ (Stage.refused invalid_token, record (store rotated_row) { tokens = rows }))
    × All (IsDead 3) rows
    × (outside 3 rows ≡ outside 3 (store rotated_row).tokens)
run-reuse_example =
    run-reuse cfg (draw 40000 0 0) (draw 40001 0 0) (store rotated_row) 5 20000 rotated_row
      (unfold find_refresh_token in refl) (omega arith) refl refl (omega arith)

run-raced_example :
    run cfg
      (draw 20001 0 0 ∷ draw 20002 32 9 ∷ draw 20003 0 0 ∷ draw 20004 33 9 ∷ [])
      (Stage.presented 5 live 19999)
      (store rotated_row)
    ≡ (
      Stage.served (pair cfg alice 33),
      record (store rotated_row) {
        tokens = successor cfg (draw 20004 33 9) alice 3 ∷ (store rotated_row).tokens;
      },
    )
run-raced_example =
    run-raced cfg (draw 20001 0 0) (draw 20002 32 9) (draw 20003 0 0) (draw 20004 33 9)
      (store rotated_row) 5 19999 20000 live rotated_row alice
      (keyed rotated_row (omega arith) (omega arith)) (unfold find_refresh_token in refl)
      (refl, refl, refl) refl refl (omega arith) (unfold find_identity_by_id in (refl, refl)) refl

logout-overtaken_example :
    (run cfg
      (draw 69000 0 0 ∷ draw 69001 0 0 ∷ draw 69002 31 9 ∷ [])
      (Stage.refreshing 5)
      (logged_out cfg (draw 60000 0 0) 1 (store rotated_row))).0
    ≡ Stage.served (pair cfg alice 31)
logout-overtaken_example =
    logout-overtaken cfg (draw 60000 0 0) (draw 69000 0 0) (draw 69001 0 0) (draw 69002 31 9)
      (store rotated_row) 5 rotated_row alice (unfold find_refresh_token in refl) refl (omega arith)
      (omega arith) (unfold find_identity_by_id in (refl, refl)) refl
