-- ===== src/Sessions/Answers.antt =====
-- How many statements a refresh or a logout takes.
use timetrack.Prelude.{ℕ, suc, ◌-◌, ◌≤◌, ◌≡◌, List, [], ◌∷◌, arith}
use timetrack.Sessions.Model.{AuthIdentity, Store, Draw, Config}
use timetrack.Sessions.Store.{Rotation}
use timetrack.Sessions.Requests.{
  Stage, Turn, issue_tokens, judge, rotate, settle_rotation, advance, play, judge_revoked, identify,
  look_up, after_loss, begin_logout,
}

-- The statements that are left at most.
abbrev pub statements_left : Stage → ℕ
statements_left (Stage.refreshing token) = 5
statements_left (Stage.presented token stored now) = 4
statements_left (Stage.identified token stored now identity) = 3
statements_left (Stage.lost token now identity) = 2
statements_left (Stage.issuing identity family_id) = 1
statements_left (Stage.leaving token) = 2
statements_left (Stage.revoking id) = 1
statements_left (Stage.served p) = 0
statements_left (Stage.refused e) = 0
statements_left Stage.left = 0

abbrev pub own_turns : List Turn → ℕ
own_turns [] = 0
own_turns (Turn.own d ∷ turns) = suc (own_turns turns)
own_turns (Turn.other d s ∷ turns) = own_turns turns

module _ (cfg : Config) where
  issue-left :
      (d : Draw) (i : AuthIdentity) (f : ℕ) (st : Store)
      → statements_left (issue_tokens cfg d i f st).0 ≡ 0
  unfolding issue_tokens
  issue-left d i f st = ground arith

  settle-left :
      (token now : ℕ) (i : AuthIdentity) (secret : ℕ) (st : Store) (r : Rotation)
      → statements_left (settle_rotation cfg token now i secret st r).0 ≤ 2
  unfolding settle_rotation
  settle-left token now i secret st r = ground arith

  advance-left :
      (d : Draw) (s : Stage) (st : Store)
      → statements_left (advance cfg d s st).0 ≤ statements_left s - 1
  unfolding advance rotate judge judge_revoked identify look_up after_loss begin_logout
  advance-left d (Stage.refreshing token) st = ground arith
  advance-left d (Stage.presented token stored now) st = ground arith
  advance-left d (Stage.identified token stored now i) st =
      ground (arith, issue-left d i stored.family_id st, settle-left token now i d.secret st)
  advance-left d (Stage.lost token now i) st = ground arith
  advance-left d (Stage.issuing i f) st = omega (arith, issue-left d i f st)
  advance-left d (Stage.leaving token) st = ground arith
  advance-left d (Stage.revoking id) st = omega arith
  advance-left d (Stage.served p) st = omega arith
  advance-left d (Stage.refused e) st = omega arith
  advance-left d Stage.left st = omega arith

  -- A request is answered after at most so many statements of its own, five for a refresh and two
  -- for a logout, whatever the others do in between.
  pub play-answers :
      (turns : List Turn) (s : Stage) (st : Store)
      → statements_left s ≤ own_turns turns
      → statements_left (play cfg turns s st).0 ≡ 0
  unfolding play
  play-answers [] s st h = omega (arith, h)
  play-answers (Turn.own d ∷ turns) s st h =
      play-answers turns (advance cfg d s st).0 (advance cfg d s st).1
        (omega (arith, h, advance-left d s st))
  play-answers (Turn.other d o ∷ turns) s st h = play-answers turns s (advance cfg d o st).1 h
