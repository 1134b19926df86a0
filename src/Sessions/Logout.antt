-- ===== src/Sessions/Logout.antt =====
-- A token that a logout revoked.
use timetrack.Prelude.{
  ℕ, ◌≤◌, ◌≡◌, ◌∙◌, ap, sym, true, none, some, List, [], ◌∷◌, arith, is_some, subst,
}
use timetrack.Errors.{invalid_token}
use timetrack.Sessions.Model.{Token, Store, Draw, Config}
use timetrack.Sessions.Store.{find_refresh_token, rotate_refresh_token}
use timetrack.Sessions.Requests.{
  Stage, Turn, judge, rotate, settle_rotation, advance, play, judge_revoked, identify, look_up,
  after_loss,
}
use timetrack.Sessions.Keys.{IsKeyed, find-by_id}
use timetrack.Sessions.Monotone.{Stays}
use timetrack.Sessions.Interleaving.{play-Stays}
use timetrack.Sessions.Answers.{statements_left, own_turns, play-answers}

-- Revoked, and not by a rotation.
abbrev pub IsLoggedOut : Token → Type 0
IsLoggedOut t = (is_some t.revoked_at ≡ true) × (t.replaced_by_id ≡ none)

-- The stages of a refresh of the token of this id that has read it, if at all, before any rotation.
abbrev pub Presents : (token id : ℕ) → Stage → Type 0
Presents token id (Stage.refreshing k) = k ≡ token
Presents token id (Stage.presented k stored now) =
    (k ≡ token) × (stored.id ≡ id) × (stored.replaced_by_id ≡ none)
Presents token id (Stage.identified k stored now i) =
    (k ≡ token) × (stored.id ≡ id) × (stored.revoked_at ≡ none)
Presents token id (Stage.lost k now i) = k ≡ token
Presents token id (Stage.refused e) = e ≡ invalid_token
Presents token id _ = ⊥

module _ (cfg : Config) where
  advance-Presents :
      (d : Draw) (s : Stage) (st : Store) (token : ℕ) (t : Token)
      → IsKeyed st.tokens
      → find_refresh_token (cfg.hash token) st.tokens ≡ some t
      → IsLoggedOut t
      → Presents token t.id s
      → Presents token t.id (advance cfg d s st).0
  unfolding advance rotate judge judge_revoked identify look_up after_loss settle_rotation
      rotate_refresh_token
  advance-Presents d (Stage.refreshing k) st token t keyed found out p = ground arith
  advance-Presents d (Stage.presented k stored now) st token t keyed found out p = ground arith
  advance-Presents d (Stage.identified k stored now i) st token t keyed found out p =
      ground (arith, find-by_id (cfg.hash token) st.tokens {t = t})
  advance-Presents d (Stage.lost k now i) st token t keyed found out p = ground arith
  advance-Presents d (Stage.issuing i f) st token t keyed found out p = elim p [ ]
  advance-Presents d (Stage.served k) st token t keyed found out p = elim p [ ]
  advance-Presents d (Stage.refused e) st token t keyed found out p = p
  advance-Presents d (Stage.leaving k) st token t keyed found out p = elim p [ ]
  advance-Presents d (Stage.revoking k) st token t keyed found out p = elim p [ ]
  advance-Presents d Stage.left st token t keyed found out p = elim p [ ]

  Stays-IsLoggedOut : (t t' : Token) → Stays t t' → IsLoggedOut t → IsLoggedOut t'
  Stays-IsLoggedOut t t' h out = (h.stays_revoked out.0, h.same_successor out.0 ∙ out.1)

  play-Presents :
      (turns : List Turn) (s : Stage) (st : Store) (token : ℕ) (t : Token)
      → IsKeyed st.tokens
      → find_refresh_token (cfg.hash token) st.tokens ≡ some t
      → IsLoggedOut t
      → Presents token t.id s
      → Presents token t.id (play cfg turns s st).0
  unfolding play
  play-Presents [] s st token t k found out p = p
  play-Presents (Turn.own d ∷ turns) s st token t k found out p =
      let (k', (t', found', stays)) =
        play-Stays cfg (Turn.own d ∷ []) s st (cfg.hash token) t k found in
      let p' = advance-Presents d s st token t k found out p in
      subst (λ i. Presents token i (play cfg turns (advance cfg d s st).0 (advance cfg d s st).1).0)
        stays.same_id
        (play-Presents turns (advance cfg d s st).0 (advance cfg d s st).1 token t' k' found'
          (Stays-IsLoggedOut t t' stays out)
          (subst (λ i. Presents token i (advance cfg d s st).0) (sym stays.same_id) p'))
  play-Presents (Turn.other d o ∷ turns) s st token t k found out p =
      let (k', (t', found', stays)) =
        play-Stays cfg (Turn.other d o ∷ []) s st (cfg.hash token) t k found in
      subst (λ i. Presents token i (play cfg turns s (advance cfg d o st).1).0) stays.same_id
        (play-Presents turns s (advance cfg d o st).1 token t' k' found'
          (Stays-IsLoggedOut t t' stays out)
          (subst (λ i. Presents token i s) (sym stays.same_id) p))

  answered-Presents :
      (token id : ℕ) (s : Stage)
      → Presents token id s
      → statements_left s ≡ 0
      → s ≡ Stage.refused invalid_token
  answered-Presents token id (Stage.refused e) p h = ap Stage.refused p
  answered-Presents token id (Stage.refreshing k) p h = ground arith
  answered-Presents token id (Stage.presented k stored now) p h = ground arith
  answered-Presents token id (Stage.identified k stored now i) p h = ground arith
  answered-Presents token id (Stage.lost k now i) p h = ground arith
  answered-Presents token id (Stage.issuing i f) p h = elim p [ ]
  answered-Presents token id (Stage.served k) p h = elim p [ ]
  answered-Presents token id (Stage.leaving k) p h = elim p [ ]
  answered-Presents token id (Stage.revoking k) p h = elim p [ ]
  answered-Presents token id Stage.left p h = elim p [ ]

  -- Let a token stand revoked by a logout, and let a refresh of it be new, or in flight since a time
  -- before any rotation of the token. Whatever else interleaves, the refresh is answered with the
  -- 401, after the statements that it has left.
  pub play-logged_out :
      (turns : List Turn) (s : Stage) (st : Store) (token : ℕ) (t : Token)
      → IsKeyed st.tokens
      → find_refresh_token (cfg.hash token) st.tokens ≡ some t
      → IsLoggedOut t
      → Presents token t.id s
      → statements_left s ≤ own_turns turns
      → (play cfg turns s st).0 ≡ Stage.refused invalid_token
  play-logged_out turns s st token t k found out p h =
      answered-Presents token t.id (play cfg turns s st).0
        (play-Presents turns s st token t k found out p) (play-answers cfg turns s st h)
