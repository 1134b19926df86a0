-- ===== src/Invites/Single.antt =====
-- Accepts that interleave: an invite is used once.
use timetrack.Prelude.{
  ℕ, zero, suc, ◌+◌, ◌≤◌, count, ◌≡◌, subst, ◌∙◌, true, false, Bool, ◌||◌, none, some, List, [],
  ◌∷◌, map, any, arith, ◌==◌, ==→eq, if◌then◌else◌, All, All-map, Any, Bool-cases, Option-cases,
  inl, inr,
}
use timetrack.Errors.{Error, invalid_invite}
use timetrack.Access.{SessionUser}
use timetrack.Invites.Model.{Invite, Member, Register, AcceptedInvite, InviteUser}
use timetrack.Invites.Store.{
  has_key, create_invite, find_by_hash, find_acceptable, is_unconsumed, consumed_row, consume,
  invite_row,
}
use timetrack.Invites.Service.{
  Draw, input_of, may_invite, create, Stage, accepting, acceptable, accepted, refused, advance,
  Event, inviting, arriving, turning, advance_at, play,
}
use timetrack.Invites.Rows.{
  Result-cases, IsKeyed, is_consumed, RowOf, Extends, Extends-refl, find_by_hash-some,
  consume-Extends, not_consumed, now_consumed, create-Extends,
}

module _ (hash_token : ℕ → ℕ) (ttl_days : ℕ) where
  -- The accept of a token with the hash has got its user.
  abbrev pub has_joined : (token_hash : ℕ) → Stage → Bool
  has_joined h (accepted token a) = hash_token token == h
  has_joined h s = false

  abbrev bit : Bool → ℕ
  bit b = if b then 1 else 0

  -- An invite that an accept has read is still there.
  abbrev Sound : List Invite → Stage → Type 0
  Sound rows (acceptable token name password_hash now i) =
      (i.token_hash ≡ hash_token token) × Any (RowOf i) rows
  Sound rows s = Unit

  Sound-Extends :
      (rows rows' : List Invite) (s : Stage) → Extends rows rows' → Sound rows s → Sound rows' s
  Sound-Extends rows rows' (accepting token name password_hash now) e q = tt
  Sound-Extends rows rows' (acceptable token name password_hash now i) e q = (q.0, e.there i q.1)
  Sound-Extends rows rows' (accepted token a) e q = tt
  Sound-Extends rows rows' (refused token x) e q = tt

  -- What a step keeps: no accept gets its user but by consuming its invite.
  record Step (s s' : Stage) (rows rows' : List Invite) : Type 0 where
    pub extends : Extends rows rows'
    pub sound : Sound rows' s'
    pub pays :
        (h : ℕ)
        → bit (has_joined h s') + bit (is_consumed h rows)
          ≤ bit (has_joined h s) + bit (is_consumed h rows')

  Step-refl : (s : Stage) (rows : List Invite) → IsKeyed rows → Sound rows s → Step s s rows rows
  Step-refl s rows k q = record {
    extends = Extends-refl rows k;
    sound = q;
    pays = λ h. omega arith;
  }

  found_by_hash :
      (h now : ℕ) (reg : Register) {i : Invite}
      → find_acceptable h now reg ≡ some i
      → find_by_hash h reg.invites ≡ some i
  unfolding find_acceptable
  found_by_hash h now reg {i = i} e = elim (Option-cases (find_by_hash h reg.invites)) [
    | inl gone ↦ cc (rw (gone, find_acceptable) at e)
    | inr (r, found) ↦ found ∙ ground (arith, rw (found, find_acceptable) at e)
  ]

  refused-Step :
      (s : Stage) (token : ℕ) (x : Error) (rows : List Invite)
      → IsKeyed rows
      → Step s (refused token x) rows rows
  refused-Step s token x rows k = record {
    extends = Extends-refl rows k;
    sound = tt;
    pays = λ h. omega arith;
  }

  consuming-Step :
      (token name password_hash now : ℕ) (i : Invite) (a : AcceptedInvite) (rows : List Invite)
      → IsKeyed rows
      → (i.token_hash ≡ hash_token token) × Any (RowOf i) rows
      → any (is_unconsumed i.id) rows ≡ true
      → Step
          (acceptable token name password_hash now i)
          (accepted token a)
          rows
          (map (consumed_row i.id now) rows)
  consuming-Step token name password_hash now i a rows k q u =
      let e = consume-Extends i.id now rows k in
      record {
        extends = e;
        sound = tt;
        pays = λ h. elim (Bool-cases (hash_token token == h)) [
          | inl hit ↦
              let same : i.token_hash ≡ h = q.0 ∙ ==→eq (hash_token token) h hit in
              ground (
                arith,
                hit,
                subst (λ y. is_consumed y rows ≡ false) same (not_consumed i rows k q.1 u),
                subst (λ y. is_consumed y (map (consumed_row i.id now) rows) ≡ true) same
                    (now_consumed i now rows k q.1 u),
              )
          | inr miss ↦ elim (Bool-cases (is_consumed h rows)) [
            | inl was ↦ ground (arith, miss, was, e.consumed h was)
            | inr fresh ↦ ground (arith, miss, fresh)
          ]
        ];
      }

  consume-Step :
      (u token name password_hash now : ℕ) (i : Invite) (reg : Register)
      → IsKeyed reg.invites
      → (i.token_hash ≡ hash_token token) × Any (RowOf i) reg.invites
      → Step
          (acceptable token name password_hash now i)
          (elim (consume u name password_hash now i reg).0 [
            | none ↦ refused token invalid_invite
            | some a ↦ accepted token a
          ])
          reg.invites
          (consume u name password_hash now i reg).1.invites
  unfolding consume
  consume-Step u token name password_hash now i reg k q =
      let s = acceptable token name password_hash now i in
      elim (Bool-cases (any (is_unconsumed i.id) reg.invites)) [
        | inr idle ↦ rw (idle, consume) (refused-Step s token invalid_invite reg.invites k)
        | inl due ↦
            elim (Bool-cases
              (any (λ (m : Member). (m.email == i.email) || (m.id == u)) reg.users)) [
                | inl taken ↦
                    rw (due, taken, consume) (refused-Step s token invalid_invite reg.invites k)
                | inr free ↦
                    rw (due, free, consume)
                      (consuming-Step token name password_hash now i
                        (record { user_id = u; role = i.role; team_id = i.team_id }) reg.invites k q
                        due)
              ]
      ]

  accepting-Step :
      (token name password_hash now : ℕ) (reg : Register)
      → IsKeyed reg.invites
      → Step
          (accepting token name password_hash now)
          (elim (find_acceptable (hash_token token) now reg) [
            | none ↦ refused token invalid_invite
            | some i ↦ acceptable token name password_hash now i
          ])
          reg.invites
          reg.invites
  unfolding find_acceptable
  accepting-Step token name password_hash now reg k =
      elim (Option-cases (find_acceptable (hash_token token) now reg)) [
        | inl gone ↦
            rw (gone, find_acceptable)
              (record { extends = Extends-refl reg.invites k; sound = tt; pays = λ h. omega arith })
        | inr (i, found) ↦
            rw (found, find_acceptable)
              (record {
                extends = Extends-refl reg.invites k;
                sound =
                    find_by_hash-some (hash_token token) reg.invites {i = i}
                      (found_by_hash (hash_token token) now reg {i = i} found);
                pays = λ h. omega arith;
              })
      ]

  advance-Step :
      (u : ℕ) (s : Stage) (reg : Register)
      → IsKeyed reg.invites
      → Sound reg.invites s
      → Step s
          (advance hash_token ttl_days u s reg).0
          reg.invites
          (advance hash_token ttl_days u s reg).1.invites
  unfolding advance
  advance-Step u (accepting token name password_hash now) reg k q =
      accepting-Step token name password_hash now reg k
  advance-Step u (acceptable token name password_hash now i) reg k q =
      consume-Step u token name password_hash now i reg k q
  advance-Step u (accepted token a) reg k q = Step-refl (accepted token a) reg.invites k q
  advance-Step u (refused token x) reg k q = Step-refl (refused token x) reg.invites k q

  -- The accepts with the hash that got their user are no more than its consumed rows, of which
  -- there is one at most.
  record Holds (pool : List Stage) (rows : List Invite) : Type 0 where
    pub keyed : IsKeyed rows
    pub sound : All (Sound rows) pool
    pub paid : (h : ℕ) → count (has_joined h) pool ≤ bit (is_consumed h rows)

  count_cons :
      (h : ℕ) (s : Stage) (pool : List Stage)
      → count (has_joined h) (s ∷ pool) ≡ bit (has_joined h s) + count (has_joined h) pool
  count_cons h s pool = ground arith

  -- A step of one accept among the others.
  record Moved (pool pool' : List Stage) (rows rows' : List Invite) : Type 0 where
    pub extends : Extends rows rows'
    pub sound : All (Sound rows') pool'
    pub pays :
        (h : ℕ)
        → count (has_joined h) pool' + bit (is_consumed h rows)
          ≤ count (has_joined h) pool + bit (is_consumed h rows')

  advance_at-Moved :
      (k u : ℕ) (pool : List Stage) (reg : Register)
      → IsKeyed reg.invites
      → All (Sound reg.invites) pool
      → Moved pool
          (advance_at hash_token ttl_days k u pool reg).0
          reg.invites
          (advance_at hash_token ttl_days k u pool reg).1.invites
  unfolding advance_at
  advance_at-Moved k u [] reg key q = record {
    extends = Extends-refl reg.invites key;
    sound = tt;
    pays = λ h. omega arith;
  }
  advance_at-Moved zero u (s ∷ pool) reg key q =
      let step = advance-Step u s reg key q.0 in
      record {
        extends = step.extends;
        sound = (
          step.sound,
          All-map (Sound reg.invites) (Sound (advance hash_token ttl_days u s reg).1.invites) pool
              (λ c.
                Sound-Extends reg.invites (advance hash_token ttl_days u s reg).1.invites c
                  step.extends)
              q.1,
        );
        pays = λ h. ground (
          arith,
          step.pays h,
          count_cons h s pool,
          count_cons h (advance hash_token ttl_days u s reg).0 pool,
        );
      }
  advance_at-Moved (suc k) u (s ∷ pool) reg key q =
      let rest = advance_at-Moved k u pool reg key q.1 in
      record {
        extends = rest.extends;
        sound = (
          Sound-Extends reg.invites (advance_at hash_token ttl_days k u pool reg).1.invites s
              rest.extends q.0,
          rest.sound,
        );
        pays = λ h. ground (
          arith,
          rest.pays h,
          count_cons h s pool,
          count_cons h s (advance_at hash_token ttl_days k u pool reg).0,
        );
      }

  create-Keeps :
      (d : Draw) (dto : InviteUser) (actor : SessionUser) (reg : Register)
      → IsKeyed reg.invites
      → Extends reg.invites (create hash_token ttl_days d dto actor reg).1.invites
  unfolding create create_invite
  create-Keeps d dto actor reg k = elim (Result-cases (may_invite d.now dto actor reg)) [
    | inl (e, barred) ↦ rw (barred, create) (Extends-refl reg.invites k)
    | inr (u, allowed) ↦
        let i = invite_row d.id d.now (input_of hash_token ttl_days d dto) in
        elim (Bool-cases (any (has_key i) reg.invites)) [
          | inl taken ↦ rw (allowed, taken, create) (Extends-refl reg.invites k)
          | inr free ↦ rw (allowed, free, create) (create-Extends i reg.invites k free)
        ]
  ]

  Holds-Extends :
      (pool : List Stage) (rows rows' : List Invite)
      → Extends rows rows'
      → Holds pool rows
      → Holds pool rows'
  Holds-Extends pool rows rows' e h = record {
    keyed = e.keyed;
    sound = All-map (Sound rows) (Sound rows') pool (λ s. Sound-Extends rows rows' s e) h.sound;
    paid = λ x. elim (Bool-cases (is_consumed x rows)) [
      | inl was ↦ ground (arith, h.paid x, was, e.consumed x was)
      | inr new ↦ ground (arith, h.paid x, new)
    ];
  }

  play-Holds :
      (events : List Event) (pool : List Stage) (reg : Register)
      → Holds pool reg.invites
      → Holds
          (play hash_token ttl_days events pool reg).0
          (play hash_token ttl_days events pool reg).1.invites
  unfolding play
  play-Holds [] pool reg h = h
  play-Holds (inviting d dto actor ∷ events) pool reg h =
      let after = (create hash_token ttl_days d dto actor reg).1 in
      play-Holds events pool after
        (Holds-Extends pool reg.invites after.invites (create-Keeps d dto actor reg h.keyed) h)
  play-Holds (arriving token name password_hash now ∷ events) pool reg h =
      play-Holds events (accepting token name password_hash now ∷ pool) reg
        (record { keyed = h.keyed; sound = (tt, h.sound); paid = λ x. ground (arith, h.paid x) })
  play-Holds (turning k u ∷ events) pool reg h =
      let moved = advance_at-Moved k u pool reg h.keyed h.sound in
      play-Holds events (advance_at hash_token ttl_days k u pool reg).0
        (advance_at hash_token ttl_days k u pool reg).1
        (record {
          keyed = moved.extends.keyed;
          sound = moved.sound;
          paid = λ x. ground (arith, h.paid x, moved.pays x);
        })

  -- However creations of invites and the steps of accepts interleave, from a table with unique
  -- ids and hashes, at most one accept of an invite gets its user.
  pub play-once :
      (events : List Event) (reg : Register) (token_hash : ℕ)
      → IsKeyed reg.invites
      → count (has_joined token_hash) (play hash_token ttl_days events [] reg).0 ≤ 1
  play-once events reg token_hash k =
      let h =
        play-Holds events [] reg (record { keyed = k; sound = tt; paid = λ x. omega arith }) in
      ground (arith, h.paid token_hash)
