-- ===== src/Invites/Joining.antt =====
-- A fresh invite, used.
use timetrack.Prelude.{ℕ}
use timetrack.Invites.Model.{Invite, InviteUser}
use timetrack.Invites.Store.{invite_row}
use timetrack.Invites.Service.{Draw, input_of}

module _ (hash_token : ℕ → ℕ) (ttl_days : ℕ) where
  made : Draw → InviteUser → Invite
  made d dto = invite_row d.id d.now (input_of hash_token ttl_days d dto)
