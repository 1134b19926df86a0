-- ===== src/WorkTypes/Service.antt =====
-- work-types.service.ts: setTeamSelection. The ids of the teams are those of the table `teams`.
use timetrack.Prelude.{ℕ, not, List, [], any, filter, length, ◌==◌}
use timetrack.Errors.{
  Result, throw_if, ◌>>◌, team_not_found, work_type_not_found, archived_selected,
}
use timetrack.WorkTypes.Model.{WorkType, Catalog}
use timetrack.WorkTypes.Apply.{is_in, distinct}
use timetrack.WorkTypes.Edits

-- repo.findByIds, and its checks
abbrev pub found_types : Catalog → (ids : List ℕ) → List WorkType
found_types cat ids = filter (λ w. is_in ids w.id) cat.work_types

unfoldable pub set_team_selection :
    (name_key : ℕ → ℕ) (mint : (project_id work_type_id : ℕ) → ℕ) (teams : List ℕ)
    → (team_id : ℕ) → (work_type_ids : List ℕ) → Catalog
    → Result (List ℕ × Catalog)
unfolding distinct
set_team_selection name_key mint teams t work_type_ids cat = do
  throw_if (not (is_in teams t)) team_not_found
  let ids = distinct [] work_type_ids
  throw_if (not (length (found_types cat ids) == length ids)) work_type_not_found
  throw_if (any (λ w. w.archived) (found_types cat ids)) archived_selected
  Edits.set_team_selection name_key mint t ids cat
