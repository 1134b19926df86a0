-- ===== src/Entries/Schema.antt =====
-- The cross-field checks of packages/contracts/src/time-entry.ts.
use timetrack.Prelude.{Bool, false, Option, none, some, ltb, leb, not}
use timetrack.Entries.Model.{Iso, CreateTimeEntry, CreateManualTimeEntry, UpdateTimeEntry}

-- isInverted, of an end that is there
unfoldable pub is_inverted : Iso → Option Iso → Bool
is_inverted start none = false
is_inverted start (some end) = ltb end.at start.at

-- The check of CreateTimeEntrySchema: is the body accepted?
unfoldable pub create_accepts : CreateTimeEntry → Bool
unfolding is_inverted
create_accepts dto = not (is_inverted dto.start_time dto.end_time)

-- A patch is checked only if it gives both halves.
patch_inverted : Option Iso → Option (Option Iso) → Bool
patch_inverted none end = false
patch_inverted (some start) none = false
patch_inverted (some start) (some end) = is_inverted start end

unfoldable pub update_accepts : UpdateTimeEntry → Bool
unfolding is_inverted patch_inverted
update_accepts dto = not (patch_inverted dto.start_time dto.end_time)

unfoldable pub manual_accepts : CreateManualTimeEntry → Bool
manual_accepts dto = not (leb dto.end_time.at dto.start_time.at)
