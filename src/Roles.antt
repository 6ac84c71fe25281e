-- ===== src/Roles.antt =====
-- Organisation roles: the levels and the least allowed level of
-- internal/middleware/require_role.go, `rankRole` of internal/repo/helpers.go, and the loop of
-- `ApplyGroupRoleMappings` in internal/repo/orgs.go.
pub mod Laws
use go_cmms.Base.{ℕ, Bool, true, false, ◌||◌, Option, none, some, List, [], ◌∷◌, ltb, if◌then◌else◌}
use go_cmms.Base.Maps.{Map, lookup}
use go_cmms.Text.{Text, text_eq, text_key, is_empty}
use go_cmms.Models.{OrgRole, role_owner, role_admin, role_member, role_viewer}

unfoldable pub role_levels : Map OrgRole ℕ
role_levels = (role_viewer, 1) ∷ (role_member, 2) ∷ (role_admin, 3) ∷ (role_owner, 4) ∷ []

-- `lvl, ok := roleLevels[role]; if !ok { continue }; if lvl < minAllowedLevel { … }`
abbrev pub lower_of : ℕ → Option ℕ → ℕ
lower_of least none = least
lower_of least (some lvl) = if ltb lvl least then lvl else least

-- The loop over the allowed roles, which skips those that have no level.
unfoldable pub min_level_from : ℕ → List OrgRole → ℕ
min_level_from least [] = least
min_level_from least (role ∷ allowed) =
    min_level_from (lower_of least (lookup role role_levels)) allowed

unfoldable pub min_allowed_level : List OrgRole → ℕ
min_allowed_level allowed = min_level_from 9999 allowed

-- The end of `RequireRole`: does a member with this role pass?
unfoldable pub role_passes : List OrgRole → OrgRole → Bool
role_passes allowed role = elim (lookup role role_levels) [
  | none ↦ false
  | some level ↦ if ltb level (min_allowed_level allowed) then false else true
]

-- `rankRole`
unfoldable pub rank_role : Text → ℕ
rank_role r =
    if text_eq r role_owner
    then 4
    else if text_eq r role_admin
    then 3
    else if text_eq r role_member
    then 2
    else 1

-- `if best == "" || rankRole(role) > rankRole(best) { best = role }`
unfoldable pub better : Text → Text → Text
better best role = if is_empty best || ltb (rank_role best) (rank_role role) then role else best

-- The loop of `ApplyGroupRoleMappings` over the rows; `none` is a row whose type is neither a
-- string nor bytes.
unfoldable pub best_role_from : Text → List (Option Text) → Text
best_role_from best [] = best
best_role_from best (none ∷ rows) = best_role_from best rows
best_role_from best (some role ∷ rows) = best_role_from (better best role) rows
