-- ===== src/Roles/Laws.antt =====
-- What the role checks mean: the roles in order, Viewer below Member below Admin below Owner.
use go_cmms.Base.{
  ℕ, ◌≤◌, ◌≡◌, refl, ◌↔◌, ◌⊎◌, inl, inr, true, Option, none, some, List, [], ◌∷◌, arith,
  Option-cases,
}
use go_cmms.Base.Maps.{lookup}
use go_cmms.Text.{Text, text_eq, text_eq_iff, text_key, is_empty}
use go_cmms.Models.{OrgRole, role_owner, role_admin, role_member, role_viewer}
use go_cmms.Roles.{
  role_levels, lower_of, min_level_from, min_allowed_level, role_passes, rank_role, better,
  best_role_from,
}

abbrev AtMost : Option ℕ → ℕ → Type 0
AtMost none level = ⊥
AtMost (some n) level = n ≤ level

-- Some listed role has a level, and one no higher than this.
abbrev pub Covers : List OrgRole → ℕ → Type 0
Covers [] level = ⊥
Covers (r ∷ allowed) level = AtMost (lookup r role_levels) level ⊎ Covers allowed level

levels-le : (r : OrgRole) (n : ℕ) → lookup r role_levels ≡ some n → n ≤ 4
unfolding lookup role_levels
levels-le r n h = ground arith

min_level_from_iff :
    (least : ℕ) (allowed : List OrgRole) (level : ℕ)
    → (min_level_from least allowed ≤ level) ↔ ((least ≤ level) ⊎ Covers allowed level)
unfolding min_level_from
min_level_from_iff least [] level = ground arith
min_level_from_iff least (r ∷ allowed) level =
    ground (arith, min_level_from_iff (lower_of least (lookup r role_levels)) allowed level)

-- `RequireRole` lets a member pass exactly if the member's role is one of the four and some
-- allowed role is one of the four and no higher; with no allowed role of the four nobody passes.
pub role_passes_iff :
    (allowed : List OrgRole) (role : OrgRole)
    → (role_passes allowed role ≡ true)
      ↔ ((n : ℕ) × (lookup role role_levels ≡ some n) × Covers allowed n)
unfolding role_passes min_allowed_level
role_passes_iff allowed role = elim (Option-cases (lookup role role_levels)) [
  | inl e ↦ ground arith
  | inr (n, e) ↦ (
    λ h. (n, e, ground (arith, e, levels-le role n e, min_level_from_iff 9999 allowed n)),
    λ c. ground (arith, e, min_level_from_iff 9999 allowed n, c.2),
  )
]

-- The ranking of `rankRole` is the level of `RequireRole` on the four roles.
rank_role-levels : (role : OrgRole) (n : ℕ) → lookup role role_levels ≡ some n → rank_role role ≡ n
unfolding rank_role lookup role_levels
rank_role-levels role n h = ground (
  arith,
  text_eq_iff role role_owner,
  text_eq_iff role role_admin,
  text_eq_iff role role_member,
  text_eq_iff role_owner role,
  text_eq_iff role_admin role,
  text_eq_iff role_member role,
  text_eq_iff role_viewer role,
)

-- Every usable row ranks no higher than this.
abbrev pub RanksBelow : ℕ → List (Option Text) → Type 0
RanksBelow n [] = Unit
RanksBelow n (none ∷ rows) = RanksBelow n rows
RanksBelow n (some role ∷ rows) = (rank_role role ≤ n) × RanksBelow n rows

-- The role is that of a usable row.
abbrev pub Among : Text → List (Option Text) → Type 0
Among role [] = ⊥
Among role (none ∷ rows) = Among role rows
Among role (some r ∷ rows) = (role ≡ r) ⊎ Among role rows

rank_role-empty : (t : Text) → is_empty t ≡ true → rank_role t ≡ 1
unfolding rank_role text_eq
rank_role-empty [] h = refl
rank_role-empty (c ∷ t) h = cc

rank_role-pos : (t : Text) → 1 ≤ rank_role t
unfolding rank_role
rank_role-pos t = ground arith

-- The role ranks at least as high as one given and all rows, and is the one given or of a row.
abbrev Tops : Text → List (Option Text) → Text → Type 0
Tops best rows role =
    (rank_role best ≤ rank_role role)
    × RanksBelow (rank_role role) rows
    × ((role ≡ best) ⊎ Among role rows)

Tops-cons :
    (best role : Text) (rows : List (Option Text)) (r : Text)
    → Tops (better best role) rows r
    → Tops best (some role ∷ rows) r
unfolding better
Tops-cons best role rows r h = ground (arith, rank_role-empty best, rank_role-pos role)

best_role_from_lem :
    (best : Text) (rows : List (Option Text)) → Tops best rows (best_role_from best rows)
unfolding best_role_from
best_role_from_lem best [] = (omega arith, tt, inl refl)
best_role_from_lem best (none ∷ rows) = best_role_from_lem best rows
best_role_from_lem best (some role ∷ rows) =
    Tops-cons best role rows _ (best_role_from_lem (better best role) rows)

-- What `ApplyGroupRoleMappings` returns ranks at least as high as every role that the groups map
-- to, and is one of those roles, or empty.
best_role-max :
    (rows : List (Option Text))
    → RanksBelow (rank_role (best_role_from [] rows)) rows
      × ((best_role_from [] rows ≡ []) ⊎ Among (best_role_from [] rows) rows)
best_role-max rows = let (low, below, among) = best_role_from_lem [] rows in (below, among)
