-- ===== src/Db/Orgs.antt =====
-- internal/db/gen/orgs.sql.go, memberships.sql.go and idp_mappings.sql.go, and the invites of
-- internal/repo/orgs.go, whose SQL stands in the repository itself.
use Prim.Native.Nat.{compare}
use go_cmms.Base.{
  ℕ, Bool, false, ◌&&◌, ◌||◌, not, Option, none, some, List, [], ◌∷◌, map, ◌==◌, ltb, if◌then◌else◌,
  is_some,
}
use go_cmms.Base.Lists.{any, find, keep, update, and_then}
use go_cmms.Base.Sort.{sort_by, on}
use go_cmms.Text.{Text, text_eq}
use go_cmms.Models.{Time}
use go_cmms.Db.{
  Db, UserRow, Organisation, MembershipRow, InviteRow, RoleEnum, position, role_text, role_of_text,
}
use go_cmms.Db.Users.{get_user_by_id}

unfoldable pub find_org_by_slug : Text → Db → Option Organisation
find_org_by_slug slug db = find (λ o. text_eq o.slug slug) db.organisations

unfoldable pub find_org_by_id : ℕ → Db → Option Organisation
find_org_by_id id db = find (λ o. o.id == id) db.organisations

-- A comparison with NULL accepts no row.
abbrev pub is_text : Option Text → Option Text → Bool
is_text none b = false
is_text (some a) none = false
is_text (some a) (some b) = text_eq a b

unfoldable pub find_org_by_tenant_id : Option Text → Db → Option Organisation
find_org_by_tenant_id tid db = find (λ o. is_text o.ms_tenant_id tid) db.organisations

-- `INSERT INTO organisations`, with the unique id, slug and tenant.
unfoldable pub create_org : ℕ → Time → Text → Text → Option Text → Db → Option (Organisation × Db)
unfolding find_org_by_slug find_org_by_id find_org_by_tenant_id
create_org id now slug name tenant db =
    if is_some (find_org_by_slug slug db)
      || is_some (find_org_by_id id db)
      || is_some (find_org_by_tenant_id tenant db)
    then none
    else (let row : Organisation = record {
      id = id;
      slug = slug;
      name = name;
      ms_tenant_id = tenant;
      created_at = now;
    } in
        some (row, record db { organisations = row ∷ db.organisations }))

abbrev pub is_member : ℕ → ℕ → MembershipRow → Bool
is_member org_id user_id m = m.org_id == org_id && m.user_id == user_id

-- `INSERT … ON CONFLICT (org_id, user_id) DO UPDATE SET role = EXCLUDED.role RETURNING role::text`
unfoldable pub ensure_membership : ℕ → ℕ → Text → Db → Option (Text × Db)
unfolding find_org_by_id get_user_by_id
ensure_membership org_id user_id role db = elim (role_of_text role) [
  | none ↦ none
  | some r ↦
      if any (is_member org_id user_id) db.memberships
      then some (
        role_text r,
        record db {
          memberships =
              update (is_member org_id user_id) (λ m. record m { role = r }) db.memberships;
        },
      )
      else if is_some (find_org_by_id org_id db) && is_some (get_user_by_id user_id db)
      then some (
        role_text r,
        record db {
          memberships = record { org_id = org_id; user_id = user_id; role = r } ∷ db.memberships;
        },
      )
      else none
]

-- `SELECT role::text … WHERE org_id = $1 AND user_id = $2`
unfoldable pub get_role : ℕ → ℕ → Db → Option Text
get_role org_id user_id db = elim (find (is_member org_id user_id) db.memberships) [
  | none ↦ none
  | some m ↦ some (role_text m.role)
]

-- The memberships of a user with their organisations.
abbrev pub with_org : ℕ → List MembershipRow → Db → List (RoleEnum × Organisation)
with_org user_id [] db = []
with_org user_id (m ∷ ms) db =
    let rest = with_org user_id ms db in
    if m.user_id == user_id
    then (elim (find (λ o. o.id == m.org_id) db.organisations) [
      | none ↦ rest
      | some o ↦ (m.role, o) ∷ rest
    ])
    else rest

-- `ORDER BY m.role DESC, o.created_at ASC`: does the first row come before the second?
abbrev pub comes_first : RoleEnum × Organisation → RoleEnum × Organisation → Bool
comes_first (r, o) (s, p) =
    ltb (position s) (position r) || (position s == position r && ltb o.created_at p.created_at)

-- `… ORDER BY o.created_at ASC`
unfoldable pub list_user_orgs : ℕ → Db → List (RoleEnum × Organisation)
list_user_orgs user_id db =
    sort_by (on (λ r. r.1.created_at) compare) (with_org user_id db.memberships db)

-- `getUserWithOrgAndRole` of users.sql.go: an error without a user, an organisation or a membership,
-- since a NULL role does not scan into the row's string.
unfoldable pub get_user_with_org_and_role : ℕ → ℕ → Db → Option (UserRow × Organisation × RoleEnum)
unfolding find_org_by_id get_user_by_id
get_user_with_org_and_role user_id org_id db = and_then (get_user_by_id user_id db) λ u.
    and_then (find_org_by_id org_id db)
      λ o. and_then (find (is_member org_id user_id) db.memberships) λ m. some (u, o, m.role)

-- The first row of the order; among equals the first of the list.
abbrev pub first_row :
    RoleEnum × Organisation → List (RoleEnum × Organisation) → RoleEnum × Organisation
first_row best [] = best
first_row best (row ∷ rows) = first_row (if comes_first row best then row else best) rows

-- `… ORDER BY m.role DESC, o.created_at ASC LIMIT 1`
abbrev pub first_org : List (RoleEnum × Organisation) → Option Organisation
first_org [] = none
first_org (row ∷ rows) = some (first_row row rows).1

unfoldable pub pick_user_org : ℕ → Db → Option Organisation
pick_user_org user_id db = first_org (with_org user_id db.memberships db)

abbrev pub member_of : Text → List Text → Bool
member_of t = any (λ u. text_eq t u)

-- `SELECT role_name … WHERE org_id = $1 AND provider = $2 AND idp_group_id = ANY($3)`. The column
-- is scanned into an `interface{}`; pgx gives the text of an enum as a string.
unfoldable pub get_mapped_roles_for_groups : ℕ → Text → List Text → Db → List (Option Text)
get_mapped_roles_for_groups org_id provider groups db =
    map (λ m. some (role_text m.role_name))
      (keep
        (λ m. m.org_id == org_id && text_eq m.provider provider && member_of m.idp_group_id groups)
        db.mappings)

abbrev pub has_token : Text → InviteRow → Bool
has_token hash i = text_eq i.token_hash hash

-- `INSERT INTO org_invites … VALUES ($1, $2, $3, $4::org_role, $5, $6)`
unfoldable pub insert_invite : Text → ℕ → Text → Text → ℕ → Time → Db → Option Db
unfolding find_org_by_id get_user_by_id
insert_invite hash org_id email role inviter_id expires_at db = elim (role_of_text role) [
  | none ↦ none
  | some r ↦
      if any (has_token hash) db.invites
      then none
      else if is_some (find_org_by_id org_id db) && is_some (get_user_by_id inviter_id db)
      then (let row : InviteRow = record {
        token_hash = hash;
        org_id = org_id;
        email = email;
        role = r;
        inviter_id = inviter_id;
        expires_at = expires_at;
        used_at = none;
      } in
          some (record db { invites = row ∷ db.invites }))
      else none
]

unfoldable pub select_invite : Text → Db → Option InviteRow
select_invite hash db = find (has_token hash) db.invites

-- `UPDATE org_invites SET used_at = now() WHERE token_hash = $1 AND used_at IS NULL`
unfoldable pub mark_invite_used : Text → Time → Db → Db
mark_invite_used hash now db = record db {
  invites =
      update (λ i. has_token hash i && not (is_some i.used_at))
        (λ i. record i { used_at = some now }) db.invites;
}
