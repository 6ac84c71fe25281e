-- ===== src/Repo/Orgs.antt =====
-- internal/repo/orgs.go.
use mathlib.Core.Option
use go_cmms.Base.{ℕ, Option, some, List, [], ◌∷◌, map}
use go_cmms.Text.{Text}
use go_cmms.Models.{Org, OrgInvite, OrgRole, OrgSummary, Time}
use go_cmms.Roles.{best_role_from}
use go_cmms.Http.{Action, Done, ◌>>=◌, pure, gets, statement}
use go_cmms.Db.{InviteRow, role_text}
use go_cmms.Db.Orgs as Sql
use go_cmms.Repo.{time_or_zero, select, exec, new_id, org_of_row, to_nullable_text}

unfoldable pub find_org_by_slug : Text → Action (Option Org)
find_org_by_slug slug = do
  row ← select (Sql.find_org_by_slug slug)
  pure (Option.map org_of_row row)

unfoldable pub find_org_by_id : ℕ → Action (Option Org)
find_org_by_id id = do row ← select (Sql.find_org_by_id id); pure (Option.map org_of_row row)

unfoldable pub find_org_by_tenant_id : Text → Action (Option Org)
find_org_by_tenant_id tid = do
  row ← select (Sql.find_org_by_tenant_id (some tid))
  pure (Option.map org_of_row row)

unfoldable pub create_org : Text → Text → Text → Action (Option Org)
create_org slug name tenant_id = do
  id ← new_id
  now ← gets (λ w. w.now)
  row ← statement (Sql.create_org id now slug name (to_nullable_text tenant_id))
  pure (Option.map org_of_row row)

unfoldable pub ensure_membership : ℕ → ℕ → OrgRole → Action (Option OrgRole)
ensure_membership org_id user_id role = statement (Sql.ensure_membership org_id user_id role)

unfoldable pub get_role : ℕ → ℕ → Action (Option OrgRole)
get_role org_id user_id = select (Sql.get_role org_id user_id)

-- The best role that the groups map to; "" if there is none.
unfoldable pub apply_group_role_mappings : ℕ → Text → List Text → Action (Option OrgRole)
apply_group_role_mappings org_id provider [] = pure (some [])
apply_group_role_mappings org_id provider (g ∷ groups) = do
  rows ← select (λ db. some (Sql.get_mapped_roles_for_groups org_id provider (g ∷ groups) db))
  pure (Option.map (best_role_from []) rows)

unfoldable pub pick_user_org : ℕ → Action (Option Org)
pick_user_org user_id = do
  row ← select (Sql.pick_user_org user_id)
  pure (Option.map org_of_row row)

unfoldable pub create_invite : ℕ → ℕ → Text → OrgRole → Text → Time → Action (Option Done)
create_invite org_id inviter_id email role hash expires_at =
    exec (Sql.insert_invite hash org_id email role inviter_id expires_at)

-- `if usedAt.Valid { m.UsedAt = usedAt.Time }`: a NULL stays the zero time.
unfoldable pub invite_of_row : InviteRow → OrgInvite
invite_of_row i = record {
  token_hash = i.token_hash;
  org_id = i.org_id;
  email = i.email;
  role = role_text i.role;
  inviter_id = i.inviter_id;
  expires_at = i.expires_at;
  used_at = time_or_zero i.used_at;
}

unfoldable pub get_invite_by_token_hash : Text → Action (Option OrgInvite)
get_invite_by_token_hash hash = do
  row ← select (Sql.select_invite hash)
  pure (Option.map invite_of_row row)

unfoldable pub use_invite : Text → Action (Option Done)
use_invite hash = do now ← gets (λ w. w.now); exec (λ db. some (Sql.mark_invite_used hash now db))

unfoldable pub list_user_orgs : ℕ → Action (Option (List OrgSummary))
list_user_orgs user_id = do
  rows ← select (λ db. some (Sql.list_user_orgs user_id db))
  pure (
      Option.map
        (map (λ r. record {
          id = r.1.id;
          slug = r.1.slug;
          name = r.1.name;
          role = role_text r.0;
          created_at = r.1.created_at;
        }))
        rows)
