-- ===== src/Repo/Users.antt =====
-- internal/repo/users.go.
use mathlib.Core.Option
use go_cmms.Base.{ℕ, Option, some, List, [], map}
use go_cmms.Base.Sort.{Comparison}
use go_cmms.Text.{Text}
use go_cmms.Models.{User, Org, OrgRole, Time, LinkedIdentity}
use go_cmms.Http.{Action, Done, ◌>>=◌, pure, gets, statement}
use go_cmms.Db.{UserRow, Organisation, RoleEnum, role_text}
use go_cmms.Db.Users as Sql
use go_cmms.Db.Orgs.{get_user_with_org_and_role as get_row}
use go_cmms.Db.Credentials.{get_last_successful_login}
use go_cmms.Repo.{select, exec, new_id, user_of_row, short_user_of_row}

unfoldable pub upsert_user_by_verified_email : Text → Text → Action (Option User)
upsert_user_by_verified_email email name = do
  id ← new_id
  now ← gets (λ w. w.now)
  row ← statement (Sql.upsert_user_by_verified_email id now email (some name))
  pure (Option.map user_of_row row)

unfoldable pub link_identity : ℕ → Text → Text → Action (Option Done)
link_identity user_id provider subject = exec (Sql.link_identity user_id provider subject)

unfoldable pub get_user_by_identity : Text → Text → Action (Option User)
get_user_by_identity provider subject = do
  row ← select (Sql.get_user_by_identity provider subject)
  pure (Option.map short_user_of_row row)

unfoldable pub get_user_by_email : Text → Action (Option User)
get_user_by_email email = do
  row ← select (Sql.get_user_by_email email)
  pure (Option.map user_of_row row)

unfoldable pub get_user_by_id : ℕ → Action (Option User)
get_user_by_id id = do row ← select (Sql.get_user_by_id id); pure (Option.map user_of_row row)

-- A nil pointer is NULL, which leaves the column as it is.
unfoldable pub update_user_profile :
    ℕ → Option Text → Option Text → Option Text → Option Text → Action (Option Done)
update_user_profile id name avatar phone country =
    exec (λ db. some (Sql.update_user_profile id name avatar phone country db))

-- `GetLastSuccessfulLoginByUsername`
unfoldable pub last_successful_login : Text → Action (Option Time)
last_successful_login username = select (get_last_successful_login username)

unfoldable pub list_identities_for_user :
    Comparison Text → ℕ → Action (Option (List LinkedIdentity))
list_identities_for_user collate user_id = do
  rows ← select (λ db. some (Sql.list_identities_for_user collate user_id db))
  pure (Option.map (map (λ i. record { provider = i.provider; subject = i.subject })) rows)

unfoldable pub user_org_and_role_of_row : UserRow × Organisation × RoleEnum → User × Org × OrgRole
unfolding user_of_row
user_org_and_role_of_row (u, o, role) = (
  user_of_row u,
  record { id = o.id; slug = o.slug; name = o.name; tenant_id = [] },
  role_text role,
)

-- The tests for a missing user, organisation or role are never reached: the query has failed.
unfoldable pub get_user_with_org_and_role : ℕ → ℕ → Action (Option (User × Org × OrgRole))
unfolding user_org_and_role_of_row
get_user_with_org_and_role user_id org_id = do
  row ← select (get_row user_id org_id)
  pure (Option.map user_org_and_role_of_row row)
