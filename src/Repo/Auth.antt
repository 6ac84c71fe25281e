-- ===== src/Repo/Auth.antt =====
-- internal/repo/auth.go.
use go_cmms.Base.{ℕ, Bool, true, false, Option, none, some}
use go_cmms.Text.{Text, to_lower}
use go_cmms.Models.{User, LocalCredential}
use go_cmms.Http.{Action, Done, ◌>>=◌, pure, gets}
use go_cmms.Db.{CredentialRow, UserRow}
use go_cmms.Db.Credentials as Sql
use go_cmms.Repo.{select, exec, short_user_of_row}

unfoldable pub create_local_credential : ℕ → Text → Text → Action (Option Done)
create_local_credential user_id username phc = do
  now ← gets (λ w. w.now)
  exec (Sql.create_local_credential now user_id (to_lower username) phc)

abbrev pub credential_of_row : Option (CredentialRow × UserRow) → Option (LocalCredential × User)
credential_of_row none = none
credential_of_row (some (c, u)) = some (
  record { user_id = c.user_id; username = c.username; password_hash = c.password_hash },
  short_user_of_row u,
)

unfoldable pub get_local_credential_by_username : Text → Action (Option (LocalCredential × User))
get_local_credential_by_username username = do
  row ← select (Sql.get_local_credential_by_username username)
  pure (credential_of_row row)

-- An error reads as false.
abbrev pub true_if_known : Option Bool → Bool
true_if_known none = false
true_if_known (some b) = b

unfoldable pub user_has_totp : ℕ → Action Bool
user_has_totp user_id = do
  has ← select (λ db. some (Sql.user_has_totp user_id db))
  pure (true_if_known has)

unfoldable pub set_totp_secret : ℕ → Text → Text → Text → Action (Option Done)
set_totp_secret user_id secret issuer label = exec (Sql.set_totp_secret user_id secret issuer label)

unfoldable pub get_totp_secret : ℕ → Action (Option Text)
get_totp_secret user_id = select (Sql.get_totp_secret user_id)

unfoldable pub update_local_password_hash : ℕ → Text → Action (Option Done)
update_local_password_hash user_id phc = do
  now ← gets (λ w. w.now)
  exec (λ db. some (Sql.update_local_password_hash now user_id phc db))

unfoldable pub record_login_success : Text → Text → Action (Option Done)
record_login_success username ip = do
  now ← gets (λ w. w.now)
  exec (λ db. some (Sql.record_login_attempt now (to_lower username) ip true db))

unfoldable pub record_login_failure : Text → Text → Action (Option Done)
record_login_failure username ip = do
  now ← gets (λ w. w.now)
  exec (λ db. some (Sql.record_login_attempt now (to_lower username) ip false db))
