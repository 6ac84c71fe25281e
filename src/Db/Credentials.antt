-- ===== src/Db/Credentials.antt =====
-- internal/db/gen/local_auth.sql.go, totp.sql.go and login_attempts.sql.go.
use go_cmms.Base.{ℕ, Bool, ◌&&◌, ◌||◌, Option, none, some, List, [], ◌∷◌, ◌==◌, ltb, if◌then◌else◌}
use go_cmms.Base.Lists.{any, find, update}
use go_cmms.Text.{Text, text_eq, to_lower}
use go_cmms.Models.{Time}
use go_cmms.Db.{Db, UserRow, CredentialRow, LoginAttemptRow}
use go_cmms.Db.Users.{get_user_by_id}

-- `INSERT INTO local_credentials`: one row to a user, and to a username.
unfoldable pub create_local_credential : Time → ℕ → Text → Text → Db → Option Db
unfolding get_user_by_id
create_local_credential now user_id username hash db =
    if any (λ c. c.user_id == user_id || text_eq c.username (to_lower username)) db.credentials
    then none
    else elim (get_user_by_id user_id db) [
      | none ↦ none
      | some u ↦
          (let row : CredentialRow = record {
            user_id = user_id;
            username = to_lower username;
            password_hash = hash;
            last_password_change = now;
          } in
            some (record db { credentials = row ∷ db.credentials }))
    ]

-- `… JOIN users u ON u.id = lc.user_id WHERE lc.username = LOWER($1)`
unfoldable pub get_local_credential_by_username : Text → Db → Option (CredentialRow × UserRow)
unfolding get_user_by_id
get_local_credential_by_username username db =
    elim (find (λ c. text_eq c.username (to_lower username)) db.credentials) [
      | none ↦ none
      | some c ↦ elim (get_user_by_id c.user_id db) [ none ↦ none | some u ↦ some (c, u) ]
    ]

unfoldable pub update_local_password_hash : Time → ℕ → Text → Db → Db
update_local_password_hash now user_id hash db = record db {
  credentials =
      update (λ c. c.user_id == user_id)
        (λ c. record c { password_hash = hash; last_password_change = now }) db.credentials;
}

unfoldable pub get_totp_secret : ℕ → Db → Option Text
get_totp_secret user_id db = elim (find (λ t. t.user_id == user_id) db.totp) [
  | none ↦ none
  | some t ↦ some t.secret
]

unfoldable pub user_has_totp : ℕ → Db → Bool
user_has_totp user_id db = any (λ t. t.user_id == user_id) db.totp

-- `INSERT … ON CONFLICT (user_id) DO UPDATE SET secret = …, issuer = …, label = …`
unfoldable pub set_totp_secret : ℕ → Text → Text → Text → Db → Option Db
unfolding get_user_by_id
set_totp_secret user_id secret issuer label db =
    if any (λ t. t.user_id == user_id) db.totp
    then some (record db {
      totp =
          update (λ t. t.user_id == user_id)
            (λ t. record t { secret = secret; issuer = issuer; label = label }) db.totp;
    })
    else elim (get_user_by_id user_id db) [
      | none ↦ none
      | some u ↦ some (record db {
        totp =
            record { user_id = user_id; secret = secret; issuer = issuer; label = label } ∷ db.totp;
      })
    ]

unfoldable pub record_login_attempt : Time → Text → Text → Bool → Db → Db
record_login_attempt now username ip success db =
    (let row : LoginAttemptRow = record {
      username = to_lower username;
      ip = ip;
      ts = now;
      success = success;
    } in
      record db { attempts = row ∷ db.attempts })

abbrev pub newer : Time → Option Time → Option Time
newer t none = some t
newer t (some u) = some (if ltb u t then t else u)

-- The latest success of a username.
abbrev pub latest : Text → List LoginAttemptRow → Option Time
latest username [] = none
latest username (a ∷ rest) =
    let others = latest username rest in
    if a.success && text_eq a.username username then newer a.ts others else others

-- `WHERE success = true AND username = LOWER($1) ORDER BY ts DESC LIMIT 1`
unfoldable pub get_last_successful_login : Text → Db → Option Time
get_last_successful_login username db = latest (to_lower username) db.attempts
