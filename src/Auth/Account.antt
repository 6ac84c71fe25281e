-- ===== src/Auth/Account.antt =====
-- What a logged-in user changes of the account: internal/auth/password.go, profile.go, and the TOTP
-- handlers of local.go.
use mathlib.Core.Option
use go_cmms.Base.{ℕ, Bool, true, ◌||◌, not, Option, none, some, [], ◌∷◌, ◌++◌, ltb, if◌then◌else◌}
use go_cmms.Base.Lists.{length}
use go_cmms.Text.{
  Text, codes, is_empty, text_eq, to_lower, trim_space, trim_right, has_prefix, contains,
}
use go_cmms.Models.{User, LocalCredential, Session}
use go_cmms.Phc.{default_argon_params}
use go_cmms.Http.{
  Action, Done, ◌>>=◌, ◌>>◌, pure, reply_if, or_reply, gets, draw, Request, Response, header,
  query_param, error, json, str, bool, redirect,
}
use go_cmms.Repo.Users.{get_user_by_id, update_user_profile}
use go_cmms.Repo.Auth.{
  create_local_credential, get_local_credential_by_username, update_local_password_hash,
  set_totp_secret, get_totp_secret,
}
use go_cmms.Auth.{External, Frontend, read_session}
use go_cmms.Auth.Password.{hash_password}
use go_cmms.Auth.Login.{accepts}

abbrev pub unauthorized : Response
unauthorized = error 401 (codes "unauthorized")

-- The credential of the user's email is updated if there is one, else created.
abbrev pub store_hash : ℕ → Text → Text → Option (LocalCredential × User) → Action Done
store_hash user_id username phc (some found) = do
  done ← update_local_password_hash user_id phc
  or_reply done (error 500 (codes "cannot update credential"))
store_hash user_id username phc none = do
  done ← create_local_credential user_id username phc
  or_reply done (error 500 (codes "cannot create credential"))

abbrev pub default_path : Text → Text
default_path path =
    if is_empty (trim_space path)
    then codes "/app/work-orders"
    else if has_prefix path (codes "/")
    then path
    else b'/' ∷ path

abbrev pub password_redirect : Frontend → Text
password_redirect cfg =
    let base = trim_right b'/' cfg.url in
    let path = default_path cfg.post_login_path in if is_empty base then path else base ++ path

abbrev pub wants_redirect : Request → Bool
wants_redirect req =
    contains (header (codes "Accept") req) (codes "text/html")
    || text_eq (query_param (codes "redirect") req) (codes "1")
    || text_eq (query_param (codes "navigate") req) (codes "1")

abbrev pub is_weak : Option Text → Bool
is_weak none = true
is_weak (some password) = ltb (length password) 8

-- `norm` of `UpdateProfileHandler`.
abbrev pub norm : Option Text → Option Text
norm p = Option.map trim_space p

pub record ProfileBody : Type 0 where
  pub name : Option Text
  pub phone : Option Text
  pub country : Option Text
  pub avatar_url : Option Text

-- `UpdateProfileHandler`, on the decoded body.
unfoldable pub update_profile : Request → Option ProfileBody → Action Response
update_profile req body = do
  sess ← or_reply (← read_session req) unauthorized
  b ← or_reply body (error 400 (codes "bad json"))
  done ←
      or_reply
        (← update_user_profile sess.user_id (norm b.name) (norm b.avatar_url) (norm b.phone)
          (norm b.country))
        (error 500 (codes "update failed"))
  pure (json 200 ((codes "ok", bool true) ∷ []))

abbrev pub no_code : Option Text → Bool
no_code none = true
no_code (some code) = is_empty (trim_space code)

module _ (x : External) where
  -- The hash, and where it is stored.
  unfoldable pub set_password_of : Session → Text → Action Done
  set_password_of sess password = do
    phc ←
        or_reply (← hash_password x password default_argon_params) (error 500 (codes "hash error"))
    u ← or_reply (← get_user_by_id sess.user_id) (error 500 (codes "user not found"))
    reply_if (is_empty (trim_space u.email)) (error 400 (codes "user has no email"))
    let username = to_lower (trim_space u.email)
    found ← get_local_credential_by_username username
    store_hash sess.user_id username phc found

  -- `SetPasswordHandler`, on the decoded body.
  unfoldable pub set_password : Frontend → Request → Option Text → Action Response
  unfolding set_password_of
  set_password cfg req body = do
    sess ← or_reply (← read_session req) unauthorized
    reply_if (is_weak body) (error 400 (codes "bad json or weak password"))
    password ← or_reply body (error 400 (codes "bad json or weak password"))
    set_password_of sess password
    pure (
        if wants_redirect req
        then redirect 303 (password_redirect cfg)
        else json 200
            ((codes "ok", bool true) ∷ (codes "redirect", str (password_redirect cfg)) ∷ []))

  -- `TOTPSetupBeginHandler`; the key is generated from the next random bytes.
  unfoldable pub totp_setup_begin : Request → Action Response
  totp_setup_begin req = do
    sess ← or_reply (← read_session req) unauthorized
    let label = x.uuid_string sess.user_id
    raw ← draw
    let secret = x.totp_secret raw
    done ←
        or_reply (← set_totp_secret sess.user_id secret (codes "YourApp") label)
          (error 500 (codes "store totp error"))
    pure (
        json 200 (
          (codes "otpauth_url", str (x.totp_url label secret)) ∷ (codes "secret", str secret) ∷ []))

  -- `TOTPSetupVerifyHandler`, on the code of the decoded body.
  unfoldable pub totp_setup_verify : Request → Option Text → Action Response
  totp_setup_verify req body = do
    sess ← or_reply (← read_session req) unauthorized
    reply_if (no_code body) (error 400 (codes "bad json"))
    code ← or_reply body (error 400 (codes "bad json"))
    secret ← or_reply (← get_totp_secret sess.user_id) (error 400 (codes "no totp setup"))
    good ← gets (accepts x (some secret) code)
    reply_if (not good) (error 400 (codes "invalid code"))
    pure (json 200 ((codes "ok", bool true) ∷ []))
