-- ===== src/Auth/Login.antt =====
-- `LoginHandler` and `LogoutHandler` of internal/auth/local.go.
pub mod Laws
use go_cmms.Base.{
  ℕ, ◌+◌, true, ◌||◌, not, ◌&&◌, Bool, false, Option, none, some, [], ◌∷◌, if◌then◌else◌,
}
use go_cmms.Base.Maps.{lookup}
use go_cmms.Text.{Text, codes, is_empty, text_key, to_lower, trim_space}
use go_cmms.Models.{User, LocalCredential}
use go_cmms.Session.{delete}
use go_cmms.Http.{
  Action, Done, ◌>>=◌, ◌>>◌, pure, reply, reply_if, or_reply, when, gets, modify, Request, Response,
  error, json, str, bool, empty, World,
}
use go_cmms.Repo.Orgs.{pick_user_org}
use go_cmms.Repo.Auth.{
  get_local_credential_by_username, user_has_totp, get_totp_secret, record_login_failure,
}
use go_cmms.Auth.{
  External, set_session_cookie, session_ttl, client_ip, validate_totp, record_success_from,
  cookie_value, cookie_name, send_cookie, unix_epoch,
}
use go_cmms.Auth.Password.{verify_password}

pub record LoginBody : Type 0 where
  pub username : Text
  pub password : Text
  pub totp_code : Text

abbrev pub invalid_login : Response
invalid_login = error 401 (codes "invalid login")

abbrev pub mfa_error : Text → Text → Response
mfa_error code message = json 401 ((codes "error", str code) ∷ (codes "message", str message) ∷ [])

abbrev pub mfa_required : Response
mfa_required = mfa_error (codes "mfa_required") (codes "Two-factor code required")

abbrev pub invalid_mfa : Response
invalid_mfa = mfa_error (codes "invalid_mfa") (codes "Invalid two-factor code")

abbrev pub record_failure_from : Text → Option Text → Action Done
record_failure_from username none = pure tt
record_failure_from username (some ip) = do record_login_failure username ip; pure tt

module _ (x : External) where
  -- `!VerifyPassword`: record the failure and reply.
  unfoldable pub check_password : Request → Text → Text → Text → Action Done
  check_password req username password phc =
      if verify_password x password phc
      then pure tt
      else (do record_failure_from username (client_ip x req); reply invalid_login)

  abbrev pub accepts : Option Text → Text → World → Bool
  accepts none code w = false
  accepts (some secret) code w = validate_totp x secret code w.now

  -- The code of a user who has TOTP enabled.
  unfoldable pub check_code : ℕ → Text → Action Done
  check_code user_id code = do
    reply_if (is_empty (trim_space code)) mfa_required
    secret ← get_totp_secret user_id
    good ← gets (accepts secret code)
    reply_if (not good) invalid_mfa

  -- From the choice of an organisation on.
  unfoldable pub login_session : Request → Text → ℕ → Action Response
  login_session req username user_id = do
    org ← or_reply (← pick_user_org user_id) (error 403 (codes "no organisation"))
    now ← gets (λ w. w.now)
    set_session_cookie (record {
      user_id = user_id;
      active_org = org.id;
      provider = codes "local";
      expiry = now + session_ttl;
    })
    record_success_from x username (client_ip x req)
    pure (json 200 ((codes "ok", bool true) ∷ []))

  -- The checks on the user that the username names.
  unfoldable pub authenticate : Request → Text → Text → Text → Action ℕ
  unfolding check_password check_code
  authenticate req username password code = do
    (cred, user) ← or_reply (← get_local_credential_by_username username) invalid_login
    check_password req username password cred.password_hash
    has ← user_has_totp user.id
    when has (check_code user.id code)
    pure user.id

  -- `LoginHandler`, on the decoded body.
  unfoldable pub login : Request → Option LoginBody → Action Response
  unfolding authenticate login_session
  login req body = do
    b ← or_reply body (error 400 (codes "bad json"))
    let username = to_lower (trim_space b.username)
    reply_if (is_empty username || is_empty b.password) invalid_login
    user_id ← authenticate req username b.password b.totp_code
    login_session req username user_id

-- The session of the cookie, if there is one, is deleted.
abbrev pub drop_session : Option Text → World → World
drop_session none w = w
drop_session (some sid) w = record w { sessions = delete sid w.sessions }

-- `LogoutHandler`
unfoldable pub logout : Request → Action Response
logout req = do
  modify (drop_session (cookie_value (lookup cookie_name req.cookies)))
  send_cookie cookie_name [] unix_epoch
  pure (record { status = 204; location = []; body = empty })
