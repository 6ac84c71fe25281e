-- ===== src/Auth/Link.antt =====
-- internal/auth/linking.go: identities that wait for a password, and `LinkWithPasswordHandler`.
pub mod Laws
use go_cmms.Base.{
  ℕ, ◌+◌, ◌*◌, Bool, true, false, ◌||◌, ◌&&◌, not, Option, none, some, [], ◌∷◌, ltb, leb, ◌==◌,
  if◌then◌else◌,
}
use go_cmms.Base.Maps.{lookup, insert, erase}
use go_cmms.Text.{Text, codes, is_empty, text_eq, text_key, to_lower, trim_space}
use go_cmms.Models.{User, Time, minute, is_zero}
use go_cmms.Http.{
  Action, Done, ◌>>=◌, ◌>>◌, pure, reply_if, or_reply, when, gets, modify, draw, Request, Response,
  json, str, redirect, PendingLink, value_or_empty, ok,
}
use go_cmms.Repo.Users.{get_user_by_identity, link_identity, update_user_profile}
use go_cmms.Repo.Orgs.{pick_user_org}
use go_cmms.Repo.Auth.{get_local_credential_by_username, user_has_totp, get_totp_secret}
use go_cmms.Auth.{
  External, Frontend, set_session_cookie, session_ttl, client_ip, record_success_from, send_cookie,
  unix_epoch, post_login_url,
}
use go_cmms.Auth.Login.{accepts}
use go_cmms.Auth.Password.{verify_password}

-- `if ttl <= 0 { ttl = 10 * time.Minute }`
abbrev pub ttl_or_default : ℕ → ℕ
ttl_or_default ttl = if leb ttl 0 then 10 * minute else ttl

-- `putPending`: the token under which the link waits.
unfoldable pub put_pending : PendingLink → ℕ → Action Text
put_pending pl ttl = do
  token ← draw
  modify (λ w. record w {
    pending = insert token (record pl { expires = w.now + ttl_or_default ttl }) w.pending;
  })
  pure token

abbrev pub is_past : Time → PendingLink → Bool
is_past now pl = not (is_zero pl.expires) && ltb pl.expires now

abbrev pub get_found : Text → Option PendingLink → Action (Option PendingLink)
get_found token none w = (ok none, w)
get_found token (some pl) w =
    if is_past w.now pl
    then (ok none, record w { pending = erase token w.pending })
    else (ok (some pl), w)

-- `getPending`
unfoldable pub get_pending : Text → Action (Option PendingLink)
get_pending token w = get_found token (lookup token w.pending) w

-- `delPending`
unfoldable pub del_pending : Text → Action Done
del_pending token = modify (λ w. record w { pending = erase token w.pending })

abbrev pub pending_cookie : Text
pending_cookie = codes "pending_link"

-- `readPendingCookie`
abbrev pub read_pending_cookie : Request → Text
read_pending_cookie req = value_or_empty (lookup pending_cookie req.cookies)

-- `setPendingCookie`
unfoldable pub set_pending_cookie : Text → ℕ → Action Done
set_pending_cookie token ttl w = send_cookie pending_cookie token (w.now + ttl_or_default ttl) w

pub record LinkBody : Type 0 where
  pub email : Text
  pub password : Text
  pub totp_code : Text

abbrev pub failed : ℕ → Text → Response
failed status code = json status ((codes "error", str code) ∷ [])

abbrev pub failed_with : ℕ → Text → Text → Response
failed_with status code message =
    json status ((codes "error", str code) ∷ (codes "message", str message) ∷ [])

abbrev pub normal : Text → Text
normal s = to_lower (trim_space s)

abbrev pub is_other : ℕ → Option User → Bool
is_other id none = false
is_other id (some u) = not (u.id == id)

-- The checks on the identity, and the link.
unfoldable pub link_to : User → PendingLink → Action Done
link_to user pl = do
  reply_if (not (text_eq (normal user.email) (normal pl.email))) (
      failed_with 409 (codes "email_mismatch")
        (codes "Authenticated account email does not match provider email"))
  existing ← get_user_by_identity pl.provider pl.subject
  reply_if (is_other user.id existing) (failed 409 (codes "identity_linked_elsewhere"))
  done ←
      or_reply (← link_identity user.id pl.provider pl.subject) (failed 500 (codes "link_failed"))
  when (not (is_empty (trim_space pl.picture)))
      (do update_user_profile user.id none (some pl.picture) none none; pure tt)

module _ (x : External) where
  -- The password and, with MFA enabled, the code of the local account.
  unfoldable pub link_authenticate : Text → Text → Text → Action User
  link_authenticate email password code = do
    (cred, user) ←
        or_reply (← get_local_credential_by_username email) (failed 401 (codes "invalid_login"))
    reply_if (not (verify_password x password cred.password_hash))
        (failed 401 (codes "invalid_login"))
    has ← user_has_totp user.id
    when has (do
      secret ← get_totp_secret user.id
      good ← gets (accepts x secret code)
      reply_if (is_empty (trim_space code) || not good)
          (failed_with 401 (codes "invalid_mfa") (codes "Valid two-factor code required to link")))
    pure user

  -- The pending state is cleared, and the user is logged in.
  unfoldable pub link_finish : Frontend → Request → Text → User → PendingLink → Action Response
  unfolding del_pending
  link_finish cfg req token user pl = do
    del_pending token
    send_cookie pending_cookie [] unix_epoch
    org ← or_reply (← pick_user_org user.id) (failed 403 (codes "no_org"))
    now ← gets (λ w. w.now)
    set_session_cookie (record {
      user_id = user.id;
      active_org = org.id;
      provider = pl.provider;
      expiry = now + session_ttl;
    })
    record_success_from x user.email (client_ip x req)
    pure (redirect 302 (post_login_url cfg req))

  -- `LinkWithPasswordHandler`, on the decoded body.
  unfoldable pub link_with_password : Frontend → Request → Option LinkBody → Action Response
  unfolding link_authenticate link_to link_finish get_pending
  link_with_password cfg req body = do
    let token = read_pending_cookie req
    reply_if (is_empty token)
        (failed_with 400 (codes "no_pending_link") (codes "No pending identity to link"))
    pl ←
        or_reply (← get_pending token)
          (failed_with 400 (codes "expired_pending_link") (codes "Pending link expired or missing"))
    b ← or_reply body (failed 400 (codes "bad_json"))
    let email = normal b.email
    reply_if (is_empty email || is_empty (trim_space b.password))
        (failed 400 (codes "missing_fields"))
    user ← link_authenticate email b.password b.totp_code
    link_to user pl
    link_finish cfg req token user pl
