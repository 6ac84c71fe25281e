-- ===== src/Auth/Invite.antt =====
-- internal/auth/invite.go: the creation and the acceptance of invites.
pub mod Laws
pub mod Admission
pub mod Creation
use go_cmms.Base.{
  ℕ, ◌+◌, ◌*◌, Bool, true, false, ◌||◌, not, Option, none, some, [], ◌∷◌, ◌++◌, ltb, if◌then◌else◌,
}
use go_cmms.Text.{Text, hex, codes, is_empty, text_eq, to_lower, trim_space, trim, trim_right}
use go_cmms.Models.{
  User, OrgInvite, OrgRole, Session, Time, hour, is_zero, role_owner, role_admin, role_member,
  role_viewer,
}
use go_cmms.Http.{
  Action, Done, ◌>>=◌, ◌>>◌, pure, reply, reply_if, or_reply, gets, draw, Request, Response, error,
  json, str, bool, time,
}
use go_cmms.Repo.Users.{get_user_by_email, upsert_user_by_verified_email}
use go_cmms.Repo.Orgs.{create_invite, get_invite_by_token_hash, ensure_membership, use_invite}
use go_cmms.Auth.{External, Frontend, read_session, set_session_cookie, session_ttl}

pub record InviteBody : Type 0 where
  pub email : Text
  pub role : Text

-- The switch on the lower-cased role: an invite is never for an Owner.
unfoldable pub invited_role : Text → Option OrgRole
invited_role role =
    if is_empty (trim_space role)
    then some role_member
    else if text_eq (to_lower role) (to_lower role_viewer)
    then some role_viewer
    else if text_eq (to_lower role) (to_lower role_member)
    then some role_member
    else if text_eq (to_lower role) (to_lower role_admin)
    then some role_admin
    else none

abbrev pub no_email : Option InviteBody → Bool
no_email none = true
no_email (some b) = is_empty (trim_space b.email)

abbrev pub invite_ttl : ℕ
invite_ttl = 7 * 24 * hour

-- `api := strings.TrimSpace(…); if api != "" { api = "/" + strings.Trim(api, "/") }`
abbrev pub api_prefix : Text → Text
api_prefix route = let api = trim_space route in if is_empty api then api else b'/' ∷ trim b'/' api

abbrev pub no_token : Option Text → Bool
no_token none = true
no_token (some token) = is_empty (trim_space token)

-- `!inv.UsedAt.IsZero() || time.Now().After(inv.ExpiresAt)`
abbrev pub is_closed : Time → OrgInvite → Bool
is_closed now inv = not (is_zero inv.used_at) || ltb inv.expires_at now

abbrev pub user_or_new : Text → Option User → Action User
user_or_new email (some u) = pure u
user_or_new email none = do
  created ← upsert_user_by_verified_email email []
  or_reply created (error 500 (codes "user create failed"))

-- The membership, the mark on the invite, and the session.
unfoldable pub admit : OrgInvite → Text → ℕ → Action Response
admit inv hash user_id = do
  role ←
      or_reply (← ensure_membership inv.org_id user_id inv.role)
        (error 500 (codes "membership failed"))
  done ← or_reply (← use_invite hash) (error 500 (codes "invite update failed"))
  now ← gets (λ w. w.now)
  set_session_cookie (record {
    user_id = user_id;
    active_org = inv.org_id;
    provider = codes "invite";
    expiry = now + session_ttl;
  })
  pure (json 200 ((codes "ok", bool true) ∷ (codes "needs_password", bool true) ∷ []))

module _ (x : External) where
  -- Token, hash and expiry, and the row; the answer with the link.
  unfoldable pub send_invite : Frontend → Session → Text → OrgRole → Action Response
  send_invite cfg sess email role = do
    raw ← draw
    let token = x.base64_url raw
    let hash = hex (x.sha256 token)
    now ← gets (λ w. w.now)
    let exp = now + invite_ttl
    done ←
        or_reply
          (← create_invite sess.active_org sess.user_id (to_lower (trim_space email)) role hash exp)
          (error 500 (codes "create invite failed"))
    let accept_url =
        trim_right b'/' cfg.url
        ++ (api_prefix cfg.api_route ++ (codes "/invite/accept?token=" ++ x.query_escape token))
    pure (
        json 200 (
          (codes "ok", bool true)
          ∷ (codes "accept_url", str accept_url)
          ∷ (codes "exp", time exp)
          ∷ (codes "role", str role)
          ∷ []))

  -- `InviteCreateHandler`, on the decoded body.
  unfoldable pub create_invite_handler : Frontend → Request → Option InviteBody → Action Response
  unfolding send_invite
  create_invite_handler cfg req body = do
    sess ← or_reply (← read_session req) (error 401 (codes "unauthorized"))
    reply_if (no_email body) (error 400 (codes "bad json"))
    b ← or_reply body (error 400 (codes "bad json"))
    role ← or_reply (invited_role b.role) (error 400 (codes "invalid role"))
    send_invite cfg sess b.email role

  -- `InviteAcceptHandler`, on the token of the decoded body; it reads no session.
  unfoldable pub accept_invite : Option Text → Action Response
  unfolding admit
  accept_invite body = do
    reply_if (no_token body) (error 400 (codes "bad json"))
    token ← or_reply body (error 400 (codes "bad json"))
    let hash = hex (x.sha256 token)
    inv ← or_reply (← get_invite_by_token_hash hash) (error 400 (codes "invalid invite"))
    now ← gets (λ w. w.now)
    reply_if (is_closed now inv) (error 400 (codes "invite expired or used"))
    found ← get_user_by_email (to_lower inv.email)
    user ← user_or_new (to_lower inv.email) found
    admit inv hash user.id
