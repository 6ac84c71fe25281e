-- ===== src/Auth/Signup.antt =====
-- `SignupHandler` of internal/auth/local.go.
pub mod Laws
pub mod Founding
use go_cmms.Base.{ℕ, ◌+◌, true, ◌||◌, not, Option, none, some, [], ◌∷◌, if◌then◌else◌, is_some}
use go_cmms.Text.{Text, codes, is_empty, to_lower, trim_space}
use go_cmms.Models.{role_owner}
use go_cmms.Slug.{is_valid_slug}
use go_cmms.Phc.{default_argon_params}
use go_cmms.Http.{
  Action, Done, ◌>>=◌, ◌>>◌, pure, reply, reply_if, or_reply, gets, Response, error, json, str,
  bool,
}
use go_cmms.Repo.Users.{upsert_user_by_verified_email}
use go_cmms.Repo.Orgs.{find_org_by_slug, create_org, ensure_membership}
use go_cmms.Repo.Auth.{create_local_credential}
use go_cmms.Auth.{External, set_session_cookie, session_ttl}
use go_cmms.Auth.Password.{hash_password}

pub record SignupBody : Type 0 where
  pub email : Text
  pub username : Text
  pub name : Text
  pub password : Text
  pub org_slug : Text

abbrev pub org_exists : Response
org_exists = json 409 (
    (codes "error", str (codes "org_exists"))
    ∷ (codes "message", str (codes "Organisation already exists. Ask an owner for an invite."))
    ∷ [])

abbrev pub username_taken : Response
username_taken = error 409 (codes "username taken")

abbrev pub normal : Text → Text
normal s = to_lower (trim_space s)

-- From the creation of the organisation on.
unfoldable pub signup_org : ℕ → Text → Action Response
signup_org user_id slug = do
  org ← or_reply (← create_org slug slug []) (error 500 (codes "org create failed"))
  role ←
      or_reply (← ensure_membership org.id user_id role_owner)
        (error 500 (codes "membership failed"))
  now ← gets (λ w. w.now)
  set_session_cookie (record {
    user_id = user_id;
    active_org = org.id;
    provider = codes "local";
    expiry = now + session_ttl;
  })
  pure (json 201 ((codes "ok", bool true) ∷ []))

module _ (x : External) where
  -- The user and the credential, then the organisation.
  unfoldable pub signup_user : Text → Text → Text → Text → Text → Action Response
  unfolding signup_org
  signup_user email username name password slug = do
    u ←
        or_reply (← upsert_user_by_verified_email email (trim_space name))
          (error 500 (codes "user upsert failed"))
    phc ←
        or_reply (← hash_password x password default_argon_params) (error 500 (codes "hash error"))
    done ← or_reply (← create_local_credential u.id username phc) username_taken
    existing ← find_org_by_slug slug
    reply_if (is_some existing) org_exists
    signup_org u.id slug

  -- `SignupHandler`, on the decoded body; `none` is a body that is not JSON.
  unfoldable pub signup : Option SignupBody → Action Response
  unfolding signup_user
  signup body = do
    b ← or_reply body (error 400 (codes "bad json"))
    let email = normal b.email
    let given = normal b.username
    reply_if (is_empty email || is_empty b.password) (error 400 (codes "missing fields"))
    let username = if is_empty given then email else given
    let slug = normal b.org_slug
    reply_if (is_empty slug) (error 400 (codes "org_slug required"))
    reply_if (not (is_valid_slug slug)) (
        error 400 (
          codes
            "invalid org_slug (use 3-32 chars: lowercase letters, digits, hyphens; cannot start/end with '-')"))
    signup_user email username b.name b.password slug
