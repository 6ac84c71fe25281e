-- ===== src/Auth/OAuth.antt =====
-- `StartHandler` and `CallbackHandler` of internal/auth/handlers.go. The `provider` parameter of the
-- path is the argument `pname`.
pub mod Laws
pub mod Nonce
use go_cmms.Base.{
  ℕ, ◌+◌, ◌*◌, Bool, true, false, ◌&&◌, ◌||◌, not, Option, none, some, List, [], ◌∷◌, ◌++◌, ◌==◌,
  ltb, if◌then◌else◌, is_some,
}
use go_cmms.Base.Maps.{lookup}
use go_cmms.Text.{Text, codes, is_empty, text_eq, text_key, to_lower, trim_space, trim_right}
use go_cmms.Models.{User, Org, minute, role_member}
use go_cmms.Security.{is_identity_denied}
use go_cmms.Http.{
  Action, Done, ◌>>=◌, ◌>>◌, pure, reply, reply_if, or_reply, when, gets, draw, set_cookie,
  SameSite, Request, Response, error, json, str, redirect, query_param, value_or_empty, World,
}
use go_cmms.Repo.Users.{get_user_by_identity, get_user_by_email}
use go_cmms.Repo.Orgs.{
  pick_user_org, find_org_by_tenant_id, find_org_by_slug, ensure_membership,
  apply_group_role_mappings,
}
use go_cmms.Auth.{
  External, Frontend, set_session_cookie, session_ttl, client_ip, record_success_from,
  post_login_url,
}
use go_cmms.Auth.Link.{put_pending, set_pending_cookie}
use go_cmms.Auth.Provider.{
  Provider, Providers, Github, Identity, extract_identity, provider_microsoft,
}

abbrev pub cookie_state : Text
cookie_state = codes "oauth_state"

abbrev pub cookie_nonce : Text
cookie_nonce = codes "oidc_nonce"

-- `http.NotFound`
abbrev pub not_found : Response
not_found = error 404 (codes "404 page not found")

-- `setTempCookie`
unfoldable pub set_temp_cookie : Text → Text → ℕ → Action Done
set_temp_cookie name val ttl w =
    set_cookie
      (record {
        name = name;
        value = val;
        expires = w.now + ttl;
        http_only = true;
        secure = true;
        same_site = SameSite.lax;
      })
      w

-- `readCookie`
unfoldable pub read_cookie : Request → Text → Text
read_cookie req name = value_or_empty (lookup name req.cookies)

-- `StartHandler`
unfoldable pub start : Providers → Text → Request → Action Response
unfolding set_temp_cookie
start providers pname req = do
  p ← or_reply (lookup pname providers) not_found
  state ← draw
  nonce ← draw
  set_temp_cookie cookie_state state (10 * minute)
  set_temp_cookie cookie_nonce nonce (10 * minute)
  pure (redirect 302 (p.auth_code_url state (if is_some p.verifier then some nonce else none)))

-- The parts of a text before and after the first, and the last, of a byte.
abbrev pub cons_before : ℕ → Text × Text → Text × Text
cons_before c (before, after) = (c ∷ before, after)

abbrev pub cut_first : ℕ → Text → Option (Text × Text)
cut_first b [] = none
cut_first b (c ∷ s) =
    let rest = cut_first b s in
    if c == b
    then some ([], s)
    else elim rest [ none ↦ none | some parts ↦ some (cons_before c parts) ]

abbrev pub cut_last : ℕ → Text → Option (Text × Text)
cut_last b [] = none
cut_last b (c ∷ s) = elim (cut_last b s) [
  | some parts ↦ some (cons_before c parts)
  | none ↦ if c == b then some ([], s) else none
]

-- The slug of a domain: what is before its first dot, if that is not empty.
abbrev pub slug_of_domain : Option (Text × Text) → Option Text
slug_of_domain none = none
slug_of_domain (some (name, rest)) = if is_empty name then none else some (to_lower name)

abbrev pub slug_of_parts : Option (Text × Text) → Option Text
slug_of_parts none = none
slug_of_parts (some (local, domain)) =
    if is_empty local || is_empty domain then none else slug_of_domain (cut_first b'.' domain)

-- `strings.LastIndex(id.Email, "@")` and the domain after it.
unfoldable pub slug_of_email : Text → Option Text
slug_of_email email = slug_of_parts (cut_last b'@' email)

abbrev pub org_by_slug : Option Text → Action (Option Org)
org_by_slug none = pure none
org_by_slug (some slug) = find_org_by_slug slug

abbrev pub first_org : Option Org → Action (Option Org) → Action (Option Org)
first_org (some org) next = pure (some org)
first_org none next = next

abbrev pub org_by_tenant : Text → Identity → Action (Option Org)
org_by_tenant pname id =
    if text_eq pname provider_microsoft && not (is_empty id.tenant)
    then find_org_by_tenant_id id.tenant
    else pure none

-- `resolveOrgPostLogin`
unfoldable pub resolve_org_post_login : Text → Identity → Action (Option Org)
unfolding slug_of_email
resolve_org_post_login pname id = do
  by_tenant ← org_by_tenant pname id
  first_org by_tenant (do
    by_slug ← org_by_slug (slug_of_email id.email)
    first_org by_slug (find_org_by_slug (codes "acme")))

-- The organisation of the session: of an identity that was linked, or by joining one.
unfoldable pub org_of_login : Bool → User → Text → Identity → Action Org
unfolding resolve_org_post_login
org_of_login true u pname id = do
  picked ← pick_user_org u.id
  or_reply picked (error 403 (codes "no organisation"))
org_of_login false u pname id = do
  found ← resolve_org_post_login pname id
  org ← or_reply found (error 401 (codes "org resolution failed: "))
  role ← ensure_membership org.id u.id role_member
  or_reply role (error 500 (codes "membership failed: "))
  apply_group_role_mappings org.id pname id.groups
  pure org

-- `strings.ToLower(strings.TrimSpace(id.Email))`
abbrev pub normalised : Identity → Identity
normalised id = record id { email = to_lower (trim_space id.email) }

module _ (x : External) (cfg : Frontend) where
  abbrev pub has_frontend : Bool
  has_frontend = not (is_empty (trim_space cfg.url))

  -- What a caller is told who has to link an account, or to sign up.
  abbrev pub link_required : Text → Response
  link_required pname =
      if has_frontend
      then redirect 302 (
          trim_right b'/' cfg.url
          ++ (codes "/auth/link?reason=link_required&provider=" ++ x.query_escape pname))
      else json 409
          ((codes "error", str (codes "link_required")) ∷ (codes "provider", str pname) ∷ [])

  abbrev pub signup_required : Text → Text → Response
  signup_required pname email =
      if has_frontend
      then redirect 302 (
          trim_right b'/' cfg.url
          ++ (codes "/account/register?reason=signup_required&provider="
              ++ (x.query_escape pname ++ (codes "&email=" ++ x.query_escape email))))
      else json 409 (
          (codes "error", str (codes "signup_required"))
          ∷ (
            codes "message",
            str (codes "No account exists for this email. Please sign up or ask for an invite."),
          )
          ∷ (codes "provider", str pname)
          ∷ (codes "email", str email)
          ∷ [])

  -- No user has the identity: it waits for a password if a user has its email.
  unfoldable pub refer : Text → Identity → Option User → Action User
  refer pname id none = reply (signup_required pname id.email)
  refer pname id (some other) = do
    token ←
        put_pending
          (record {
            provider = pname;
            subject = id.subject;
            email = id.email;
            name = id.name;
            picture = id.picture;
            expires = 0;
          })
          (10 * minute)
    set_pending_cookie token (10 * minute)
    reply (link_required pname)

  -- The user of an identity, and whether it was linked before.
  abbrev pub user_of_identity : Text → Identity → Option User → Action User
  user_of_identity pname id (some u) = pure u
  user_of_identity pname id none = do other ← get_user_by_email id.email; refer pname id other

  -- `GetUserByIdentity`, and what follows if it finds no user.
  unfoldable pub find_user : Text → Identity → Action User
  unfolding refer
  find_user pname id = do
    existing ← get_user_by_identity pname id.subject
    user_of_identity pname id existing

  -- The checks up to the identity.
  unfoldable pub authenticate : Providers → Github → Text → Request → Action Identity
  authenticate providers g pname req = do
    p ← or_reply (lookup pname providers) not_found
    reply_if (not (text_eq (query_param (codes "state") req) (read_cookie req cookie_state)))
        (error 400 (codes "bad state"))
    tok ←
        or_reply (p.exchange (query_param (codes "code") req))
          (error 400 (codes "exchange failed: "))
    now ← gets (λ w. w.now)
    id ←
        or_reply (extract_identity p g pname tok (read_cookie req cookie_nonce) now)
          (error 400 (codes "identity error: "))
    denied ← gets (λ w. is_identity_denied pname id.subject w.denied)
    reply_if denied (error 403 (codes "forbidden"))
    pure (normalised id)

  -- The session of a user whose identity is linked.
  unfoldable pub sign_in : Text → Request → Identity → User → Action Response
  unfolding org_of_login
  sign_in pname req id u = do
    org ← org_of_login true u pname id
    now ← gets (λ w. w.now)
    set_session_cookie (record {
      user_id = u.id;
      active_org = org.id;
      provider = pname;
      expiry = now + session_ttl;
    })
    record_success_from x u.email (client_ip x req)
    pure (redirect 302 (post_login_url cfg req))

  -- `CallbackHandler`
  unfoldable pub callback : Providers → Github → Text → Request → Action Response
  unfolding authenticate find_user sign_in
  callback providers g pname req = do
    id ← authenticate providers g pname req
    u ← find_user pname id
    sign_in pname req id u
