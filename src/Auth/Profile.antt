-- ===== src/Auth/Profile.antt =====
-- `ProfileHandler` and `FullProfileHandler` of internal/auth/handlers.go, and `ListSessionsHandler` of
-- internal/handlers/admin. The text of a database error is left out.
pub mod Laws
use go_cmms.Base.{
  Bool, true, false, ◌&&◌, not, ◌||◌, Option, none, some, List, [], ◌∷◌, ◌++◌, map, if◌then◌else◌,
}
use go_cmms.Text.{Text, codes, text_eq, to_lower}
use go_cmms.Models.{User, Org, Session, OrgRole, Time, role_admin, role_owner}
use go_cmms.Session.{SessionEntry, list}
use go_cmms.Http.{
  World, Action, ◌>>=◌, ◌>>◌, pure, gets, or_reply, reply_if, Request, Response, Json, str, time,
  text_fields, identities, orgs, error, json, answer_with, session_items, SessionItem,
}
use go_cmms.Repo.Users.{
  get_user_by_id, get_user_with_org_and_role, list_identities_for_user, last_successful_login,
}
use go_cmms.Repo.Orgs.{get_role, list_user_orgs}
use go_cmms.Auth.{External, read_session, or_else}
use go_cmms.Auth.Account.{unauthorized}

-- `if err == nil { user = full }`
abbrev pub full_or : User → Option User → User
full_or user none = user
full_or user (some full) = full

abbrev pub profile_response : Session → User → Text → OrgRole → Response
profile_response sess u slug role = json 200 (
    (codes "email", str u.email)
    ∷ (codes "name", str u.name)
    ∷ (codes "avatar_url", str u.avatar_url)
    ∷ (codes "country", str u.country)
    ∷ (codes "org", str slug)
    ∷ (codes "role", str role)
    ∷ (codes "provider", str sess.provider)
    ∷ [])

-- `ProfileHandler` from the session on.
unfoldable pub profile_of : Session → Action Response
profile_of sess = do
  (user, org, role) ←
      or_reply (← get_user_with_org_and_role sess.user_id sess.active_org)
        (error 500 (codes "internal error: "))
  full ← get_user_by_id user.id
  pure (profile_response sess (full_or user full) org.slug role)

-- `ProfileHandler`
unfoldable pub profile : Request → Action Response
unfolding profile_of
profile req = do sess ← or_reply (← read_session req) unauthorized; profile_of sess

abbrev pub user_fields : User → Json
user_fields u = text_fields (
    (codes "email", u.email)
    ∷ (codes "name", u.name)
    ∷ (codes "avatar_url", u.avatar_url)
    ∷ (codes "phone", u.phone)
    ∷ (codes "country", u.country)
    ∷ [])

-- `if ok { resp["last_login"] = lastLogin }`
abbrev pub last_login : Option Time → List (Text × Json)
last_login none = []
last_login (some t) = (codes "last_login", time t) ∷ []

-- `role != models.RoleAdmin && role != models.RoleOwner`
abbrev pub is_no_admin : OrgRole → Bool
is_no_admin role = not (text_eq role role_admin) && not (text_eq role role_owner)

module _ (x : External) where
  -- `FullProfileHandler`
  unfoldable pub full_profile : Request → Action Response
  full_profile req = do
    sess ← or_reply (← read_session req) unauthorized
    (user, org, role) ←
        or_reply (← get_user_with_org_and_role sess.user_id sess.active_org)
          (error 500 (codes "internal error"))
    full ← get_user_by_id user.id
    let u = full_or user full
    ids ← list_identities_for_user x.collate u.id
    summaries ← list_user_orgs u.id
    last ← last_successful_login (to_lower u.email)
    pure (
        json 200 (
          (codes "user", user_fields u)
          ∷ (codes "linked_providers", identities ids)
          ∷ (codes "organisations", orgs summaries)
          ∷ last_login last))

  unfoldable pub item_of : SessionEntry → SessionItem
  item_of e = record {
    id = e.id;
    user_id = x.uuid_string e.session.user_id;
    org_id = x.uuid_string e.session.active_org;
    provider = e.session.provider;
    expires_at = e.session.expiry;
  }

  -- `ListSessionsHandler` from the session on.
  unfoldable pub list_sessions_for : Session → Action Response
  unfolding item_of
  list_sessions_for sess = do
    role ← or_reply (← get_role sess.active_org sess.user_id) (error 403 (codes "forbidden"))
    reply_if (is_no_admin role) (error 403 (codes "forbidden"))
    entries ← gets (λ w. list w.sessions)
    pure (answer_with 200 (session_items (map item_of entries)))

  -- `ListSessionsHandler`
  unfoldable pub list_sessions : Request → Action Response
  unfolding list_sessions_for
  list_sessions req = do sess ← or_reply (← read_session req) unauthorized; list_sessions_for sess
