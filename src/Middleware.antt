-- ===== src/Middleware.antt =====
-- internal/middleware, and the order in which cmd/server/main.go and internal/handlers/router.go
-- put it before the handlers. A handler takes the request's context, which the middleware fills; a
-- middleware takes the handler that comes next. The logging middleware changes no response.
pub mod Guards
pub mod Mfa
pub mod Optional
pub mod Server
use go_cmms.Base.{
  ℕ, Bool, true, false, ◌&&◌, ◌||◌, not, Option, none, some, List, [], ◌∷◌, ◌++◌, ◌==◌,
  if◌then◌else◌,
}
use go_cmms.Base.Lists.{any, take}
use go_cmms.Text.{Text, hex, codes, text_eq, is_empty, has_prefix, contains}
use go_cmms.Models.{User, Org, Session, OrgRole, Time}
use go_cmms.Roles.{role_passes}
use go_cmms.Security.{is_user_denied}
use go_cmms.Http.{
  Action, Done, ◌>>=◌, ◌>>◌, pure, reply, reply_if, or_reply, gets, Request, Response, header,
  error, json, str, redirect, World, ok,
}
use go_cmms.Repo.Users.{get_user_by_id}
use go_cmms.Repo.Orgs.{get_role, pick_user_org}
use go_cmms.Repo.Auth.{user_has_totp}
use go_cmms.Auth.{External, read_session, before_last_colon}
use go_cmms.RateLimit.{allow}

-- The values of the request's context. `WithSession` sets the session under both of its keys.
pub record Context : Type 0 where
  pub session : Option Session
  pub user : Option User
  pub org : Option ℕ

abbrev pub no_context : Context
no_context = record { session = none; user = none; org = none }

abbrev pub Handler : Type 0
Handler = Request → Context → Action Response

-- `WithSession`, `WithUser` and `WithOrg`, as the authentication middleware calls them.
abbrev pub with_auth : Context → Session → User → ℕ → Context
with_auth c s u org = record c { session = some s; user = some u; org = some org }

-- `RequireAuth`
unfoldable pub require_auth : Handler → Handler
require_auth next req c = do
  s ← or_reply (← read_session req) (error 401 (codes "unauthorized"))
  u ← or_reply (← get_user_by_id s.user_id) (error 401 (codes "unauthorized"))
  reply_if (s.active_org == 0) (error 401 (codes "organization not found for session"))
  next req (with_auth c s u s.active_org)

abbrev pub org_or : Session → Option Org → Session
org_or s none = s
org_or s (some org) = record s { active_org = org.id }

-- If the session has no organisation, try to pick one.
abbrev pub ensure_org : Session → Action Session
ensure_org s =
    if s.active_org == 0 then (do org ← pick_user_org s.user_id; pure (org_or s org)) else pure s

abbrev pub with_user : Context → Session → Option User → Context
with_user c s none = c
with_user c s (some u) = with_auth c s u s.active_org

abbrev pub optional_context : Context → Option Session → Action Context
optional_context c none = pure c
optional_context c (some s) = do
  s' ← ensure_org s
  u ← get_user_by_id s'.user_id
  pure (with_user c s' u)

-- `OptionalAuth`
unfoldable pub optional_auth : Handler → Handler
optional_auth next req c = do found ← read_session req; c' ← optional_context c found; next req c'

abbrev pub forbidden : Response
forbidden = error 403 (codes "forbidden")

-- `RequireRole`
unfoldable pub require_role : List OrgRole → Handler → Handler
require_role allowed next req c = do
  s ← or_reply c.session (error 401 (codes "unauthorized"))
  role ← or_reply (← get_role s.active_org s.user_id) forbidden
  reply_if (not (role_passes allowed role)) forbidden
  next req c

abbrev pub is_denied : Option Session → World → Bool
is_denied none w = false
is_denied (some s) w = is_user_denied s.user_id w.denied

-- `Denylist`
unfoldable pub denylist : Handler → Handler
denylist next req c = do denied ← gets (is_denied c.session); reply_if denied forbidden; next req c

-- The paths that stay open to a user who has to set up MFA.
abbrev pub mfa_open : Text → Bool
mfa_open path =
    any (text_eq path)
      (codes "/auth/mfa/totp/setup" ∷ codes "/auth/mfa/totp/verify" ∷ codes "/auth/logout" ∷ [])
    || has_prefix path (codes "/static/")
    || text_eq path (codes "/")

abbrev pub mfa_reply : Request → Response
mfa_reply req =
    if contains (header (codes "Accept") req) (codes "text/html")
    then redirect 302 (codes "/static/mfa/index.html")
    else json 403 ((codes "error", str (codes "mfa_required")) ∷ [])

abbrev pub mfa_check : Request → Option Session → Action Done
mfa_check req none = pure tt
mfa_check req (some s) =
    if text_eq s.provider (codes "local")
    then (do
      has ← user_has_totp s.user_id
      reply_if (not has && not (mfa_open req.path)) (mfa_reply req))
    else pure tt

-- `MFAEnforce`
unfoldable pub mfa_enforce : Bool → Handler → Handler
mfa_enforce required next req c =
    if required then (do found ← read_session req; mfa_check req found; next req c) else next req c

-- `rotateSaltIfNeeded`
abbrev pub rotated : External → Time → Option (ℕ × Text) → ℕ × Text
rotated x now none = (x.year_day now, x.sha256 (x.rfc3339_nano now))
rotated x now (some (day, salt)) =
    if x.year_day now == day then (day, salt) else (x.year_day now, x.sha256 (x.rfc3339_nano now))

-- The host of `RemoteAddr`, cut before its last colon.
abbrev pub host_of : Option Text → Text → Text
host_of none addr = addr
host_of (some host) addr = host

-- `ipKey`
unfoldable pub ip_key : External → Request → Action Text
ip_key x req w =
    let host = host_of (before_last_colon req.remote_addr) req.remote_addr in
    let (day, salt) = rotated x w.now w.rot_salt in
    (ok (hex (take 8 (x.sha256 (salt ++ host)))), record w { rot_salt = some (day, salt) })

abbrev pub bucket_key : External → Request → Option Session → Action Text
bucket_key x req none = do key ← ip_key x req; pure (codes "ip:" ++ key)
bucket_key x req (some s) = pure (codes "u:" ++ x.uuid_string s.user_id)

abbrev pub ask_limiter : Text → Action Bool
ask_limiter key w =
    let (granted, l) = allow key w.now w.limiter in (ok granted, record w { limiter = l })

-- `RateLimitWith`
unfoldable pub rate_limit : External → Handler → Handler
rate_limit x next req c = do
  key ← bucket_key x req c.session
  granted ← ask_limiter key
  reply_if (not granted) (error 429 (codes "Too Many Requests"))
  next req c
