-- ===== src/Middleware/Server.antt =====
-- The order of the middleware in `main` (cmd/server/main.go) and `RegisterRoutes`
-- (internal/handlers/router.go): what is mounted on the whole server comes before the
-- authentication of a route.
use go_cmms.Base.{
  Bool, true, false, ◌≡◌, refl, List, [], ◌∷◌, if◌then◌else◌, Bool-cases, inl, inr, Option,
}
use go_cmms.Text.{codes}
use go_cmms.Models.{OrgRole, role_owner}
use go_cmms.Http.{World, Request, Response, Action, reply, error}
use go_cmms.Auth.{External, Frontend}
use go_cmms.Auth.Invite.{InviteBody, create_invite_handler}
use go_cmms.Middleware.{
  Handler, no_context, mfa_enforce, rate_limit, denylist, require_auth, require_role,
}

-- The settings under `security` that decide what is mounted.
pub record Security : Type 0 where
  pub mfa_required : Bool
  pub rate_limit_enabled : Bool
  pub denylist_enabled : Bool

abbrev mount : Bool → (Handler → Handler) → Handler → Handler
mount on middleware next req c = if on then middleware next req c else next req c

-- The server's handler around the routes.
unfoldable pub serve : External → Security → Handler → Request → Action Response
serve x cfg routes req =
    mfa_enforce cfg.mfa_required
      (mount cfg.rate_limit_enabled (rate_limit x) (mount cfg.denylist_enabled denylist routes)) req
      no_context

-- `POST /auth/invite`
unfoldable pub invite_route : External → Frontend → Option InviteBody → Handler
invite_route x cfg body =
    require_auth (require_role (role_owner ∷ []) (λ req c. create_invite_handler x cfg req body))

-- As mounted, before any authentication has filled the context, the deny list refuses nothing: the
-- server answers every request as it would with the deny list switched off.
pub serve-denylist :
    (x : External) (mfa rate : Bool) (routes : Handler) (req : Request) (w : World)
    → serve x
        (record { mfa_required = mfa; rate_limit_enabled = rate; denylist_enabled = true })
        routes
        req
        w
      ≡ serve x
          (record { mfa_required = mfa; rate_limit_enabled = rate; denylist_enabled = false })
          routes
          req
          w
unfolding serve denylist rate_limit go_cmms.RateLimit.allow go_cmms.RateLimit.take
    go_cmms.RateLimit.refill go_cmms.RateLimit.min mfa_enforce
serve-denylist x mfa rate routes req w = refl

-- A route that is guarded by its role alone, with no authentication before it, is always refused:
-- the server answers as if the route replied 401 to every request.
pub serve-role_only :
    (x : External) (cfg : Security) (allowed : List OrgRole) (route : Handler) (req : Request)
    (w : World)
    → serve x cfg (require_role allowed route) req w
      ≡ serve x cfg (λ r c. reply (error 401 (codes "unauthorized"))) req w
unfolding serve denylist rate_limit go_cmms.RateLimit.allow go_cmms.RateLimit.take
    go_cmms.RateLimit.refill go_cmms.RateLimit.min mfa_enforce require_role
serve-role_only x cfg allowed route req w = elim (Bool-cases cfg.rate_limit_enabled) [
  | inl e ↦ elim (Bool-cases cfg.denylist_enabled) [
    | inl f ↦ rw (e, f) refl
    | inr f ↦ rw (e, f) refl
  ]
  | inr e ↦ elim (Bool-cases cfg.denylist_enabled) [
    | inl f ↦ rw (e, f) refl
    | inr f ↦ rw (e, f) refl
  ]
]
