-- ===== src/Tests/Guards.antt =====
-- The middleware on the small server.
use go_cmms.Base.{◌≡◌, true, false, some, [], ◌∷◌}
use go_cmms.Text.{codes}
use go_cmms.Models.{role_viewer}
use go_cmms.Http.{World, reply, error, json, bool}
use go_cmms.Auth.SessionCookie.{session_of}
use go_cmms.Middleware.{Handler, Context, no_context, require_auth, require_role}
use go_cmms.Middleware.Guards.{Guarded, RoleChecked, require_auth-Guarded, require_role-RoleChecked}
use go_cmms.Middleware.{mfa_enforce, optional_auth}
use go_cmms.Middleware.Mfa.{Enforced, mfa_enforce-Enforced}
use go_cmms.Middleware.Optional.{KnownIn, optional_auth-KnownIn}
use go_cmms.Middleware.Server.{Security, serve, serve-denylist, serve-role_only}
use go_cmms.Tests.{toy, amy_session, toy_world, toy_request}

abbrev hello : Handler
hello req c = reply (json 200 ((codes "ok", bool true) ∷ []))

require_auth-Guarded_example :
    Guarded hello toy_request no_context toy_world
      (require_auth hello toy_request no_context toy_world)
require_auth-Guarded_example = require_auth-Guarded hello toy_request no_context toy_world

abbrev strict : Security
strict = record { mfa_required = true; rate_limit_enabled = true; denylist_enabled = true }

serve-denylist_example :
    serve toy strict hello toy_request toy_world
    ≡ serve toy (record strict { denylist_enabled = false }) hello toy_request toy_world
serve-denylist_example = serve-denylist toy true true hello toy_request toy_world

serve-role_only_example :
    serve toy strict (require_role (role_viewer ∷ []) hello) toy_request toy_world
    ≡ serve toy strict (λ r c. reply (error 401 (codes "unauthorized"))) toy_request toy_world
serve-role_only_example = serve-role_only toy strict (role_viewer ∷ []) hello toy_request toy_world

abbrev amy_context : Context
amy_context = record no_context { session = some amy_session }

require_role-RoleChecked_example :
    RoleChecked
      (role_viewer ∷ [])
      hello
      toy_request
      amy_context
      toy_world
      (require_role (role_viewer ∷ []) hello toy_request amy_context toy_world)
require_role-RoleChecked_example =
    require_role-RoleChecked (role_viewer ∷ []) hello toy_request amy_context toy_world

mfa_enforce-Enforced_example :
    Enforced hello toy_request no_context toy_world
      (mfa_enforce true hello toy_request no_context toy_world)
mfa_enforce-Enforced_example = mfa_enforce-Enforced hello toy_request no_context toy_world

optional_auth-KnownIn_example :
    (c' : Context) × (w1 : World) × (optional_auth hello toy_request no_context toy_world
      ≡ hello toy_request c' w1)
    × (w1.db ≡ toy_world.db)
    × KnownIn no_context toy_world (session_of toy_request toy_world) c'
optional_auth-KnownIn_example = optional_auth-KnownIn hello toy_request no_context toy_world
