-- ===== src/Middleware/Guards.antt =====
-- What each middleware lets through.
use mathlib.Core.Option
use go_cmms.Base.{
  ap, suc, true, ◌≡◌, ◌≢◌, ◌⊎◌, inl, inr, refl, sym, Option, none, some, List, arith, ◌==◌,
  Bool-cases, Option-cases,
}
use go_cmms.Text.{codes}
use go_cmms.Models.{User, Session, OrgRole}
use go_cmms.Roles.{role_passes}
use go_cmms.Http.{
  ok_inj, World, Request, Response, Result, ok, stop, statement, ◌>>=◌, ◌>>◌, or_reply, reply_if,
  error, bind_ends,
}
use go_cmms.Db.Users as Sql
use go_cmms.Db.Orgs.{get_role as sql_get_role}
use go_cmms.Repo.{user_of_row}
use go_cmms.Repo.Users.{get_user_by_id}
use go_cmms.Repo.Orgs.{get_role}
use go_cmms.Auth.{read_session}
use go_cmms.Auth.SessionCookie.{session_of, read_session-live}
use go_cmms.Middleware.{Context, Handler, with_auth, require_auth, require_role, forbidden}

-- What `RequireAuth` needs of a request: a live session, whose organisation is set and whose user
-- exists.
pub record IsAuthenticated (req : Request) (w : World) (s : Session) (u : User) : Type 0 where
  pub session : session_of req w ≡ some s
  pub org : s.active_org ≢ 0
  pub user : Option.map user_of_row (Sql.get_user_by_id s.user_id w.db) ≡ some u

-- How a guarded handler ends: refused with a status and no change of the database, or as the
-- handler does in the context of a session and a user that pass.
pub data Guarded (next : Handler) (req : Request) (c : Context) (w : World)
    (e : Result Response × World) : Type 0 where
  refused :
      (r : Response) (w1 : World)
      → e ≡ (stop r, w1)
      → r.status ≡ 401
      → w1.db ≡ w.db
      → Guarded next req c w e
  passed :
      (s : Session) (u : User) (w1 : World)
      → e ≡ next req (with_auth c s u s.active_org) w1
      → IsAuthenticated req w s u
      → w1.db ≡ w.db
      → Guarded next req c w e

-- The world after one call of the database that changes no row.
abbrev asked : World → World
asked w = record w { queries = suc w.queries }

-- `RequireAuth` from the session on.
abbrev user_check : Handler → Session → Handler
user_check next s req c = do
  u ← or_reply (← get_user_by_id s.user_id) (error 401 (codes "unauthorized"))
  reply_if (s.active_org == 0) (error 401 (codes "organization not found for session"))
  next req (with_auth c s u s.active_org)

user_check-Guarded :
    (next : Handler) (req : Request) (c : Context) (w w1 : World) (s : Session)
    → session_of req w ≡ some s
    → w1.db ≡ w.db
    → Guarded next req c w (user_check next s req c w1)
unfolding get_user_by_id statement
user_check-Guarded next req c w w1 s found same = elim (Bool-cases (w1.faults w1.queries)) [
  | inl e ↦ refused (error 401 (codes "unauthorized")) (asked w1) (ground arith) refl same
  | inr e ↦ elim (Option-cases (Sql.get_user_by_id s.user_id w1.db)) [
    | inl f ↦ refused (error 401 (codes "unauthorized")) (asked w1) (ground arith) refl same
    | inr (row, f) ↦ elim (Bool-cases (s.active_org == 0)) [
      | inl g ↦
          refused (error 401 (codes "organization not found for session")) (asked w1) (ground arith)
            refl same
      | inr g ↦
          passed s (user_of_row row) (asked w1) (ground arith)
            (record { session = found; org = ground arith; user = rw (← same, f) refl }) same
    ]
  ]
]

abbrev session_check : Handler → Option Session → Handler
session_check next found req c = do
  s ← or_reply found (error 401 (codes "unauthorized"))
  user_check next s req c

session_check-Guarded :
    (next : Handler) (req : Request) (c : Context) (w w1 : World) (found : Option Session)
    → found ≡ session_of req w
    → w1.db ≡ w.db
    → Guarded next req c w (session_check next found req c w1)
session_check-Guarded next req c w w1 none e same =
    refused (error 401 (codes "unauthorized")) w1 refl refl same
session_check-Guarded next req c w w1 (some s) e same =
    user_check-Guarded next req c w w1 s (sym e) same

-- `RequireAuth` calls its handler only with the live session that the cookie names, the user of
-- that session, and the session's organisation, which is set; any other request ends with a status
-- 401 and leaves the database as it was.
pub require_auth-Guarded :
    (next : Handler) (req : Request) (c : Context) (w : World)
    → Guarded next req c w (require_auth next req c w)
unfolding require_auth
require_auth-Guarded next req c w =
    let (value, same) = read_session-live req w in
    bind_ends (λ e. (e.0 ≡ ok (session_of req w)) × (e.1.db ≡ w.db)) (Guarded next req c w)
      (read_session req) (λ found. session_check next found req c) w
      (value, ap (λ v. v.db) same.rest)
      (λ found w1 h. session_check-Guarded next req c w w1 found (ok_inj h.0) h.1) (λ r w1 h. cc)

-- How a handler behind `RequireRole` ends: refused, or as the handler does.
abbrev pub RoleChecked :
    List OrgRole → Handler → Request → Context → World → Result Response × World → Type 0
RoleChecked allowed next req c w e =
    ((r : Response) × (w1 : World) × (e ≡ (stop r, w1))
      × ((r.status ≡ 401) ⊎ (r.status ≡ 403))
      × (w1.db ≡ w.db))
    ⊎ ((s : Session) × (role : OrgRole) × (w1 : World) × (c.session ≡ some s)
        × (sql_get_role s.active_org s.user_id w.db ≡ some role)
        × (role_passes allowed role ≡ true)
        × (e ≡ next req c w1)
        × (w1.db ≡ w.db))

-- `RequireRole` calls its handler, unchanged, only if the context has a session and the database
-- has a role for its user in its organisation that passes; else it ends with 401 or 403 and changes
-- no row.
pub require_role-RoleChecked :
    (allowed : List OrgRole) (next : Handler) (req : Request) (c : Context) (w : World)
    → RoleChecked allowed next req c w (require_role allowed next req c w)
unfolding require_role get_role statement
require_role-RoleChecked allowed next req c w = elim (Option-cases c.session) [
  | inl e ↦ inl (error 401 (codes "unauthorized"), w, ground arith, inl refl, refl)
  | inr (s, e) ↦ elim (Bool-cases (w.faults w.queries)) [
    | inl f ↦ inl (forbidden, asked w, ground arith, inr refl, refl)
    | inr f ↦ elim (Option-cases (sql_get_role s.active_org s.user_id w.db)) [
      | inl g ↦ inl (forbidden, asked w, ground arith, inr refl, refl)
      | inr (role, g) ↦ elim (Bool-cases (role_passes allowed role)) [
        | inl h ↦ inr (s, role, asked w, e, g, h, ground arith, refl)
        | inr h ↦ inl (forbidden, asked w, ground arith, inr refl, refl)
      ]
    ]
  ]
]
