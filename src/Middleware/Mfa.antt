-- ===== src/Middleware/Mfa.antt =====
-- What `MFAEnforce` lets through when it is required.
use go_cmms.Base.{
  ap, suc, true, false, ◌≡◌, ◌⊎◌, inl, inr, refl, sym, Option, none, some, arith, Bool-cases,
}
use go_cmms.Text.{text_eq, codes}
use go_cmms.Models.{Session}
use go_cmms.Http.{
  World, Request, Response, Result, ok, stop, ok_inj, statement, bind_ends, Action, ◌>>◌,
}
use go_cmms.Db.Credentials.{user_has_totp as sql_user_has_totp}
use go_cmms.Repo.Auth.{user_has_totp}
use go_cmms.Auth.{read_session}
use go_cmms.Auth.SessionCookie.{session_of, read_session-live}
use go_cmms.Middleware.{Context, Handler, mfa_enforce, mfa_check, mfa_open, mfa_reply}

-- No local user without TOTP, unless the path is open.
abbrev pub MayPass : Request → World → Option Session → Type 0
MayPass req w none = Unit
MayPass req w (some s) =
    (text_eq s.provider (codes "local") ≡ false)
    ⊎ ((mfa_open req.path ≡ true) ⊎ (sql_user_has_totp s.user_id w.db ≡ true))

pub data Enforced (next : Handler) (req : Request) (c : Context) (w : World)
    (e : Result Response × World) : Type 0 where
  refused :
      (s : Session) (w1 : World)
      → e ≡ (stop (mfa_reply req), w1)
      → session_of req w ≡ some s
      → text_eq s.provider (codes "local") ≡ true
      → mfa_open req.path ≡ false
      → w1.db ≡ w.db
      → Enforced next req c w e
  passed :
      (w1 : World)
      → e ≡ next req c w1
      → MayPass req w (session_of req w)
      → w1.db ≡ w.db
      → Enforced next req c w e

abbrev enforce_on : Handler → Request → Context → Option Session → Action Response
enforce_on next req c found = mfa_check req found >> next req c

-- The world after one call of the database that changes no row.
abbrev asked : World → World
asked w = record w { queries = suc w.queries }

enforce_on-Enforced :
    (next : Handler) (req : Request) (c : Context) (w w1 : World) (found : Option Session)
    → session_of req w ≡ found
    → w1.db ≡ w.db
    → Enforced next req c w (enforce_on next req c found w1)
unfolding user_has_totp statement
enforce_on-Enforced next req c w w1 none e same = passed w1 refl (rw e tt) same
enforce_on-Enforced next req c w w1 (some s) e same =
    elim (Bool-cases (text_eq s.provider (codes "local"))) [
      | inr f ↦ passed w1 (ground arith) (rw e (inl f)) same
      | inl f ↦ elim (Bool-cases (mfa_open req.path)) [
        | inl g ↦ passed (asked w1) (ground arith) (rw e (inr (inl g))) same
        | inr g ↦ elim (Bool-cases (w1.faults w1.queries)) [
          | inl h ↦ refused s (asked w1) (ground arith) e f g same
          | inr h ↦ elim (Bool-cases (sql_user_has_totp s.user_id w1.db)) [
            | inl k ↦ passed (asked w1) (ground arith) (rw e (inr (inr (rw (← same) k)))) same
            | inr k ↦ refused s (asked w1) (ground arith) e f g same
          ]
        ]
      ]
    ]

-- With MFA required, a request reaches its handler, in an unchanged context, only if it has no live
-- session, or one that is not of the local provider, or a path that is open, or a user with TOTP
-- enabled; a request that is refused has a live local session and a path that is not open. No row
-- changes.
pub mfa_enforce-Enforced :
    (next : Handler) (req : Request) (c : Context) (w : World)
    → Enforced next req c w (mfa_enforce true next req c w)
unfolding mfa_enforce
mfa_enforce-Enforced next req c w =
    let (value, same) = read_session-live req w in
    bind_ends (λ e. (e.0 ≡ ok (session_of req w)) × (e.1.db ≡ w.db)) (Enforced next req c w)
      (read_session req) (enforce_on next req c) w (value, ap (λ v. v.db) same.rest)
      (λ found w1 h. enforce_on-Enforced next req c w w1 found (sym (ok_inj h.0)) h.1)
      (λ r w1 h. cc)
