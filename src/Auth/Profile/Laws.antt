-- ===== src/Auth/Profile/Laws.antt =====
-- Whom the profile and the list of sessions are shown to.
use go_cmms.Base.{
  ℕ, ◌==◌, ◌≡◌, ◌⊎◌, inl, inr, refl, sym, ap, ◌∙◌, false, some, map, arith, Option-cases,
  Bool-cases, suc,
}
use go_cmms.Base.Lists.{find, find_passes, and_then_inv}
use go_cmms.Text.{text_eq_iff, codes}
use go_cmms.Models.{Session, OrgRole, role_admin, role_owner}
use go_cmms.Session.{list}
use go_cmms.Db.{UserRow, Organisation, RoleEnum, role_text}
use go_cmms.Db.Orgs as Sql
use go_cmms.Http.{
  World, Request, Response, Result, ok, stop, statement, answer_with, session_items, error,
}
use go_cmms.Repo.Users.{get_user_by_id, get_user_with_org_and_role, user_org_and_role_of_row}
use go_cmms.Repo.{user_of_row}
use go_cmms.Db.Users as Users
use mathlib.Core.Path.{subst}
use go_cmms.Repo.Orgs.{get_role}
use go_cmms.Auth.{External}
use go_cmms.Auth.SessionCookie.{session_of, with_session_ends}
use go_cmms.Auth.Account.{unauthorized}
use go_cmms.Auth.Profile.{
  profile, profile_of, profile_response, list_sessions, list_sessions_for, item_of, is_no_admin,
}

-- The world after one call of the database that changes no row.
abbrev asked : World → World
asked w = record w { queries = suc w.queries }

module _ (x : External) (req : Request) where
  -- How a request for the sessions ends.
  abbrev pub Listed : World → Result Response × World → Type 0
  Listed w (ok r, w') =
      (s : Session) × (role : OrgRole) × (session_of req w ≡ some s)
      × (Sql.get_role s.active_org s.user_id w.db ≡ some role)
      × ((role ≡ role_admin) ⊎ (role ≡ role_owner))
      × (r ≡ answer_with 200 (session_items (map (item_of x) (list w'.sessions))))
      × (w'.db ≡ w.db)
  Listed w (stop r, w') = ((r.status ≡ 401) ⊎ (r.status ≡ 403)) × (w'.db ≡ w.db)

  list_sessions_for-Listed :
      (s : Session) (w w1 : World)
      → session_of req w ≡ some s
      → w1.db ≡ w.db
      → Listed w (list_sessions_for x s w1)
  unfolding list_sessions_for get_role statement
  list_sessions_for-Listed s w w1 found same = elim (Bool-cases (w1.faults w1.queries)) [
    | inl f ↦ refused (ground arith)
    | inr f ↦ elim (Option-cases (Sql.get_role s.active_org s.user_id w1.db)) [
      | inl g ↦ refused (ground arith)
      | inr (role, g) ↦ elim (Bool-cases (is_no_admin role)) [
        | inl h ↦ refused (ground arith)
        | inr h ↦ subst (Listed w) (sym (shown role f g h)) (
          s,
          role,
          found,
          ap (λ db. Sql.get_role s.active_org s.user_id db) (sym same) ∙ g,
          ground (arith, text_eq_iff role role_admin, text_eq_iff role role_owner),
          refl,
          same,
        )
      ]
    ]
  ]
    where
      refused :
          list_sessions_for x s w1 ≡ (stop (error 403 (codes "forbidden")), asked w1)
          → Listed w (list_sessions_for x s w1)
      refused e = subst (Listed w) (sym e) (inr refl, same)

      shown :
          (role : OrgRole)
          → w1.faults w1.queries ≡ false
          → Sql.get_role s.active_org s.user_id w1.db ≡ some role
          → is_no_admin role ≡ false
          → list_sessions_for x s w1
            ≡ (ok (answer_with 200 (session_items (map (item_of x) (list w1.sessions)))), asked w1)
      shown role f g h = ground arith

  pub list_sessions-Listed : (w : World) → Listed w (list_sessions x req w)
  unfolding list_sessions
  list_sessions-Listed w =
      with_session_ends (Listed w) req w unauthorized (list_sessions_for x)
        (λ w1 same. (inl refl, same))
        (λ s w1 found same. list_sessions_for-Listed s w w1 found same)

-- How a request for the profile ends.
abbrev pub Profiled : Request → World → Result Response × World → Type 0
Profiled req w (ok r, w') =
    (s : Session) × (u : UserRow) × (o : Organisation) × (role : RoleEnum) × (session_of req w
      ≡ some s)
    × (Sql.get_user_with_org_and_role s.user_id s.active_org w.db ≡ some (u, o, role))
    × (r ≡ profile_response s (user_of_row u) o.slug (role_text role))
    × (w'.db ≡ w.db)
Profiled req w (stop r, w') = ((r.status ≡ 401) ⊎ (r.status ≡ 500)) × (w'.db ≡ w.db)

get_user_twice :
    (user_id org_id : ℕ) (w : World) (u : UserRow) (o : Organisation) (role : RoleEnum)
    → Sql.get_user_with_org_and_role user_id org_id w.db ≡ some (u, o, role)
    → Users.get_user_by_id u.id w.db ≡ some u
unfolding Sql.get_user_with_org_and_role Users.get_user_by_id
get_user_twice user_id org_id w u o role e =
    let (row, found, f1) = and_then_inv (Users.get_user_by_id user_id w.db) _ (u, o, role) e in
    let (org, g, f2) = and_then_inv (Sql.find_org_by_id org_id w.db) _ (u, o, role) f1 in
    let (m, h, f3) =
      and_then_inv (find (Sql.is_member org_id user_id) w.db.memberships) _ (u, o, role) f2 in
    let same : row ≡ u = ground arith in
    let named : row.id ≡ user_id =
      ground (arith, find_passes (λ v. v.id == user_id) w.db.users row found) in
    subst (λ v. Users.get_user_by_id v.id w.db ≡ some v) same
      (subst (λ id. Users.get_user_by_id id w.db ≡ some row) (sym named) found)

profile_of-Profiled :
    (req : Request) (s : Session) (w w1 : World)
    → session_of req w ≡ some s
    → w1.db ≡ w.db
    → Profiled req w (profile_of s w1)
unfolding profile_of get_user_with_org_and_role get_user_by_id statement user_org_and_role_of_row
profile_of-Profiled req s w w1 found same = elim (Bool-cases (w1.faults w1.queries)) [
  | inl f ↦ refused (ground arith)
  | inr f ↦ elim (Option-cases (Sql.get_user_with_org_and_role s.user_id s.active_org w1.db)) [
    | inl g ↦ refused (ground arith)
    | inr ((u, o, role), g) ↦ subst (Profiled req w) (sym (shown u o role f g)) (
      s,
      u,
      o,
      role,
      found,
      ap (λ db. Sql.get_user_with_org_and_role s.user_id s.active_org db) (sym same) ∙ g,
      refl,
      same,
    )
  ]
]
  where
    refused :
        profile_of s w1 ≡ (stop (error 500 (codes "internal error: ")), asked w1)
        → Profiled req w (profile_of s w1)
    refused e = subst (Profiled req w) (sym e) (inr refl, same)

    shown :
        (u : UserRow) (o : Organisation) (role : RoleEnum)
        → w1.faults w1.queries ≡ false
        → Sql.get_user_with_org_and_role s.user_id s.active_org w1.db ≡ some (u, o, role)
        → profile_of s w1
          ≡ (ok (profile_response s (user_of_row u) o.slug (role_text role)), asked (asked w1))
    shown u o role f g = ground (arith, get_user_twice s.user_id s.active_org w1 u o role g)

-- The profile of a live session whose user is a member of the session's organisation shows that user,
-- the organisation's slug and the role of the membership; any other request ends with 401, or with 500
-- even if the user or the membership is only missing.
profile-Profiled : (req : Request) (w : World) → Profiled req w (profile req w)
unfolding profile
profile-Profiled req w =
    with_session_ends (Profiled req w) req w unauthorized profile_of (λ w1 same. (inl refl, same))
      (λ s w1 found same. profile_of-Profiled req s w w1 found same)
