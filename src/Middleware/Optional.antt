-- ===== src/Middleware/Optional.antt =====
-- What `OptionalAuth` puts into the context.
use mathlib.Core.Option
use go_cmms.Base.{ℕ, ◌≡◌, ◌⊎◌, inl, inr, refl, Option, none, some, arith, ap, ◌∙◌}
use go_cmms.Models.{User, Session}
use go_cmms.Http.{
  World, Request, Response, Result, ok, stop, ok_inj, statement, bind_ends, ◌>>=◌, pure,
}
use go_cmms.Db.{Organisation}
use go_cmms.Db.Users as Sql
use go_cmms.Db.Orgs.{pick_user_org as sql_pick_user_org}
use go_cmms.Repo.{user_of_row, org_of_row}
use go_cmms.Repo.Users.{get_user_by_id}
use go_cmms.Repo.Orgs.{pick_user_org}
use go_cmms.Auth.{read_session}
use go_cmms.Auth.SessionCookie.{session_of, read_session-live}
use go_cmms.Middleware.{
  Context, Handler, with_auth, with_user, ensure_org, optional_auth, optional_context,
}

-- The organisation of a session, or one that is picked where it has none.
abbrev pub OrgOf : Session → World → ℕ → Type 0
OrgOf s w org =
    (org ≡ s.active_org)
    ⊎ ((s.active_org ≡ 0)
        × (Option.map (λ (o : Organisation). o.id) (sql_pick_user_org s.user_id w.db) ≡ some org))

-- The context is the old one, or that of the session's user.
abbrev pub KnownIn : Context → World → Option Session → Context → Type 0
KnownIn c w none c' = c' ≡ c
KnownIn c w (some s) c' =
    (c' ≡ c)
    ⊎ ((u : User) × (org : ℕ) × (Option.map user_of_row (Sql.get_user_by_id s.user_id w.db)
          ≡ some u)
        × OrgOf s w org
        × (c' ≡ with_auth c (record s { active_org = org }) u org))

abbrev Ensured : Session → World → Result Session × World → Type 0
Ensured s w (ok s', w1) =
    (w1.db ≡ w.db) × (s' ≡ record s { active_org = s'.active_org }) × OrgOf s w s'.active_org
Ensured s w (stop r, w1) = ⊥

ensure_org-Ensured : (s : Session) (w : World) → Ensured s w (ensure_org s w)
unfolding pick_user_org statement org_of_row
ensure_org-Ensured s w = ground arith

abbrev Filled : Context → World → Option Session → Result Context × World → Type 0
Filled c w found (ok c', w1) = (w1.db ≡ w.db) × KnownIn c w found c'
Filled c w found (stop r, w1) = ⊥

-- The user of the session, and what the context becomes with it.
abbrev Sought : Context → World → Session → Result (Option User) × World → Type 0
Sought c w s' (ok none, w1) = w1.db ≡ w.db
Sought c w s' (ok (some u), w1) =
    (w1.db ≡ w.db) × (Option.map user_of_row (Sql.get_user_by_id s'.user_id w.db) ≡ some u)
Sought c w s' (stop r, w1) = ⊥

get_user-Sought :
    (c : Context) (s' : Session) (w w1 : World)
    → w1.db ≡ w.db
    → Sought c w s' (get_user_by_id s'.user_id w1)
unfolding get_user_by_id statement
get_user-Sought c s' w w1 same = ground arith

optional_context-Filled :
    (c : Context) (found : Option Session) (w w1 : World)
    → w1.db ≡ w.db
    → Filled c w found (optional_context c found w1)
optional_context-Filled c none w w1 same = (same, refl)
optional_context-Filled c (some s) w w1 same =
    bind_ends (Ensured s w1) (Filled c w (some s)) (ensure_org s)
      (λ s'. get_user_by_id s'.user_id >>= λ u. pure (with_user c s' u)) w1
      (ensure_org-Ensured s w1) with_org (λ r w2 h. elim h [ ])
  where
    with_org :
        (s' : Session) (w2 : World)
        → Ensured s w1 (ok s', w2)
        → Filled c w (some s) ((get_user_by_id s'.user_id >>= λ u. pure (with_user c s' u)) w2)
    with_org s' w2 (d, e, o) =
        bind_ends (Sought c w s') (Filled c w (some s)) (get_user_by_id s'.user_id)
          (λ u. pure (with_user c s' u)) w2 (get_user-Sought c s' w w2 (d ∙ same)) filled
          (λ r w3 h. elim h [ ])
      where
        filled :
            (u : Option User) (w3 : World)
            → Sought c w s' (ok u, w3)
            → Filled c w (some s) (ok (with_user c s' u), w3)
        filled none w3 h = (h, inl refl)
        filled (some u) w3 (h, k) = (
          h,
          inr (
            u,
            s'.active_org,
            rw (← ap (λ (v : Session). v.user_id) e) k,
            rw (← same) o,
            ap (λ v. with_auth c v u s'.active_org) e,
          ),
        )

pub optional_auth-KnownIn :
    (next : Handler) (req : Request) (c : Context) (w : World)
    → (c' : Context) × (w1 : World) × (optional_auth next req c w ≡ next req c' w1)
      × (w1.db ≡ w.db)
      × KnownIn c w (session_of req w) c'
unfolding optional_auth
optional_auth-KnownIn next req c w =
    let (value, same) = read_session-live req w in
    bind_ends (λ e. (e.0 ≡ ok (session_of req w)) × (e.1.db ≡ w.db)) Called (read_session req)
      (λ found. optional_context c found >>= next req) w (value, ap (λ v. v.db) same.rest)
      with_session (λ r w1 h. cc)
  where
    Called : Result Response × World → Type 0
    Called e =
        (c' : Context) × (w1 : World) × (e ≡ next req c' w1)
        × (w1.db ≡ w.db)
        × KnownIn c w (session_of req w) c'

    with_session :
        (found : Option Session) (w1 : World)
        → (ok found ≡ ok (session_of req w)) × (w1.db ≡ w.db)
        → Called ((optional_context c found >>= next req) w1)
    with_session found w1 (e, d) =
        bind_ends (Filled c w found) Called (optional_context c found) (next req) w1
          (optional_context-Filled c found w w1 d)
          (λ c' w2 h. (c', w2, refl, h.0, rw (← ok_inj e) h.1)) (λ r w2 h. elim h [ ])
