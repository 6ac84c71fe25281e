-- ===== src/Auth/Signup/Founding.antt =====
-- The stages of a signup from the creation of the organisation on.
use mathlib.Core.Option
use go_cmms.Base.{ℕ, ◌+◌, true, ◌≡◌, refl, Option, none, some, [], ◌∷◌, arith}
use go_cmms.Text.{Text, codes, text_eq_iff}
use go_cmms.Models.{Org, Session, Time, role_owner}
use go_cmms.Session.{create}
use go_cmms.Http.{
  World, Response, Result, ok, stop, statement, bind_ends, Action, ◌>>=◌, ◌>>◌, or_reply, error,
  gets, pure, json, bool,
}
use go_cmms.Db.{Db, Organisation}
use go_cmms.Db.Orgs as Sql
use go_cmms.Db.Laws.{ensure_membership-get_role, ensure_membership-keeps}
use go_cmms.Repo.{org_of_row}
use go_cmms.Repo.Orgs.{create_org, ensure_membership}
use go_cmms.Auth.{set_session_cookie, session_ttl}
use go_cmms.Auth.Signup.{signup_org}

abbrev pub owner_session : ℕ → ℕ → Time → Session
owner_session org_id user_id now = record {
  user_id = user_id;
  active_org = org_id;
  provider = codes "local";
  expiry = now + session_ttl;
}

-- How the creation of an organisation ends.
abbrev OrgMade : Text → World → Result (Option Org) × World → Type 0
OrgMade slug w (ok none, w1) = (w1.sessions ≡ w.sessions) × (w1.db.credentials ≡ w.db.credentials)
OrgMade slug w (ok (some o), w1) =
    (w1.sessions ≡ w.sessions)
    × (w1.db.credentials ≡ w.db.credentials)
    × (w1.now ≡ w.now)
    × (Sql.find_org_by_slug slug w.db ≡ none)
    × (Option.map (λ (row : Organisation). row.id) (Sql.find_org_by_slug slug w1.db) ≡ some o.id)
OrgMade slug w (stop r, w1) = ⊥

create_org-OrgMade : (slug : Text) (w : World) → OrgMade slug w (create_org slug slug [] w)
unfolding create_org statement org_of_row Sql.create_org Sql.find_org_by_slug
create_org-OrgMade slug w = ground (arith, text_eq_iff slug slug)

-- The membership and the session.
abbrev Entered : ℕ → ℕ → World → World → Option (Text × Db) → Type 0
Entered org_id user_id w w' none = ⊥
Entered org_id user_id w w' (some (t, db1)) =
    (w'.db ≡ db1)
    × (w'.sessions ≡ create (w.entropy w.drawn) (owner_session org_id user_id w.now) w.sessions)

abbrev Entry : ℕ → ℕ → World → Result Response × World → Type 0
Entry org_id user_id w (ok r, w') =
    Entered org_id user_id w w' (Sql.ensure_membership org_id user_id role_owner w.db)
Entry org_id user_id w (stop r, w') =
    (w'.sessions ≡ w.sessions) × (w'.db.credentials ≡ w.db.credentials) × (r.status ≡ 500)

abbrev enter : ℕ → ℕ → Action Response
enter org_id user_id = do
  role ←
      or_reply (← ensure_membership org_id user_id role_owner)
        (error 500 (codes "membership failed"))
  now ← gets (λ w. w.now)
  set_session_cookie (owner_session org_id user_id now)
  pure (json 201 ((codes "ok", bool true) ∷ []))

enter-Entry : (org_id user_id : ℕ) (w : World) → Entry org_id user_id w (enter org_id user_id w)
unfolding ensure_membership statement set_session_cookie Sql.ensure_membership
enter-Entry org_id user_id w = ground arith

-- How a signup ends from the creation of the organisation on.
abbrev pub Founded : ℕ → Text → World → Result Response × World → Type 0
Founded user_id slug w (ok r, w') =
    (org_id : ℕ) × (id : Text) × (Sql.find_org_by_slug slug w.db ≡ none)
    × (Option.map (λ (row : Organisation). row.id) (Sql.find_org_by_slug slug w'.db) ≡ some org_id)
    × (Sql.get_role org_id user_id w'.db ≡ some role_owner)
    × (w'.sessions ≡ create id (owner_session org_id user_id w.now) w.sessions)
    × (w'.db.credentials ≡ w.db.credentials)
Founded user_id slug w (stop r, w') =
    (w'.sessions ≡ w.sessions) × (w'.db.credentials ≡ w.db.credentials) × (r.status ≡ 500)

Entry-Founded :
    (user_id : ℕ) (slug : Text) (o : Org) (w w1 : World) (e : Result Response × World)
    → OrgMade slug w (ok (some o), w1)
    → Entry o.id user_id w1 e
    → Founded user_id slug w e
unfolding Sql.find_org_by_slug
Entry-Founded user_id slug o w w1 (stop r, w') m h = ground arith
Entry-Founded user_id slug o w w1 (ok r, w') (sessions, creds, now, none_before, named) h =
    go (Sql.ensure_membership o.id user_id role_owner w1.db) refl h
  where
    go :
        (m : Option (Text × Db))
        → Sql.ensure_membership o.id user_id role_owner w1.db ≡ m
        → Entered o.id user_id w1 w' m
        → Founded user_id slug w (ok r, w')
    go none e k = ground arith
    go (some (t, db1)) e (db, made) =
        let kept = ensure_membership-keeps o.id user_id role_owner t w1.db db1 e in
        let role = ensure_membership-get_role o.id user_id role_owner t w1.db db1 e o.id user_id in
        (
          o.id,
          w1.entropy w1.drawn,
          none_before,
          ground (arith, named, kept, db),
          ground (arith, role, db),
          cc,
          ground (arith, creds, kept, db),
        )

pub signup_org-Founded :
    (user_id : ℕ) (slug : Text) (w : World) → Founded user_id slug w (signup_org user_id slug w)
unfolding signup_org
signup_org-Founded user_id slug w =
    bind_ends (OrgMade slug w) (Founded user_id slug w) (create_org slug slug [])
      (λ org. or_reply org (error 500 (codes "org create failed")) >>= λ o. enter o.id user_id) w
      (create_org-OrgMade slug w) made (λ r w1 h. elim h [ ])
  where
    made :
        (org : Option Org) (w1 : World)
        → OrgMade slug w (ok org, w1)
        → Founded user_id slug w
            ((or_reply org (error 500 (codes "org create failed")) >>= λ o. enter o.id user_id) w1)
    made none w1 (s, c) = (s, c, refl)
    made (some o) w1 m =
        Entry-Founded user_id slug o w w1 (enter o.id user_id w1) m (enter-Entry o.id user_id w1)
