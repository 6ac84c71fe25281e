-- ===== src/Auth/Invite/Admission.antt =====
-- The stages of an acceptance: the user of the email, found or made, and the admission.
use go_cmms.Base.{ℕ, ◌+◌, ◌≡◌, refl, Option, none, some, arith}
use go_cmms.Base.Lists.{find, update}
use go_cmms.Base.{List, [], ◌∷◌}
use mathlib.Core.Option
use go_cmms.Repo.{user_of_row}
use go_cmms.Text.{Text, codes, text_eq, text_eq_iff, to_lower}
use go_cmms.Models.{OrgInvite, Session, Time, User}
use go_cmms.Session.{create}
use go_cmms.Http.{World, Response, Result, ok, stop, statement}
use go_cmms.Db.{Db, UserRow}
use go_cmms.Db.Users as Users
use go_cmms.Db.Users.{coalesce}
use go_cmms.Db.Orgs as Sql
use go_cmms.Db.Laws.{
  ensure_membership-get_role, ensure_membership-keeps, mark_invite_used-same, marked,
}
use go_cmms.Repo.Users.{get_user_by_email, upsert_user_by_verified_email}
use go_cmms.Repo.Orgs.{ensure_membership, use_invite}
use go_cmms.Auth.{set_session_cookie, session_ttl}
use go_cmms.Auth.Invite.{admit, user_or_new}

-- The session that an accepted invite starts.
abbrev pub invite_session : OrgInvite → ℕ → Time → Session
invite_session inv user_id now = record {
  user_id = user_id;
  active_org = inv.org_id;
  provider = codes "invite";
  expiry = now + session_ttl;
}

-- How the admission of a user ends with a success: the membership and then the mark are written, and
-- one session is added.
abbrev pub Written : OrgInvite → Text → ℕ → World → World → Option (Text × Db) → Type 0
Written inv hash user_id w w' none = ⊥
Written inv hash user_id w w' (some (t, db1)) =
    (w'.db ≡ Sql.mark_invite_used hash w.now db1)
    × (w'.sessions ≡ create (w.entropy w.drawn) (invite_session inv user_id w.now) w.sessions)
    × (w'.now ≡ w.now)

abbrev pub Admitted : OrgInvite → Text → ℕ → World → Result Response × World → Type 0
Admitted inv hash user_id w (ok r, w') =
    Written inv hash user_id w w' (Sql.ensure_membership inv.org_id user_id inv.role w.db)
Admitted inv hash user_id w (stop r, w') = w'.sessions ≡ w.sessions

pub admit-Admitted :
    (inv : OrgInvite) (hash : Text) (user_id : ℕ) (w : World)
    → Admitted inv hash user_id w (admit inv hash user_id w)
unfolding admit ensure_membership use_invite statement set_session_cookie
admit-Admitted inv hash user_id w = ground arith

-- The user of the invite's email, found or made: the row of that email then has the user's id.
abbrev pub Named : Text → World → Result User × World → Type 0
Named email w (ok u, w1) =
    (Option.map (λ (row : UserRow). row.id) (Users.get_user_by_email email w1.db) ≡ some u.id)
    × (w1.db.invites ≡ w.db.invites)
    × (w1.sessions ≡ w.sessions)
    × (w1.now ≡ w.now)
Named email w (stop r, w1) = w1.sessions ≡ w.sessions

abbrev with_name : Text → UserRow → UserRow
with_name name u = record u { name = coalesce u.name (some name) }

find-update_name :
    (email name : Text) (us : List UserRow)
    → find (λ u. text_eq u.email email) (update (λ u. text_eq u.email email) (with_name name) us)
      ≡ Option.map (with_name name) (find (λ u. text_eq u.email email) us)
find-update_name email name [] = refl
find-update_name email name (u ∷ us) = ground (arith, find-update_name email name us)

new_user-Named :
    (email : Text) (w w1 : World)
    → w1.db ≡ w.db
    → w1.sessions ≡ w.sessions
    → w1.now ≡ w.now
    → Named email w (user_or_new email none w1)
unfolding upsert_user_by_verified_email Users.upsert_user_by_verified_email Users.get_user_by_email
    Users.get_user_by_id statement user_of_row
new_user-Named email w w1 d s n =
    ground (arith, find-update_name email [] w1.db.users, text_eq_iff email email)

-- The row of the email, as the search for it answers.
abbrev pub Sought : Text → World → Result (Option User) × World → Type 0
Sought email w (ok none, w1) = (w1.db ≡ w.db) × (w1.sessions ≡ w.sessions) × (w1.now ≡ w.now)
Sought email w (ok (some u), w1) = Named email w (ok u, w1)
Sought email w (stop r, w1) = w1.sessions ≡ w.sessions

pub get_user-Sought : (email : Text) (w : World) → Sought email w (get_user_by_email email w)
unfolding get_user_by_email statement user_of_row
get_user-Sought email w = ground arith

pub found_or_new-Named :
    (email : Text) (w : World) (found : Option User) (w1 : World)
    → Sought email w (ok found, w1)
    → Named email w (user_or_new email found w1)
found_or_new-Named email w none w1 (d, s, n) = new_user-Named email w w1 d s n
found_or_new-Named email w (some u) w1 h = h

-- How an acceptance of an invite ends: with a success, the user of the invite's email has the role
-- of the invite in its organisation and one new session there, and the invite is marked.
abbrev pub Joined : OrgInvite → Text → World → Result Response × World → Type 0
Joined inv hash w (ok r, w') =
    (user_id : ℕ) × (id : Text) × (Option.map (λ (row : UserRow). row.id)
        (Users.get_user_by_email (to_lower inv.email) w'.db)
      ≡ some user_id)
    × (Sql.get_role inv.org_id user_id w'.db ≡ some inv.role)
    × (w'.sessions ≡ create id (invite_session inv user_id w.now) w.sessions)
    × (Sql.select_invite hash w'.db ≡ Option.map (marked w.now) (Sql.select_invite hash w.db))
    × (w'.now ≡ w.now)
Joined inv hash w (stop r, w') = w'.sessions ≡ w.sessions

pub Admitted-Joined :
    (inv : OrgInvite) (hash : Text) (u : User) (w w1 : World) (e : Result Response × World)
    → Named (to_lower inv.email) w (ok u, w1)
    → Admitted inv hash u.id w1 e
    → Joined inv hash w e
unfolding Users.get_user_by_email Sql.get_role Sql.select_invite Sql.mark_invite_used
Admitted-Joined inv hash u w w1 (stop r, w') n h = ground arith
Admitted-Joined inv hash u w w1 (ok r, w') (named, invites, sessions, now) h =
    go (Sql.ensure_membership inv.org_id u.id inv.role w1.db) refl h
  where
    go :
        (m : Option (Text × Db))
        → Sql.ensure_membership inv.org_id u.id inv.role w1.db ≡ m
        → Written inv hash u.id w1 w' m
        → Joined inv hash w (ok r, w')
    go none e k = ground arith
    go (some (t, db1)) e (db, made, later) =
        let (users, kept, creds, orgs) =
          ensure_membership-keeps inv.org_id u.id inv.role t w1.db db1 e in
        let role =
          ensure_membership-get_role inv.org_id u.id inv.role t w1.db db1 e inv.org_id u.id in
        let mark = mark_invite_used-same hash w1.now db1 in
        (
          u.id,
          w1.entropy w1.drawn,
          ground (arith, named, users, db),
          ground (arith, role, db),
          cc,
          ground (arith, mark, db, kept, invites, now),
          cc,
        )
