-- ===== src/Auth/Invite/Creation.antt =====
-- What the creation of an invite writes.
use mathlib.Core.Path.{subst}
use go_cmms.Base.{ap, ◌+◌, Bool, true, false, ◌≡◌, ◌≢◌, refl, sym, Option, none, some, arith, ◌∙◌}
use go_cmms.Text.{Text, hex, codes, to_lower, trim_space}
use go_cmms.Models.{OrgRole, Session, role_owner}
use go_cmms.Http.{
  ok_inj, World, Request, Response, Result, ok, stop, statement, bind_ends, Action, ◌>>=◌, ◌>>◌,
  or_reply, reply_if, error,
}
use go_cmms.Db.{Db}
use go_cmms.Db.Orgs as Sql
use go_cmms.Repo.Orgs.{create_invite}
use go_cmms.Auth.{External, Frontend, read_session}
use go_cmms.Auth.SessionCookie.{session_of, read_session-live}
use go_cmms.Auth.Invite.{
  InviteBody, invited_role, invite_ttl, no_email, send_invite, create_invite_handler,
}

invited_role-owner : (t : Text) (role : OrgRole) → invited_role t ≡ some role → role ≢ role_owner
unfolding invited_role
invited_role-owner t role h = ground arith

module _ (x : External) where
  -- The row that a creation inserts, under the hash of the next random token.
  abbrev pub inserted : Session → Text → OrgRole → World → Option Db
  inserted s email role w =
      Sql.insert_invite (hex (x.sha256 (x.base64_url (w.entropy w.drawn)))) s.active_org
        (to_lower (trim_space email)) role s.user_id (w.now + invite_ttl) w.db

  abbrev Is : Option Db → World → Type 0
  Is none w' = ⊥
  Is (some db1) w' = w'.db ≡ db1

  abbrev Sent : Session → Text → OrgRole → World → Result Response × World → Type 0
  Sent s email role w (ok r, w') = Is (inserted s email role w) w'
  Sent s email role w (stop r, w') = w'.db ≡ w.db

  send_invite-Sent :
      (cfg : Frontend) (s : Session) (email : Text) (role : OrgRole) (w : World)
      → Sent s email role w (send_invite x cfg s email role w)
  unfolding send_invite create_invite statement
  send_invite-Sent cfg s email role w = ground arith

  -- How a creation ends.
  abbrev pub Created : Request → InviteBody → World → Result Response × World → Type 0
  Created req b w (ok r, w') =
      (s : Session) × (role : OrgRole) × (session_of req w ≡ some s)
      × (invited_role b.role ≡ some role)
      × (role ≢ role_owner)
      × Is (inserted s b.email role w) w'
  Created req b w (stop r, w') = w'.db ≡ w.db

  inserted-same :
      (s : Session) (email : Text) (role : OrgRole) (w w1 : World)
      → w1.db ≡ w.db
      → w1.entropy ≡ w.entropy
      → w1.drawn ≡ w.drawn
      → w1.now ≡ w.now
      → inserted s email role w1 ≡ inserted s email role w
  inserted-same s email role w w1 d e n t = rw (d, e, n, t) refl

  Sent-Created :
      (req : Request) (b : InviteBody) (s : Session) (role : OrgRole) (w : World)
      (e : Result Response × World) (o : Option Db)
      → session_of req w ≡ some s
      → invited_role b.role ≡ some role
      → inserted s b.email role w ≡ o
      → (w1 : World) → w1.db ≡ w.db
      → inserted s b.email role w1 ≡ o
      → Sent s b.email role w1 e
      → Created req b w e
  Sent-Created req b s role w (ok r, w') o f g h w1 d i k =
      (s, role, f, g, invited_role-owner b.role role g, subst (λ v. Is v w') (i ∙ sym h) k)
  Sent-Created req b s role w (stop r, w') o f g h w1 d i k = k ∙ d

  abbrev create_for : Frontend → Request → InviteBody → Option Session → Action Response
  create_for cfg req b found = do
    sess ← or_reply found (error 401 (codes "unauthorized"))
    reply_if (no_email (some b)) (error 400 (codes "bad json"))
    b' ← or_reply (some b) (error 400 (codes "bad json"))
    role ← or_reply (invited_role b'.role) (error 400 (codes "invalid role"))
    send_invite x cfg sess b'.email role

  create_for-Created :
      (cfg : Frontend) (req : Request) (b : InviteBody) (found : Option Session) (w w1 : World)
      → found ≡ session_of req w
      → w1.db ≡ w.db
      → w1.entropy ≡ w.entropy
      → w1.drawn ≡ w.drawn
      → w1.now ≡ w.now
      → Created req b w (create_for cfg req b found w1)
  create_for-Created cfg req b none w w1 f d e n t = d
  create_for-Created cfg req b (some s) w w1 f d e n t =
      go (no_email (some b)) (invited_role b.role) refl
    where
      go :
          (no : Bool) (role : Option OrgRole)
          → invited_role b.role ≡ role
          → Created req b w (
              (reply_if no (error 400 (codes "bad json"))
                  >> (or_reply role (error 400 (codes "invalid role")) >>= λ r.
                      send_invite x cfg s b.email r))
                w1)
      go true role g = d
      go false none g = d
      go false (some role) g =
          Sent-Created req b s role w (send_invite x cfg s b.email role w1)
            (inserted s b.email role w) (sym f) g refl w1 d
            (inserted-same s b.email role w w1 d e n t) (send_invite-Sent cfg s b.email role w1)

  pub create_invite_handler-Created :
      (cfg : Frontend) (req : Request) (b : InviteBody) (w : World)
      → Created req b w (create_invite_handler x cfg req (some b) w)
  unfolding create_invite_handler
  create_invite_handler-Created cfg req b w =
      let (value, same) = read_session-live req w in
      bind_ends
        (λ e.
          (e.0 ≡ ok (session_of req w))
          × (e.1.db ≡ w.db)
          × (e.1.entropy ≡ w.entropy)
          × (e.1.drawn ≡ w.drawn)
          × (e.1.now ≡ w.now))
        (Created req b w) (read_session req) (create_for cfg req b) w
        (
          value,
          ap (λ v. v.db) same.rest,
          ap (λ v. v.entropy) same.rest,
          ap (λ v. v.drawn) same.rest,
          ap (λ v. v.now) same.rest,
        )
        (λ found w1 h. create_for-Created cfg req b found w w1 (ok_inj h.0) h.1 h.2 h.3 h.4)
        (λ r w1 h. h.1)
