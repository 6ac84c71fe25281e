-- ===== src/Auth/OAuth/Laws.antt =====
-- What a sign-in through a provider proves about the caller, and what it leaves alone.
use mathlib.Core.Option
use mathlib.Core.Path.{subst}
use go_cmms.Base.{
  ◌+◌, ◌*◌, ◌≡◌, ◌⊎◌, inl, inr, refl, sym, ap, ◌∙◌, true, false, Option, none, some, arith,
  Option-cases, Bool-cases,
}
use go_cmms.Base.Maps.{lookup, insert}
use go_cmms.Text.{Text, codes, text_eq, text_key}
use go_cmms.Models.{User, Org, minute}
use go_cmms.Security.{is_identity_denied}
use go_cmms.Session.{create}
use go_cmms.Db.{Db}
use go_cmms.Db.Users as Users
use go_cmms.Db.Orgs as Orgs
use go_cmms.Db.Credentials as Sql
use go_cmms.Http.{
  World, Request, Response, Result, ok, stop, statement, bind_ends, query_param, Action, ◌>>=◌,
  PendingLink,
}
use go_cmms.Repo.{short_user_of_row, org_of_row}
use go_cmms.Repo.Users.{get_user_by_identity, get_user_by_email}
use go_cmms.Repo.Orgs.{pick_user_org}
use go_cmms.Repo.Auth.{record_login_success}
use go_cmms.Auth.{External, Frontend, set_session_cookie, session_ttl}
use go_cmms.Auth.Link.{put_pending, set_pending_cookie}
use go_cmms.Auth.Provider.{Provider, Providers, Github, Token, Identity, extract_identity}
use go_cmms.Auth.OAuth.{
  cookie_state, cookie_nonce, read_cookie, normalised, authenticate, find_user, refer, sign_in,
  org_of_login, callback,
}

-- A sign-in changes no table but the log of attempts.
abbrev pub KeepsAccounts : Db → Db → Type 0
KeepsAccounts db db' = db' ≡ record db { attempts = db'.attempts }

-- The parts of the server that the search for the user leaves alone.
abbrev Quiet : World → World → Type 0
Quiet w w1 =
    (w1.db ≡ w.db)
    × (w1.sessions ≡ w.sessions)
    × (w1.now ≡ w.now)
    × (w1.drawn ≡ w.drawn)
    × (w1.entropy ≡ w.entropy)
    × (w1.pending ≡ w.pending)

-- The link that waits for a password.
abbrev waiting : Text → Identity → World → PendingLink
waiting pname id w = record {
  provider = pname;
  subject = id.subject;
  email = id.email;
  name = id.name;
  picture = id.picture;
  expires = w.now + 10 * minute;
}

-- At most that link is added to those that wait.
abbrev pub Pends : Text → Identity → World → World → Type 0
Pends pname id w w1 =
    (w1.pending ≡ w.pending)
    ⊎ (w1.pending ≡ insert (w.entropy w.drawn) (waiting pname id w) w.pending)

abbrev pub linked_user : Text → Identity → World → Option User
linked_user pname id w =
    Option.map short_user_of_row (Users.get_user_by_identity pname id.subject w.db)

-- How the search for the user of an identity ends.
abbrev Known : Text → Identity → World → Result User × World → Type 0
Known pname id w (ok u, w1) = Quiet w w1 × (linked_user pname id w ≡ some u)
Known pname id w (stop r, w1) = (w1.sessions ≡ w.sessions) × (w1.db ≡ w.db) × Pends pname id w w1

module _ (x : External) (cfg : Frontend) where
  find_user-Known :
      (pname : Text) (id : Identity) (w : World) → Known pname id w (find_user x cfg pname id w)
  unfolding find_user get_user_by_identity get_user_by_email statement refer put_pending
      set_pending_cookie
  find_user-Known pname id w = ground arith

  -- How a sign-in of an identity ends.
  abbrev pub SignedIn : Text → Identity → World → Result Response × World → Type 0
  SignedIn pname id w (ok r, w') =
      (u : User) × (org : Org) × (linked_user pname id w ≡ some u)
      × (Option.map org_of_row (Orgs.pick_user_org u.id w.db) ≡ some org)
      × (w'.sessions
          ≡ create (w.entropy w.drawn)
              (record {
                user_id = u.id;
                active_org = org.id;
                provider = pname;
                expiry = w.now + session_ttl;
              })
              w.sessions)
      × KeepsAccounts w.db w'.db
      × (w'.pending ≡ w.pending)
  SignedIn pname id w (stop r, w') =
      (w'.sessions ≡ w.sessions) × KeepsAccounts w.db w'.db × Pends pname id w w'

  abbrev Opened : Text → User → World → World → Option Org → Type 0
  Opened pname u w w' none = ⊥
  Opened pname u w w' (some org) =
      w'.sessions
      ≡ create (w.entropy w.drawn)
          (record {
            user_id = u.id;
            active_org = org.id;
            provider = pname;
            expiry = w.now + session_ttl;
          })
          w.sessions

  abbrev Finished : Text → User → World → Result Response × World → Type 0
  Finished pname u w (ok r, w') =
      KeepsAccounts w.db w'.db
      × (w'.pending ≡ w.pending)
      × Opened pname u w w' (Option.map org_of_row (Orgs.pick_user_org u.id w.db))
  Finished pname u w (stop r, w') =
      (w'.sessions ≡ w.sessions) × KeepsAccounts w.db w'.db × (w'.pending ≡ w.pending)

  sign_in-Finished :
      (pname : Text) (req : Request) (id : Identity) (u : User) (w : World)
      → Finished pname u w (sign_in x cfg pname req id u w)
  unfolding sign_in org_of_login pick_user_org statement set_session_cookie record_login_success
      Sql.record_login_attempt
  sign_in-Finished pname req id u w = ground arith

  signed_in :
      (pname : Text) (req : Request) (id : Identity) (w w1 : World) (u : User)
      (e : Result Response × World)
      → Quiet w w1
      → linked_user pname id w ≡ some u
      → Finished pname u w1 e
      → SignedIn pname id w e
  signed_in pname req id w w1 u (stop r, w') (d, s, n, k, t, p) known (s', d', p') =
      (s' ∙ s, subst (λ db. KeepsAccounts db w'.db) d d', inl (p' ∙ p))
  signed_in pname req id w w1 u (ok r, w') (d, s, n, k, t, p) known (d', p', o) =
      go (Option.map org_of_row (Orgs.pick_user_org u.id w1.db)) refl o
    where
      go :
          (picked : Option Org)
          → Option.map org_of_row (Orgs.pick_user_org u.id w1.db) ≡ picked
          → Opened pname u w1 w' picked
          → SignedIn pname id w (ok r, w')
      go none same bad = elim bad [ ]
      go (some org) same opened = (
        u,
        org,
        known,
        subst (λ db. Option.map org_of_row (Orgs.pick_user_org u.id db) ≡ some org) d same,
        cc,
        subst (λ db. KeepsAccounts db w'.db) d d',
        p' ∙ p,
      )

  kept : (db db' : Db) → db' ≡ db → KeepsAccounts db db'
  kept db db' e = subst (KeepsAccounts db) (sym e) refl

  -- A sign-in, once the provider has vouched for an identity.
  abbrev continue : Text → Request → Identity → Action Response
  continue pname req id = find_user x cfg pname id >>= λ u. sign_in x cfg pname req id u

  continue-SignedIn :
      (pname : Text) (req : Request) (id : Identity) (w : World)
      → SignedIn pname id w (continue pname req id w)
  continue-SignedIn pname req id w =
      bind_ends (Known pname id w) (SignedIn pname id w) (find_user x cfg pname id)
        (λ u. sign_in x cfg pname req id u) w (find_user-Known pname id w)
        (λ u w1 h.
          signed_in pname req id w w1 u (sign_in x cfg pname req id u w1) h.0 h.1
            (sign_in-Finished pname req id u w1))
        (λ r w1 h. (h.0, kept w.db w1.db h.1, h.2))

-- The provider vouches for the identity of a request, whose state is that of the cookie.
abbrev pub Vouched : Providers → Github → Text → Request → World → Identity → Type 0
Vouched providers g pname req w id =
    (p : Provider) × (tok : Token) × (raw : Identity) × (lookup pname providers ≡ some p)
    × (text_eq (query_param (codes "state") req) (read_cookie req cookie_state) ≡ true)
    × (p.exchange (query_param (codes "code") req) ≡ some tok)
    × (extract_identity p g pname tok (read_cookie req cookie_nonce) w.now ≡ some raw)
    × (is_identity_denied pname id.subject w.denied ≡ false)
    × (id ≡ normalised raw)

abbrev Checked : Providers → Github → Text → Request → World → Result Identity × World → Type 0
Checked providers g pname req w (ok id, w1) = (w1 ≡ w) × Vouched providers g pname req w id
Checked providers g pname req w (stop r, w1) = w1 ≡ w

module _ (x : External) (cfg : Frontend) (providers : Providers) (g : Github) (pname : Text)
    (req : Request) (w : World) where
  authenticate-Checked :
      Checked providers g pname req w (authenticate x cfg providers g pname req w)
  unfolding authenticate
  authenticate-Checked = elim (Option-cases (lookup pname providers)) [
    | inl e ↦ rw e refl
    | inr (p, e) ↦
        elim (Bool-cases
          (text_eq (query_param (codes "state") req) (read_cookie req cookie_state))) [
            | inr f ↦ rw (e, f) refl
            | inl f ↦ elim (Option-cases (p.exchange (query_param (codes "code") req))) [
              | inl h ↦ rw (e, f, h) refl
              | inr (tok, h) ↦
                  elim (Option-cases
                    (extract_identity p g pname tok (read_cookie req cookie_nonce) w.now)) [
                      | inl k ↦ rw (e, f, h, k) refl
                      | inr (raw, k) ↦
                          elim (Bool-cases (is_identity_denied pname raw.subject w.denied)) [
                            | inl d ↦ rw (e, f, h, k, d) refl
                            | inr d ↦ rw (e, f, h, k, d) (refl, (p, tok, raw, e, f, h, k, d, refl))
                          ]
                    ]
            ]
          ]
  ]

  -- How a callback ends.
  abbrev pub CallbackEnd : Result Response × World → Type 0
  CallbackEnd e =
      ((r : Response) × (e ≡ (stop r, w)))
      ⊎ ((id : Identity) × Vouched providers g pname req w id × SignedIn x cfg pname id w e)

  -- A callback either stops at once, with nothing changed, or the provider has vouched for an identity
  -- that is not denied, to a request whose state equals its cookie's (both "" if both are missing).
  -- Then it signs in the user that the identity is linked to, in the organisation picked for that user,
  -- with one new session; or it adds no session, and at most a link of that identity that waits for a
  -- password. No table changes but the log of attempts: no user, identity or membership is created.
  pub callback-CallbackEnd : CallbackEnd (callback x cfg providers g pname req w)
  unfolding callback
  callback-CallbackEnd =
      bind_ends (Checked providers g pname req w) CallbackEnd
        (authenticate x cfg providers g pname req) (λ id. continue x cfg pname req id) w
        authenticate-Checked
        (λ id w1 h.
          subst (λ w2. CallbackEnd (continue x cfg pname req id w2)) (sym h.0)
            (inr (id, h.1, continue-SignedIn x cfg pname req id w)))
        (λ r w1 h. inl (r, ap (λ w2. (stop r, w2)) h))
