-- ===== src/Auth/Login/Laws.antt =====
-- What a login proves about the caller.
use go_cmms.Base.{
  ℕ, suc, ◌+◌, true, false, ◌≡◌, ◌⊎◌, inl, inr, refl, Option, none, some, arith, Bool-cases, ◌||◌,
}
use go_cmms.Text.{Text, is_empty, codes, to_lower, trim_space}
use go_cmms.Http.{World, Request, Response, Result, ok, stop, statement, bind_ends}
use go_cmms.Session.{create}
use go_cmms.Db.Credentials as Sql
use go_cmms.Db.Orgs.{pick_user_org as sql_pick_user_org}
use go_cmms.Repo.Auth.{
  get_local_credential_by_username, user_has_totp, get_totp_secret, record_login_failure,
  record_login_success,
}
use go_cmms.Repo.Orgs.{pick_user_org}
use go_cmms.Repo.{short_user_of_row, org_of_row}
use go_cmms.Auth.{External, set_session_cookie, session_ttl}
use go_cmms.Auth.Password.{verify_password}
use go_cmms.Auth.Login.{
  LoginBody, accepts, login, authenticate, check_password, check_code, login_session,
}

-- The user of a username's credential.
abbrev pub owner_of : Text → World → Option ℕ
owner_of username w = elim (Sql.get_local_credential_by_username username w.db) [
  | none ↦ none
  | some (c, u) ↦ some u.id
]

module _ (x : External) where
  -- The stored credential of the username matches the password; if its user has TOTP enabled, and
  -- the database answered that question, the code is valid for the user's secret.
  abbrev pub Proves : Text → Text → Text → World → Type 0
  Proves username password code w = elim (Sql.get_local_credential_by_username username w.db) [
    | none ↦ ⊥
    | some (c, u) ↦
        (verify_password x password c.password_hash ≡ true)
        × ((w.faults (suc w.queries) ≡ true)
            ⊎ ((Sql.user_has_totp u.id w.db ≡ false)
                ⊎ (accepts x (Sql.get_totp_secret u.id w.db) code w ≡ true)))
  ]

  -- How the checks end: with the user of the credential and nothing changed, or with a reply and
  -- no session.
  abbrev Checked : Text → Text → Text → World → Result ℕ × World → Type 0
  Checked username password code w (ok id, w') =
      (w'.sessions ≡ w.sessions)
      × (w'.db ≡ w.db)
      × (w'.entropy ≡ w.entropy)
      × (w'.drawn ≡ w.drawn)
      × (w'.now ≡ w.now)
      × (owner_of username w ≡ some id)
      × Proves username password code w
  Checked username password code w (stop r, w') = w'.sessions ≡ w.sessions

  authenticate-Checked :
      (req : Request) (username password code : Text) (w : World)
      → Checked username password code w (authenticate x req username password code w)
  unfolding authenticate check_password check_code statement get_local_credential_by_username
      user_has_totp get_totp_secret record_login_failure short_user_of_row
  authenticate-Checked req username password code w = ground arith

  -- The session that a login as this user adds, in the organisation that is picked for the user.
  abbrev pub Issued : Option ℕ → World → World → Type 0
  Issued none w w' = ⊥
  Issued (some id) w w' = elim (sql_pick_user_org id w.db) [
    | none ↦ ⊥
    | some o ↦
        w'.sessions
        ≡ create (w.entropy w.drawn)
            (record {
              user_id = id;
              active_org = o.id;
              provider = codes "local";
              expiry = w.now + session_ttl;
            })
            w.sessions
  ]

  abbrev SessionEnd : Option ℕ → World → Result Response × World → Type 0
  SessionEnd id w (ok r, w') = Issued id w w'
  SessionEnd id w (stop r, w') = w'.sessions ≡ w.sessions

  login_session-end :
      (req : Request) (username : Text) (id : ℕ) (w : World)
      → SessionEnd (some id) w (login_session x req username id w)
  unfolding login_session pick_user_org statement org_of_row set_session_cookie record_login_success
  login_session-end req username id w = ground arith

  -- A login that ends with a success: the caller has proved to be the user of the credential, and
  -- has one new session.
  abbrev pub LoggedIn : Text → Text → Text → World → Result Response × World → Type 0
  LoggedIn username password code w (ok r, w') =
      Proves username password code w × Issued (owner_of username w) w w'
  LoggedIn username password code w (stop r, w') = w'.sessions ≡ w.sessions

  -- The session seen from before the checks.
  from_start :
      (username password code : Text) (id : ℕ) (w w1 : World) (e : Result Response × World)
      → Checked username password code w (ok id, w1)
      → SessionEnd (some id) w1 e
      → LoggedIn username password code w e
  from_start username password code id w w1 (ok r, w2) c h = ground arith
  from_start username password code id w w1 (stop r, w2) c h = ground arith

  -- A login that answers with a success has a stored credential of the (trimmed, lower-cased)
  -- username that matches the password, and a valid code if that user has TOTP enabled and the
  -- database could say so; it adds one session, of that user, for 8 hours, in the organisation that
  -- is picked for the user. A login that answers with an error leaves the sessions as they were.
  pub login-LoggedIn :
      (req : Request) (b : LoginBody) (w : World)
      → LoggedIn
          (to_lower (trim_space b.username))
          b.password
          b.totp_code
          w
          (login x req (some b) w)
  unfolding login
  login-LoggedIn req b w =
      elim (Bool-cases (is_empty (to_lower (trim_space b.username)) || is_empty b.password)) [
        | inl e ↦ rw e refl
        | inr e ↦
            let username = to_lower (trim_space b.username) in
            rw e (
              bind_ends (Checked username b.password b.totp_code w)
                (LoggedIn username b.password b.totp_code w)
                (authenticate x req username b.password b.totp_code)
                (λ id. login_session x req username id) w
                (authenticate-Checked req username b.password b.totp_code w)
                (λ id w1 c.
                  from_start username b.password b.totp_code id w w1
                    (login_session x req username id w1) c (login_session-end req username id w1))
                (λ r w1 c. c))
      ]
