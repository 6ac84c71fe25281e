-- ===== src/Auth/Signup/Laws.antt =====
-- What a signup leaves behind.
use mathlib.Core.Option
use mathlib.Core.Path.{subst}
use mathlib.Core.Logic.{◌⊎◌}
use go_cmms.Slug.{is_valid_slug}
use go_cmms.Base.{
  ℕ, ◌≡◌, inl, inr, refl, sym, Option, none, some, arith, Bool-cases, is_some, if◌then◌else◌, not,
  ◌||◌,
}
use go_cmms.Base.Lists.{find}
use go_cmms.Text.{Text, codes, is_empty, text_eq, text_eq_iff, to_lower, trim_space}
use go_cmms.Models.{User, Org, role_owner}
use go_cmms.Session.{create}
use go_cmms.Http.{
  World, Response, Result, ok, stop, statement, bind_ends, Action, ◌>>=◌, ◌>>◌, reply_if, or_reply,
  error, Done,
}
use go_cmms.Db.{Db, CredentialRow, Organisation}
use go_cmms.Db.Users as Users
use go_cmms.Db.Orgs as Sql
use go_cmms.Db.Credentials as Credentials
use go_cmms.Repo.Users.{upsert_user_by_verified_email}
use go_cmms.Repo.Orgs.{find_org_by_slug}
use go_cmms.Repo.Auth.{create_local_credential}
use go_cmms.Auth.{External}
use go_cmms.Auth.Password.{hash_password}
use go_cmms.Phc.{default_argon_params}
use go_cmms.Auth.Signup.{
  SignupBody, signup, signup_user, signup_org, org_exists, username_taken, normal,
}
use go_cmms.Auth.Signup.Founding.{owner_session, Founded, signup_org-Founded}

-- The credential of a username belongs to this user.
abbrev pub Holds : Text → ℕ → Db → Type 0
Holds username user_id db =
    Option.map (λ (c : CredentialRow). c.user_id)
      (find (λ c. text_eq c.username (to_lower (to_lower username))) db.credentials)
    ≡ some user_id

-- How a signup with checked fields ends.
abbrev SignupEnd : Text → Text → World → Result Response × World → Type 0
SignupEnd username slug w (ok r, w') =
    (user_id : ℕ) × (org_id : ℕ) × (id : Text) × Holds username user_id w'.db
    × (Sql.find_org_by_slug slug w.db ≡ none)
    × (Option.map (λ (row : Organisation). row.id) (Sql.find_org_by_slug slug w'.db) ≡ some org_id)
    × (Sql.get_role org_id user_id w'.db ≡ some role_owner)
    × (w'.sessions ≡ create id (owner_session org_id user_id w.now) w.sessions)
SignupEnd username slug w (stop r, w') =
    (w'.sessions ≡ w.sessions) × (r ≡ org_exists → (user_id : ℕ) × Holds username user_id w'.db)

-- The parts of the server that no stage before the session changes.
abbrev Before : World → World → Type 0
Before w w1 =
    (w1.sessions ≡ w.sessions) × (w1.db.organisations ≡ w.db.organisations) × (w1.now ≡ w.now)

abbrev Passed : World → {A : Type 0} → Result (Option A) × World → Type 0
Passed w (ok a, w1) = Before w w1
Passed w (stop r, w1) = ⊥

abbrev CredentialMade : Text → ℕ → World → Result (Option Done) × World → Type 0
CredentialMade username user_id w (ok none, w1) = Before w w1
CredentialMade username user_id w (ok (some d), w1) = Before w w1 × Holds username user_id w1.db
CredentialMade username user_id w (stop r, w1) = ⊥

upsert-Passed :
    (email name : Text) (w : World) → Passed w (upsert_user_by_verified_email email name w)
unfolding upsert_user_by_verified_email statement Users.upsert_user_by_verified_email
upsert-Passed email name w = ground arith

hash_password-Passed :
    (x : External) (password : Text) (w0 w : World)
    → Before w0 w
    → Passed w0 (hash_password x password default_argon_params w)
unfolding hash_password
hash_password-Passed x password w0 w h = ground arith

create_local_credential-made :
    (user_id : ℕ) (username phc : Text) (w0 w : World)
    → Before w0 w
    → CredentialMade username user_id w0 (create_local_credential user_id username phc w)
unfolding create_local_credential statement Credentials.create_local_credential
create_local_credential-made user_id username phc w0 w h =
    ground (arith, text_eq_iff (to_lower (to_lower username)) (to_lower (to_lower username)))

find_org-same :
    (slug : Text) (w : World)
    → Passed w (find_org_by_slug slug w) × ((find_org_by_slug slug w).1.db ≡ w.db)
unfolding find_org_by_slug statement
find_org-same slug w = ground arith

Founded-SignupEnd :
    (username slug : Text) (user_id : ℕ) (w w1 : World) (e : Result Response × World)
    → Before w w1
    → Holds username user_id w1.db
    → Founded user_id slug w1 e
    → SignupEnd username slug w e
unfolding Sql.find_org_by_slug
Founded-SignupEnd username slug user_id w w1 (stop r, w') b c h = ground arith
Founded-SignupEnd username slug user_id w w1 (ok r, w') (sessions, orgs, now) c
      (org_id, id, fresh, named, role, made, kept) =
    (user_id, org_id, id, ground (arith, c, kept), ground (arith, fresh, orgs), named, role, cc)

-- The stages of `signup_user`, the last first.
module _ (username slug : Text) (w0 : World) where
  abbrev found_org : ℕ → Action Response
  found_org user_id = find_org_by_slug slug >>= λ existing.
      reply_if (is_some existing) org_exists >> signup_org user_id slug

  found_org-SignupEnd :
      (user_id : ℕ) (w : World)
      → Before w0 w
      → Holds username user_id w.db
      → SignupEnd username slug w0 (found_org user_id w)
  found_org-SignupEnd user_id w b c =
      bind_ends (λ e. Passed w e × (e.1.db ≡ w.db)) (SignupEnd username slug w0)
        (find_org_by_slug slug)
        (λ existing. reply_if (is_some existing) org_exists >> signup_org user_id slug) w
        (find_org-same slug w) go (λ r w1 h. elim h.0 [ ])
    where
      go :
          (existing : Option Org) (w1 : World)
          → Passed w (ok existing, w1) × (w1.db ≡ w.db)
          → SignupEnd username slug w0
              ((reply_if (is_some existing) org_exists >> signup_org user_id slug) w1)
      go none w1 h =
          Founded-SignupEnd username slug user_id w0 w1 (signup_org user_id slug w1) (cc, cc, cc)
            (rw h.1 c) (signup_org-Founded user_id slug w1)
      go (some o) w1 h = (cc, λ e. (user_id, rw h.1 c))

  abbrev credentialed : ℕ → Text → Action Response
  credentialed user_id phc = create_local_credential user_id username phc >>= λ made.
      or_reply made username_taken >>= λ done. found_org user_id

  credentialed-SignupEnd :
      (user_id : ℕ) (phc : Text) (w : World)
      → Before w0 w
      → SignupEnd username slug w0 (credentialed user_id phc w)
  credentialed-SignupEnd user_id phc w b =
      bind_ends (CredentialMade username user_id w0) (SignupEnd username slug w0)
        (create_local_credential user_id username phc)
        (λ made. or_reply made username_taken >>= λ done. found_org user_id) w
        (create_local_credential-made user_id username phc w0 w b) go (λ r w1 h. elim h [ ])
    where
      go :
          (made : Option Done) (w1 : World)
          → CredentialMade username user_id w0 (ok made, w1)
          → SignupEnd username slug w0
              ((or_reply made username_taken >>= λ done. found_org user_id) w1)
      go none w1 h = (h.0, λ e. ground arith)
      go (some d) w1 (h, c) = found_org-SignupEnd user_id w1 h c

error-org_exists : (status : ℕ) (msg : Text) → ¬ (error status msg ≡ org_exists)
error-org_exists status msg h = ground arith

-- The username that a signup takes: the given one, or the email.
abbrev pub username_of : SignupBody → Text
username_of b = if is_empty (normal b.username) then normal b.email else normal b.username

module _ (x : External) where
  signup_user-SignupEnd :
      (email username name password slug : Text) (w : World)
      → SignupEnd username slug w (signup_user x email username name password slug w)
  unfolding signup_user
  signup_user-SignupEnd email username name password slug w =
      bind_ends (Passed w) (SignupEnd username slug w)
        (upsert_user_by_verified_email email (trim_space name)) after_upsert w
        (upsert-Passed email (trim_space name) w) with_user (λ r w1 h. elim h [ ])
    where
      after_hash : ℕ → Option Text → Action Response
      after_hash id phc =
          or_reply phc (error 500 (codes "hash error")) >>= λ p. credentialed username slug w id p

      after_user : User → Action Response
      after_user u = hash_password x password default_argon_params >>= after_hash u.id

      after_upsert : Option User → Action Response
      after_upsert u = or_reply u (error 500 (codes "user upsert failed")) >>= after_user

      with_hash :
          (id : ℕ) (phc : Option Text) (w1 : World)
          → Passed w (ok phc, w1)
          → SignupEnd username slug w (after_hash id phc w1)
      with_hash id none w1 h = (h.0, λ e. ground arith)
      with_hash id (some phc) w1 h = credentialed-SignupEnd username slug w id phc w1 h

      with_user :
          (u : Option User) (w1 : World)
          → Passed w (ok u, w1)
          → SignupEnd username slug w (after_upsert u w1)
      with_user none w1 h = (h.0, λ e. ground arith)
      with_user (some u) w1 h =
          bind_ends (Passed w) (SignupEnd username slug w)
            (hash_password x password default_argon_params) (after_hash u.id) w1
            (hash_password-Passed x password w w1 h) (with_hash u.id) (λ r w2 k. elim k [ ])

  refused-SignupEnd :
      (username slug msg : Text) (w : World) → SignupEnd username slug w (stop (error 400 msg), w)
  refused-SignupEnd username slug msg w = (refl, λ h. elim (error-org_exists 400 msg h) [ ])

  -- A signup is refused for its fields, or goes on to the user.
  signup-cases :
      (b : SignupBody) (w : World)
      → ((msg : Text) × (signup x (some b) w ≡ (stop (error 400 msg), w)))
        ⊎ (signup x (some b) w
            ≡ signup_user x
                (normal b.email)
                (username_of b)
                b.name
                b.password
                (normal b.org_slug)
                w)
  unfolding signup
  signup-cases b w = elim (Bool-cases (is_empty (normal b.email) || is_empty b.password)) [
    | inl e ↦ inl (codes "missing fields", rw e refl)
    | inr e ↦ elim (Bool-cases (is_empty (normal b.org_slug))) [
      | inl f ↦ inl (codes "org_slug required", rw (e, f) refl)
      | inr f ↦ elim (Bool-cases (not (is_valid_slug (normal b.org_slug)))) [
        | inl g ↦ inl (
          codes
              "invalid org_slug (use 3-32 chars: lowercase letters, digits, hyphens; cannot start/end with '-')",
          rw (e, f, g) refl,
        )
        | inr g ↦ inr (rw (e, f, g) refl)
      ]
    ]
  ]

  signup-SignupEnd :
      (b : SignupBody) (w : World)
      → SignupEnd (username_of b) (normal b.org_slug) w (signup x (some b) w)
  signup-SignupEnd b w = elim (signup-cases b w) [
    | inl (msg, e) ↦
        subst (SignupEnd (username_of b) (normal b.org_slug) w) (sym e)
          (refused-SignupEnd (username_of b) (normal b.org_slug) msg w)
    | inr e ↦ subst (SignupEnd (username_of b) (normal b.org_slug) w) (sym e) (
        signup_user-SignupEnd (normal b.email) (username_of b) b.name b.password (normal b.org_slug)
          w)
  ]

  -- How a signup ends, seen from the caller.
  abbrev pub SignedUp : Text → Text → World → Result Response × World → Type 0
  SignedUp username slug w (ok r, w') = SignupEnd username slug w (ok r, w')
  SignedUp username slug w (stop r, w') = w'.sessions ≡ w.sessions

  -- A signup that ends with a success has created an organisation of the (trimmed, lower-cased)
  -- slug, which no organisation had before; one user holds the credential of the username, is the
  -- organisation's Owner, and has one new session there. A signup that ends with an error leaves the
  -- sessions as they were.
  pub signup-SignedUp :
      (b : SignupBody) (w : World)
      → SignedUp (username_of b) (normal b.org_slug) w (signup x (some b) w)
  signup-SignedUp b w = weaken (signup x (some b) w) (signup-SignupEnd b w)
    where
      weaken :
          (e : Result Response × World)
          → SignupEnd (username_of b) (normal b.org_slug) w e
          → SignedUp (username_of b) (normal b.org_slug) w e
      weaken (ok r, w') h = h
      weaken (stop r, w') h = h.0

  -- A signup that is refused since the organisation exists has already written a credential for its
  -- username, and leaves it behind.
  pub signup-org_exists :
      (b : SignupBody) (w w' : World)
      → signup x (some b) w ≡ (stop org_exists, w')
      → (user_id : ℕ) × Holds (username_of b) user_id w'.db
  signup-org_exists b w w' e =
      (subst (SignupEnd (username_of b) (normal b.org_slug) w) e (signup-SignupEnd b w)).1 refl
