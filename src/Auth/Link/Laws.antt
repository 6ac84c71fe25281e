-- ===== src/Auth/Link/Laws.antt =====
-- What a link of an identity to a local account proves about the caller.
use mathlib.Core.Path.{subst}
use mathlib.Core.Logic.{◌⊎◌}
use go_cmms.Base.{
  ℕ, ◌+◌, true, false, ◌≡◌, inl, inr, refl, sym, Option, none, some, arith, Option-cases,
  Bool-cases, ◌||◌,
}
use go_cmms.Base.Lists.{any}
use go_cmms.Base.Maps.{lookup, erase, lookup-erase}
use go_cmms.Text.{Text, codes, is_empty, text_eq, text_eq_iff, text_key, trim_space}
use go_cmms.Models.{User}
use go_cmms.Session.{create}
use go_cmms.Http.{
  World, Request, Response, Result, ok, stop, statement, bind_ends, Action, ◌>>=◌, ◌>>◌,
  PendingLink, Done,
}
use go_cmms.Db.Users as Users
use go_cmms.Db.Credentials as Sql
use go_cmms.Repo.{short_user_of_row}
use go_cmms.Repo.Users.{get_user_by_identity, link_identity, update_user_profile}
use go_cmms.Repo.Orgs.{pick_user_org as repo_pick_user_org}
use go_cmms.Db.{Organisation, CredentialRow, UserRow}
use go_cmms.Db.Orgs.{pick_user_org}
use go_cmms.Repo.{org_of_row}
use go_cmms.Repo.Auth.{
  get_local_credential_by_username, user_has_totp, get_totp_secret, record_login_success,
}
use go_cmms.Auth.{External, Frontend, set_session_cookie, session_ttl}
use go_cmms.Auth.Login.Laws.{Proves}
use go_cmms.Auth.Link.{
  LinkBody, normal, read_pending_cookie, is_past, get_pending, link_authenticate, link_to,
  link_finish, link_with_password, failed, failed_with,
}

abbrev user_of_pair : Option (CredentialRow × UserRow) → Option User
user_of_pair none = none
user_of_pair (some (c, row)) = some (short_user_of_row row)

-- The user of a username's credential.
abbrev pub account_of : Text → World → Option User
account_of username w = user_of_pair (Sql.get_local_credential_by_username username w.db)

-- The parts of the server that no stage before the last one changes.
abbrev Before : World → World → Type 0
Before w w1 = (w1.sessions ≡ w.sessions) × (w1.now ≡ w.now)

abbrev IsKnown : Text → Text → World → Type 0
IsKnown provider subject w = any (Users.is_identity provider subject) w.db.identities ≡ true

abbrev Linking : User → PendingLink → World → Result Done × World → Type 0
Linking user pl w (ok d, w') =
    Before w w'
    × (text_eq (normal user.email) (normal pl.email) ≡ true)
    × IsKnown pl.provider pl.subject w'
Linking user pl w (stop r, w') = w'.sessions ≡ w.sessions

link_to-Linking :
    (user : User) (pl : PendingLink) (w : World) → Linking user pl w (link_to user pl w)
unfolding link_to get_user_by_identity link_identity update_user_profile statement
    Users.link_identity Users.update_user_profile
link_to-Linking user pl w =
    ground (arith, text_eq_iff pl.provider pl.provider, text_eq_iff pl.subject pl.subject)

module _ (x : External) where
  abbrev Checked : Text → Text → Text → World → Result User × World → Type 0
  Checked username password code w (ok u, w') =
      Before w w' × (account_of username w ≡ some u) × Proves x username password code w
  Checked username password code w (stop r, w') = w'.sessions ≡ w.sessions

  link_authenticate-Checked :
      (username password code : Text) (w : World)
      → Checked username password code w (link_authenticate x username password code w)
  unfolding link_authenticate statement get_local_credential_by_username user_has_totp
      get_totp_secret short_user_of_row
  link_authenticate-Checked username password code w = ground arith

  -- The session of a link, in the organisation that is picked for the user.
  abbrev pub Opened : User → PendingLink → World → World → Option Organisation → Type 0
  Opened user pl w w' none = ⊥
  Opened user pl w w' (some o) =
      w'.sessions
      ≡ create (w.entropy w.drawn)
          (record {
            user_id = user.id;
            active_org = o.id;
            provider = pl.provider;
            expiry = w.now + session_ttl;
          })
          w.sessions

  abbrev Finished : Text → User → PendingLink → World → Result Response × World → Type 0
  Finished token user pl w (ok r, w') =
      (lookup token w'.pending ≡ none)
      × (w'.db.identities ≡ w.db.identities)
      × Opened user pl w w' (pick_user_org user.id w.db)
  Finished token user pl w (stop r, w') = w'.sessions ≡ w.sessions

  link_finish-Finished :
      (cfg : Frontend) (req : Request) (token : Text) (user : User) (pl : PendingLink) (w : World)
      → Finished token user pl w (link_finish x cfg req token user pl w)
  unfolding link_finish repo_pick_user_org statement org_of_row set_session_cookie
      record_login_success Sql.record_login_attempt
  link_finish-Finished cfg req token user pl w =
      ground (arith, lookup-erase token token w.pending, text_eq_iff token token)

  -- How a link of a pending identity ends.
  abbrev pub Linked :
      Text → Text → Text → Text → PendingLink → World → Result Response × World → Type 0
  Linked token username password code pl w (ok r, w') =
      (u : User) × (org : ℕ) × (id : Text) × (account_of username w ≡ some u)
      × Proves x username password code w
      × (text_eq (normal u.email) (normal pl.email) ≡ true)
      × IsKnown pl.provider pl.subject w'
      × (lookup token w'.pending ≡ none)
      × (w'.sessions
          ≡ create id
              (record {
                user_id = u.id;
                active_org = org;
                provider = pl.provider;
                expiry = w.now + session_ttl;
              })
              w.sessions)
  Linked token username password code pl w (stop r, w') = w'.sessions ≡ w.sessions

  Finished-Linked :
      (token username password code : Text) (pl : PendingLink) (u : User) (w w1 w2 : World)
      (e : Result Response × World)
      → Checked username password code w (ok u, w1)
      → Linking u pl w1 (ok tt, w2)
      → Finished token u pl w2 e
      → Linked token username password code pl w e
  Finished-Linked token username password code pl u w w1 w2 (stop r, w') ((s1, n1), known, proves)
        ((s2, n2), mail, ident) f =
      cc
  Finished-Linked token username password code pl u w w1 w2 (ok r, w') ((s1, n1), known, proves)
        ((s2, n2), mail, ident) (gone, kept, opened) =
      go (pick_user_org u.id w2.db) opened
    where
      go :
          (o : Option Organisation)
          → Opened u pl w2 w' o
          → Linked token username password code pl w (ok r, w')
      go none k = elim k [ ]
      go (some o) k = (u, o.id, w2.entropy w2.drawn, known, proves, mail, rw kept ident, gone, cc)

  abbrev link_checked :
      Frontend → Request → Text → Text → Text → Text → PendingLink → Action Response
  link_checked cfg req token username password code pl =
      link_authenticate x username password code >>= λ user.
      link_to user pl >> link_finish x cfg req token user pl

  link_checked-Linked :
      (cfg : Frontend) (req : Request) (token username password code : Text) (pl : PendingLink)
      (w : World)
      → Linked token username password code pl w
          (link_checked cfg req token username password code pl w)
  link_checked-Linked cfg req token username password code pl w =
      bind_ends (Checked username password code w) (Linked token username password code pl w)
        (link_authenticate x username password code)
        (λ user. link_to user pl >> link_finish x cfg req token user pl) w
        (link_authenticate-Checked username password code w)
        (λ u w1 c.
          bind_ends (Linking u pl w1) (Linked token username password code pl w) (link_to u pl)
            (λ d. link_finish x cfg req token u pl) w1 (link_to-Linking u pl w1)
            (λ d w2 l.
              Finished-Linked token username password code pl u w w1 w2
                (link_finish x cfg req token u pl w2) c l
                (link_finish-Finished cfg req token u pl w2))
            (λ r w2 l. stopped u w1 w2 c l))
        (λ r w1 c. c)
    where
      stopped :
          (u : User) (w1 w2 : World)
          → Checked username password code w (ok u, w1)
          → w2.sessions ≡ w1.sessions
          → w2.sessions ≡ w.sessions
      stopped u w1 w2 c l = cc

  -- The link that waits under the token, if it has not expired.
  abbrev pub OfPending :
      Text → LinkBody → World → Result Response × World → Option PendingLink → Type 0
  OfPending token b w e none = ⊥
  OfPending token b w e (some pl) =
      (is_past w.now pl ≡ false) × Linked token (normal b.email) b.password b.totp_code pl w e

  abbrev pub LinkEnd : Text → LinkBody → World → Result Response × World → Type 0
  LinkEnd token b w (ok r, w') = OfPending token b w (ok r, w') (lookup token w.pending)
  LinkEnd token b w (stop r, w') = w'.sessions ≡ w.sessions

  link-cases :
      (cfg : Frontend) (req : Request) (b : LinkBody) (w : World)
      → ((r : Response) × (w' : World) × (link_with_password x cfg req (some b) w ≡ (stop r, w'))
          × (w'.sessions ≡ w.sessions))
        ⊎ ((pl : PendingLink) × (lookup (read_pending_cookie req) w.pending ≡ some pl)
            × (is_past w.now pl ≡ false)
            × (link_with_password x cfg req (some b) w
                ≡ link_checked cfg req
                    (read_pending_cookie req)
                    (normal b.email)
                    b.password
                    b.totp_code
                    pl
                    w))
  unfolding link_with_password get_pending
  link-cases cfg req b w = elim (Bool-cases (is_empty (read_pending_cookie req))) [
    | inl e ↦ inl (
      failed_with 400 (codes "no_pending_link") (codes "No pending identity to link"),
      w,
      ground arith,
      refl,
    )
    | inr e ↦ elim (Option-cases (lookup (read_pending_cookie req) w.pending)) [
      | inl f ↦ inl (
        failed_with 400 (codes "expired_pending_link") (codes "Pending link expired or missing"),
        w,
        ground arith,
        refl,
      )
      | inr (pl, f) ↦ elim (Bool-cases (is_past w.now pl)) [
        | inl g ↦ inl (
          failed_with 400 (codes "expired_pending_link") (codes "Pending link expired or missing"),
          record w { pending = erase (read_pending_cookie req) w.pending },
          ground arith,
          refl,
        )
        | inr g ↦
            elim (Bool-cases (is_empty (normal b.email) || is_empty (trim_space b.password))) [
              | inl h ↦ inl (failed 400 (codes "missing_fields"), w, ground arith, refl)
              | inr h ↦ inr (pl, f, g, ground arith)
            ]
      ]
    ]
  ]

  -- A link that answers with a success had a pending identity under the cookie's token that had not
  -- expired; the caller gave the password of the account of the (trimmed, lower-cased) username, and a
  -- valid code if that user has TOTP enabled and the database could say so; the emails of the account
  -- and of the identity are equal but for case and outer spaces; the identity is now stored, the
  -- pending link is gone, and the account's user has one new session. A link that answers with an error
  -- leaves the sessions as they were.
  pub link_with_password-LinkEnd :
      (cfg : Frontend) (req : Request) (b : LinkBody) (w : World)
      → LinkEnd (read_pending_cookie req) b w (link_with_password x cfg req (some b) w)
  link_with_password-LinkEnd cfg req b w = elim (link-cases cfg req b w) [
    | inl (r, w', e, same) ↦ subst (LinkEnd (read_pending_cookie req) b w) (sym e) same
    | inr (pl, found, g, e) ↦ subst (LinkEnd (read_pending_cookie req) b w) (sym e) (
        linked-LinkEnd b w pl
          (link_checked cfg req (read_pending_cookie req) (normal b.email) b.password b.totp_code pl
            w)
          found g
          (link_checked-Linked cfg req (read_pending_cookie req) (normal b.email) b.password
            b.totp_code pl w))
  ]
    where
      linked-LinkEnd :
          (b : LinkBody) (w : World) (pl : PendingLink) (e : Result Response × World)
          → lookup (read_pending_cookie req) w.pending ≡ some pl
          → is_past w.now pl ≡ false
          → Linked (read_pending_cookie req) (normal b.email) b.password b.totp_code pl w e
          → LinkEnd (read_pending_cookie req) b w e
      linked-LinkEnd b w pl (ok r, w') found g h =
          subst (OfPending (read_pending_cookie req) b w (ok r, w')) (sym found) (g, h)
      linked-LinkEnd b w pl (stop r, w') found g h = h
