-- ===== src/Tests/Handlers.antt =====
-- The handlers on the small server.
use go_cmms.Base.{
  ℕ, ◌+◌, ◌≡◌, ◌≢◌, ◌↔◌, ◌⊎◌, refl, Bool, true, false, ◌==◌, ◌&&◌, Option, none, some, List, [],
  ◌∷◌, arith, if◌then◌else◌,
}
use go_cmms.Text.{Text, hex, codes, text_eq, trim_space, to_lower}
use go_cmms.Session.{is_expired}
use go_cmms.Base.Maps.{unless}
use go_cmms.Db.{InviteRow, RoleEnum, role_of_text}
use go_cmms.Db.Users as Users
use go_cmms.Db.Orgs as Sql
use go_cmms.Db.Credentials.{create_local_credential}
use go_cmms.Phc.{default_argon_params}
use go_cmms.Phc.Encoding.{Bytes}
use go_cmms.Http.{World, Request, Response, Action, reply, error, json, bool, ok, stop}
use go_cmms.Auth.{read_session, set_session_cookie}
use go_cmms.Auth.SessionCookie.{session_of, SameBut, read_session-live}
use go_cmms.Auth.Password.{phc_of, hash_password, verify_password}
use go_cmms.Auth.Password.Laws.{Fits, verify_password_iff, hash_password-verify_password}
use go_cmms.Auth.Login.{LoginBody, login}
use go_cmms.Auth.Login.Laws.{LoggedIn, login-LoggedIn}
use go_cmms.Auth.Signup.{SignupBody, signup, org_exists, normal}
use go_cmms.Auth.Signup.Laws.{SignedUp, Holds, username_of, signup-SignedUp, signup-org_exists}
use go_cmms.Auth.Invite.{InviteBody, create_invite_handler, accept_invite}
use go_cmms.Auth.Invite.Creation.{Created, create_invite_handler-Created}
use go_cmms.Auth.Invite.Laws.{Accepted, IsRefused, accept_invite-Accepted, accept_invite-once}
use go_cmms.Auth.Link.{LinkBody, link_with_password, read_pending_cookie}
use go_cmms.Auth.Link.Laws.{LinkEnd, link_with_password-LinkEnd}
use go_cmms.Tests.{fill, toy, toy-IsKeyed, toy_world, toy_request, toy_frontend}

read_session-live_example :
    ((read_session toy_request toy_world).0 ≡ ok (session_of toy_request toy_world))
    × SameBut toy_world (read_session toy_request toy_world).1
read_session-live_example = read_session-live toy_request toy_world

default-Fits : Fits default_argon_params
unfolding default_argon_params
default-Fits = record { memory = omega arith; time = omega arith; threads = omega arith }

salt-Bytes : Bytes (fill 5 16)
salt-Bytes = ground arith

verify_password_iff_example :
    (verify_password toy
        (codes "guess")
        (phc_of toy default_argon_params (codes "secret") (fill 5 16))
      ≡ true)
    ↔ (toy.argon2_id_key
          (codes "guess")
          (fill 5 16)
          default_argon_params.time
          default_argon_params.memory
          default_argon_params.threads
          default_argon_params.key_len
        ≡ toy.argon2_id_key
            (codes "secret")
            (fill 5 16)
            default_argon_params.time
            default_argon_params.memory
            default_argon_params.threads
            default_argon_params.key_len)
verify_password_iff_example =
    verify_password_iff toy toy-IsKeyed default_argon_params (fill 5 16) (codes "secret")
      (codes "guess") default-Fits salt-Bytes

hash_password-verify_password_example :
    (phc : Text) × ((hash_password toy (codes "secret") default_argon_params toy_world).0
      ≡ ok (some phc))
    × (verify_password toy (codes "secret") phc ≡ true)
unfolding trim_space
hash_password-verify_password_example =
    hash_password-verify_password toy toy-IsKeyed default_argon_params (codes "secret") toy_world
      default-Fits salt-Bytes refl

abbrev amy_login : LoginBody
amy_login = record { username = codes " Amy@x"; password = codes "secret"; totp_code = [] }

login-LoggedIn_example :
    LoggedIn toy
      (to_lower (trim_space amy_login.username))
      amy_login.password
      amy_login.totp_code
      toy_world
      (login toy toy_request (some amy_login) toy_world)
login-LoggedIn_example = login-LoggedIn toy toy_request amy_login toy_world

abbrev new_signup : SignupBody
new_signup = record {
  email = codes "cat@x";
  username = [];
  name = codes "Cat";
  password = codes "secret";
  org_slug = codes "new-org";
}

signup-SignedUp_example :
    SignedUp toy
      (username_of new_signup)
      (normal new_signup.org_slug)
      toy_world
      (signup toy (some new_signup) toy_world)
signup-SignedUp_example = signup-SignedUp toy new_signup toy_world

abbrev owner_invite : InviteBody
owner_invite = record { email = codes "Dan@x"; role = codes "viewer" }

create_invite_handler-Created_example :
    Created toy toy_request owner_invite toy_world
      (create_invite_handler toy toy_frontend toy_request (some owner_invite) toy_world)
create_invite_handler-Created_example =
    create_invite_handler-Created toy toy_frontend toy_request owner_invite toy_world

accept_invite-Accepted_example :
    Accepted toy (some (codes "tok")) toy_world (accept_invite toy (some (codes "tok")) toy_world)
accept_invite-Accepted_example = accept_invite-Accepted toy (some (codes "tok")) toy_world

abbrev amy_link : LinkBody
amy_link = record { email = codes "amy@x"; password = codes "secret"; totp_code = [] }

link_with_password-LinkEnd_example :
    LinkEnd toy
      (read_pending_cookie toy_request)
      amy_link
      toy_world
      (link_with_password toy toy_frontend toy_request (some amy_link) toy_world)
link_with_password-LinkEnd_example =
    link_with_password-LinkEnd toy toy_frontend toy_request amy_link toy_world

abbrev bob_invite : InviteRow
bob_invite = record {
  token_hash = hex (codes "tok");
  org_id = 7;
  email = codes "bob@x";
  role = RoleEnum.member;
  inviter_id = 1;
  expires_at = 200;
  used_at = none;
}

accept_invite-once_example :
    IsRefused
      (accept_invite toy
        (some (codes "tok"))
        (record (accept_invite toy (some (codes "tok")) toy_world).1 { now = 150 })).0
unfolding accept_invite trim_space go_cmms.Repo.Orgs.get_invite_by_token_hash go_cmms.Http.statement
    Sql.select_invite text_eq hex go_cmms.Repo.Orgs.invite_of_row
    go_cmms.Repo.Users.get_user_by_email Users.get_user_by_email to_lower
    go_cmms.Repo.Users.upsert_user_by_verified_email Users.upsert_user_by_verified_email
    go_cmms.Repo.Orgs.ensure_membership Sql.ensure_membership role_of_text go_cmms.Repo.user_of_row
    go_cmms.Repo.Orgs.use_invite go_cmms.Auth.Invite.admit set_session_cookie
    go_cmms.Base.Maps.insert Sql.find_org_by_id Sql.mark_invite_used Users.get_user_by_id
    go_cmms.Repo.from_text go_cmms.Session.create
accept_invite-once_example =
    accept_invite-once toy (codes "tok") toy_world
      (accept_invite toy (some (codes "tok")) toy_world).1
      (json 200 ((codes "ok", bool true) ∷ (codes "needs_password", bool true) ∷ [])) bob_invite 150
      refl refl refl (ground arith)

abbrev taken_signup : SignupBody
taken_signup = record new_signup { org_slug = codes "acme" }

signup-org_exists_example :
    (user_id : ℕ) × Holds
      (username_of taken_signup)
      user_id
      (signup toy (some taken_signup) toy_world).1.db
unfolding signup to_lower trim_space go_cmms.Slug.is_valid_slug go_cmms.Slug.slug_re
    go_cmms.Slug.class go_cmms.Slug.up_to go_cmms.Slug.at_end
    go_cmms.Repo.Users.upsert_user_by_verified_email go_cmms.Http.statement
    Users.upsert_user_by_verified_email text_eq hash_password
    go_cmms.Repo.Auth.create_local_credential create_local_credential go_cmms.Repo.user_of_row
    go_cmms.Repo.Orgs.find_org_by_slug Sql.find_org_by_slug go_cmms.Auth.Signup.signup_user
    Users.get_user_by_email Users.get_user_by_id
signup-org_exists_example =
    signup-org_exists toy taken_signup toy_world (signup toy (some taken_signup) toy_world).1 refl
