-- ===== src/Auth.antt =====
-- internal/auth: what its handlers share. Code that is not the repository's is the record
-- `External`: argon2, the TOTP library, SHA-256, the parsing of IP addresses and UUIDs, the
-- calendar, the escaping of URLs, and the
-- order and the casts of texts in the database. `rand.Read` does not fail.
pub mod Password
pub mod Signup
pub mod Login
pub mod Link
pub mod Invite
pub mod Account
pub mod SessionCookie
pub mod Provider
pub mod OAuth
pub mod Profile
use go_cmms.Base.{
  ℕ, suc, ◌+◌, ◌*◌, Bool, true, false, ◌&&◌, ◌||◌, not, Option, none, some, List, [], ◌∷◌, ◌++◌,
  ltb, ◌==◌, if◌then◌else◌,
}
use go_cmms.Base.Maps.{lookup}
use go_cmms.Base.Sort.{Comparison}
use go_cmms.Db.WorkOrders.Create.Payload.{Casts}
use go_cmms.Text.{
  Text, codes, is_empty, text_eq, text_key, to_lower, trim_space, trim_left, trim_right,
}
use go_cmms.Models.{Session, Time, hour}
use go_cmms.Session.{create, get, is_expired}
use go_cmms.Http.{
  World, Action, Done, ◌>>=◌, ◌>>◌, pure, gets, modify, draw, set_cookie, Request, Response, header,
  Cookie, Result, ok, stop, redirect, when,
}
use go_cmms.Repo.Auth.{record_login_success}

pub record External : Type 0 where
  -- password, salt, time, memory, threads, key length
  pub argon2_id_key : Text → Text → ℕ → ℕ → ℕ → ℕ → Text
  -- `totp.Validate` and `totp.ValidateCustom` with one step of skew, at a time
  pub totp_validate : Text → Text → Time → Bool
  pub totp_validate_skew : Text → Text → Time → Bool
  -- the secret of `totp.Generate` from randomness, and its URL for a label
  pub totp_secret : Text → Text
  pub totp_url : Text → Text → Text
  pub sha256 : Text → Text
  -- `time.Time.YearDay` and `Format(time.RFC3339Nano)`
  pub year_day : Time → ℕ
  pub rfc3339_nano : Time → Text
  pub base64_url : Text → Text
  pub parse_addr : Text → Option Text
  pub query_escape : Text → Text
  -- `uuid.UUID.String` and `uuid.Parse`
  pub uuid_string : ℕ → Text
  pub uuid_parse : Text → Option ℕ
  -- the database's collation, and its casts
  pub collate : Comparison Text
  pub casts : Casts

-- The part of config.Config that the handlers read.
pub record Frontend : Type 0 where
  pub url : Text
  pub post_login_path : Text
  pub api_route : Text

-- `Expires: time.Unix(0, 0)`: the Unix epoch, in nanoseconds since Go's zero time.
abbrev pub unix_epoch : Time
unix_epoch = 62_135_596_800_000_000_000

abbrev pub session_ttl : ℕ
session_ttl = 8 * hour

abbrev pub cookie_name : Text
cookie_name = codes "session"

abbrev pub put_session : Text → Session → Action Done
put_session sid s = modify (λ w. record w { sessions = create sid s w.sessions })

-- `http.SetCookie` of an HttpOnly cookie with the server's settings.
abbrev pub send_cookie : Text → Text → Time → Action Done
send_cookie name value expires w =
    set_cookie
      (record {
        name = name;
        value = value;
        expires = expires;
        http_only = true;
        secure = w.secure;
        same_site = w.same_site;
      })
      w

-- `SetSessionCookie`
unfoldable pub set_session_cookie : Session → Action Done
set_session_cookie s = do sid ← draw; put_session sid s; send_cookie cookie_name sid s.expiry

-- The value of a cookie that is there and not empty.
abbrev pub cookie_value : Option Text → Option Text
cookie_value none = none
cookie_value (some v) = if is_empty v then none else some v

-- `session.DefaultStore.Get`
abbrev pub get_session : Text → Action (Option Session)
get_session sid w =
    let (found, store) = get sid w.now w.sessions in (ok found, record w { sessions = store })

abbrev pub unless_expired : Time → Option Session → Option Session
unless_expired now none = none
unless_expired now (some s) = if is_expired now s then none else some s

abbrev pub read_sid : Option Text → Action (Option Session)
read_sid none = pure none
read_sid (some sid) = do
  found ← get_session sid
  now ← gets (λ w. w.now)
  pure (unless_expired now found)

-- `ReadSession`
unfoldable pub read_session : Request → Action (Option Session)
read_session req = read_sid (cookie_value (lookup cookie_name req.cookies))

-- The part before `strings.LastIndex(host, ":")`; `none` if there is no colon.
abbrev pub before_last_colon : Text → Option Text
before_last_colon [] = none
before_last_colon (c ∷ s) = elim (before_last_colon s) [
  | some t ↦ some (c ∷ t)
  | none ↦ if c == b':' then some [] else none
]

abbrev pub cut_host : Option Text → Text → Text
cut_host none host = host
cut_host (some []) host = host
cut_host (some (c ∷ t)) host = c ∷ t

-- The first element of `strings.Split(ff, ",")`.
abbrev pub first_part : Text → Text
first_part [] = []
first_part (c ∷ s) = let rest = first_part s in if c == b',' then [] else c ∷ rest

abbrev pub or_else {ℓ} : {A : Type ℓ} → Option A → Option A → Option A
or_else none o = o
or_else (some a) o = some a

module _ (x : External) where
  abbrev pub addr_of_header : Text → Text → Option Text
  addr_of_header value part = if is_empty value then none else x.parse_addr (trim_space part)

  -- `clientIP`
  unfoldable pub client_ip : Request → Option Text
  client_ip req =
      let ff = header (codes "X-Forwarded-For") req in
      let rip = header (codes "X-Real-IP") req in
      or_else (addr_of_header ff (first_part ff)) (
        or_else (addr_of_header rip rip)
          (x.parse_addr (cut_host (before_last_colon req.remote_addr) req.remote_addr)))

  abbrev pub record_success_from : Text → Option Text → Action Done
  record_success_from username none = pure tt
  record_success_from username (some ip) = do record_login_success username ip; pure tt

  -- `validateTOTP`
  unfoldable pub validate_totp : Text → Text → Time → Bool
  validate_totp secret code now =
      if x.totp_validate code secret now then true else x.totp_validate_skew code secret now

-- The redirect after a login: to the frontend if one is configured, else to the request's host.
unfoldable pub post_login_url : Frontend → Request → Text
post_login_url cfg req =
    let scheme = header (codes "X-Forwarded-Proto") req in
    let host = header (codes "X-Forwarded-Host") req in
    let path =
      if is_empty (trim_space cfg.post_login_path)
      then codes "/app/work-orders"
      else cfg.post_login_path in
    if is_empty (trim_space cfg.url)
    then (if is_empty scheme then codes "http" else scheme)
      ++ (codes "://" ++ ((if is_empty host then req.host else host) ++ codes "/app/work-orders"))
    else trim_right b'/' cfg.url ++ (b'/' ∷ trim_left b'/' path)
