-- ===== src/Tests.antt =====
-- A small server with one organisation, to run the handlers on: amy owns it and has a password, bob
-- is invited to it, and one session, one pending link and one invite are stored.
pub mod Stores
pub mod Handlers
pub mod Orders
pub mod Guards
pub mod Rows
use go_cmms.Base.{
  ℕ, zero, suc, ◌+◌, ◌*◌, ◌%◌, ◌<◌, ◌≡◌, refl, Bool, true, false, Option, none, some, List, [], ◌∷◌,
  arith,
}
use Prim.Native.Nat.{compare}
use go_cmms.Base.Lists.{length}
use go_cmms.Base.Sort.{Comparison}
use go_cmms.Text.{Text, hex, codes, text_eq}
use go_cmms.Models.{Session, Time}
use go_cmms.Security.{Denied}
use go_cmms.RateLimit.{Limiter}
use go_cmms.Db.{Db, RoleEnum, WorkOrderRow, TaskRow}
use go_cmms.Db.WorkOrders.Create.Payload.{Casts}
use go_cmms.Phc.{default_argon_params}
use go_cmms.Phc.Encoding.{Bytes}
use go_cmms.Http.{World, Request, PendingLink, SameSite}
use go_cmms.Auth.{External, Frontend, cookie_name}
use go_cmms.Auth.Link.{pending_cookie}
use go_cmms.Auth.Password.{phc_of}
use go_cmms.Auth.Password.Laws.{IsKeyed}

-- A key of `n` bytes, all equal.
abbrev pub fill : ℕ → ℕ → Text
fill c zero = []
fill c (suc n) = c ∷ fill c n

fill-Bytes : (c n : ℕ) → c < 256 → Bytes (fill c n)
fill-Bytes c zero h = tt
fill-Bytes c (suc n) h = (h, fill-Bytes c n h)

length-fill : (c n : ℕ) → length (fill c n) ≡ n
length-fill c zero = refl
length-fill c (suc n) = omega (arith, length-fill c n)

-- A UUID is written as its one byte.
abbrev parse_toy : Text → Option ℕ
parse_toy [] = none
parse_toy (c ∷ t) = some c

abbrev pub by_length : Comparison Text
by_length s t = compare (length s) (length t)

abbrev toy_casts : Casts
toy_casts = record {
  timestamptz = λ t. some 3;
  date = λ t. some 4;
  double = λ t. some 0;
  uuid = parse_toy;
  year = λ t. 2025;
}

-- Passwords of different lengths (below 256) have different keys.
abbrev pub toy : External
toy = record {
  argon2_id_key = λ pw salt t m p n. fill (length pw % 256) n;
  totp_validate = λ code secret now. text_eq code secret;
  totp_validate_skew = λ code secret now. false;
  totp_secret = λ raw. raw;
  totp_url = λ label secret. label;
  sha256 = λ t. t;
  year_day = λ t. 1;
  rfc3339_nano = λ t. codes "salt";
  base64_url = λ t. t;
  parse_addr = λ t. some t;
  query_escape = λ t. t;
  uuid_string = λ n. codes "id";
  uuid_parse = parse_toy;
  collate = by_length;
  casts = toy_casts;
}

pub toy-IsKeyed : IsKeyed toy
toy-IsKeyed = record {
  bytes = λ pw salt t m p n. fill-Bytes (length pw % 256) n (omega arith);
  size = λ pw salt t m p n. length-fill (length pw % 256) n;
}

abbrev pub amy_session : Session
amy_session = record { user_id = 1; active_org = 7; provider = codes "local"; expiry = 500 }

abbrev pub toy_order : WorkOrderRow
toy_order = record {
  id = 11;
  organisation_id = some 7;
  created_at = 5;
  updated_at = 5;
  due_date = none;
  priority = codes "LOW";
  description = none;
  title = codes "Pump";
  custom_id = some (codes "WO-2025-0001");
  completed_on = none;
  status = codes "OPEN";
  archived = false;
  created_by_id = some 1;
  estimated_duration = 0;
  estimated_start_date = none;
  required_signature = false;
  primary_user_id = none;
  location_id = none;
  team_id = none;
  asset_id = none;
}

abbrev pub toy_task : TaskRow
toy_task = record {
  id = 21;
  organisation_id = some 7;
  created_at = 6;
  updated_at = 6;
  task_base_id = 4;
  value = some (codes "HALF");
  previous_value = none;
  work_order_id = some 11;
}

abbrev pub toy_db : Db
toy_db = record {
  users =
      record {
        id = 1;
        email = codes "amy@x";
        name = none;
        avatar_url = none;
        phone = none;
        country = none;
        created_at = 1;
      }
      ∷ [];
  identities = [];
  organisations =
      record {
        id = 7;
        slug = codes "acme";
        name = codes "acme";
        ms_tenant_id = none;
        created_at = 1;
      }
      ∷ [];
  memberships = record { org_id = 7; user_id = 1; role = RoleEnum.owner } ∷ [];
  mappings = [];
  credentials =
      record {
        user_id = 1;
        username = codes "amy@x";
        password_hash = phc_of toy default_argon_params (codes "secret") (fill 3 16);
        last_password_change = 1;
      }
      ∷ [];
  totp = [];
  attempts = [];
  invites =
      record {
        token_hash = hex (codes "tok");
        org_id = 7;
        email = codes "bob@x";
        role = RoleEnum.member;
        inviter_id = 1;
        expires_at = 200;
        used_at = none;
      }
      ∷ [];
  work_orders = toy_order ∷ [];
  task_bases =
      record {
        id = 4;
        label = codes "check";
        task_type = codes "TEXT";
        user_id = some 1;
        asset_id = none;
        meter_id = none;
      }
      ∷ [];
  tasks = toy_task ∷ [];
  counters = record { organisation_id = 7; year = 2025; next_seq = 2 } ∷ [];
  assigned = (11, 1) ∷ [];
  order_customers = [];
  customers = [];
  locations = [];
  teams = [];
  assets = [];
}

abbrev pub toy_pending : PendingLink
toy_pending = record {
  provider = codes "google";
  subject = codes "77";
  email = codes "Amy@x";
  name = [];
  picture = [];
  expires = 900;
}

abbrev pub no_denied : Denied
no_denied = record { users = []; idents = [] }

abbrev pub toy_limiter : Limiter
toy_limiter = record { buckets = []; rate = 60; capacity = 60_000_000_000_000_000; ttl = 1 }

abbrev pub toy_world : World
toy_world = record {
  db = toy_db;
  sessions = (codes "sid", amy_session) ∷ [];
  pending = (codes "link", toy_pending) ∷ [];
  denied = no_denied;
  limiter = toy_limiter;
  rot_salt = none;
  now = 100;
  entropy = λ n. fill 5 16;
  ids = λ n. n + 40;
  drawn = 0;
  faults = λ n. false;
  queries = 0;
  secure = true;
  same_site = SameSite.lax;
  cookies = [];
}

abbrev pub toy_request : Request
toy_request = record {
  path = codes "/auth/invite";
  host = codes "x";
  remote_addr = codes "10.0.0.1:80";
  cookies = (cookie_name, codes "sid") ∷ (pending_cookie, codes "link") ∷ [];
  headers = [];
  query = [];
}

abbrev pub toy_frontend : Frontend
toy_frontend = record { url = codes "http://x"; post_login_path = []; api_route = codes "api" }
