-- ===== src/Http.antt =====
-- What a handler sees and changes: the request, the response, and the state of the server (the
-- database, the in-memory session store, pending links and deny lists, the clock and the sources of
-- randomness). A handler is a state monad that may stop with a response, as `http.Error(…); return`
-- does. Each request is handled at one reading of the clock.
use go_cmms.Base.{ℕ, suc, Bool, true, false, ◌≡◌, Option, none, some, List, [], ◌∷◌, if◌then◌else◌}
use go_cmms.Base.Maps.{Map, lookup}
use go_cmms.Text.{Text, text_key}
use go_cmms.Models.{Time, WorkOrder, LinkedIdentity, OrgSummary}
use go_cmms.Session.{Store}
use go_cmms.Security.{Denied}
use go_cmms.RateLimit.{Limiter}
use go_cmms.Db.{Db, WorkOrderRow}
use go_cmms.Db.Tasks.{SimpleTask, MarkedTask, TaskChange}

pub data SameSite : Type 0 where
  lax none_mode strict : SameSite

pub record Cookie : Type 0 where
  pub name : Text
  pub value : Text
  pub expires : Time
  pub http_only : Bool
  pub secure : Bool
  pub same_site : SameSite

-- `pendingLink` of internal/auth/linking.go.
pub record PendingLink : Type 0 where
  pub provider : Text
  pub subject : Text
  pub email : Text
  pub name : Text
  pub picture : Text
  pub expires : Time

-- A request whose body has been left to the handler: `r.Cookie`, `r.Header.Get` and
-- `r.URL.Query().Get` look up the first value of a name.
pub record Request : Type 0 where
  pub path : Text
  pub host : Text
  pub remote_addr : Text
  pub cookies : Map Text Text
  pub headers : Map Text Text
  pub query : Map Text Text

-- A missing header or query parameter reads as "".
abbrev pub value_or_empty : Option Text → Text
value_or_empty none = []
value_or_empty (some v) = v

abbrev pub header : Text → Request → Text
header name req = value_or_empty (lookup name req.headers)

abbrev pub query_param : Text → Request → Text
query_param name req = value_or_empty (lookup name req.query)

-- `none` is the JSON null of a nil slice.
pub data Json : Type 0 where
  str : Text → Json
  bool : Bool → Json
  time : Time → Json
  num : ℕ → Json
  uuid : ℕ → Json
  strings : List Text → Json
  work_orders : List WorkOrder → Json
  text_fields : List (Text × Text) → Json
  identities : Option (List LinkedIdentity) → Json
  orgs : Option (List OrgSummary) → Json

-- `item` of internal/handlers/admin.
pub record SessionItem : Type 0 where
  pub id : Text
  pub user_id : Text
  pub org_id : Text
  pub provider : Text
  pub expires_at : Time

pub data Body : Type 0 where
  empty : Body
  plain : Text → Body
  object : List (Text × Json) → Body
  work_order : WorkOrderRow → Body
  tasks : List SimpleTask → Body
  task : TaskChange → Body
  marked_task : MarkedTask → Body
  session_items : List SessionItem → Body

-- A response; a redirect carries its location.
pub record Response : Type 0 where
  pub status : ℕ
  pub location : Text
  pub body : Body

-- `http.Error(w, msg, status)`
abbrev pub error : ℕ → Text → Response
error status msg = record { status = status; location = []; body = plain msg }

-- `writeJSON(w, status, …)`
abbrev pub json : ℕ → List (Text × Json) → Response
json status fields = record { status = status; location = []; body = object fields }

-- A response whose body is one value.
abbrev pub answer_with : ℕ → Body → Response
answer_with status b = record { status = status; location = []; body = b }

abbrev pub redirect : ℕ → Text → Response
redirect status url = record { status = status; location = url; body = empty }

-- `rot_salt` is the day and the salt of the rotating hash of addresses, `none` before the first use.
-- `entropy` and `ids` are what `rand.Read`, `uuid.NewString` and `uuid_generate_v4` return one
-- after another; `faults` says which calls of the database fail.
pub record World : Type 0 where
  pub db : Db
  pub sessions : Store
  pub pending : Map Text PendingLink
  pub denied : Denied
  pub limiter : Limiter
  pub rot_salt : Option (ℕ × Text)
  pub now : Time
  pub entropy : ℕ → Text
  pub ids : ℕ → ℕ
  pub drawn : ℕ
  pub faults : ℕ → Bool
  pub queries : ℕ
  pub secure : Bool
  pub same_site : SameSite
  pub cookies : List Cookie

pub data Result (A : Type 0) : Type 0 where
  ok : A → Result A
  stop : Response → Result A

abbrev pub Action : Type 0 → Type 0
Action A = World → Result A × World

infixl 5 ◌>>=◌ ◌>>◌
abbrev pub ◌>>=◌ : {A B : Type 0} → Action A → (A → Action B) → Action B
◌>>=◌ m f w = let (r, w') = m w in elim r [ ok a ↦ f a w' | stop e ↦ (stop e, w') ]

abbrev pub ◌>>◌ : {A B : Type 0} → Action A → Action B → Action B
m >> k = m >>= λ _. k

module _ {A : Type 0} where
  abbrev pub pure : A → Action A
  pure a w = (ok a, w)

  -- Reply and return.
  abbrev pub reply : Response → Action A
  reply r w = (stop r, w)

  abbrev pub gets : (World → A) → Action A
  gets f w = (ok (f w), w)

  abbrev pub or_reply : Option A → Response → Action A
  or_reply none r = reply r
  or_reply (some a) r = pure a

abbrev pub Done : Type 0
Done = Unit {0}

abbrev pub reply_if : Bool → Response → Action Done
reply_if b r w = (if b then stop r else ok tt, w)

abbrev pub modify : (World → World) → Action Done
modify f w = (ok tt, f w)

abbrev pub when : Bool → Action Done → Action Done
when b m w = if b then m w else (ok tt, w)

-- The next random text.
abbrev pub draw : Action Text
draw w = (ok (w.entropy w.drawn), record w { drawn = suc w.drawn })

-- `http.SetCookie`
abbrev pub set_cookie : Cookie → Action Done
set_cookie c = modify (λ w. record w { cookies = c ∷ w.cookies })

-- How a statement ends: by a failed call, by an error of the statement, or with its rows.
abbrev pub answer : {A : Type 0} → Bool → Option (A × Db) → Action (Option A)
answer true result w = (ok none, record w { queries = suc w.queries })
answer false none w = (ok none, record w { queries = suc w.queries })
answer false (some (a, db)) w = (ok (some a), record w { queries = suc w.queries; db = db })

-- A statement on the database: an error of the statement or of the connection is `none`, and
-- changes no row.
unfoldable pub statement : {A : Type 0} → (Db → Option (A × Db)) → Action (Option A)
statement q w = answer (w.faults w.queries) (q w.db) w

-- The rule for a bind: what holds of how the first part ends carries over to how the whole ends.
pub bind_ends :
    {A B : Type 0} (P : Result A × World → Type 0) (Q : Result B × World → Type 0) (m : Action A)
    (f : A → Action B) (w : World)
    → P (m w)
    → ((a : A) (w1 : World) → P (ok a, w1) → Q (f a w1))
    → ((r : Response) (w1 : World) → P (stop r, w1) → Q (stop r, w1))
    → Q ((m >>= f) w)
bind_ends {A} P Q m f w p good bad = go (m w) p
  where
    go : (e : Result A × World) → P e → Q (elim e.0 [ ok a ↦ f a e.1 | stop r ↦ (stop r, e.1) ])
    go (ok a, w1) h = good a w1 h
    go (stop r, w1) h = bad r w1 h

pub ok_inj : {A : Type 0} {a b : A} → ◌≡◌ {A = Result A} (ok a) (ok b) → a ≡ b
ok_inj e = cc
