-- ===== src/Repo.antt =====
-- internal/repo: the repository over the queries, with the conversions of helpers.go. The context
-- argument and the logging are left out; an error is `none`.
pub mod Users
pub mod Orgs
pub mod Auth
pub mod WorkOrders
pub mod Tasks
use go_cmms.Base.{ℕ, suc, ◌+◌, Bool, true, false, Option, none, some, List, [], ◌∷◌, if◌then◌else◌}
use go_cmms.Text.{Text, is_empty, to_lower}
use go_cmms.Models.{User, Org, LocalCredential, OrgInvite, OrgRole, Time}
use go_cmms.Roles.{best_role_from}
use go_cmms.Http.{World, Action, Done, ◌>>=◌, ◌>>◌, pure, gets, statement, Result, ok, stop}
use go_cmms.Db.{Db, UserRow, Organisation, CredentialRow, InviteRow, role_text}

-- `fromText`, `toNullableText` and the like.
unfoldable pub from_text : Option Text → Text
from_text none = []
from_text (some s) = s

unfoldable pub to_nullable_text : Text → Option Text
to_nullable_text s = if is_empty s then none else some s

abbrev pub keeping : {A : Type 0} → Db → Option A → Option (A × Db)
keeping db none = none
keeping db (some a) = some (a, db)

-- `toTime`: a NULL is the zero time.
abbrev pub time_or_zero : Option Time → Time
time_or_zero none = 0
time_or_zero (some t) = t

-- `toUUID`: a NULL is the nil UUID.
abbrev pub uuid_or_nil : Option ℕ → ℕ
uuid_or_nil none = 0
uuid_or_nil (some id) = id

-- A `SELECT`.
abbrev pub select : {A : Type 0} → (Db → Option A) → Action (Option A)
select q = statement (λ db. keeping db (q db))

abbrev pub written : Option Db → Option (Done × Db)
written none = none
written (some db) = some (tt, db)

-- A statement that returns no row.
abbrev pub exec : (Db → Option Db) → Action (Option Done)
exec q = statement (λ db. written (q db))

-- The next value of `uuid_generate_v4()`.
abbrev pub new_id : Action ℕ
new_id w = (ok (w.ids w.drawn), record w { drawn = suc w.drawn })

-- The next values of `uuid_generate_v4()`, of which a statement takes what it needs.
abbrev pub new_ids : ℕ → Action (ℕ → ℕ)
new_ids n w = (ok (λ k. w.ids (w.drawn + k)), record w { drawn = w.drawn + n })

unfoldable pub user_of_row : UserRow → User
unfolding from_text
user_of_row u = record {
  id = u.id;
  email = u.email;
  name = from_text u.name;
  avatar_url = from_text u.avatar_url;
  phone = from_text u.phone;
  country = from_text u.country;
}

-- The identity and credential queries return no avatar, phone or country.
unfoldable pub short_user_of_row : UserRow → User
unfolding from_text
short_user_of_row u = record {
  id = u.id;
  email = u.email;
  name = from_text u.name;
  avatar_url = [];
  phone = [];
  country = [];
}

unfoldable pub org_of_row : Organisation → Org
unfolding from_text
org_of_row o = record {
  id = o.id;
  slug = o.slug;
  name = o.name;
  tenant_id = from_text o.ms_tenant_id;
}
