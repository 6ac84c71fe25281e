-- ===== src/Models.antt =====
-- internal/models/types.go: the records that the repository returns. A `uuid.UUID` is its 128-bit
-- value, `uuid.Nil` is 0; a `time.Time` is a number of nanoseconds since Go's zero time, which is 0.
use go_cmms.Base.{ℕ, ◌*◌, ◌==◌, Bool}
use go_cmms.Text.{Text, codes}

abbrev pub UserUuid : Type 0
UserUuid = ℕ

abbrev pub Time : Type 0
Time = ℕ

-- `t.IsZero()`
abbrev pub is_zero : Time → Bool
is_zero t = t == 0

abbrev pub second : ℕ
second = 1_000_000_000

abbrev pub minute : ℕ
minute = 60 * second

abbrev pub hour : ℕ
hour = 60 * minute

-- `type OrgRole string`
abbrev pub OrgRole : Type 0
OrgRole = Text

abbrev pub role_owner : OrgRole
role_owner = codes "Owner"

abbrev pub role_admin : OrgRole
role_admin = codes "Admin"

abbrev pub role_member : OrgRole
role_member = codes "Member"

abbrev pub role_viewer : OrgRole
role_viewer = codes "Viewer"

pub record User : Type 0 where
  pub id : ℕ
  pub email : Text
  pub name : Text
  pub avatar_url : Text
  pub phone : Text
  pub country : Text

pub record Org : Type 0 where
  pub id : ℕ
  pub slug : Text
  pub name : Text
  pub tenant_id : Text

pub record LocalCredential : Type 0 where
  pub user_id : ℕ
  pub username : Text
  pub password_hash : Text

pub record Session : Type 0 where
  pub user_id : ℕ
  pub active_org : ℕ
  pub provider : Text
  pub expiry : Time

pub record OrgInvite : Type 0 where
  pub token_hash : Text
  pub org_id : ℕ
  pub email : Text
  pub role : OrgRole
  pub inviter_id : ℕ
  pub expires_at : Time
  pub used_at : Time

pub record WorkOrder : Type 0 where
  pub id : ℕ
  pub org_id : ℕ
  pub title : Text
  pub description : Text
  pub status : Text
  pub priority : Text
  pub created_at : Time
  pub updated_at : Time
  pub due_date : Time
  pub custom_id : Text

pub record LinkedIdentity : Type 0 where
  pub provider : Text
  pub subject : Text

pub record OrgSummary : Type 0 where
  pub id : ℕ
  pub slug : Text
  pub name : Text
  pub role : OrgRole
  pub created_at : Time
