-- ===== src/Db.antt =====
-- The tables of database/schema (001, 002, 004, 005, 008) that the modelled code uses, as lists of
-- rows, and the constraints by which PostgreSQL refuses a row. A nullable column is an Option. The
-- queries of internal/db/gen are in the children, one function for each SQL text: `none` is an
-- error (no row for `:one`, or a violated constraint), and a failed statement changes nothing.
pub mod Users
pub mod Orgs
pub mod Credentials
pub mod Laws
pub mod Like
pub mod WorkOrders
pub mod Tasks
use go_cmms.Base.{ℕ, Bool, Option, none, some, List, ◌≡◌, if◌then◌else◌}
use go_cmms.Text.{Text, text_eq}
use go_cmms.Models.{Time, role_owner, role_admin, role_member, role_viewer}

-- `CREATE TYPE org_role AS ENUM ('Owner','Admin','Member','Viewer')`
pub data RoleEnum : Type 0 where
  owner admin member viewer : RoleEnum

-- The order of an enum is that of its declaration.
abbrev pub position : RoleEnum → ℕ
position owner = 1
position admin = 2
position member = 3
position viewer = 4

-- `role::text`
abbrev pub role_text : RoleEnum → Text
role_text owner = role_owner
role_text admin = role_admin
role_text member = role_member
role_text viewer = role_viewer

-- `$4::org_role`
unfoldable pub role_of_text : Text → Option RoleEnum
role_of_text t =
    if text_eq t role_owner
    then some owner
    else if text_eq t role_admin
    then some admin
    else if text_eq t role_member
    then some member
    else if text_eq t role_viewer
    then some viewer
    else none

pub record UserRow : Type 0 where
  pub id : ℕ
  pub email : Text
  pub name : Option Text
  pub avatar_url : Option Text
  pub phone : Option Text
  pub country : Option Text
  pub created_at : Time

pub record IdentityRow : Type 0 where
  pub user_id : ℕ
  pub provider : Text
  pub subject : Text

pub record Organisation : Type 0 where
  pub id : ℕ
  pub slug : Text
  pub name : Text
  pub ms_tenant_id : Option Text
  pub created_at : Time

pub record MembershipRow : Type 0 where
  pub org_id : ℕ
  pub user_id : ℕ
  pub role : RoleEnum

pub record GroupMappingRow : Type 0 where
  pub org_id : ℕ
  pub provider : Text
  pub idp_group_id : Text
  pub role_name : RoleEnum

pub record CredentialRow : Type 0 where
  pub user_id : ℕ
  pub username : Text
  pub password_hash : Text
  pub last_password_change : Time

pub record TotpRow : Type 0 where
  pub user_id : ℕ
  pub secret : Text
  pub issuer : Text
  pub label : Text

pub record LoginAttemptRow : Type 0 where
  pub username : Text
  pub ip : Text
  pub ts : Time
  pub success : Bool

pub record InviteRow : Type 0 where
  pub token_hash : Text
  pub org_id : ℕ
  pub email : Text
  pub role : RoleEnum
  pub inviter_id : ℕ
  pub expires_at : Time
  pub used_at : Option Time

-- The columns of `work_order` that the modelled statements read or write; a double is its 64 bits.
pub record WorkOrderRow : Type 0 where
  pub id : ℕ
  pub organisation_id : Option ℕ
  pub created_at : Time
  pub updated_at : Time
  pub due_date : Option Time
  pub priority : Text
  pub description : Option Text
  pub title : Text
  pub custom_id : Option Text
  pub completed_on : Option Time
  pub status : Text
  pub archived : Bool
  pub created_by_id : Option ℕ
  pub estimated_duration : ℕ
  pub estimated_start_date : Option Time
  pub required_signature : Bool
  pub primary_user_id : Option ℕ
  pub location_id : Option ℕ
  pub team_id : Option ℕ
  pub asset_id : Option ℕ

pub record CounterRow : Type 0 where
  pub organisation_id : ℕ
  pub year : ℕ
  pub next_seq : ℕ

pub record TaskBaseRow : Type 0 where
  pub id : ℕ
  pub label : Text
  pub task_type : Text
  pub user_id : Option ℕ
  pub asset_id : Option ℕ
  pub meter_id : Option ℕ

pub record TaskRow : Type 0 where
  pub id : ℕ
  pub organisation_id : Option ℕ
  pub created_at : Time
  pub updated_at : Time
  pub task_base_id : ℕ
  pub value : Option Text
  pub previous_value : Option Text
  pub work_order_id : Option ℕ

-- Of customers, locations, teams and assets only the ids are read; `assigned` and `order_customers` hold
-- pairs of a work order and a user or customer.
pub record Db : Type 0 where
  pub users : List UserRow
  pub identities : List IdentityRow
  pub organisations : List Organisation
  pub memberships : List MembershipRow
  pub mappings : List GroupMappingRow
  pub credentials : List CredentialRow
  pub totp : List TotpRow
  pub attempts : List LoginAttemptRow
  pub invites : List InviteRow
  pub work_orders : List WorkOrderRow
  pub task_bases : List TaskBaseRow
  pub tasks : List TaskRow
  pub counters : List CounterRow
  pub assigned : List (ℕ × ℕ)
  pub order_customers : List (ℕ × ℕ)
  pub customers : List ℕ
  pub locations : List ℕ
  pub teams : List ℕ
  pub assets : List ℕ
