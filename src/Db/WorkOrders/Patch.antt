-- ===== src/Db/WorkOrders/Patch.antt =====
-- `update_work_order_from_json` of database/schema/007_functions.up.sql, which
-- internal/db/gen/work_orders.sql.go calls. A raised exception is `none`, and undoes the whole call.
pub mod Laws
use go_cmms.Base.{
  ℕ, Bool, true, false, ◌&&◌, ◌||◌, not, Option, none, some, List, [], ◌∷◌, ◌==◌, is_some,
  if◌then◌else◌,
}
use go_cmms.Base.Lists.{any, find, keep, update, ◌>>=◌}
use go_cmms.Base.Maps.{lookup}
use go_cmms.Text.{Text, codes, to_upper, text_key}
use go_cmms.Models.{Time}
use go_cmms.Db.{Db, WorkOrderRow}
use go_cmms.Db.Users.{get_user_by_id}
use go_cmms.Db.WorkOrders.{is_order_of, stored_description}
use go_cmms.Db.WorkOrders.Search.{to_boolean}
use go_cmms.Db.WorkOrders.Create.{refers, add_workers, add_customers}
use go_cmms.Db.WorkOrders.Create.Payload.{
  Casts, JsonObject, text_at, first_text, cast, or_default, due_of, start_of, duration_of,
  signature_of, uuid_at, location_keys, asset_keys, worker_ids, customer_ids,
}

-- `(p_payload ? …) OR …`
abbrev pub has_any : JsonObject → List Text → Bool
has_any p keys = any (λ key. is_some (lookup key p)) keys

-- `CASE WHEN has_… THEN … ELSE … END`, where a NULL of a column that refuses it is `none`.
abbrev pub given_or {ℓ} : {A : Type ℓ} → Bool → Option A → A → Option A
given_or true new old = new
given_or false new old = some old

abbrev pub upper_or : Option Text → Text → Text
upper_or none old = old
upper_or (some t) old = to_upper t

abbrev pub worker_keys : List Text
worker_keys =
    codes "primaryUser" ∷ codes "primary_user" ∷ codes "primary_worker" ∷ codes "primaryWorker" ∷ []

abbrev pub team_keys : List Text
team_keys = codes "team" ∷ codes "team_id" ∷ []

abbrev pub worker_list_keys : List Text
worker_list_keys = codes "assigned_to" ∷ codes "assignedTo" ∷ []

abbrev pub customer_list_keys : List Text
customer_list_keys = codes "customers" ∷ codes "customer_ids" ∷ []

module _ (x : Casts) (p : JsonObject) where
  abbrev pub has : List Text → Bool
  has = has_any p

  -- The columns of the `UPDATE`, of a row.
  abbrev pub new_title : WorkOrderRow → Option Text
  new_title o =
      given_or (has (codes "title" ∷ codes "Title" ∷ []))
        (first_text p (codes "title" ∷ codes "Title" ∷ [])) o.title

  abbrev pub new_description : WorkOrderRow → Option (Option Text)
  new_description o =
      given_or (has (codes "description" ∷ codes "Description" ∷ []))
        (stored_description (first_text p (codes "description" ∷ codes "Description" ∷ [])))
        o.description

  abbrev pub new_due : WorkOrderRow → Option (Option Time)
  new_due o = given_or (has (codes "dueDate" ∷ codes "due_date" ∷ [])) (due_of x p) o.due_date

  abbrev pub new_start : WorkOrderRow → Option (Option Time)
  new_start o =
      given_or (has (codes "estimatedStartDate" ∷ codes "estimated_start_date" ∷ [])) (start_of x p)
        o.estimated_start_date

  abbrev pub new_duration : WorkOrderRow → Option ℕ
  new_duration o =
      given_or (has (codes "estimatedDuration" ∷ codes "estimated_duration" ∷ [])) (duration_of x p)
        o.estimated_duration

  abbrev pub new_signature : WorkOrderRow → Option Bool
  new_signature o =
      given_or (has (codes "requiredSignature" ∷ codes "required_signature" ∷ []))
        (signature_of x p) o.required_signature

  abbrev pub new_primary : WorkOrderRow → Option (Option ℕ)
  new_primary o = given_or (has worker_keys) (uuid_at x p worker_keys) o.primary_user_id

  abbrev pub new_location : WorkOrderRow → Option (Option ℕ)
  new_location o =
      given_or (has (location_keys x p)) (uuid_at x p (location_keys x p)) o.location_id

  abbrev pub new_team : WorkOrderRow → Option (Option ℕ)
  new_team o = given_or (has team_keys) (uuid_at x p team_keys) o.team_id

  abbrev pub new_asset : WorkOrderRow → Option (Option ℕ)
  new_asset o = given_or (has (asset_keys x p)) (uuid_at x p (asset_keys x p)) o.asset_id

  abbrev pub new_archived : Option (Option Bool)
  new_archived = cast to_boolean (text_at p (codes "archived"))

  abbrev pub new_priority : WorkOrderRow → Text
  new_priority o = upper_or (first_text p (codes "priority" ∷ codes "Priority" ∷ [])) o.priority

  unfoldable pub patched : Time → WorkOrderRow → Option WorkOrderRow
  patched now o = do
    title ← new_title o
    description ← new_description o
    due ← new_due o
    start ← new_start o
    duration ← new_duration o
    signature ← new_signature o
    archived ← new_archived
    primary ← new_primary o
    location ← new_location o
    team ← new_team o
    asset ← new_asset o
    some (record o {
      title = title;
      description = description;
      priority = new_priority o;
      due_date = due;
      estimated_start_date = start;
      estimated_duration = duration;
      required_signature = signature;
      primary_user_id = primary;
      location_id = location;
      team_id = team;
      asset_id = asset;
      archived = or_default o.archived archived;
      updated_at = now;
    })

  -- The references that the payload gives are to rows that are there.
  abbrev pub given_ok : WorkOrderRow → Db → Bool
  given_ok o db =
      (not (has worker_keys) || refers (λ id. is_some (get_user_by_id id db)) o.primary_user_id)
      && (not (has (location_keys x p))
          || refers (λ id. any (λ l. l == id) db.locations) o.location_id)
      && (not (has team_keys) || refers (λ id. any (λ t. t == id) db.teams) o.team_id)
      && (not (has (asset_keys x p)) || refers (λ id. any (λ a. a == id) db.assets) o.asset_id)

  -- The workers of the order, replaced if the payload has any, and its customers.
  unfoldable pub patched_workers : ℕ → Db → Option (List (ℕ × ℕ))
  patched_workers id db = do
    users ← worker_ids x p
    given_or (has worker_list_keys)
        (add_workers (record db { assigned = keep (λ l. not (l.0 == id)) db.assigned }) id users)
        db.assigned

  unfoldable pub patched_customers : ℕ → Db → Option (List (ℕ × ℕ))
  patched_customers id db = do
    customers ← customer_ids x p
    given_or (has customer_list_keys)
        (add_customers
          (record db { order_customers = keep (λ l. not (l.0 == id)) db.order_customers }) id
          customers)
        db.order_customers

  unfoldable pub update_work_order_from_json : ℕ → ℕ → Time → Db → Option (ℕ × Db)
  unfolding patched patched_workers patched_customers
  update_work_order_from_json org_id id now db = do
    o ← find (is_order_of org_id id) db.work_orders
    new ← patched now o
    assigned ← if given_ok new db then patched_workers id db else none
    customers ← patched_customers id db
    some (
      id,
      record db {
        work_orders = update (is_order_of org_id id) (λ row. new) db.work_orders;
        assigned = assigned;
        order_customers = customers;
      },
    )
