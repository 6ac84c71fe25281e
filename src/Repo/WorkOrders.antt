-- ===== src/Repo/WorkOrders.antt =====
-- internal/repo/work_orders.go.
use mathlib.Core.Option
use go_cmms.Base.{ℕ, Option, some, List, [], ◌∷◌, map}
use go_cmms.Base.Sort.{Comparison}
use go_cmms.Text.{Text}
use go_cmms.Models.{WorkOrder}
use go_cmms.Http.{Action, Done, ◌>>=◌, pure, gets, statement}
use go_cmms.Db.{WorkOrderRow}
use go_cmms.Db.WorkOrders as Sql
use go_cmms.Db.WorkOrders.Search.{Payload, PagedRow}
use go_cmms.Db.WorkOrders.Search as Search
use go_cmms.Db.WorkOrders.Create.Payload.{Casts, JsonObject}
use go_cmms.Db.WorkOrders.Create as Create
use go_cmms.Db.WorkOrders.Patch as Patch
use go_cmms.Repo.{new_ids, select, exec, from_text, time_or_zero, uuid_or_nil}

unfoldable pub work_order_of_row : WorkOrderRow → WorkOrder
unfolding from_text
work_order_of_row r = record {
  id = r.id;
  org_id = uuid_or_nil r.organisation_id;
  title = r.title;
  description = from_text r.description;
  status = r.status;
  priority = r.priority;
  created_at = r.created_at;
  updated_at = r.updated_at;
  due_date = time_or_zero r.due_date;
  custom_id = from_text r.custom_id;
}

-- The work orders and their number: `count := rows[0].TotalRows`, and 0 with no rows.
unfoldable pub counted : List PagedRow → List WorkOrder × ℕ
unfolding work_order_of_row
counted [] = ([], 0)
counted (r ∷ rows) = (map (λ q. work_order_of_row q.row) (r ∷ rows), r.total_rows)

unfoldable pub list_work_orders_paged :
    Comparison Text → ℕ → Payload → Action (Option (List WorkOrder × ℕ))
unfolding counted
list_work_orders_paged collate org_id payload = do
  rows ← select (Search.list_work_orders_paged collate org_id payload)
  pure (Option.map counted rows)

unfoldable pub get_work_order_detail : ℕ → Action (Option WorkOrderRow)
get_work_order_detail id = select (Sql.get_work_order_detail id)

unfoldable pub change_work_order_status : ℕ → ℕ → Text → Action (Option Done)
change_work_order_status org_id id status = do
  now ← gets (λ w. w.now)
  exec (λ db. some (Sql.change_work_order_status status id org_id now db))

unfoldable pub delete_work_order_by_id : ℕ → ℕ → Action (Option Done)
delete_work_order_by_id org_id id = exec (λ db. some (Sql.delete_work_order_by_id org_id id db))

-- `CreateWorkOrderFromJSON`; the ids of ten attempts are drawn.
unfoldable pub create_work_order_from_json : Casts → ℕ → ℕ → JsonObject → Action (Option ℕ)
create_work_order_from_json casts org_id user_id payload = do
  now ← gets (λ w. w.now)
  ids ← new_ids 10
  statement (Create.create_work_order_from_json casts ids now org_id user_id payload)

-- `UpdateWorkOrderFromJSON`, whose procedure does not read the user.
unfoldable pub update_work_order_from_json : Casts → ℕ → ℕ → ℕ → JsonObject → Action (Option ℕ)
update_work_order_from_json casts org_id id user_id payload = do
  now ← gets (λ w. w.now)
  statement (Patch.update_work_order_from_json casts payload org_id id now)
