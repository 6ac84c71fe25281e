-- ===== src/Handlers/Routes.antt =====
-- The routes of internal/handlers/router.go for work orders and tasks, all behind `RequireAuth`, but
-- that of `GetByWOIDFull`.
use go_cmms.Base.{Option}
use go_cmms.Text.{Text}
use go_cmms.Auth.{External}
use go_cmms.Middleware.{Handler}
use go_cmms.Handlers.WorkOrders.{SearchRequest, Decoded}
use go_cmms.Handlers.WorkOrders as OrderHandlers
use go_cmms.Handlers.Tasks as TaskHandlers

-- The routes of `/work-orders` and `/tasks`, with what is read from the path and the body.
pub data Route : Type 0 where
  search_orders : Option SearchRequest → Route
  create_order : Decoded → Route
  modify_order : Text → Decoded → Route
  list_orders : Route
  get_order : Text → Route
  put_order : Text → Route
  delete_order : Text → Route
  change_order_status : Text → Option Text → Route
  list_tasks : Text → Route
  toggle_task : Text → Option Text → Route
  delete_task : Text → Route
  post_task : Route
  put_task : Route

-- The handler of each route.
unfoldable pub routed : External → Route → Handler
unfolding OrderHandlers.filter_search OrderHandlers.create OrderHandlers.modify OrderHandlers.list
    OrderHandlers.get_by_id OrderHandlers.update OrderHandlers.delete OrderHandlers.change_status
    TaskHandlers.get_by_wo_id TaskHandlers.toggle_complete TaskHandlers.delete TaskHandlers.create
    TaskHandlers.update
routed x (search_orders body) = OrderHandlers.filter_search x body
routed x (create_order body) = OrderHandlers.create x body
routed x (modify_order id body) = OrderHandlers.modify x id body
routed x list_orders = OrderHandlers.list
routed x (get_order id) = OrderHandlers.get_by_id x id
routed x (put_order id) = OrderHandlers.update id
routed x (delete_order id) = OrderHandlers.delete x id
routed x (change_order_status id body) = OrderHandlers.change_status x id body
routed x (list_tasks id) = TaskHandlers.get_by_wo_id x id
routed x (toggle_task id body) = TaskHandlers.toggle_complete x id body
routed x (delete_task id) = TaskHandlers.delete x id
routed x post_task = TaskHandlers.create
routed x put_task = TaskHandlers.update
