-- ===== src/Handlers/Tenants.antt =====
-- The statements on work orders and tasks leave alone the rows of other organisations.
pub mod Requests
pub mod Creation
pub mod Patch
use go_cmms.Base.{
  ℕ, ◌≡◌, refl, Bool, true, false, ◌&&◌, not, Option, none, some, List, [], ◌∷◌, arith, ◌==◌,
  if◌then◌else◌,
}
use go_cmms.Base.Lists.{any, keep, update, keep-update, keep-keep}
use go_cmms.Text.{Text}
use go_cmms.Models.{Time}
use go_cmms.Db.{Db, WorkOrderRow, TaskRow, CounterRow}
use go_cmms.Db.WorkOrders.{is_uuid, is_order_of, is_link_of, is_task_of, with_status}
use go_cmms.Db.WorkOrders as Orders
use go_cmms.Db.Tasks.{is_task}
use go_cmms.Db.Tasks as Tasks

abbrev pub is_foreign : ℕ → WorkOrderRow → Bool
is_foreign org o = not (is_uuid org o.organisation_id)

abbrev pub own_orders : ℕ → Db → List WorkOrderRow
own_orders org db = keep (λ o. is_uuid org o.organisation_id) db.work_orders

-- A task of another organisation, on no work order of this one.
abbrev pub is_foreign_task : ℕ → Db → TaskRow → Bool
is_foreign_task org db t =
    not (is_uuid org t.organisation_id) && not (is_task_of (own_orders org db) t)

-- A worker or a customer of no work order of the organisation, before or after.
abbrev pub is_foreign_link : ℕ → Db → Db → ℕ × ℕ → Bool
is_foreign_link org db db' l =
    not (is_link_of (own_orders org db) l) && not (is_link_of (own_orders org db') l)

abbrev pub is_foreign_counter : ℕ → CounterRow → Bool
is_foreign_counter org c = not (c.organisation_id == org)

-- Nothing changes but the organisation's own work orders, the tasks, workers and customers of these,
-- its own tasks, and its counters.
pub record LeavesOthers (org : ℕ) (db db' : Db) : Type 0 where
  pub rest : db' ≡ record db {
    work_orders = db'.work_orders;
    tasks = db'.tasks;
    assigned = db'.assigned;
    order_customers = db'.order_customers;
    counters = db'.counters;
  }
  pub workers :
      keep (is_foreign_link org db db') db'.assigned ≡ keep (is_foreign_link org db db') db.assigned
  pub customers :
      keep (is_foreign_link org db db') db'.order_customers
      ≡ keep (is_foreign_link org db db') db.order_customers
  pub counts :
      keep (is_foreign_counter org) db'.counters ≡ keep (is_foreign_counter org) db.counters
  pub orders : keep (is_foreign org) db'.work_orders ≡ keep (is_foreign org) db.work_orders
  pub tasks : keep (is_foreign_task org db) db'.tasks ≡ keep (is_foreign_task org db) db.tasks

pub same-LeavesOthers : (org : ℕ) (db : Db) → LeavesOthers org db db
same-LeavesOthers org db = record {
  rest = refl;
  workers = refl;
  customers = refl;
  counts = refl;
  orders = refl;
  tasks = refl;
}

pub change_status-LeavesOthers :
    (status : Text) (id org : ℕ) (now : Time) (db : Db)
    → LeavesOthers org db (Orders.change_work_order_status status id org now db)
unfolding Orders.change_work_order_status
change_status-LeavesOthers status id org now db = record {
  rest = refl;
  workers = refl;
  customers = refl;
  counts = refl;
  orders =
      keep-update (is_foreign org) (is_order_of org id) (with_status status now) db.work_orders
        (λ o h. ground arith);
  tasks = refl;
}

own_order_tasks :
    (id org : ℕ) (t : TaskRow) (os : List WorkOrderRow)
    → is_task_of (keep (λ o. is_uuid org o.organisation_id) os) t ≡ false
    → is_task_of (keep (is_order_of org id) os) t ≡ false
own_order_tasks id org t [] h = refl
own_order_tasks id org t (o ∷ os) h = ground (arith, own_order_tasks id org t os)

own_order_links :
    (id org : ℕ) (l : ℕ × ℕ) (os : List WorkOrderRow)
    → is_link_of (keep (λ o. is_uuid org o.organisation_id) os) l ≡ false
    → is_link_of (keep (is_order_of org id) os) l ≡ false
own_order_links id org l [] h = refl
own_order_links id org l (o ∷ os) h = ground (arith, own_order_links id org l os)

pub delete_order-LeavesOthers :
    (org id : ℕ) (db : Db) → LeavesOthers org db (Orders.delete_work_order_by_id org id db)
unfolding Orders.delete_work_order_by_id
delete_order-LeavesOthers org id db = record {
  rest = refl;
  workers =
      keep-keep (is_foreign_link org db (Orders.delete_work_order_by_id org id db))
        (λ l. not (is_link_of (keep (is_order_of org id) db.work_orders) l)) db.assigned
        (λ l h. ground (arith, own_order_links id org l db.work_orders));
  customers =
      keep-keep (is_foreign_link org db (Orders.delete_work_order_by_id org id db))
        (λ l. not (is_link_of (keep (is_order_of org id) db.work_orders) l)) db.order_customers
        (λ l h. ground (arith, own_order_links id org l db.work_orders));
  counts = refl;
  orders =
      keep-keep (is_foreign org) (λ o. not (is_order_of org id o)) db.work_orders
        (λ o h. ground arith);
  tasks =
      keep-keep (is_foreign_task org db)
        (λ t. not (is_task_of (keep (is_order_of org id) db.work_orders) t)) db.tasks
        (λ t h. ground (arith, own_order_tasks id org t db.work_orders));
}

pub delete_task-LeavesOthers :
    (org id : ℕ) (db : Db) → LeavesOthers org db (Tasks.delete_task_by_id org id db)
unfolding Tasks.delete_task_by_id
delete_task-LeavesOthers org id db = record {
  rest = refl;
  workers = refl;
  customers = refl;
  counts = refl;
  orders = refl;
  tasks =
      keep-keep (is_foreign_task org db) (λ t. not (is_task org id t)) db.tasks
        (λ t h. ground arith);
}

pub toggle-LeavesOthers :
    (complete : Bool) (org id : ℕ) (now : Time) (db : Db)
    → LeavesOthers org db
        (record db { tasks = update (is_task org id) (Tasks.toggle complete now) db.tasks })
unfolding Tasks.toggle
toggle-LeavesOthers complete org id now db = record {
  rest = refl;
  workers = refl;
  customers = refl;
  counts = refl;
  orders = refl;
  tasks =
      keep-update (is_foreign_task org db) (is_task org id) (Tasks.toggle complete now) db.tasks
        (λ t h. ground arith);
}
