-- ===== src/Repo/Tasks.antt =====
-- internal/repo/tasks.go, but `GetTasksByWorkOrderID`.
use go_cmms.Base.{ℕ, Bool, Option, some, List}
use go_cmms.Http.{Action, Done, ◌>>=◌, gets, statement}
use go_cmms.Db.Tasks.{MarkedTask, TaskChange, SimpleTask}
use go_cmms.Db.Tasks as Sql
use go_cmms.Repo.{select, exec}

unfoldable pub toggle_task_complete : ℕ → ℕ → Bool → Action (Option TaskChange)
toggle_task_complete org_id id complete = do
  now ← gets (λ w. w.now)
  statement (Sql.toggle_task_completion complete org_id id now)

unfoldable pub mark_task_complete : ℕ → ℕ → Action (Option MarkedTask)
mark_task_complete org_id id = do
  now ← gets (λ w. w.now)
  statement (Sql.mark_task_complete org_id id now)

unfoldable pub delete_task_by_id : ℕ → ℕ → Action (Option Done)
delete_task_by_id org_id id = exec (λ db. some (Sql.delete_task_by_id org_id id db))

unfoldable pub list_simple_tasks_by_work_order_id : ℕ → ℕ → Action (Option (List SimpleTask))
list_simple_tasks_by_work_order_id org_id order_id =
    select (λ db. some (Sql.list_simple_tasks_by_work_order org_id order_id db))
