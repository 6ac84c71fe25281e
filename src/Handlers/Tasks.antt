-- ===== src/Handlers/Tasks.antt =====
-- internal/handlers/tasks/tasks.go, but `GetByWOIDFull`.
use go_cmms.Base.{Bool, true, false, Option, none, some, [], ◌∷◌, if◌then◌else◌}
use go_cmms.Text.{Text, codes, to_lower}
use go_cmms.Db.Orgs.{member_of}
use go_cmms.Http.{◌>>=◌, pure, or_reply, json, answer_with, str, tasks, task, marked_task}
use go_cmms.Auth.{External}
use go_cmms.Middleware.{Handler}
use go_cmms.Repo.Tasks as Repo
use go_cmms.Handlers.{failure, unauthorized}

-- The `switch` of `ToggleComplete`.
unfoldable pub complete_of : Text → Option Bool
complete_of value =
    let v = to_lower value in
    if member_of v (codes "true" ∷ codes "1" ∷ codes "yes" ∷ codes "complete" ∷ [])
    then some true
    else if member_of v (codes "false" ∷ codes "0" ∷ codes "no" ∷ codes "open" ∷ [])
    then some false
    else none

module _ (x : External) where
  -- `GetByWOID`
  unfoldable pub get_by_wo_id : Text → Handler
  get_by_wo_id id_text req c = do
    org ← or_reply c.org unauthorized
    id ← or_reply (x.uuid_parse id_text) (failure 400 (codes "invalid work order ID"))
    found ←
        or_reply (← Repo.list_simple_tasks_by_work_order_id org id)
          (failure 500 (codes "failed to fetch tasks"))
    pure (answer_with 200 (tasks found))

  -- `Delete`
  unfoldable pub delete : Text → Handler
  delete id_text req c = do
    org ← or_reply c.org unauthorized
    id ← or_reply (x.uuid_parse id_text) (failure 400 (codes "invalid task ID"))
    done ← or_reply (← Repo.delete_task_by_id org id) (failure 500 (codes "failed to delete task"))
    pure (json 200 ((codes "message", str (codes "task deleted")) ∷ []))

  -- `MarkComplete`
  unfoldable pub mark_complete : Text → Handler
  mark_complete id_text req c = do
    org ← or_reply c.org unauthorized
    id ← or_reply (x.uuid_parse id_text) (failure 400 (codes "invalid task ID"))
    changed ←
        or_reply (← Repo.mark_task_complete org id)
          (failure 500 (codes "failed to mark task complete"))
    pure (answer_with 200 (marked_task changed))

  -- `ToggleComplete`, on the value of the decoded body.
  unfoldable pub toggle_complete : Text → Option Text → Handler
  unfolding complete_of
  toggle_complete id_text body req c = do
    org ← or_reply c.org unauthorized
    id ← or_reply (x.uuid_parse id_text) (failure 400 (codes "invalid task ID"))
    value ← or_reply body (failure 400 (codes "invalid request body"))
    complete ←
        or_reply (complete_of value)
          (failure 400 (codes "invalid value, must be 'true' or 'false'"))
    changed ←
        or_reply (← Repo.toggle_task_complete org id complete)
          (failure 500 (codes "failed to toggle task complete"))
    pure (answer_with 200 (task changed))

-- `Create` and `Update`, which are placeholders.
unfoldable pub create : Handler
create req c = pure (json 201 ((codes "message", str (codes "create task")) ∷ []))

unfoldable pub update : Handler
update req c = pure (json 200 ((codes "message", str (codes "update task")) ∷ []))
