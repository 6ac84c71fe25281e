-- ===== src/Db/Tasks.antt =====
-- internal/db/gen/tasks.sql.go: the statements on tasks but `getTasksByWorkOrderID`, which joins
-- tables that nothing else here reads.
pub mod Toggle
use Prim.Native.Nat.{compare}
use go_cmms.Base.{
  ℕ, Bool, true, false, ◌&&◌, not, Option, none, some, List, [], ◌∷◌, ◌==◌, if◌then◌else◌, is_some,
}
use go_cmms.Base.Lists.{any, find, keep, update, and_then}
use go_cmms.Base.Sort.{sort_by, on}
use go_cmms.Text.{Text, codes, to_upper}
use go_cmms.Models.{Time}
use go_cmms.Db.{Db, TaskRow, TaskBaseRow, UserRow}
use go_cmms.Db.Orgs.{member_of}
use go_cmms.Db.WorkOrders.{is_uuid, is_order_of}

-- `WHERE organisation_id = … AND id = …`
abbrev pub is_task : ℕ → ℕ → TaskRow → Bool
is_task org_id id t = is_uuid org_id t.organisation_id && t.id == id

unfoldable pub delete_task_by_id : ℕ → ℕ → Db → Db
delete_task_by_id org_id id db = record db {
  tasks = keep (λ t. not (is_task org_id id t)) db.tasks;
}

-- What `RETURNING` gives of a task that is marked complete, and of one that is toggled.
pub record MarkedTask : Type 0 where
  pub id : ℕ
  pub organisation_id : Option ℕ
  pub value : Option Text
  pub updated_at : Time

pub record TaskChange : Type 0 where
  pub id : ℕ
  pub organisation_id : Option ℕ
  pub value : Option Text
  pub previous_value : Option Text
  pub updated_at : Time

abbrev pub mark_of : TaskRow → MarkedTask
mark_of t = record {
  id = t.id;
  organisation_id = t.organisation_id;
  value = t.value;
  updated_at = t.updated_at;
}

abbrev pub change_of : TaskRow → TaskChange
change_of t = record {
  id = t.id;
  organisation_id = t.organisation_id;
  value = t.value;
  previous_value = t.previous_value;
  updated_at = t.updated_at;
}

-- `UPDATE tasks SET … WHERE organisation_id = … AND id = … RETURNING …`, with an error if no row is
-- returned.
abbrev pub update_task {ℓ} :
    {A : Type ℓ} → (TaskRow → A) → (TaskRow → TaskRow) → ℕ → ℕ → Db → Option (A × Db)
update_task returning f org_id id db =
    and_then (find (is_task org_id id) db.tasks)
      λ t. some (returning (f t), record db { tasks = update (is_task org_id id) f db.tasks })

unfoldable pub mark_complete : Time → TaskRow → TaskRow
mark_complete now t = record t { value = some (codes "COMPLETE"); updated_at = now }

unfoldable pub mark_task_complete : ℕ → ℕ → Time → Db → Option (MarkedTask × Db)
unfolding mark_complete
mark_task_complete org_id id now db = update_task mark_of (mark_complete now) org_id id db

-- The new value of a toggled task: `previous_value IS NOT NULL` decides what comes back.
abbrev pub toggled_value : Bool → Option Text → Text
toggled_value true previous = codes "COMPLETE"
toggled_value false none = codes "OPEN"
toggled_value false (some previous) = previous

unfoldable pub toggle : Bool → Time → TaskRow → TaskRow
toggle complete now t = record t {
  value = some (toggled_value complete t.previous_value);
  previous_value = if complete then t.value else t.previous_value;
  updated_at = now;
}

unfoldable pub toggle_task_completion : Bool → ℕ → ℕ → Time → Db → Option (TaskChange × Db)
unfolding toggle
toggle_task_completion complete org_id id now db =
    update_task change_of (toggle complete now) org_id id db

abbrev pub or_empty : Option Text → Text
or_empty none = []
or_empty (some t) = t

-- `UPPER(COALESCE(t.value, '')) IN ('COMPLETE','PASS')`
unfoldable pub is_completed : TaskRow → Bool
is_completed t = member_of (to_upper (or_empty t.value)) (codes "COMPLETE" ∷ codes "PASS" ∷ [])

-- `task_base` is the row that its JSON object is built from.
pub record SimpleTask : Type 0 where
  pub id : ℕ
  pub title : Text
  pub completed : Bool
  pub assignee_name : Option Text
  pub task_base : TaskBaseRow

-- `LEFT JOIN users u ON u.id = tb.user_id`
abbrev pub name_of : Option ℕ → List UserRow → Option Text
name_of none users = none
name_of (some id) users = and_then (find (λ u. u.id == id) users) (λ u. u.name)

-- `JOIN task_bases tb ON tb.id = t.task_base_id`
unfoldable pub with_base : Db → List TaskRow → List SimpleTask
unfolding is_completed
with_base db [] = []
with_base db (t ∷ ts) =
    let rest = with_base db ts in
    elim (find (λ b. b.id == t.task_base_id) db.task_bases) [
      | none ↦ rest
      | some base ↦
          record {
            id = t.id;
            title = base.label;
            completed = is_completed t;
            assignee_name = name_of base.user_id db.users;
            task_base = base;
          }
          ∷ rest
    ]

-- The tasks of a work order, both of the organisation.
abbrev pub is_listed : ℕ → ℕ → Db → TaskRow → Bool
is_listed org_id order_id db t =
    is_uuid org_id t.organisation_id
    && is_uuid order_id t.work_order_id
    && any (is_order_of org_id order_id) db.work_orders

-- `… ORDER BY t.created_at ASC`
unfoldable pub list_simple_tasks_by_work_order : ℕ → ℕ → Db → List SimpleTask
unfolding with_base
list_simple_tasks_by_work_order org_id order_id db =
    with_base db
      (sort_by (on (λ t. t.created_at) compare) (keep (is_listed org_id order_id db) db.tasks))
