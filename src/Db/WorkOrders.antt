-- ===== src/Db/WorkOrders.antt =====
-- internal/db/gen/work_orders.sql.go: the statements on work orders but those that call a stored
-- procedure. The detail of a work order is the row that its JSON document is built from.
pub mod Search
pub mod Order
pub mod Create
pub mod Patch
pub mod Apart
pub mod Invariant
use go_cmms.Base.{
  ℕ, zero, suc, Bool, true, false, ◌&&◌, not, Option, none, some, List, [], ◌∷◌, ◌==◌, leb, ltb,
  if◌then◌else◌,
}
use go_cmms.Base.Lists.{any, all, and_then, find, keep, update}
use go_cmms.Text.{Text, codes, text_eq, to_upper}
use go_cmms.Models.{Time}
use go_cmms.Db.{Db, WorkOrderRow, TaskRow}

-- The first `n` characters of a UTF-8 text, and the rest of it.
abbrev pub before_rest : ℕ → Text × Text → Text × Text
before_rest c (first, rest) = (c ∷ first, rest)

abbrev pub split_chars : ℕ → Text → Text × Text
split_chars n [] = ([], [])
split_chars zero (c ∷ t) =
    let more = split_chars zero t in
    if leb 128 c && ltb c 192 then before_rest c more else ([], c ∷ t)
split_chars (suc n) (c ∷ t) =
    let same = split_chars (suc n) t in
    let next = split_chars n t in
    if leb 128 c && ltb c 192 then before_rest c same else before_rest c next

-- The assignment to a column `VARCHAR(n)`: only spaces are cut, and a longer text is an error.
abbrev pub varchar : ℕ → Text → Option Text
varchar n t =
    let parts = split_chars n t in if all (λ c. c == b' ') parts.1 then some parts.0 else none

-- What is stored of a description, `VARCHAR(10000)`.
unfoldable pub stored_description : Option Text → Option (Option Text)
stored_description none = some none
stored_description (some t) = and_then (varchar 10000 t) (λ d. some (some d))

-- A comparison of a nullable UUID.
abbrev pub is_uuid : ℕ → Option ℕ → Bool
is_uuid id none = false
is_uuid id (some other) = other == id

-- `WHERE id = … AND organisation_id = …`
abbrev pub is_order_of : ℕ → ℕ → WorkOrderRow → Bool
is_order_of org_id id o = o.id == id && is_uuid org_id o.organisation_id

-- `COALESCE(completed_on, now())`
abbrev pub time_or : Option Time → Time → Time
time_or none now = now
time_or (some t) now = t

abbrev pub with_status : Text → Time → WorkOrderRow → WorkOrderRow
with_status status now o = record o {
  status = status;
  completed_on =
      if text_eq (to_upper status) (codes "COMPLETE")
      then some (time_or o.completed_on now)
      else none;
  updated_at = now;
}

unfoldable pub change_work_order_status : Text → ℕ → ℕ → Time → Db → Db
change_work_order_status status id org_id now db = record db {
  work_orders = update (is_order_of org_id id) (with_status status now) db.work_orders;
}

-- `ON DELETE CASCADE`: the tasks, workers and customers of the deleted work orders go too.
abbrev pub is_task_of : List WorkOrderRow → TaskRow → Bool
is_task_of orders t = any (λ o. is_uuid o.id t.work_order_id) orders

abbrev pub is_link_of : List WorkOrderRow → ℕ × ℕ → Bool
is_link_of orders link = any (λ o. o.id == link.0) orders

unfoldable pub delete_work_order_by_id : ℕ → ℕ → Db → Db
delete_work_order_by_id org_id id db =
    let gone = keep (is_order_of org_id id) db.work_orders in
    record db {
      work_orders = keep (λ o. not (is_order_of org_id id o)) db.work_orders;
      tasks = keep (λ t. not (is_task_of gone t)) db.tasks;
      assigned = keep (λ l. not (is_link_of gone l)) db.assigned;
      order_customers = keep (λ l. not (is_link_of gone l)) db.order_customers;
    }

-- `WHERE wo.id = $1`
unfoldable pub get_work_order_detail : ℕ → Db → Option WorkOrderRow
get_work_order_detail id db = find (λ o. o.id == id) db.work_orders
