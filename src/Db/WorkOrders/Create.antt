-- ===== src/Db/WorkOrders/Create.antt =====
-- `create_work_order_from_json` of database/schema/007_functions.up.sql, which
-- internal/db/gen/work_orders.sql.go calls. A raised exception is `none`, and undoes the whole call.
pub mod Payload
pub mod Numbering
pub mod Overflow
pub mod Laws
use go_cmms.Base.{
  ℕ, zero, suc, ◌+◌, ◌-◌, ◌^◌, Bool, true, false, ◌&&◌, ◌||◌, Option, none, some, List, [], ◌∷◌,
  ◌++◌, ◌==◌, ltb, if◌then◌else◌, is_some,
}
use go_cmms.Base.Lists.{any, find, update, length, take, and_then, ◌>>=◌}
use go_cmms.Text.{Text, codes, is_empty}
use go_cmms.Models.{Time}
use go_cmms.Phc.{print_d}
use go_cmms.Db.{Db, WorkOrderRow, CounterRow}
use go_cmms.Db.Users.{get_user_by_id}
use go_cmms.Db.Orgs.{find_org_by_id, is_text}
use go_cmms.Db.WorkOrders.{is_uuid, stored_description}
use go_cmms.Db.WorkOrders.Create.Payload.{
  Casts, JsonObject, row_of, worker_ids, customer_ids, given_id,
}

-- How an `INSERT INTO work_order` ends: a row with the id, or of the organisation with the custom id,
-- is there, or the description is too long or a reference to no row.
pub data Inserted : Type 0 where
  inserted : Db → Inserted
  unique_violation : Inserted
  refused : Inserted

-- Do the two rows have one organisation and one custom id, neither NULL?
abbrev pub is_same_number : WorkOrderRow → WorkOrderRow → Bool
is_same_number o r =
    is_text o.custom_id r.custom_id
    && elim o.organisation_id [ none ↦ false | some org ↦ is_uuid org r.organisation_id ]

abbrev pub refers : (ℕ → Bool) → Option ℕ → Bool
refers has none = true
refers has (some id) = has id

abbrev pub references_ok : WorkOrderRow → Db → Bool
references_ok o db =
    refers (λ id. is_some (find_org_by_id id db)) o.organisation_id
    && refers (λ id. is_some (get_user_by_id id db)) o.created_by_id
    && refers (λ id. is_some (get_user_by_id id db)) o.primary_user_id
    && refers (λ id. any (λ l. l == id) db.locations) o.location_id
    && refers (λ id. any (λ a. a == id) db.assets) o.asset_id

unfoldable pub insert_work_order : WorkOrderRow → Db → Inserted
unfolding stored_description
insert_work_order o db = elim (stored_description o.description) [
  | none ↦ refused
  | some description ↦
      if any (λ r. r.id == o.id || is_same_number o r) db.work_orders
      then unique_violation
      else if references_ok o db
      then inserted
          (record db { work_orders = record o { description = description } ∷ db.work_orders })
      else refused
]

abbrev pub is_counter : ℕ → ℕ → CounterRow → Bool
is_counter org_id year c = c.organisation_id == org_id && c.year == year

-- `INSERT INTO work_order_counters … ON CONFLICT … RETURNING next_seq - 1`; `next_seq` has 4 bytes.
unfoldable pub next_number : ℕ → ℕ → Db → Option (ℕ × Db)
next_number org_id year db = elim (find (is_counter org_id year) db.counters) [
  | none ↦ some (
    1,
    record db {
      counters = record { organisation_id = org_id; year = year; next_seq = 2 } ∷ db.counters;
    },
  )
  | some c ↦
      if ltb (c.next_seq + 1) (2 ^ 31)
      then some (
        c.next_seq,
        record db {
          counters =
              update (is_counter org_id year) (λ k. record k { next_seq = k.next_seq + 1 })
                db.counters;
        },
      )
      else none
]

abbrev pub fill_zero : ℕ → Text → Text
fill_zero zero t = t
fill_zero (suc n) t = b'0' ∷ fill_zero n t

-- `lpad(t, n, '0')`, which cuts a longer text.
abbrev pub lpad : ℕ → Text → Text
lpad n t = if ltb n (length t) then take n t else fill_zero (n - length t) t

-- `'WO-' || v_year::text || '-' || lpad(v_seq::text, 4, '0')`
unfoldable pub custom_id_of : ℕ → ℕ → Text
custom_id_of year seq = codes "WO-" ++ (print_d year ++ (b'-' ∷ lpad 4 (print_d seq)))

-- The loop, with the attempts that are left, and the ids that `uuid_generate_v4` gives.
unfoldable pub insert_numbered : ℕ → (ℕ → ℕ) → WorkOrderRow → ℕ → ℕ → Db → Option (ℕ × Db)
unfolding custom_id_of next_number insert_work_order
insert_numbered zero ids o org_id year db = none
insert_numbered (suc left) ids o org_id year db = and_then (next_number org_id year db) λ numbered.
    elim (insert_work_order
      (record o { id = ids left; custom_id = some (custom_id_of year numbered.0) }) numbered.1) [
        | inserted db2 ↦ some (ids left, db2)
        | unique_violation ↦ insert_numbered left ids o org_id year numbered.1
        | refused ↦ none
      ]

abbrev pub insert_once : ℕ → Inserted → Option (ℕ × Db)
insert_once id (inserted db) = some (id, db)
insert_once id unique_violation = none
insert_once id refused = none

-- A custom id of the client, or one of the numbering.
unfoldable pub insert_order : (ℕ → ℕ) → WorkOrderRow → Option Text → ℕ → ℕ → Db → Option (ℕ × Db)
unfolding insert_numbered
insert_order ids o none org_id year db = insert_numbered 10 ids o org_id year db
insert_order ids o (some given) org_id year db =
    if is_empty given
    then insert_numbered 10 ids o org_id year db
    else insert_once (ids 9)
        (insert_work_order (record o { id = ids 9; custom_id = some given }) db)

-- `INSERT … ON CONFLICT DO NOTHING` of a work order's links to rows that are there.
abbrev pub add_links : (ℕ → Bool) → ℕ → List ℕ → List (ℕ × ℕ) → Option (List (ℕ × ℕ))
add_links has id [] links = some links
add_links has id (to ∷ more) links =
    let known = add_links has id more links in
    let added = add_links has id more ((id, to) ∷ links) in
    if any (λ l. l.0 == id && l.1 == to) links then known else if has to then added else none

abbrev pub add_workers : Db → ℕ → List ℕ → Option (List (ℕ × ℕ))
add_workers db id users = add_links (λ u. is_some (get_user_by_id u db)) id users db.assigned

abbrev pub add_customers : Db → ℕ → List ℕ → Option (List (ℕ × ℕ))
add_customers db id customers =
    add_links (λ c. any (λ k. k == c) db.customers) id customers db.order_customers

module _ (x : Casts) (p : JsonObject) where
  -- The arrays, after the work order.
  unfoldable pub add_arrays : ℕ × Db → Option (ℕ × Db)
  add_arrays (id, db) = do
    users ← worker_ids x p
    customers ← customer_ids x p
    assigned ← add_workers db id users
    links ← add_customers db id customers
    some (id, record db { assigned = assigned; order_customers = links })

unfoldable pub create_work_order_from_json :
    Casts → (ℕ → ℕ) → Time → ℕ → ℕ → JsonObject → Db → Option (ℕ × Db)
unfolding row_of insert_order add_arrays
create_work_order_from_json x ids now org_id created_by p db = do
  o ← row_of x p 0 org_id created_by now
  made ← insert_order ids o (given_id p) org_id (x.year now) db
  add_arrays x p made
