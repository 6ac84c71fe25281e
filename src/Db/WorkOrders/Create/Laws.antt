-- ===== src/Db/WorkOrders/Create/Laws.antt =====
-- What a created work order is, and that ids and numbers stay unique.
use mathlib.Core.Path.{subst}
use go_cmms.Base.{
  ℕ, zero, suc, ◌≡◌, ◌⊎◌, refl, sym, ap, ◌∙◌, Bool, false, ◌||◌, Option, none, some, List, [], ◌∷◌,
  arith, inl, inr, Option-cases, Bool-cases, ◌==◌,
}
use go_cmms.Base.Lists.{any, and_then_inv}
use go_cmms.Text.{Text, codes, is_empty}
use go_cmms.Models.{Time}
use go_cmms.Db.{Db, WorkOrderRow}
use go_cmms.Db.WorkOrders.{stored_description}
use go_cmms.Db.WorkOrders.Create.{
  Inserted, inserted, unique_violation, refused, is_same_number, insert_work_order, next_number,
  insert_numbered, insert_order, add_arrays, create_work_order_from_json, custom_id_of, add_workers,
  add_customers,
}
use go_cmms.Db.WorkOrders.Create.Payload.{
  Casts, JsonObject, row_of, title_of, due_of, start_of, duration_of, signature_of, uuid_at,
  user_keys, location_keys, asset_keys, worker_ids, customer_ids, given_id,
}

-- A row with the id, or of the organisation with the custom id.
abbrev pub is_clash : WorkOrderRow → WorkOrderRow → Bool
is_clash o r = r.id == o.id || is_same_number o r

-- The row that a numbered or given custom id makes.
abbrev pub numbered_row : WorkOrderRow → ℕ → Text → WorkOrderRow
numbered_row o id number = record o { id = id; custom_id = some number }

-- The row as it is stored.
abbrev pub stored_row : WorkOrderRow → Option Text → WorkOrderRow
stored_row o description = record o { description = description }

-- One row is added, which clashes with none.
abbrev pub Made : WorkOrderRow → Db → ℕ × Db → Type 0
Made o db (id, db') =
    (number : Text) × (description : Option Text) × (db'.work_orders
      ≡ stored_row (numbered_row o id number) description ∷ db.work_orders)
    × (any (is_clash (numbered_row o id number)) db.work_orders ≡ false)

insert_work_order-inserted :
    (o : WorkOrderRow) (db db' : Db)
    → insert_work_order o db ≡ inserted db'
    → (description : Option Text) × (db'.work_orders ≡ stored_row o description ∷ db.work_orders)
      × (any (is_clash o) db.work_orders ≡ false)
unfolding insert_work_order
insert_work_order-inserted o db db' e = elim (Option-cases (stored_description o.description)) [
  | inl f ↦ absurd (ground arith)
  | inr (description, f) ↦ (description, ground arith, ground arith)
]

next_number-work_orders :
    (org year seq : ℕ) (db db' : Db)
    → next_number org year db ≡ some (seq, db')
    → db'.work_orders ≡ db.work_orders
unfolding next_number
next_number-work_orders org year seq db db' e = ground arith

-- How the insertion of one attempt ends.
pub Inserted-cases :
    (i : Inserted) → ((db : Db) × (i ≡ inserted db)) ⊎ ((i ≡ unique_violation) ⊎ (i ≡ refused))
Inserted-cases (inserted db) = inl (db, refl)
Inserted-cases unique_violation = inr (inl refl)
Inserted-cases refused = inr (inr refl)

Made-same :
    (o : WorkOrderRow) (db db1 : Db) (e : ℕ × Db)
    → db1.work_orders ≡ db.work_orders
    → Made o db1 e
    → Made o db e
Made-same o db db1 e same (number, description, rows, fresh) = (
  number,
  description,
  rows ∙ ap (λ os. stored_row (numbered_row o e.0 number) description ∷ os) same,
  subst (λ os. any (is_clash (numbered_row o e.0 number)) os ≡ false) same fresh,
)

insert_numbered-Made :
    (left : ℕ) (ids : ℕ → ℕ) (o : WorkOrderRow) (org year : ℕ) (db : Db) (e : ℕ × Db)
    → insert_numbered left ids o org year db ≡ some e
    → Made o db e
unfolding insert_numbered
insert_numbered-Made zero ids o org year db e h = absurd (ground arith)
insert_numbered-Made (suc left) ids o org year db e h =
    let ((seq, db1), f, g) = and_then_inv (next_number org year db) _ e h in
    let row = numbered_row o (ids left) (custom_id_of year seq) in
    Made-same o db db1 e (next_number-work_orders org year seq db db1 f)
      (elim (Inserted-cases (insert_work_order row db1)) [
        | inl (db2, k) ↦
            let same : (ids left, db2) ≡ e = ground arith in
            let (description, rows, fresh) = insert_work_order-inserted row db1 db2 k in
            subst (Made o db1) same (custom_id_of year seq, description, rows, fresh)
        | inr (inl k) ↦ insert_numbered-Made left ids o org year db1 e (ground arith)
        | inr (inr k) ↦ absurd (ground arith)
      ])

pub insert_order-Made :
    (ids : ℕ → ℕ) (o : WorkOrderRow) (given : Option Text) (org year : ℕ) (db : Db) (e : ℕ × Db)
    → insert_order ids o given org year db ≡ some e
    → Made o db e
unfolding insert_order
insert_order-Made ids o none org year db e h = insert_numbered-Made 10 ids o org year db e h
insert_order-Made ids o (some given) org year db e h = elim (Bool-cases (is_empty given)) [
  | inl k ↦ insert_numbered-Made 10 ids o org year db e (ground arith)
  | inr k ↦ elim (Inserted-cases (insert_work_order (numbered_row o (ids 9) given) db)) [
    | inl (db2, l) ↦
        let same : (ids 9, db2) ≡ e = ground arith in
        let (description, rows, fresh) =
          insert_work_order-inserted (numbered_row o (ids 9) given) db db2 l in
        subst (Made o db) same (given, description, rows, fresh)
    | inr (inl l) ↦ absurd (ground arith)
    | inr (inr l) ↦ absurd (ground arith)
  ]
]

-- What the payload cannot change of a new row.
abbrev IsNew : ℕ → ℕ → WorkOrderRow → Type 0
IsNew org user o =
    (o.organisation_id ≡ some org)
    × (o.created_by_id ≡ some user)
    × (o.status ≡ codes "OPEN")
    × (o.completed_on ≡ none)
    × (o.archived ≡ false)
    × (is_empty o.title ≡ false)

title_of-some : (p : JsonObject) (title : Text) → title_of p ≡ some title → is_empty title ≡ false
title_of-some p title e = ground arith

pub some_inj : {A : Type 0} {a b : A} → some a ≡ some b → a ≡ b
some_inj e = cc

pub row_of-IsNew :
    (x : Casts) (p : JsonObject) (id org user : ℕ) (now : Time) (o : WorkOrderRow)
    → row_of x p id org user now ≡ some o
    → IsNew org user o
unfolding row_of
row_of-IsNew x p id org user now o h =
    let (title, f1, g1) = and_then_inv (title_of p) _ o h in
    let (due, f2, g2) = and_then_inv (due_of x p) _ o g1 in
    let (start, f3, g3) = and_then_inv (start_of x p) _ o g2 in
    let (duration, f4, g4) = and_then_inv (duration_of x p) _ o g3 in
    let (signature, f5, g5) = and_then_inv (signature_of x p) _ o g4 in
    let (primary, f6, g6) = and_then_inv (uuid_at x p (user_keys x p)) _ o g5 in
    let (location, f7, g7) = and_then_inv (uuid_at x p (location_keys x p)) _ o g6 in
    let (asset, f8, g8) = and_then_inv (uuid_at x p (asset_keys x p)) _ o g7 in
    subst (IsNew org user) (some_inj g8) (refl, refl, refl, refl, refl, title_of-some p title f1)

add_arrays-work_orders :
    (x : Casts) (p : JsonObject) (made e : ℕ × Db)
    → add_arrays x p made ≡ some e
    → (e.0 ≡ made.0) × (e.1.work_orders ≡ made.1.work_orders)
unfolding add_arrays
add_arrays-work_orders x p (id, db) e h =
    let (users, f1, g1) = and_then_inv (worker_ids x p) _ e h in
    let (customers, f2, g2) = and_then_inv (customer_ids x p) _ e g1 in
    let (assigned, f3, g3) = and_then_inv (add_workers db id users) _ e g2 in
    let (links, f4, g4) = and_then_inv (add_customers db id customers) _ e g3 in
    subst (λ r. (r.0 ≡ id) × (r.1.work_orders ≡ db.work_orders)) (some_inj g4) (refl, refl)

-- How a creation changes the work orders.
abbrev pub Created : ℕ → ℕ → Db → ℕ × Db → Type 0
Created org user db (id, db') =
    (o : WorkOrderRow) × (db'.work_orders ≡ o ∷ db.work_orders)
    × (o.id ≡ id)
    × IsNew org user o
    × (any (is_clash o) db.work_orders ≡ false)

-- A creation adds one open work order, with the id that it returns and a title, to the organisation and
-- for the user it is called with, whatever the payload says; no work order has its id, or is of the
-- organisation with its custom id.
pub create_work_order_from_json-Created :
    (x : Casts) (ids : ℕ → ℕ) (now : Time) (org user : ℕ) (p : JsonObject) (db : Db) (e : ℕ × Db)
    → create_work_order_from_json x ids now org user p db ≡ some e
    → Created org user db e
unfolding create_work_order_from_json
create_work_order_from_json-Created x ids now org user p db e h =
    let (o, f1, g1) = and_then_inv (row_of x p 0 org user now) _ e h in
    let (made, f2, g2) =
      and_then_inv (insert_order ids o (given_id p) org (x.year now) db) _ e g1 in
    let (same, rows) = add_arrays-work_orders x p made e g2 in
    let (number, description, added, fresh) =
      insert_order-Made ids o (given_id p) org (x.year now) db made f2 in
    (
      stored_row (numbered_row o made.0 number) description,
      rows ∙ added,
      sym same,
      row_of-IsNew x p 0 org user now o f1,
      fresh,
    )

-- No two work orders have one id, or one custom id in one organisation.
abbrev pub IsNumbered : List WorkOrderRow → Type 0
IsNumbered [] = Unit
IsNumbered (o ∷ os) = (any (is_clash o) os ≡ false) × IsNumbered os

-- A creation that does not fail keeps the numbers.
abbrev pub KeepsNumbers : Option (ℕ × Db) → Type 0
KeepsNumbers none = Unit
KeepsNumbers (some e) = IsNumbered e.1.work_orders

-- If no two work orders have one id, or one custom id in one organisation, none do after a creation,
-- numbered or with a custom id of the client.
pub create_work_order_from_json-KeepsNumbers :
    (x : Casts) (ids : ℕ → ℕ) (now : Time) (org user : ℕ) (p : JsonObject) (db : Db)
    → IsNumbered db.work_orders
    → KeepsNumbers (create_work_order_from_json x ids now org user p db)
create_work_order_from_json-KeepsNumbers x ids now org user p db n =
    elim (Option-cases (create_work_order_from_json x ids now org user p db)) [
      | inl h ↦ subst KeepsNumbers (sym h) tt
      | inr (e, h) ↦
          let (o, rows, same, new, fresh) =
            create_work_order_from_json-Created x ids now org user p db e h in
          subst KeepsNumbers (sym h) (subst IsNumbered (sym rows) (fresh, n))
    ]
