-- ===== src/Handlers/Tenants/Creation.antt =====
-- The creation of a work order leaves alone the rows of other organisations.
use mathlib.Core.Path.{subst}
use go_cmms.Base.{
  ℕ, zero, suc, ◌+◌, ◌≡◌, refl, sym, ap, ◌∙◌, Bool, false, Option, none, some, List, [], ◌∷◌, arith,
  inl, inr, Option-cases, Bool-cases, ◌==◌, ◌&&◌,
}
use go_cmms.Base.Lists.{any, keep, find, update, keep-update, and_then_inv}
use go_cmms.Text.{Text, is_empty}
use go_cmms.Models.{Time}
use go_cmms.Db.{Db, WorkOrderRow}
use go_cmms.Db.WorkOrders.{stored_description}
use go_cmms.Db.WorkOrders.Create.{
  inserted, insert_work_order, next_number, is_counter, insert_numbered, insert_order, add_links,
  add_arrays, create_work_order_from_json, custom_id_of, add_workers, add_customers,
}
use go_cmms.Db.WorkOrders.Create.Laws.{
  numbered_row, stored_row, Inserted-cases, insert_order-Made, row_of-IsNew, some_inj,
}
use go_cmms.Db.WorkOrders.Create.Payload.{
  Casts, JsonObject, row_of, worker_ids, customer_ids, given_id,
}
use go_cmms.Handlers.Tenants.{LeavesOthers, is_foreign_link, is_foreign_task, is_foreign_counter}

-- Only the work orders change, and the counters of the organisation.
abbrev Counts : ℕ → Db → Db → Type 0
Counts org db db1 =
    (db1 ≡ record db { work_orders = db1.work_orders; counters = db1.counters })
    × (keep (is_foreign_counter org) db1.counters ≡ keep (is_foreign_counter org) db.counters)

Counts-trans :
    (org : ℕ) (db db1 db2 : Db) → Counts org db db1 → Counts org db1 db2 → Counts org db db2
Counts-trans org db db1 db2 (e, f) (g, h) = (
  g ∙ ap {B = Db} (λ d. record d { work_orders = db2.work_orders; counters = db2.counters }) e,
  h ∙ f,
)

next_number-Counts :
    (org year seq : ℕ) (db db1 : Db) → next_number org year db ≡ some (seq, db1) → Counts org db db1
unfolding next_number
next_number-Counts org year seq db db1 e =
    elim (Option-cases (find (is_counter org year) db.counters)) [
      | inl f ↦
          let made = record db {
            counters = record { organisation_id = org; year = year; next_seq = 2 } ∷ db.counters;
          } in
          let same : made ≡ db1 = ground arith in subst (Counts org db) same (refl, ground arith)
      | inr (c, f) ↦
          let made = record db {
            counters =
                update (is_counter org year) (λ k. record k { next_seq = k.next_seq + 1 })
                  db.counters;
          } in
          let same : made ≡ db1 = ground arith in
          subst (Counts org db) same (
            refl,
            keep-update (is_foreign_counter org) (is_counter org year)
                (λ k. record k { next_seq = k.next_seq + 1 }) db.counters (λ k h. ground arith),
          )
    ]

insert_work_order-Counts :
    (org : ℕ) (o : WorkOrderRow) (db db1 : Db)
    → insert_work_order o db ≡ inserted db1
    → Counts org db db1
unfolding insert_work_order
insert_work_order-Counts org o db db1 e = elim (Option-cases (stored_description o.description)) [
  | inl f ↦ absurd (ground arith)
  | inr (description, f) ↦
      let made = record db { work_orders = stored_row o description ∷ db.work_orders } in
      let same : made ≡ db1 = ground arith in subst (Counts org db) same (refl, refl)
]

insert_numbered-Counts :
    (left : ℕ) (ids : ℕ → ℕ) (o : WorkOrderRow) (org year : ℕ) (db : Db) (e : ℕ × Db)
    → insert_numbered left ids o org year db ≡ some e
    → Counts org db e.1
unfolding insert_numbered
insert_numbered-Counts zero ids o org year db e h = absurd (ground arith)
insert_numbered-Counts (suc left) ids o org year db e h =
    let ((seq, db1), f, g) = and_then_inv (next_number org year db) _ e h in
    let row = numbered_row o (ids left) (custom_id_of year seq) in
    Counts-trans org db db1 e.1 (next_number-Counts org year seq db db1 f)
      (elim (Inserted-cases (insert_work_order row db1)) [
        | inl (db2, k) ↦
            let same : (ids left, db2) ≡ e = ground arith in
            subst (λ r. Counts org db1 r.1) same (insert_work_order-Counts org row db1 db2 k)
        | inr (inl k) ↦ insert_numbered-Counts left ids o org year db1 e (ground arith)
        | inr (inr k) ↦ absurd (ground arith)
      ])

insert_order-Counts :
    (ids : ℕ → ℕ) (o : WorkOrderRow) (given : Option Text) (org year : ℕ) (db : Db) (e : ℕ × Db)
    → insert_order ids o given org year db ≡ some e
    → Counts org db e.1
unfolding insert_order
insert_order-Counts ids o none org year db e h = insert_numbered-Counts 10 ids o org year db e h
insert_order-Counts ids o (some given) org year db e h = elim (Bool-cases (is_empty given)) [
  | inl k ↦ insert_numbered-Counts 10 ids o org year db e (ground arith)
  | inr k ↦ elim (Inserted-cases (insert_work_order (numbered_row o (ids 9) given) db)) [
    | inl (db2, l) ↦
        let same : (ids 9, db2) ≡ e = ground arith in
        subst (λ r. Counts org db r.1) same
          (insert_work_order-Counts org (numbered_row o (ids 9) given) db db2 l)
    | inr (inl l) ↦ absurd (ground arith)
    | inr (inr l) ↦ absurd (ground arith)
  ]
]

-- Links of one work order are added only.
pub add_links-keep :
    (p : ℕ × ℕ → Bool) (has : ℕ → Bool) (id : ℕ) (tos : List ℕ) (links out : List (ℕ × ℕ))
    → ((to : ℕ) → p (id, to) ≡ false)
    → add_links has id tos links ≡ some out
    → keep p out ≡ keep p links
add_links-keep p has id [] links out never e = ap (keep p) (sym (some_inj e))
add_links-keep p has id (to ∷ tos) links out never e =
    elim (Bool-cases (any (λ l. l.0 == id && l.1 == to) links)) [
      | inl f ↦ add_links-keep p has id tos links out never (ground arith)
      | inr f ↦
          let more = add_links-keep p has id tos ((id, to) ∷ links) out never in
          let here = never to in more (ground arith) ∙ ground arith
    ]

-- The database after a creation, but for its arrays.
add_arrays-Leaves :
    (x : Casts) (p : JsonObject) (org : ℕ) (o : WorkOrderRow) (id : ℕ) (db db1 : Db) (e : ℕ × Db)
    → add_arrays x p (id, db1) ≡ some e
    → Counts org db db1
    → db1.work_orders ≡ o ∷ db.work_orders
    → o.id ≡ id
    → o.organisation_id ≡ some org
    → LeavesOthers org db e.1
unfolding add_arrays
add_arrays-Leaves x p org o id db db1 e h (only, counted) rows named owned =
    let (users, f1, g1) = and_then_inv (worker_ids x p) _ e h in
    let (customers, f2, g2) = and_then_inv (customer_ids x p) _ e g1 in
    let (assigned, f3, g3) = and_then_inv (add_workers db1 id users) _ e g2 in
    let (links, f4, g4) = and_then_inv (add_customers db1 id customers) _ e g3 in
    let db2 = record db1 { assigned = assigned; order_customers = links } in
    let own : (to : ℕ) → is_foreign_link org db db2 (id, to) ≡ false =
      λ to. rw rows (ground arith) in
    subst (λ r. LeavesOthers org db r.1) (some_inj g4)
      (record {
        rest =
            ap {B = Db}
              (λ d. record d { tasks = db1.tasks; assigned = assigned; order_customers = links })
              only;
        workers =
            add_links-keep (is_foreign_link org db db2) _ id users db1.assigned assigned own f3
            ∙ ap (λ d. keep (is_foreign_link org db db2) d.assigned) only;
        customers =
            add_links-keep (is_foreign_link org db db2) _ id customers db1.order_customers links own
              f4
            ∙ ap (λ d. keep (is_foreign_link org db db2) d.order_customers) only;
        counts = counted;
        orders = rw rows (ground arith);
        tasks = ap (λ d. keep (is_foreign_task org db) d.tasks) only;
      })

pub create-LeavesOthers :
    (x : Casts) (ids : ℕ → ℕ) (now : Time) (org user : ℕ) (p : JsonObject) (db : Db) (e : ℕ × Db)
    → create_work_order_from_json x ids now org user p db ≡ some e
    → LeavesOthers org db e.1
unfolding create_work_order_from_json
create-LeavesOthers x ids now org user p db e h =
    let (o, f1, g1) = and_then_inv (row_of x p 0 org user now) _ e h in
    let ((id, db1), f2, g2) =
      and_then_inv (insert_order ids o (given_id p) org (x.year now) db) _ e g1 in
    let (number, description, rows, fresh) =
      insert_order-Made ids o (given_id p) org (x.year now) db (id, db1) f2 in
    let new = row_of-IsNew x p 0 org user now o f1 in
    add_arrays-Leaves x p org (stored_row (numbered_row o id number) description) id db db1 e g2
      (insert_order-Counts ids o (given_id p) org (x.year now) db (id, db1) f2) rows refl new.0
