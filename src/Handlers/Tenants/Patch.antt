-- ===== src/Handlers/Tenants/Patch.antt =====
-- The change of a work order leaves alone the rows of other organisations.
use mathlib.Core.Path.{subst}
use go_cmms.Base.{
  ℕ, ◌≡◌, refl, sym, ap, ◌∙◌, Bool, true, false, none, some, List, [], ◌∷◌, arith, inl, inr,
  is_some, if◌then◌else◌, Bool-cases, ◌==◌, not,
}
use go_cmms.Base.Lists.{any, keep, find, update, keep-update, keep-keep, and_then_inv}
use go_cmms.Models.{Time}
use go_cmms.Db.{Db, WorkOrderRow}
use go_cmms.Db.WorkOrders.{is_uuid, is_order_of, is_link_of}
use go_cmms.Db.WorkOrders.Create.{add_links}
use go_cmms.Db.Users.{get_user_by_id}
use go_cmms.Db.WorkOrders.Create.Laws.{some_inj}
use go_cmms.Db.WorkOrders.Create.Payload.{Casts, JsonObject, worker_ids, customer_ids}
use go_cmms.Db.WorkOrders.Patch.{
  patched, patched_workers, patched_customers, given_ok, given_or, has_any, worker_list_keys,
  customer_list_keys, update_work_order_from_json,
}
use go_cmms.Db.WorkOrders.Patch.Laws.{patched-Kept}
use go_cmms.Handlers.Tenants.{LeavesOthers, own_orders, is_foreign, is_foreign_link}
use go_cmms.Handlers.Tenants.Creation.{add_links-keep}

find_order :
    (org id : ℕ) (os : List WorkOrderRow) (o : WorkOrderRow)
    → find (is_order_of org id) os ≡ some o
    → is_uuid org o.organisation_id ≡ true
find_order org id [] o e = absurd (ground arith)
find_order org id (q ∷ os) o e = elim (Bool-cases (is_order_of org id q)) [
  | inl h ↦ ground arith
  | inr h ↦ find_order org id os o (ground arith)
]

-- Every link of the order that is found is the organisation's own.
find-is_link_of :
    (org id to : ℕ) (os : List WorkOrderRow) (o : WorkOrderRow)
    → find (is_order_of org id) os ≡ some o
    → is_link_of (keep (λ q. is_uuid org q.organisation_id) os) (id, to) ≡ true
find-is_link_of org id to [] o e = absurd (ground arith)
find-is_link_of org id to (q ∷ os) o e = elim (Bool-cases (is_order_of org id q)) [
  | inl h ↦ ground arith
  | inr h ↦ let rest = find-is_link_of org id to os o (ground arith) in ground arith
]

-- A link that is not of the order is on no deleted row.
other_link :
    (q : ℕ × ℕ → Bool) (id : ℕ) (l : ℕ × ℕ)
    → ((to : ℕ) → q (id, to) ≡ false)
    → q l ≡ true
    → not (l.0 == id) ≡ true
other_link q id (i, to) never h = elim (Bool-cases (i == id)) [
  | inl e ↦
      let same : i ≡ id = ground arith in
      absurd (ground (arith, never to, ap (λ k. q (k, to)) same))
  | inr e ↦ ground arith
]

-- A list that is left alone, or whose links of the order are replaced.
replaced-keep :
    (given : Bool) (has : ℕ → Bool) (id : ℕ) (tos : List ℕ) (old out : List (ℕ × ℕ))
    (q : ℕ × ℕ → Bool)
    → ((to : ℕ) → q (id, to) ≡ false)
    → given_or given (add_links has id tos (keep (λ l. not (l.0 == id)) old)) old ≡ some out
    → keep q out ≡ keep q old
replaced-keep true has id tos old out q never e =
    add_links-keep q has id tos (keep (λ l. not (l.0 == id)) old) out never e
    ∙ keep-keep q (λ l. not (l.0 == id)) old (λ l. other_link q id l never)
replaced-keep false has id tos old out q never e = ap (keep q) (sym (some_inj e))

patched_workers-keep :
    (x : Casts) (p : JsonObject) (id : ℕ) (db : Db) (out : List (ℕ × ℕ)) (q : ℕ × ℕ → Bool)
    → ((to : ℕ) → q (id, to) ≡ false)
    → patched_workers x p id db ≡ some out
    → keep q out ≡ keep q db.assigned
unfolding patched_workers
patched_workers-keep x p id db out q never h =
    let (users, f, g) = and_then_inv (worker_ids x p) _ out h in
    let rest = record db { assigned = keep (λ l. not (l.0 == id)) db.assigned } in
    replaced-keep (has_any p worker_list_keys) (λ u. is_some (get_user_by_id u rest)) id users
      db.assigned out q never g

patched_customers-keep :
    (x : Casts) (p : JsonObject) (id : ℕ) (db : Db) (out : List (ℕ × ℕ)) (q : ℕ × ℕ → Bool)
    → ((to : ℕ) → q (id, to) ≡ false)
    → patched_customers x p id db ≡ some out
    → keep q out ≡ keep q db.order_customers
unfolding patched_customers
patched_customers-keep x p id db out q never h =
    let (customers, f, g) = and_then_inv (customer_ids x p) _ out h in
    replaced-keep (has_any p customer_list_keys) (λ c. any (λ k. k == c) db.customers) id customers
      db.order_customers out q never g

pub update-LeavesOthers :
    (x : Casts) (p : JsonObject) (org id : ℕ) (now : Time) (db : Db) (e : ℕ × Db)
    → update_work_order_from_json x p org id now db ≡ some e
    → LeavesOthers org db e.1
unfolding update_work_order_from_json
update-LeavesOthers x p org id now db e h =
    let (o, f1, g1) = and_then_inv (find (is_order_of org id) db.work_orders) _ e h in
    let (new, f2, g2) = and_then_inv (patched x p now o) _ e g1 in
    let (assigned, f3, g3) =
      and_then_inv (if given_ok x p new db then patched_workers x p id db else none) _ e g2 in
    let (links, f4, g4) = and_then_inv (patched_customers x p id db) _ e g3 in
    let orders = update (is_order_of org id) (λ row. new) db.work_orders in
    let db' = record db { work_orders = orders; assigned = assigned; order_customers = links } in
    let own : is_uuid org new.organisation_id ≡ true =
      ap (is_uuid org) (patched-Kept x p now o new f2).organisation
      ∙ find_order org id db.work_orders o f1 in
    let never : (to : ℕ) → is_foreign_link org db db' (id, to) ≡ false =
      λ to. not_foreign db' to (find-is_link_of org id to db.work_orders o f1) in
    subst (λ r. LeavesOthers org db r.1) (some_inj g4)
      (record {
        rest = refl;
        workers =
            patched_workers-keep x p id db assigned (is_foreign_link org db db') never
              (taken new assigned f3);
        customers = patched_customers-keep x p id db links (is_foreign_link org db db') never f4;
        counts = refl;
        orders =
            keep-update (is_foreign org) (is_order_of org id) (λ row. new) db.work_orders
              (λ q k. ground arith);
        tasks = refl;
      })
  where
    not_foreign :
        (db' : Db) (to : ℕ)
        → is_link_of (own_orders org db) (id, to) ≡ true
        → is_foreign_link org db db' (id, to) ≡ false
    not_foreign db' to k = ground arith

    taken :
        (new : WorkOrderRow) (assigned : List (ℕ × ℕ))
        → (if given_ok x p new db then patched_workers x p id db else none) ≡ some assigned
        → patched_workers x p id db ≡ some assigned
    taken new assigned k = elim (Bool-cases (given_ok x p new db)) [
      | inl g ↦ ground arith
      | inr g ↦ absurd (ground arith)
    ]
