-- ===== src/Handlers/Tenants/Requests.antt =====
-- A request to the routes of work orders and tasks leaves alone the rows of other organisations.
use mathlib.Core.Path.{subst}
use go_cmms.Base.{ℕ, ◌≡◌, refl, sym, Option, none, some, arith, inl, inr, Option-cases, ◌+◌}
use go_cmms.Text.{Text}
use go_cmms.Models.{Session}
use go_cmms.Db.{Db}
use go_cmms.Db.Tasks as Tasks
use go_cmms.Http.{World, Request, Response, Result, statement}
use go_cmms.Auth.{External}
use go_cmms.Auth.SessionCookie.{session_of}
use go_cmms.Middleware.{Context, require_auth, with_auth}
use go_cmms.Middleware.Guards.{Guarded, refused, passed, require_auth-Guarded}
use go_cmms.Repo.WorkOrders as OrderRepo
use go_cmms.Repo.Tasks as TaskRepo
use go_cmms.Handlers.WorkOrders.{SearchRequest, Decoded, object_of, lacks_title}
use go_cmms.Handlers.Tenants.Creation.{create-LeavesOthers}
use go_cmms.Handlers.Tenants.Patch.{update-LeavesOthers}
use go_cmms.Db.WorkOrders.Patch as Patch
use go_cmms.Db.WorkOrders.Create as Sql
use go_cmms.Db.WorkOrders.Create.Payload.{JsonObject}
use go_cmms.Models.{User}
use go_cmms.Handlers.WorkOrders as OrderHandlers
use go_cmms.Handlers.Tasks as TaskHandlers
use go_cmms.Handlers.Routes.{
  Route, search_orders, create_order, modify_order, list_orders, get_order, put_order, delete_order,
  change_order_status, list_tasks, toggle_task, delete_task, post_task, put_task, routed,
}
use go_cmms.Handlers.Tenants.{
  LeavesOthers, same-LeavesOthers, change_status-LeavesOthers, delete_order-LeavesOthers,
  delete_task-LeavesOthers, toggle-LeavesOthers,
}

module _ (x : External) (req : Request) (c : Context) (w : World) (org : ℕ)
    (in_org : c.org ≡ some org) where
  change_order_status-Leaves :
      (id_text : Text) (body : Option Text)
      → LeavesOthers org w.db (OrderHandlers.change_status x id_text body req c w).1.db
  unfolding OrderHandlers.change_status OrderRepo.change_work_order_status statement
  change_order_status-Leaves id_text none = ground (arith, same-LeavesOthers org w.db)
  change_order_status-Leaves id_text (some status) = elim (Option-cases (x.uuid_parse id_text)) [
    | inl e ↦ ground (arith, same-LeavesOthers org w.db)
    | inr (id, e) ↦
        ground
          (arith, same-LeavesOthers org w.db, change_status-LeavesOthers status id org w.now w.db)
  ]

  delete_order-Leaves :
      (id_text : Text) → LeavesOthers org w.db (OrderHandlers.delete x id_text req c w).1.db
  unfolding OrderHandlers.delete OrderRepo.delete_work_order_by_id statement
  delete_order-Leaves id_text = elim (Option-cases (x.uuid_parse id_text)) [
    | inl e ↦ ground (arith, same-LeavesOthers org w.db)
    | inr (id, e) ↦
        ground (arith, same-LeavesOthers org w.db, delete_order-LeavesOthers org id w.db)
  ]

  delete_task-Leaves :
      (id_text : Text) → LeavesOthers org w.db (TaskHandlers.delete x id_text req c w).1.db
  unfolding TaskHandlers.delete TaskRepo.delete_task_by_id statement
  delete_task-Leaves id_text = elim (Option-cases (x.uuid_parse id_text)) [
    | inl e ↦ ground (arith, same-LeavesOthers org w.db)
    | inr (id, e) ↦ ground (arith, same-LeavesOthers org w.db, delete_task-LeavesOthers org id w.db)
  ]

  toggle_task-Leaves :
      (id_text : Text) (body : Option Text)
      → LeavesOthers org w.db (TaskHandlers.toggle_complete x id_text body req c w).1.db
  unfolding TaskHandlers.toggle_complete TaskRepo.toggle_task_complete statement
      Tasks.toggle_task_completion
  toggle_task-Leaves id_text none = ground (arith, same-LeavesOthers org w.db)
  toggle_task-Leaves id_text (some value) = elim (Option-cases (x.uuid_parse id_text)) [
    | inl e ↦ ground (arith, same-LeavesOthers org w.db)
    | inr (id, e) ↦ elim (Option-cases (TaskHandlers.complete_of value)) [
      | inl f ↦ ground (arith, same-LeavesOthers org w.db)
      | inr (complete, f) ↦
          ground (arith, same-LeavesOthers org w.db, toggle-LeavesOthers complete org id w.now w.db)
    ]
  ]

  create_order-by :
      (user : User) (p : JsonObject) (body : Decoded)
      → c.user ≡ some user
      → object_of body ≡ some p
      → LeavesOthers org w.db (OrderHandlers.create x body req c w).1.db
  unfolding OrderHandlers.create OrderRepo.create_work_order_from_json statement
  create_order-by user p body known read =
      elim (Option-cases (
        Sql.create_work_order_from_json x.casts (λ k. w.ids (w.drawn + k)) w.now org user.id p
          w.db)) [
            | inl e ↦ ground (arith, same-LeavesOthers org w.db)
            | inr ((id, db'), e) ↦
                let others =
                  create-LeavesOthers x.casts (λ k. w.ids (w.drawn + k)) w.now org user.id p w.db
                    (id, db') e in
                ground (arith, same-LeavesOthers org w.db, others)
          ]

  create_order-Leaves :
      (body : Decoded) → LeavesOthers org w.db (OrderHandlers.create x body req c w).1.db
  unfolding OrderHandlers.create
  create_order-Leaves body = elim (Option-cases c.user) [
    | inl e ↦ ground (arith, same-LeavesOthers org w.db)
    | inr (user, e) ↦ elim (Option-cases (object_of body)) [
      | inl f ↦ ground (arith, same-LeavesOthers org w.db)
      | inr (p, f) ↦ create_order-by user p body e f
    ]
  ]

  modify_order-by :
      (user : User) (id : ℕ) (p : JsonObject) (id_text : Text) (body : Decoded)
      → c.user ≡ some user
      → x.uuid_parse id_text ≡ some id
      → object_of body ≡ some p
      → LeavesOthers org w.db (OrderHandlers.modify x id_text body req c w).1.db
  unfolding OrderHandlers.modify OrderRepo.update_work_order_from_json statement
  modify_order-by user id p id_text body known parsed read =
      elim (Option-cases (Patch.update_work_order_from_json x.casts p org id w.now w.db)) [
        | inl e ↦ ground (arith, same-LeavesOthers org w.db)
        | inr ((same_id, db'), e) ↦
            let others = update-LeavesOthers x.casts p org id w.now w.db (same_id, db') e in
            ground (arith, same-LeavesOthers org w.db, others)
      ]

  modify_order-Leaves :
      (id_text : Text) (body : Decoded)
      → LeavesOthers org w.db (OrderHandlers.modify x id_text body req c w).1.db
  unfolding OrderHandlers.modify
  modify_order-Leaves id_text body = elim (Option-cases c.user) [
    | inl e ↦ ground (arith, same-LeavesOthers org w.db)
    | inr (user, e) ↦ elim (Option-cases (x.uuid_parse id_text)) [
      | inl f ↦ ground (arith, same-LeavesOthers org w.db)
      | inr (id, f) ↦ elim (Option-cases (object_of body)) [
        | inl g ↦ ground (arith, same-LeavesOthers org w.db)
        | inr (p, g) ↦ modify_order-by user id p id_text body e f g
      ]
    ]
  ]

  search_orders-Leaves :
      (body : Option SearchRequest)
      → LeavesOthers org w.db (OrderHandlers.filter_search x body req c w).1.db
  unfolding OrderHandlers.filter_search OrderRepo.list_work_orders_paged statement
  search_orders-Leaves body = ground (arith, same-LeavesOthers org w.db)

  get_order-Leaves :
      (id_text : Text) → LeavesOthers org w.db (OrderHandlers.get_by_id x id_text req c w).1.db
  unfolding OrderHandlers.get_by_id OrderRepo.get_work_order_detail statement
  get_order-Leaves id_text = ground (arith, same-LeavesOthers org w.db)

  list_tasks-Leaves :
      (id_text : Text) → LeavesOthers org w.db (TaskHandlers.get_by_wo_id x id_text req c w).1.db
  unfolding TaskHandlers.get_by_wo_id TaskRepo.list_simple_tasks_by_work_order_id statement
  list_tasks-Leaves id_text = ground (arith, same-LeavesOthers org w.db)

  routed-LeavesOthers : (route : Route) → LeavesOthers org w.db (routed x route req c w).1.db
  unfolding routed
  routed-LeavesOthers (search_orders body) = search_orders-Leaves body
  routed-LeavesOthers (create_order body) = create_order-Leaves body
  routed-LeavesOthers (modify_order id body) = modify_order-Leaves id body
  routed-LeavesOthers (get_order id) = get_order-Leaves id
  routed-LeavesOthers (delete_order id) = delete_order-Leaves id
  routed-LeavesOthers (change_order_status id body) = change_order_status-Leaves id body
  routed-LeavesOthers (list_tasks id) = list_tasks-Leaves id
  routed-LeavesOthers (toggle_task id body) = toggle_task-Leaves id body
  routed-LeavesOthers (delete_task id) = delete_task-Leaves id
  routed-LeavesOthers list_orders = same-LeavesOthers org w.db
  routed-LeavesOthers (put_order id) = same-LeavesOthers org w.db
  routed-LeavesOthers post_task = same-LeavesOthers org w.db
  routed-LeavesOthers put_task = same-LeavesOthers org w.db

-- What a request changes for the session that its cookie names, or for none.
abbrev pub Confined : Option Session → Db → Db → Type 0
Confined none db db' = db' ≡ db
Confined (some s) db db' = LeavesOthers s.active_org db db'

same-Confined : (s : Option Session) (db db' : Db) → db' ≡ db → Confined s db db'
same-Confined none db db' e = e
same-Confined (some s) db db' e =
    subst (LeavesOthers s.active_org db) (sym e) (same-LeavesOthers s.active_org db)

-- A request to any of the routes modelled changes nothing without a live session, and with one nothing
-- but the work orders of the session's organisation with their tasks, workers and customers, and the
-- tasks and counters of that organisation: every other row of the database stays.
pub require_auth-Confined :
    (x : External) (route : Route) (req : Request) (c : Context) (w : World)
    → Confined (session_of req w) w.db (require_auth (routed x route) req c w).1.db
require_auth-Confined x route req c w =
    confined (require_auth (routed x route) req c w) (require_auth-Guarded (routed x route) req c w)
  where
    confined :
        (e : Result Response × World)
        → Guarded (routed x route) req c w e
        → Confined (session_of req w) w.db e.1.db
    confined e (refused r w1 is status same) = same-Confined (session_of req w) w.db e.1.db (cc)
    confined e (passed s u w1 is known same) =
        subst (λ found. Confined found w.db e.1.db) (sym known.session)
          (subst (λ r. LeavesOthers s.active_org w.db r.1.db) (sym is)
            (subst
              (λ db.
                LeavesOthers s.active_org db
                  (routed x route req (with_auth c s u s.active_org) w1).1.db)
              same
              (routed-LeavesOthers x req (with_auth c s u s.active_org) w1 s.active_org refl
                route)))
