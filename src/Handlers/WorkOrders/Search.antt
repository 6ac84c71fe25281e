-- ===== src/Handlers/WorkOrders/Search.antt =====
-- What `FilterSearch` answers.
use go_cmms.Base.{ℕ, ◌≡◌, inl, inr, refl, some, List, [], ◌∷◌, Bool-cases, Option-cases}
use go_cmms.Text.{codes}
use go_cmms.Http.{
  World, Request, Response, Result, ok, stop, statement, json, str, num, work_orders,
}
use go_cmms.Db.WorkOrders.Search.{PagedRow}
use go_cmms.Db.WorkOrders.Search as Sql
use go_cmms.Db.WorkOrders.Search.Rows.{IsPage, list_work_orders_paged-IsPage}
use go_cmms.Repo.WorkOrders.{list_work_orders_paged, counted}
use go_cmms.Auth.{External}
use go_cmms.Middleware.{Context}
use go_cmms.Handlers.WorkOrders.{SearchRequest, payload_of, filter_search}

-- The response to a page of rows.
abbrev pub found_response : List PagedRow → Response
found_response rows = json 200 (
    (codes "message", str (codes "search work orders"))
    ∷ (codes "totalElements", num (counted rows).1)
    ∷ (codes "content", work_orders (counted rows).0)
    ∷ [])

module _ (x : External) where
  -- How a search ends.
  abbrev pub Searched : ℕ → SearchRequest → World → Result Response × World → Type 0
  Searched org b w (ok r, w') =
      (rows : List PagedRow) × IsPage x.collate org (payload_of b) w.db rows
      × (r ≡ found_response rows)
  Searched org b w (stop r, w') = r.status ≡ 500

  pub filter_search-Searched :
      (b : SearchRequest) (req : Request) (c : Context) (org : ℕ) (w : World)
      → c.org ≡ some org
      → Searched org b w (filter_search x (some b) req c w)
  unfolding filter_search list_work_orders_paged statement
  filter_search-Searched b req c org w e = elim (Bool-cases (w.faults w.queries)) [
    | inl f ↦ rw (e, f) refl
    | inr f ↦ elim (Option-cases (Sql.list_work_orders_paged x.collate org (payload_of b) w.db)) [
      | inl g ↦ rw (e, f, g) refl
      | inr (rows, g) ↦
          rw (e, f, g)
            (rows, list_work_orders_paged-IsPage x.collate org (payload_of b) w.db rows g, refl)
    ]
  ]
