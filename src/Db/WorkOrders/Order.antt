-- ===== src/Db/WorkOrders/Order.antt =====
-- `ORDER BY` of `listWorkOrdersPaged`: the chosen column in the chosen direction with NULLs last,
-- then the newest first. The order of texts is the database's collation, a parameter.
use Prim.Native.Nat.{compare, eq}
use go_cmms.Base.{refl, [], ◌∷◌, Bool, true, false, Option, none, some}
use go_cmms.Base.Sort.{Comparison, then_by, descending, nulls_last, on}
use go_cmms.Base.Sort.Laws.{
  IsOrder, compare-IsOrder, then_by-IsOrder, descending-IsOrder, on-IsOrder, nulls_last-IsOrder,
}
use go_cmms.Base.Maps.{Map, lookup}
use go_cmms.Text.{Text, codes, text_eq, text_key}
use go_cmms.Models.{Time}
use go_cmms.Db.{WorkOrderRow}

module _ {ℓ} {A : Type ℓ} where
  -- `ASC` or `DESC`
  abbrev pub directed : Bool → Comparison A → Comparison A
  directed true c = c
  directed false c = descending c

  -- A key that is NULL for every row.
  abbrev pub no_key : Comparison A
  no_key x y = eq

  abbrev pub choose : Bool → Comparison A → Comparison A → Comparison A
  choose true c d = c
  choose false c d = d

  directed-IsOrder : (asc : Bool) (c : Comparison A) → IsOrder c → IsOrder (directed asc c)
  directed-IsOrder true c h = h
  directed-IsOrder false c h = descending-IsOrder c h

  choose-IsOrder : (b : Bool) (c d : Comparison A) → IsOrder c → IsOrder d → IsOrder (choose b c d)
  choose-IsOrder true c d h k = h
  choose-IsOrder false c d h k = k

  no_key-IsOrder : IsOrder {A = A} no_key
  no_key-IsOrder = record { total = λ x y. refl; transitive = λ x y z p q. refl }

-- A column of the whitelist, by what it holds.
pub data Column : Type 0 where
  text : (WorkOrderRow → Text) → Column
  null_text : (WorkOrderRow → Option Text) → Column
  time : (WorkOrderRow → Time) → Column
  null_time : (WorkOrderRow → Option Time) → Column

unfoldable pub columns : Map Text Column
columns =
    (codes "custom_id", null_text (λ o. o.custom_id))
    ∷ (codes "due_date", null_time (λ o. o.due_date))
    ∷ (codes "created_at", time (λ o. o.created_at))
    ∷ (codes "updated_at", time (λ o. o.updated_at))
    ∷ (codes "priority", text (λ o. o.priority))
    ∷ (codes "status", text (λ o. o.status))
    ∷ (codes "title", text (λ o. o.title))
    ∷ []

-- `f.created_at DESC, f.id DESC`
abbrev pub newest_first : Comparison WorkOrderRow
newest_first =
    then_by (on (λ o. o.created_at) (descending compare)) (on (λ o. o.id) (descending compare))

module _ (collate : Comparison Text) where
  abbrev pub by_column : Bool → Option Column → Comparison WorkOrderRow
  by_column asc none = no_key
  by_column asc (some (text f)) = on f (directed asc collate)
  by_column asc (some (null_text f)) = on f (nulls_last (directed asc collate))
  by_column asc (some (time f)) = on f (directed asc compare)
  by_column asc (some (null_time f)) = on f (nulls_last (directed asc compare))

  unfoldable pub by_sort : Option Text → Text → Comparison WorkOrderRow
  unfolding columns
  by_sort none dir = no_key
  by_sort (some field) dir =
      choose (text_eq dir (codes "ASC")) (by_column true (lookup field columns))
        (choose (text_eq dir (codes "DESC")) (by_column false (lookup field columns)) no_key)

  unfoldable pub row_order : Option Text → Text → Comparison WorkOrderRow
  unfolding by_sort
  row_order field dir = then_by (by_sort field dir) newest_first

  by_column-IsOrder : (asc : Bool) (c : Option Column) → IsOrder collate → IsOrder (by_column asc c)
  by_column-IsOrder asc none h = no_key-IsOrder
  by_column-IsOrder asc (some (text f)) h =
      on-IsOrder f (directed asc collate) (directed-IsOrder asc collate h)
  by_column-IsOrder asc (some (null_text f)) h =
      on-IsOrder f (nulls_last (directed asc collate))
        (nulls_last-IsOrder (directed asc collate) (directed-IsOrder asc collate h))
  by_column-IsOrder asc (some (time f)) h =
      on-IsOrder f (directed asc compare) (directed-IsOrder asc compare compare-IsOrder)
  by_column-IsOrder asc (some (null_time f)) h =
      on-IsOrder f (nulls_last (directed asc compare))
        (nulls_last-IsOrder (directed asc compare) (directed-IsOrder asc compare compare-IsOrder))

  by_sort-IsOrder :
      (field : Option Text) (dir : Text) → IsOrder collate → IsOrder (by_sort field dir)
  unfolding by_sort
  by_sort-IsOrder none dir h = no_key-IsOrder
  by_sort-IsOrder (some field) dir h =
      let asc = by_column true (lookup field columns) in
      let desc = by_column false (lookup field columns) in
      choose-IsOrder (text_eq dir (codes "ASC")) asc
        (choose (text_eq dir (codes "DESC")) desc no_key)
        (by_column-IsOrder true (lookup field columns) h)
        (choose-IsOrder (text_eq dir (codes "DESC")) desc no_key
          (by_column-IsOrder false (lookup field columns) h) no_key-IsOrder)

  -- The order is total and transitive if the collation is.
  pub row_order-IsOrder :
      (field : Option Text) (dir : Text) → IsOrder collate → IsOrder (row_order field dir)
  unfolding row_order
  row_order-IsOrder field dir h =
      let newest = descending-IsOrder compare compare-IsOrder in
      then_by-IsOrder (by_sort field dir) newest_first (by_sort-IsOrder field dir h) (
        then_by-IsOrder (on (λ o. o.created_at) (descending compare))
          (on (λ o. o.id) (descending compare))
          (on-IsOrder (λ o. o.created_at) (descending compare) newest)
          (on-IsOrder (λ o. o.id) (descending compare) newest))
