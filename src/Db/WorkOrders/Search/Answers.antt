-- ===== src/Db/WorkOrders/Search/Answers.antt =====
-- The rows that a search pages through, against a description of its filters and its order.
use mathlib.Core.Path.{subst}
use mathlib.Core.List.{Perm, perm_middle}
use mathlib.Core.List.Perm
use go_cmms.Base.{
  ℕ, ◌≡◌, ◌⊎◌, sym, Bool, true, not, Option, none, some, List, [], ◌∷◌, ◌++◌, arith, inl, inr,
  Option-cases, Bool-cases,
}
use go_cmms.Base.Lists.{All, keep}
use go_cmms.Base.Sort.{Comparison, sort_by}
use go_cmms.Base.Sort.Laws.{IsOrder, sort_by-Perm, sort_by-IsSorted, All-sort_by}
use go_cmms.Text.{Text}
use go_cmms.Db.{Db, WorkOrderRow}
use go_cmms.Db.WorkOrders.Order.{row_order-IsOrder}
use go_cmms.Db.WorkOrders.Search.{
  Payload, ordered, is_wanted, status_vals, archived_eq, text_cn, lower_or_null, null_if_empty,
  upper_or_desc,
}
use go_cmms.Db.WorkOrders.Search.Rows.{order_of, wanted_rows, ordered-sort_by}
use go_cmms.Db.WorkOrders.Search.Wanted.{Wanted, is_wanted-Wanted}
use go_cmms.Db.WorkOrders.Search.Sorted.{InOrder, row_order-InOrder}

-- `rows` stand in the order that the payload asks for, each passes its filters, and with rows that do
-- not pass them they make up the table, each row as often.
abbrev pub Answers : Comparison Text → ℕ → Payload → Db → List WorkOrderRow → Type 0
Answers collate org_id p db rows =
    (vals : List Text) × (archived : Option Bool) × (status_vals p.filter_fields ≡ some vals)
    × (archived_eq p.filter_fields ≡ some archived)
    × InOrder collate (lower_or_null (null_if_empty p.sort_field))
        (upper_or_desc (null_if_empty p.direction)) rows
    × All (Wanted org_id vals archived (text_cn p.filter_fields)) rows
    × ((rest : List WorkOrderRow) × Perm (rows ++ rest) db.work_orders
        × All (λ o. ¬ Wanted org_id vals archived (text_cn p.filter_fields) o) rest)

-- A test splits a list in two.
keep-Perm :
    (test : WorkOrderRow → Bool) (os : List WorkOrderRow)
    → Perm (keep test os ++ keep (λ o. not (test o)) os) os
keep-Perm test [] = Perm.rfl
keep-Perm test (o ∷ os) = elim (Bool-cases (test o)) [
  | inl e ↦ rw e (Perm.cons o (keep-Perm test os))
  | inr e ↦ rw e (
      Perm.trans (perm_middle (keep test os) (keep (λ o. not (test o)) os))
        (Perm.cons o (keep-Perm test os)))
]

keep-All :
    (test : WorkOrderRow → Bool) (P : WorkOrderRow → Type 0)
    → ((o : WorkOrderRow) → test o ≡ true → P o)
    → (os : List WorkOrderRow) → All P (keep test os)
keep-All test P h [] = tt
keep-All test P h (o ∷ os) = elim (Bool-cases (test o)) [
  | inl e ↦ rw e (h o e, keep-All test P h os)
  | inr e ↦ rw e (keep-All test P h os)
]

ordered-Answers :
    (collate : Comparison Text) (org_id : ℕ) (p : Payload) (db : Db) (rows : List WorkOrderRow)
    → IsOrder collate
    → ordered collate org_id p db ≡ some rows
    → Answers collate org_id p db rows
ordered-Answers collate org_id p db rows h e =
    let (vals, archived, f, g, same) = ordered-sort_by collate org_id p db rows e in
    let term = text_cn p.filter_fields in
    let test = is_wanted org_id vals archived term in
    let found = wanted_rows org_id p vals archived db in
    let field = lower_or_null (null_if_empty p.sort_field) in
    let dir = upper_or_desc (null_if_empty p.direction) in
    let Want = Wanted org_id vals archived term in
    let others = keep (λ o. not (test o)) db.work_orders in
    (
      vals,
      archived,
      f,
      g,
      subst (InOrder collate field dir) same (
          row_order-InOrder collate field dir (sort_by (order_of collate p) found)
            (sort_by-IsSorted (order_of collate p) found (row_order-IsOrder collate field dir h))),
      subst (All Want) same (
          All-sort_by Want (order_of collate p) found (
            keep-All test Want (λ o t. (is_wanted-Wanted org_id vals archived term o).0 t)
              db.work_orders)),
      (
        others,
        subst (λ rs. Perm (rs ++ others) db.work_orders) same
            (Perm.trans (Perm.append_right others (sort_by-Perm (order_of collate p) found))
              (keep-Perm test db.work_orders)),
        keep-All (λ o. not (test o)) (λ o. ¬ Want o)
            (λ o t w.
              let yes = (is_wanted-Wanted org_id vals archived term o).1 w in absurd (ground arith))
            db.work_orders,
      ),
    )

-- What a search pages through: nothing if a filter has a value that cannot be read, else the answers.
abbrev pub OrderedEnd : Comparison Text → ℕ → Payload → Db → Option (List WorkOrderRow) → Type 0
OrderedEnd collate org_id p db none =
    (status_vals p.filter_fields ≡ none) ⊎ (archived_eq p.filter_fields ≡ none)
OrderedEnd collate org_id p db (some rows) = Answers collate org_id p db rows

ordered_fails :
    (collate : Comparison Text) (org_id : ℕ) (p : Payload) (db : Db)
    → ordered collate org_id p db ≡ none
    → (status_vals p.filter_fields ≡ none) ⊎ (archived_eq p.filter_fields ≡ none)
unfolding ordered
ordered_fails collate org_id p db e = elim (Option-cases (status_vals p.filter_fields)) [
  | inl f ↦ inl f
  | inr (vals, f) ↦ elim (Option-cases (archived_eq p.filter_fields)) [
    | inl g ↦ inr g
    | inr (archived, g) ↦ absurd (ground arith)
  ]
]

-- The rows that a search pages through are exactly the work orders of the table, each once, that are
-- of the organisation, have one of the wanted statuses if any are given, are archived or not as is
-- wanted, and hold the wanted term in the title or the description, case aside. If the collation is
-- an order, each stands before another only if its key in the chosen column comes first in the chosen
-- direction, a missing one last, or the keys tie and it is the newer, or as new with an id as great.
-- There are no rows only if a status filter has no values or an archived filter no Boolean.
pub ordered-OrderedEnd :
    (collate : Comparison Text) (org_id : ℕ) (p : Payload) (db : Db)
    → IsOrder collate
    → OrderedEnd collate org_id p db (ordered collate org_id p db)
ordered-OrderedEnd collate org_id p db h = elim (Option-cases (ordered collate org_id p db)) [
  | inl e ↦ subst (OrderedEnd collate org_id p db) (sym e) (ordered_fails collate org_id p db e)
  | inr (rows, e) ↦
      subst (OrderedEnd collate org_id p db) (sym e) (ordered-Answers collate org_id p db rows h e)
]
