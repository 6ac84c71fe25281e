-- ===== src/Db/WorkOrders/Search/Rows.antt =====
-- What the page of a search holds: rows of the organisation, and no more of them than its size.
use mathlib.Core.Path.{subst}
use native.Mathlib.Nat.{le_refl}
use go_cmms.Base.{
  ℕ, zero, suc, ◌+◌, ◌≤◌, ◌≡◌, ◌⊎◌, refl, ap, Bool, true, Option, none, some, List, [], ◌∷◌, map,
  arith, inl, inr, Option-cases,
}
use go_cmms.Base.Int.{ℤ, pos, negsuc, pos_part, neg_part, ◌+ℤ◌, ◌*ℤ◌, +ℤ_parts}
use go_cmms.Base.Lists.{All, keep, length, number_from, and_then_inv}
use go_cmms.Base.Sort.{Comparison, sort_by}
use go_cmms.Base.Sort.Laws.{All-sort_by}
use go_cmms.Text.{Text}
use go_cmms.Db.{Db, WorkOrderRow}
use go_cmms.Db.WorkOrders.{is_uuid}
use go_cmms.Db.WorkOrders.Order.{row_order}
use go_cmms.Db.WorkOrders.Search.{
  Payload, PagedRow, int4, int4_or, page_bounds, in_page, ordered, paged, list_work_orders_paged,
  is_wanted, status_vals, archived_eq, text_cn, lower_or_null, null_if_empty, upper_or_desc,
}

-- The order and the rows of a search.
abbrev pub order_of : Comparison Text → Payload → Comparison WorkOrderRow
order_of collate p =
    row_order collate (lower_or_null (null_if_empty p.sort_field))
      (upper_or_desc (null_if_empty p.direction))

abbrev pub wanted_rows : ℕ → Payload → List Text → Option Bool → Db → List WorkOrderRow
wanted_rows org_id p vals archived db =
    keep (is_wanted org_id vals archived (text_cn p.filter_fields)) db.work_orders

pub ordered-sort_by :
    (collate : Comparison Text) (org_id : ℕ) (p : Payload) (db : Db) (rows : List WorkOrderRow)
    → ordered collate org_id p db ≡ some rows
    → (vals : List Text) × (archived : Option Bool) × (status_vals p.filter_fields ≡ some vals)
      × (archived_eq p.filter_fields ≡ some archived)
      × (sort_by (order_of collate p) (wanted_rows org_id p vals archived db) ≡ rows)
unfolding ordered
ordered-sort_by collate org_id p db rows e = elim (Option-cases (status_vals p.filter_fields)) [
  | inl f ↦ absurd (ground arith)
  | inr (vals, f) ↦ elim (Option-cases (archived_eq p.filter_fields)) [
    | inl g ↦ absurd (ground arith)
    | inr (archived, g) ↦ (vals, archived, f, g, ground arith)
  ]
]

-- At most `b` rows are numbered within the bounds.
length-in_page :
    (off lim : ℤ) (n b : ℕ) (xs : List WorkOrderRow)
    → (pos_part lim + neg_part off ≤ pos_part off + b + neg_part lim)
      ⊎ (pos_part lim ≤ n + b + neg_part lim)
    → length (keep (in_page off lim) (number_from n xs)) ≤ b
length-in_page off lim n b [] h = omega arith
length-in_page off lim n zero (x ∷ xs) h = ground (arith, length-in_page off lim (suc n) zero xs)
length-in_page off lim n (suc b) (x ∷ xs) h =
    ground (arith, length-in_page off lim (suc n) b xs, length-in_page off lim (suc n) (suc b) xs)

abbrev pub IsOf : ℕ → WorkOrderRow → Type 0
IsOf org_id o = is_uuid org_id o.organisation_id ≡ true

keep-IsOf :
    (org_id : ℕ) (vals : List Text) (archived : Option Bool) (term : Option Text)
    (rows : List WorkOrderRow)
    → All (IsOf org_id) (keep (is_wanted org_id vals archived term) rows)
unfolding is_wanted
keep-IsOf org_id vals archived term [] = tt
keep-IsOf org_id vals archived term (o ∷ rows) =
    ground (arith, keep-IsOf org_id vals archived term rows)

-- A row of a page: of the organisation, and with the number of all the rows.
abbrev pub IsIn : ℕ → ℕ → PagedRow → Type 0
IsIn org_id total r = IsOf org_id r.row × (r.total_rows ≡ total)

keep-IsIn :
    (org_id total : ℕ) (off lim : ℤ) (n : ℕ) (rows : List WorkOrderRow)
    → All (IsOf org_id) rows
    → All (IsIn org_id total) (
        map
          (λ r. record { row = r.1; total_rows = total; rn = r.0 })
          (keep (in_page off lim) (number_from n rows)))
keep-IsIn org_id total off lim n [] h = tt
keep-IsIn org_id total off lim n (o ∷ rows) (a, h) =
    ground (arith, keep-IsIn org_id total off lim (suc n) rows h)

-- The size of a page: 50 if the payload has none, and nothing for a negative one.
abbrev pub page_cap : Option ℤ → ℕ
page_cap none = 50
page_cap (some z) = pos_part z

length-map : {A B : Type 0} (f : A → B) (xs : List A) → length (map f xs) ≡ length xs
length-map f [] = refl
length-map f (x ∷ xs) = ap suc (length-map f xs)

-- What a page is: rows of the organisation, no more than its size, each with the number of all the
-- rows that match.
abbrev pub IsPage : Comparison Text → ℕ → Payload → Db → List PagedRow → Type 0
IsPage collate org_id p db rows =
    (found : List WorkOrderRow) × (ordered collate org_id p db ≡ some found)
    × All (IsIn org_id (length found)) rows
    × (length rows ≤ page_cap p.page_size)

int4-same : (z y : ℤ) → int4 z ≡ some y → y ≡ z
unfolding int4
int4-same (pos n) y e = ground arith
int4-same (negsuc n) y e = ground arith

size_cap : (o : Option ℤ) (size : ℤ) → int4_or (pos 50) o ≡ some size → pos_part size ≤ page_cap o
unfolding int4
size_cap none size e = ground arith
size_cap (some z) size e = rw (int4-same z size e) (le_refl (pos_part z))

page_bounds-page_cap :
    (p : Payload) (off lim : ℤ)
    → page_bounds p ≡ some (off, lim)
    → pos_part lim + neg_part off ≤ pos_part off + page_cap p.page_size + neg_part lim
unfolding page_bounds
page_bounds-page_cap p off lim e =
    let (num, e1, f1) = and_then_inv (int4_or (pos 0) p.page_num) _ (off, lim) e in
    let (size, e2, f2) = and_then_inv (int4_or (pos 50) p.page_size) _ (off, lim) f1 in
    let (a, e3, f3) = and_then_inv (int4 (num *ℤ size)) _ (off, lim) f2 in
    let (b, e4, f4) = and_then_inv (int4 (a +ℤ size)) _ (off, lim) f3 in
    grind (arith, size_cap p.page_size size e2, int4-same (a +ℤ size) b e4, +ℤ_parts a size)

abbrev numbered : ℕ → ℕ × WorkOrderRow → PagedRow
numbered total r = record { row = r.1; total_rows = total; rn = r.0 }

paged-IsIn :
    (org_id : ℕ) (off lim : ℤ) (found : List WorkOrderRow)
    → All (IsOf org_id) found
    → All (IsIn org_id (length found)) (paged off lim found)
unfolding paged
paged-IsIn org_id off lim found h = keep-IsIn org_id (length found) off lim 0 found h

paged_short :
    (off lim : ℤ) (b : ℕ) (found : List WorkOrderRow)
    → pos_part lim + neg_part off ≤ pos_part off + b + neg_part lim
    → length (paged off lim found) ≤ b
unfolding paged
paged_short off lim b found h =
    rw (length-map (numbered (length found)) (keep (in_page off lim) (number_from 0 found)))
      (length-in_page off lim 0 b found (inl h))

pub list_work_orders_paged-IsPage :
    (collate : Comparison Text) (org_id : ℕ) (p : Payload) (db : Db) (rows : List PagedRow)
    → list_work_orders_paged collate org_id p db ≡ some rows
    → IsPage collate org_id p db rows
unfolding list_work_orders_paged
list_work_orders_paged-IsPage collate org_id p db rows e =
    elim (Option-cases (ordered collate org_id p db)) [
      | inl f ↦ absurd (ground arith)
      | inr (found, f) ↦ elim (Option-cases (page_bounds p)) [
        | inl g ↦ absurd (ground arith)
        | inr ((off, lim), g) ↦
            let same : paged off lim found ≡ rows = ground arith in
            subst (IsPage collate org_id p db) same (
              found,
              f,
              paged-IsIn org_id off lim found (found_in found f),
              paged_short off lim (page_cap p.page_size) found (page_bounds-page_cap p off lim g),
            )
      ]
    ]
  where
    found_in :
        (found : List WorkOrderRow)
        → ordered collate org_id p db ≡ some found
        → All (IsOf org_id) found
    found_in found f =
        let (vals, archived, v, a, same) = ordered-sort_by collate org_id p db found f in
        subst (All (IsOf org_id)) same (
          All-sort_by (IsOf org_id) (order_of collate p) (wanted_rows org_id p vals archived db)
            (keep-IsOf org_id vals archived (text_cn p.filter_fields) db.work_orders))
