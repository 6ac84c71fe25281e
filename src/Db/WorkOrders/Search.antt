-- ===== src/Db/WorkOrders/Search.antt =====
-- `listWorkOrdersPaged` of internal/db/gen/work_orders.sql.go: the filters, the order and the page of
-- a JSON payload. An error of a cast is `none`; the bounds of the page are computed whether or not a
-- row matches.
pub mod Laws
pub mod Rows
pub mod Wanted
pub mod Sorted
pub mod Answers
use go_cmms.Base.{
  ℕ, ◌+◌, ◌^◌, Bool, true, false, ◌&&◌, ◌||◌, not, Option, none, some, List, [], ◌∷◌, ◌++◌, map,
  ltb, if◌then◌else◌,
}
use go_cmms.Base.Int.{ℤ, pos, negsuc, ◌+ℤ◌, ◌*ℤ◌, ltb_ℤ}
use go_cmms.Base.Lists.{any, keep, length, number_from, and_then}
use go_cmms.Base.Sort.{Comparison, sort_by}
use go_cmms.Text.{Text, codes, is_empty, text_eq, to_lower, to_upper, trim, trim_space}
use go_cmms.Db.{Db, WorkOrderRow}
use go_cmms.Db.Orgs.{member_of}
use go_cmms.Db.Like.{ilike, search_pattern}
use go_cmms.Db.WorkOrders.{is_uuid}
use go_cmms.Db.WorkOrders.Order.{row_order}

-- An element of `filterFields`, as `f->>'field'` and the like read it; `values` is `none` for the
-- JSON null.
pub record FilterField : Type 0 where
  pub field : Text
  pub operation : Text
  pub value : Option Text
  pub values : Option (List Text)

-- A payload; a missing key is `none`, or the empty list of filters.
pub record Payload : Type 0 where
  pub page_num : Option ℤ
  pub page_size : Option ℤ
  pub filter_fields : List FilterField
  pub sort_field : Option Text
  pub direction : Option Text

pub record PagedRow : Type 0 where
  pub row : WorkOrderRow
  pub total_rows : ℕ
  pub rn : ℕ

-- `(…)::int`, and the result of an operation on integers of 4 bytes.
unfoldable pub int4 : ℤ → Option ℤ
int4 (pos n) = if ltb n (2 ^ 31) then some (pos n) else none
int4 (negsuc n) = if ltb n (2 ^ 31) then some (negsuc n) else none

abbrev pub int4_or : ℤ → Option ℤ → Option ℤ
int4_or default none = some default
int4_or default (some z) = int4 z

-- `COALESCE((p->>'pageNum')::int, 0)` and `COALESCE((p->>'pageSize')::int, 50)`, then the bounds.
unfoldable pub page_bounds : Payload → Option (ℤ × ℤ)
unfolding int4
page_bounds p = and_then (int4_or (pos 0) p.page_num) λ num.
    and_then (int4_or (pos 50) p.page_size) λ size.
      and_then (int4 (num *ℤ size)) λ off. and_then (int4 (off +ℤ size)) λ lim. some (off, lim)

abbrev pub is_status_filter : FilterField → Bool
is_status_filter f = text_eq f.field (codes "status") && text_eq f.operation (codes "in")

-- `status_vals`: `jsonb_array_elements_text` refuses a null.
unfoldable pub status_vals : List FilterField → Option (List Text)
status_vals [] = some []
status_vals (f ∷ fs) =
    let rest = status_vals fs in
    if is_status_filter f
    then and_then f.values (λ vals. and_then rest (λ more. some (vals ++ more)))
    else rest

-- `::boolean`
unfoldable pub to_boolean : Text → Option Bool
to_boolean value =
    let t = to_lower (trim_space value) in
    if any (text_eq t) (
      codes "t"
      ∷ codes "tr"
      ∷ codes "tru"
      ∷ codes "true"
      ∷ codes "y"
      ∷ codes "ye"
      ∷ codes "yes"
      ∷ codes "on"
      ∷ codes "1"
      ∷ [])
    then some true
    else if any (text_eq t) (
        codes "f"
        ∷ codes "fa"
        ∷ codes "fal"
        ∷ codes "fals"
        ∷ codes "false"
        ∷ codes "n"
        ∷ codes "no"
        ∷ codes "of"
        ∷ codes "off"
        ∷ codes "0"
        ∷ [])
    then some false
    else none

abbrev pub to_boolean_or_null : Option Text → Option (Option Bool)
to_boolean_or_null none = some none
to_boolean_or_null (some t) = and_then (to_boolean t) (λ b. some (some b))

-- `archived_eq`: the first filter on `archived`.
unfoldable pub archived_eq : List FilterField → Option (Option Bool)
unfolding to_boolean
archived_eq [] = some none
archived_eq (f ∷ fs) =
    let rest = archived_eq fs in
    if text_eq f.field (codes "archived")
      && member_of f.operation (codes "eq" ∷ codes "equals" ∷ [])
    then to_boolean_or_null f.value
    else rest

-- `NULLIF(btrim(…), '')`
abbrev pub term_of : Option Text → Option Text
term_of none = none
term_of (some t) = let term = trim 32 t in if is_empty term then none else some term

-- `text_cn`: the first filter on `text`.
unfoldable pub text_cn : List FilterField → Option Text
text_cn [] = none
text_cn (f ∷ fs) =
    let rest = text_cn fs in
    if text_eq f.field (codes "text")
      && member_of f.operation (codes "cn" ∷ codes "contains" ∷ codes "like" ∷ [])
    then term_of f.value
    else rest

-- `sv.vals = '{}' OR w.status = ANY (sv.vals)`
abbrev pub status_ok : List Text → Text → Bool
status_ok [] status = true
status_ok (v ∷ vals) status = member_of status (v ∷ vals)

abbrev pub archived_ok : Option Bool → Bool → Bool
archived_ok none archived = true
archived_ok (some true) archived = archived
archived_ok (some false) archived = not archived

-- `ILIKE` on a nullable column, where NULL is not true.
abbrev pub ilike_column : Option Text → Text → Bool
ilike_column none p = false
ilike_column (some s) p = ilike s p

unfoldable pub text_ok : Option Text → WorkOrderRow → Bool
text_ok none o = true
text_ok (some term) o =
    ilike o.title (search_pattern term) || ilike_column o.description (search_pattern term)

-- The `WHERE` of `filtered`.
unfoldable pub is_wanted : ℕ → List Text → Option Bool → Option Text → WorkOrderRow → Bool
unfolding text_ok
is_wanted org_id vals archived term o =
    is_uuid org_id o.organisation_id
    && status_ok vals o.status
    && archived_ok archived o.archived
    && text_ok term o

-- `NULLIF(…, '')`
abbrev pub null_if_empty : Option Text → Option Text
null_if_empty none = none
null_if_empty (some t) = if is_empty t then none else some t

abbrev pub lower_or_null : Option Text → Option Text
lower_or_null none = none
lower_or_null (some t) = some (to_lower t)

abbrev pub upper_or_desc : Option Text → Text
upper_or_desc none = codes "DESC"
upper_or_desc (some t) = to_upper t

abbrev pub in_page : ℤ → ℤ → ℕ × WorkOrderRow → Bool
in_page off lim (rn, o) = ltb_ℤ off (pos rn) && not (ltb_ℤ lim (pos rn))

-- The rows of the page, each with the number of all the rows that match.
unfoldable pub paged : ℤ → ℤ → List WorkOrderRow → List PagedRow
paged off lim rows =
    map (λ r. record { row = r.1; total_rows = length rows; rn = r.0 })
      (keep (in_page off lim) (number_from 0 rows))

module _ (collate : Comparison Text) where
  -- `filtered`, in the order of `rn`; `none` if a cast fails.
  unfoldable pub ordered : ℕ → Payload → Db → Option (List WorkOrderRow)
  unfolding status_vals archived_eq text_cn is_wanted row_order
  ordered org_id p db = and_then (status_vals p.filter_fields) λ vals.
      and_then (archived_eq p.filter_fields) λ archived. some (
        sort_by
          (row_order collate (lower_or_null (null_if_empty p.sort_field))
            (upper_or_desc (null_if_empty p.direction)))
          (keep (is_wanted org_id vals archived (text_cn p.filter_fields)) db.work_orders))

  unfoldable pub list_work_orders_paged : ℕ → Payload → Db → Option (List PagedRow)
  unfolding ordered paged page_bounds
  list_work_orders_paged org_id p db =
      and_then (ordered org_id p db)
        λ rows. and_then (page_bounds p) λ bounds. some (paged bounds.0 bounds.1 rows)
