-- ===== src/Db/WorkOrders/Search/Laws.antt =====
-- The pages of a search against the list of the work orders that match, in order.
use go_cmms.Base.{
  ◌&&◌, leb, inl, inr, Bool-cases, Option-cases, ℕ, zero, suc, ◌+◌, ◌-◌, ◌*◌, ◌^◌, ◌≤◌, ◌<◌, ◌≡◌,
  refl, sym, ap, ◌∙◌, Bool, true, false, Option, none, some, List, [], ◌∷◌, ◌++◌, map, arith,
  if◌then◌else◌, ltb,
}
use go_cmms.Base.Int.{pos, ◌+ℤ◌, ◌*ℤ◌}
use go_cmms.Base.Lists.{keep, length, take, drop, number_from}
use go_cmms.Base.Sort.{Comparison}
use go_cmms.Text.{Text}
use go_cmms.Db.{Db, WorkOrderRow}
use go_cmms.Db.WorkOrders.Search.{
  Payload, PagedRow, int4, page_bounds, in_page, ordered, paged, list_work_orders_paged,
}

abbrev rows_of : List PagedRow → List WorkOrderRow
rows_of rows = map (λ r. r.row) rows

abbrev numbered_page : ℕ → ℕ → List (ℕ × WorkOrderRow) → List WorkOrderRow
numbered_page off lim [] = []
numbered_page off lim (r ∷ rs) =
    let rest = numbered_page off lim rs in
    if in_page (pos off) (pos lim) r then r.1 ∷ rest else rest

in_page_iff :
    (off lim n : ℕ) (x : WorkOrderRow)
    → in_page (pos off) (pos lim) (suc n, x) ≡ (leb off n && ltb n lim)
in_page_iff off lim n x = ground arith

numbered_page-number :
    (off lim n : ℕ) (x : WorkOrderRow) (xs : List WorkOrderRow) (b : Bool)
    → (leb off n && ltb n lim) ≡ b
    → numbered_page off lim (number_from n (x ∷ xs))
      ≡ (let rest = numbered_page off lim (number_from (suc n) xs) in if b then x ∷ rest else rest)
numbered_page-number off lim n x xs b e = rw (in_page_iff off lim n x, e) refl

take_nil : (n : ℕ) → take {A = WorkOrderRow} n [] ≡ []
take_nil zero = refl
take_nil (suc n) = refl

-- Past the offset, the page takes what is left of it.
page_after :
    (off lim n : ℕ) (xs : List WorkOrderRow)
    → off ≤ n
    → numbered_page off lim (number_from n xs) ≡ take (lim - n) xs
page_after off lim n [] h = sym (take_nil (lim - n))
page_after off lim n (x ∷ xs) h = elim (Bool-cases (ltb n lim)) [
  | inl e ↦
      rw
        (
          numbered_page-number off lim n x xs true (ground arith),
          page_after off lim (suc n) xs (omega arith),
          left e,
        )
        refl
  | inr e ↦
      rw
        (
          numbered_page-number off lim n x xs false (ground arith),
          page_after off lim (suc n) xs (omega arith),
          none_left e,
          none_left_next e,
        )
        refl
]
  where
    left : ltb n lim ≡ true → lim - n ≡ suc (lim - suc n)
    left e = ground arith

    none_left : ltb n lim ≡ false → lim - n ≡ 0
    none_left e = ground arith

    none_left_next : ltb n lim ≡ false → lim - suc n ≡ 0
    none_left_next e = ground arith

page_before :
    (d off lim n : ℕ) (xs : List WorkOrderRow)
    → off ≡ n + d
    → numbered_page off lim (number_from n xs) ≡ take (lim - off) (drop d xs)
page_before zero off lim n xs e = rw (same e) (page_after n lim n xs (omega arith))
  where
    same : off ≡ n + 0 → off ≡ n
    same e = omega arith
page_before (suc d) off lim n [] e = sym (take_nil (lim - off))
page_before (suc d) off lim n (x ∷ xs) e =
    numbered_page-number off lim n x xs false (ground arith)
    ∙ page_before d off lim (suc n) xs (omega arith)

rows_of-keep :
    (off lim total : ℕ) (rs : List (ℕ × WorkOrderRow))
    → rows_of (
        map
          (λ r. record { row = r.1; total_rows = total; rn = r.0 })
          (keep (in_page (pos off) (pos lim)) rs))
      ≡ numbered_page off lim rs
rows_of-keep off lim total [] = refl
rows_of-keep off lim total (r ∷ rs) = ground (arith, rows_of-keep off lim total rs)

take-drop :
    (m s t : ℕ) (xs : List WorkOrderRow) → t ≡ m + s → take m xs ++ take s (drop m xs) ≡ take t xs
take-drop zero s t xs e = ap (λ n. take n xs) (same e)
  where
    same : t ≡ 0 + s → s ≡ t
    same e = omega arith
take-drop (suc m) s t [] e = take_nil s ∙ sym (take_nil t)
take-drop (suc m) s zero (x ∷ xs) e = absurd (omega arith)
take-drop (suc m) s (suc t) (x ∷ xs) e = ap (λ ys. x ∷ ys) (take-drop m s t xs (omega arith))

-- The page from an offset on, of a size.
pub paged-take :
    (off size lim : ℕ) (xs : List WorkOrderRow)
    → lim ≡ off + size
    → rows_of (paged (pos off) (pos lim) xs) ≡ take size (drop off xs)
unfolding paged
paged-take off size lim xs e =
    rows_of-keep off lim (length xs) (number_from 0 xs)
    ∙ page_before off off lim 0 xs (omega arith)
    ∙ ap (λ n. take n (drop off xs)) (rest e)
  where
    rest : lim ≡ off + size → lim - off ≡ size
    rest e = omega arith

-- The payload for one page of a size.
abbrev pub page_payload : Payload → ℕ → ℕ → Payload
page_payload p num size = record p { page_num = some (pos num); page_size = some (pos size) }

-- The rows that a search returns, none if it fails.
abbrev pub content : Option (List PagedRow) → List WorkOrderRow
content none = []
content (some rows) = rows_of rows

page_bounds-page_payload :
    (p : Payload) (num size : ℕ)
    → num < 2 ^ 31
    → size < 2 ^ 31
    → num * size + size < 2 ^ 31
    → page_bounds (page_payload p num size) ≡ some (pos (num * size), pos (num * size + size))
unfolding page_bounds int4 ◌*ℤ◌ ◌+ℤ◌
page_bounds-page_payload p num size hn hs h = ground arith

module _ (collate : Comparison Text) (org_id : ℕ) (p : Payload) (db : Db) (size : ℕ) where
  -- The first pages of a search, one after the other.
  abbrev pub pages : ℕ → List WorkOrderRow
  pages zero = []
  pages (suc n) =
      let before = pages n in
      before ++ content (list_work_orders_paged collate org_id (page_payload p n size) db)

  page_of_ordered :
      (n : ℕ) (rows : List WorkOrderRow)
      → ordered collate org_id p db ≡ some rows
      → n < 2 ^ 31
      → size < 2 ^ 31
      → n * size + size < 2 ^ 31
      → content (list_work_orders_paged collate org_id (page_payload p n size) db)
        ≡ take size (drop (n * size) rows)
  unfolding list_work_orders_paged ordered
  page_of_ordered n rows e hn hs h =
      rw (e, page_bounds-page_payload p n size hn hs h)
        (paged-take (n * size) size (n * size + size) rows refl)

  ordered-none :
      (n : ℕ)
      → ordered collate org_id p db ≡ none
      → content (list_work_orders_paged collate org_id (page_payload p n size) db) ≡ []
  unfolding list_work_orders_paged ordered
  ordered-none n e = rw e refl

  pages_of_rows :
      (n : ℕ) (rows : List WorkOrderRow)
      → ordered collate org_id p db ≡ some rows
      → n < 2 ^ 31
      → size < 2 ^ 31
      → n * size < 2 ^ 31
      → pages n ≡ take (n * size) rows
  pages_of_rows zero rows e hn hs h =
      let none_yet : 0 ≡ 0 * size = omega arith in ap (λ n. take n rows) none_yet
  pages_of_rows (suc n) rows e hn hs h =
      rw
        (
          pages_of_rows n rows e (omega arith) hs (omega arith),
          page_of_ordered n rows e (omega arith) hs (omega arith),
        )
        (take-drop (n * size) size (suc n * size) rows (omega arith))

  pages-none : (n : ℕ) → ordered collate org_id p db ≡ none → pages n ≡ []
  pages-none zero e = refl
  pages-none (suc n) e = rw (pages-none n e, ordered-none n e) refl

-- The rows that a search pages through, none if it fails.
abbrev pub listed : Option (List WorkOrderRow) → List WorkOrderRow
listed none = []
listed (some rows) = rows

-- The first `n` pages of a search, one after the other, hold the first `n * size` of its ordered rows,
-- each in its place and only there, as long as the numbers fit in 4 bytes.
pub pages-take :
    (collate : Comparison Text) (org_id : ℕ) (p : Payload) (db : Db) (size n : ℕ)
    → n < 2 ^ 31
    → size < 2 ^ 31
    → n * size < 2 ^ 31
    → pages collate org_id p db size n ≡ take (n * size) (listed (ordered collate org_id p db))
pages-take collate org_id p db size n hn hs h = elim (Option-cases (ordered collate org_id p db)) [
  | inl e ↦
      pages-none collate org_id p db size n e
      ∙ sym (take_nil (n * size))
      ∙ ap (λ o. take (n * size) (listed o)) (sym e)
  | inr (rows, e) ↦
      pages_of_rows collate org_id p db size n rows e hn hs h
      ∙ ap (λ o. take (n * size) (listed o)) (sym e)
]
