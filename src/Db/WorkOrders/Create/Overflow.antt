-- ===== src/Db/WorkOrders/Create/Overflow.antt =====
-- The numbering of work orders is stuck once a year's counter has five digits.
use mathlib.Core.Path.{subst}
use go_cmms.Db.Orgs.{is_text}
use go_cmms.Base.{
  ◌⊎◌, ℕ, zero, suc, ◌+◌, ◌≤◌, ◌<◌, ◌≡◌, refl, sym, ap, ◌∙◌, true, ◌&&◌, none, some, List, [], ◌∷◌,
  arith, inl, inr, Option-cases,
}
use go_cmms.Base.Lists.{any}
use go_cmms.Text.{Text, codes}
use go_cmms.Db.{Db, WorkOrderRow}
use go_cmms.Db.WorkOrders.{stored_description}
use go_cmms.Db.WorkOrders.Create.{
  refused, insert_order, create_work_order_from_json, unique_violation, insert_work_order,
  insert_numbered, custom_id_of, lpad,
}
use go_cmms.Phc.{print_d, digits}
use go_cmms.Db.WorkOrders.Create.Laws.{is_clash, numbered_row, row_of-IsNew}
use go_cmms.Db.WorkOrders.Create.Payload.{Casts, JsonObject, given_id, row_of}
use go_cmms.Db.WorkOrders.{is_uuid}
use go_cmms.Models.{Time}
use go_cmms.Db.WorkOrders.Create.Numbering.{
  number_due, Bumped, next_number-Bumped, number_due-Bumped,
}

-- The organisation has a work order with the number.
abbrev pub HasNumber : ℕ → Text → Db → Type 0
HasNumber org number db =
    any (λ r. is_text (some number) r.custom_id && is_uuid org r.organisation_id) db.work_orders
    ≡ true

cut_number : (j : ℕ) → j < 10 → lpad 4 (print_d (10000 + j)) ≡ codes "1000"
unfolding print_d digits
cut_number zero h = refl
cut_number (suc zero) h = refl
cut_number (suc (suc zero)) h = refl
cut_number (suc (suc (suc zero))) h = refl
cut_number (suc (suc (suc (suc zero)))) h = refl
cut_number (suc (suc (suc (suc (suc zero))))) h = refl
cut_number (suc (suc (suc (suc (suc (suc zero)))))) h = refl
cut_number (suc (suc (suc (suc (suc (suc (suc zero))))))) h = refl
cut_number (suc (suc (suc (suc (suc (suc (suc (suc zero)))))))) h = refl
cut_number (suc (suc (suc (suc (suc (suc (suc (suc (suc zero))))))))) h = refl
cut_number (suc (suc (suc (suc (suc (suc (suc (suc (suc (suc j)))))))))) h = absurd (omega arith)

cut_number_1000 : lpad 4 (print_d 1000) ≡ codes "1000"
unfolding print_d digits
cut_number_1000 = refl

-- The five digits of 10000 to 10009 are cut to those of 1000.
custom_id_cut : (year j : ℕ) → j < 10 → custom_id_of year (10000 + j) ≡ custom_id_of year 1000
unfolding custom_id_of
custom_id_cut year j h = rw (cut_number j h, cut_number_1000) refl

HasNumber-clash :
    (o : WorkOrderRow) (org id : ℕ) (number : Text) (rs : List WorkOrderRow)
    → o.organisation_id ≡ some org
    → any (λ r. is_text (some number) r.custom_id && is_uuid org r.organisation_id) rs ≡ true
    → any (is_clash (numbered_row o id number)) rs ≡ true
HasNumber-clash o org id number [] e h = cc
HasNumber-clash o org id number (r ∷ rs) e h = ground (arith, HasNumber-clash o org id number rs e)

insert_clash :
    (o : WorkOrderRow) (db : Db)
    → any (is_clash o) db.work_orders ≡ true
    → (insert_work_order o db ≡ unique_violation) ⊎ (insert_work_order o db ≡ refused)
unfolding insert_work_order
insert_clash o db h = elim (Option-cases (stored_description o.description)) [
  | inl e ↦ inr (ground arith)
  | inr (description, e) ↦ inl (ground arith)
]

HasNumber-Bumped :
    (org year : ℕ) (number : Text) (db db1 : Db)
    → Bumped org year db db1
    → HasNumber org number db
    → HasNumber org number db1
unfolding Bumped
HasNumber-Bumped org year number db db1 (e, f) h = subst (HasNumber org number) (sym e) h

insert_numbered_stuck :
    (n j : ℕ) (ids : ℕ → ℕ) (o : WorkOrderRow) (org year : ℕ) (db : Db)
    → n + j ≤ 10
    → number_due org year db ≡ 10000 + j
    → o.organisation_id ≡ some org
    → HasNumber org (custom_id_of year 1000) db
    → insert_numbered n ids o org year db ≡ none
unfolding insert_numbered
insert_numbered_stuck zero j ids o org year db l d e h = refl
insert_numbered_stuck (suc n) j ids o org year db l d e h =
    let (db1, taken, bumped) = next_number-Bumped org year db (omega (arith, d)) in
    let kept = HasNumber-Bumped org year (custom_id_of year 1000) db db1 bumped h in
    let next = number_due-Bumped org year db db1 bumped in
    let cut : custom_id_of year (number_due org year db) ≡ custom_id_of year 1000 =
      ap (custom_id_of year) d ∙ custom_id_cut year j (omega arith) in
    let clash =
      insert_clash (numbered_row o (ids n) (custom_id_of year (number_due org year db))) db1 (
        HasNumber-clash o org (ids n) (custom_id_of year (number_due org year db)) db1.work_orders e
          (subst (λ t. HasNumber org t db1) (sym cut) kept)) in
    let rest =
      insert_numbered_stuck n (suc j) ids o org year db1 (omega arith) (omega (arith, next, d)) e
        kept in
    elim clash [ inl k ↦ ground (arith, taken, k, rest) | inr k ↦ ground (arith, taken, k) ]

-- Once the next number of an organisation and year is 10000, and its number 1000 is still there, no work
-- order can be created without a custom id of the client: the ten numbers that are tried are cut to
-- that one, and the failure leaves the counter where it was.
pub create_work_order_from_json_stuck :
    (x : Casts) (ids : ℕ → ℕ) (now : Time) (org user : ℕ) (p : JsonObject) (db : Db)
    → given_id p ≡ none
    → number_due org (x.year now) db ≡ 10000
    → HasNumber org (custom_id_of (x.year now) 1000) db
    → create_work_order_from_json x ids now org user p db ≡ none
unfolding create_work_order_from_json insert_order
create_work_order_from_json_stuck x ids now org user p db g d h =
    elim (Option-cases (row_of x p 0 org user now)) [
      | inl f ↦ ground arith
      | inr (o, f) ↦
          let new = row_of-IsNew x p 0 org user now o f in
          let stuck =
            insert_numbered_stuck 10 0 ids o org (x.year now) db (omega arith) d new.0 h in
          rw (f, g, stuck) refl
    ]
