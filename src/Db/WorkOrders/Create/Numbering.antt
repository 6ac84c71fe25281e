-- ===== src/Db/WorkOrders/Create/Numbering.antt =====
-- The numbering of work orders finds a free number in its attempts.
use mathlib.Core.Path.{subst}
use go_cmms.Db.Orgs.{find_org_by_id}
use go_cmms.Db.Users.{get_user_by_id}
use go_cmms.Base.{
  ℕ, zero, suc, ◌+◌, ◌^◌, ◌<◌, ◌≡◌, ◌⊎◌, refl, sym, true, false, Option, none, some, List, [], ◌∷◌,
  arith, inl, inr, Bool-cases, Option-cases, is_some,
}
use go_cmms.Base.Lists.{any, find, update}
use go_cmms.Db.{Db, WorkOrderRow, CounterRow}
use go_cmms.Db.WorkOrders.{stored_description}
use go_cmms.Db.WorkOrders.Create.{
  inserted, unique_violation, is_counter, next_number, insert_work_order, insert_numbered,
  custom_id_of, references_ok,
}
use go_cmms.Db.WorkOrders.Create.Laws.{stored_row, is_clash, numbered_row}

abbrev value_of : Option CounterRow → ℕ
value_of none = 1
value_of (some c) = c.next_seq

-- The next number of an organisation in a year.
abbrev pub number_due : ℕ → ℕ → Db → ℕ
number_due org year db = value_of (find (is_counter org year) db.counters)

-- The database with the counters as they are after a number has been taken.
unfoldable pub Bumped : ℕ → ℕ → Db → Db → Type 0
Bumped org year db db1 =
    (db1 ≡ record db { counters = db1.counters })
    × (number_due org year db1 ≡ suc (number_due org year db))

find-update_counter :
    (org year : ℕ) (cs : List CounterRow) (c : CounterRow)
    → find (is_counter org year) cs ≡ some c
    → value_of (
        find
          (is_counter org year)
          (update (is_counter org year) (λ k. record k { next_seq = k.next_seq + 1 }) cs))
      ≡ suc c.next_seq
find-update_counter org year [] c e = cc
find-update_counter org year (d ∷ cs) c e = ground (arith, find-update_counter org year cs c)

-- A number in the range of the counter can be taken.
pub next_number-Bumped :
    (org year : ℕ) (db : Db)
    → number_due org year db + 1 < 2 ^ 31
    → (db1 : Db) × (next_number org year db ≡ some (number_due org year db, db1))
      × Bumped org year db db1
unfolding next_number Bumped
next_number-Bumped org year db h = elim (Option-cases (find (is_counter org year) db.counters)) [
  | inl e ↦ (
    record db {
      counters = record { organisation_id = org; year = year; next_seq = 2 } ∷ db.counters;
    },
    ground arith,
    (refl, ground arith),
  )
  | inr (c, e) ↦ (
    record db {
      counters =
          update (is_counter org year) (λ k. record k { next_seq = k.next_seq + 1 }) db.counters;
    },
    ground arith,
    (refl, ground (arith, find-update_counter org year db.counters c)),
  )
]

-- No work order has the row's id, or its custom id in its organisation.
abbrev pub IsFree : WorkOrderRow → Db → Type 0
IsFree o db = any (is_clash o) db.work_orders ≡ false

-- The description can be stored.
abbrev pub IsFitting : WorkOrderRow → Type 0
IsFitting o = is_some (stored_description o.description) ≡ true

insert_free :
    (o : WorkOrderRow) (db : Db)
    → IsFitting o
    → IsFree o db
    → references_ok o db ≡ true
    → (db1 : Db) × (insert_work_order o db ≡ inserted db1)
unfolding insert_work_order
insert_free o db fits free ok = elim (Option-cases (stored_description o.description)) [
  | inl e ↦ absurd (ground arith)
  | inr (description, e) ↦
      (record db { work_orders = stored_row o description ∷ db.work_orders }, ground arith)
]

insert_known :
    (o : WorkOrderRow) (db : Db)
    → IsFitting o
    → references_ok o db ≡ true
    → ((db1 : Db) × (insert_work_order o db ≡ inserted db1))
      ⊎ (insert_work_order o db ≡ unique_violation)
unfolding insert_work_order
insert_known o db fits ok = elim (Bool-cases (any (is_clash o) db.work_orders)) [
  | inl e ↦ inr (elim (Option-cases (stored_description o.description)) [
    | inl f ↦ absurd (ground arith)
    | inr (description, f) ↦ ground arith
  ])
  | inr e ↦ inl (insert_free o db fits e ok)
]

references_ok-Bumped :
    (org year : ℕ) (o : WorkOrderRow) (db db1 : Db)
    → Bumped org year db db1
    → references_ok o db ≡ true
    → references_ok o db1 ≡ true
unfolding Bumped find_org_by_id get_user_by_id
references_ok-Bumped org year o db db1 (e, f) ok = subst (λ d. references_ok o d ≡ true) (sym e) ok

IsFree-Bumped :
    (org year : ℕ) (o : WorkOrderRow) (db db1 : Db)
    → Bumped org year db db1
    → IsFree o db
    → IsFree o db1
unfolding Bumped
IsFree-Bumped org year o db db1 (e, f) free = subst (IsFree o) (sym e) free

pub number_due-Bumped :
    (org year : ℕ) (db db1 : Db)
    → Bumped org year db db1
    → number_due org year db1 ≡ suc (number_due org year db)
unfolding Bumped
number_due-Bumped org year db db1 b = b.1

-- The numbering of a row, with a description that fits its column and all its references to rows that
-- are there, succeeds if one of the numbers that it tries is free: the one that is `k` after the next,
-- when more than `k` attempts are left and the counter stays below 2³¹.
pub insert_numbered-IsFree :
    (k m left : ℕ) (ids : ℕ → ℕ) (o : WorkOrderRow) (org year : ℕ) (db : Db)
    → left ≡ k + m
    → number_due org year db + k + 1 < 2 ^ 31
    → IsFitting o
    → references_ok o db ≡ true
    → IsFree (numbered_row o (ids m) (custom_id_of year (number_due org year db + k))) db
    → is_some (insert_numbered (suc left) ids o org year db) ≡ true
unfolding insert_numbered
insert_numbered-IsFree zero m left ids o org year db e h fits ok free =
    let (db1, taken, bumped) = next_number-Bumped org year db (omega arith) in
    let row = numbered_row o (ids left) (custom_id_of year (number_due org year db)) in
    let here : IsFree row db1 = IsFree-Bumped org year row db db1 bumped (moved free) in
    let (db2, done) =
      insert_free row db1 fits here (references_ok-Bumped org year row db db1 bumped ok) in
    ground (arith, taken, done)
  where
    moved :
        IsFree (numbered_row o (ids m) (custom_id_of year (number_due org year db + 0))) db
        → IsFree (numbered_row o (ids left) (custom_id_of year (number_due org year db))) db
    moved f =
        let e1 : m ≡ left = omega arith in
        let e2 : number_due org year db + 0 ≡ number_due org year db = omega arith in
        subst (λ i. IsFree (numbered_row o (ids i) (custom_id_of year (number_due org year db))) db)
          e1 (subst (λ n. IsFree (numbered_row o (ids m) (custom_id_of year n)) db) e2 f)
insert_numbered-IsFree (suc k) m zero ids o org year db e h fits ok free = absurd (omega arith)
insert_numbered-IsFree (suc k) m (suc left) ids o org year db e h fits ok free =
    let (db1, taken, bumped) = next_number-Bumped org year db (omega arith) in
    let row = numbered_row o (ids (suc left)) (custom_id_of year (number_due org year db)) in
    let next = number_due-Bumped org year db db1 bumped in
    let later = numbered_row o (ids m) (custom_id_of year (number_due org year db1 + k)) in
    let same : number_due org year db + suc k ≡ number_due org year db1 + k = omega (arith, next) in
    let moved : IsFree later db =
      subst (λ n. IsFree (numbered_row o (ids m) (custom_id_of year n)) db) same free in
    let rest =
      insert_numbered-IsFree k m left ids o org year db1 (omega arith) (omega (arith, next)) fits
        (references_ok-Bumped org year o db db1 bumped ok)
        (IsFree-Bumped org year later db db1 bumped moved) in
    elim (insert_known row db1 fits (references_ok-Bumped org year row db db1 bumped ok)) [
      | inl (db2, k1) ↦ ground (arith, taken, k1)
      | inr k1 ↦ ground (arith, taken, k1, rest)
    ]
