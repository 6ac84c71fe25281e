-- ===== src/Db/WorkOrders/Invariant.antt =====
-- The statements that write work orders, in any sequence, keep their ids and numbers unique.
use mathlib.Core.Path.{subst}
use go_cmms.Base.{
  ℕ, ◌≡◌, refl, sym, ap, ◌∙◌, ◌||◌, ◌&&◌, Bool, true, false, Option, none, some, List, [], ◌∷◌,
  arith, inl, inr, Option-cases, Bool-cases, not, ◌==◌,
}
use go_cmms.Base.Lists.{All, any, find, keep, update}
use go_cmms.Text.{Text}
use go_cmms.Models.{Time}
use go_cmms.Db.{Db, WorkOrderRow}
use go_cmms.Db.Orgs.{is_text}
use go_cmms.Db.WorkOrders.{
  is_uuid, is_order_of, with_status, change_work_order_status, delete_work_order_by_id,
}
use go_cmms.Db.WorkOrders.Apart.{AreApart, IsNumbered-AreApart}
use go_cmms.Db.WorkOrders.Create.{create_work_order_from_json}
use go_cmms.Db.WorkOrders.Create.Laws.{
  is_clash, IsNumbered, KeepsNumbers, create_work_order_from_json-KeepsNumbers,
}
use go_cmms.Db.WorkOrders.Create.Payload.{Casts, JsonObject}
use go_cmms.Db.WorkOrders.Patch.{update_work_order_from_json}
use go_cmms.Db.WorkOrders.Patch.Laws.{update_work_order_from_json-Updated}

-- A statement, with its arguments.
pub data Statement : Type 0 where
  creates : (ℕ → ℕ) → Time → ℕ → ℕ → JsonObject → Statement
  patches : JsonObject → ℕ → ℕ → Time → Statement
  changes_status : Text → ℕ → ℕ → Time → Statement
  deletes : ℕ → ℕ → Statement

-- A statement that fails changes nothing.
abbrev pub or_same : Db → Option (ℕ × Db) → Db
or_same db none = db
or_same db (some (id, db')) = db'

unfoldable pub execute : Casts → Statement → Db → Db
unfolding create_work_order_from_json update_work_order_from_json change_work_order_status
    delete_work_order_by_id
execute x (creates ids now org user p) db =
    or_same db (create_work_order_from_json x ids now org user p db)
execute x (patches p org id now) db = or_same db (update_work_order_from_json x p org id now db)
execute x (changes_status status id org now) db = change_work_order_status status id org now db
execute x (deletes org id) db = delete_work_order_by_id org id db

unfoldable pub execute_all : Casts → List Statement → Db → Db
unfolding execute
execute_all x [] db = db
execute_all x (s ∷ ss) db = execute_all x ss (execute x s db)

-- The columns of the unique indexes are the same.
abbrev SameKey : WorkOrderRow → WorkOrderRow → Type 0
SameKey q r = (r.id ≡ q.id) × (r.organisation_id ≡ q.organisation_id) × (r.custom_id ≡ q.custom_id)

abbrev is_key_clash : ℕ × Option ℕ × Option Text → ℕ × Option ℕ × Option Text → Bool
is_key_clash (i, g, n) (j, h, m) =
    j == i || (is_text n m && elim g [ none ↦ false | some org ↦ is_uuid org h ])

abbrev key_of : WorkOrderRow → ℕ × Option ℕ × Option Text
key_of o = (o.id, o.organisation_id, o.custom_id)

key_of-SameKey : (q r : WorkOrderRow) → SameKey q r → key_of r ≡ key_of q
key_of-SameKey q r (i, g, n) =
    ap {B = ℕ × Option ℕ × Option Text} (λ j. (j, r.organisation_id, r.custom_id)) i
    ∙ ap {B = ℕ × Option ℕ × Option Text} (λ h. (q.id, h, r.custom_id)) g
    ∙ ap {B = ℕ × Option ℕ × Option Text} (λ m. (q.id, q.organisation_id, m)) n

is_clash-SameKey :
    (a b q r : WorkOrderRow) → SameKey a b → SameKey q r → is_clash b r ≡ is_clash a q
is_clash-SameKey a b q r k l =
    ap (λ i. is_key_clash i (key_of r)) (key_of-SameKey a b k)
    ∙ ap (is_key_clash (key_of a)) (key_of-SameKey q r l)

same_key : (q : WorkOrderRow) → SameKey q q
same_key q = (refl, refl, refl)

any-update :
    (a b : WorkOrderRow) (p : WorkOrderRow → Bool) (f : WorkOrderRow → WorkOrderRow)
    (os : List WorkOrderRow)
    → SameKey a b
    → All (λ q. p q ≡ true → SameKey q (f q)) os
    → any (is_clash b) (update p f os) ≡ any (is_clash a) os
any-update a b p f [] k h = refl
any-update a b p f (q ∷ os) k (h, hs) = elim (Bool-cases (p q)) [
  | inl e ↦ ground (arith, any-update a b p f os k hs, is_clash-SameKey a b q (f q) k (h e))
  | inr e ↦ ground (arith, any-update a b p f os k hs, is_clash-SameKey a b q q k (same_key q))
]

update-IsNumbered :
    (p : WorkOrderRow → Bool) (f : WorkOrderRow → WorkOrderRow) (os : List WorkOrderRow)
    → All (λ q. p q ≡ true → SameKey q (f q)) os
    → IsNumbered os
    → IsNumbered (update p f os)
update-IsNumbered p f [] h n = tt
update-IsNumbered p f (q ∷ os) (h, hs) (n, ns) = elim (Bool-cases (p q)) [
  | inl e ↦
      let fresh = any-update q (f q) p f os (h e) hs in
      let rest = update-IsNumbered p f os hs ns in ground (arith, fresh, rest)
  | inr e ↦
      let fresh = any-update q q p f os (same_key q) hs in
      let rest = update-IsNumbered p f os hs ns in ground (arith, fresh, rest)
]

any-keep :
    (o : WorkOrderRow) (p : WorkOrderRow → Bool) (os : List WorkOrderRow)
    → any (is_clash o) os ≡ false
    → any (is_clash o) (keep p os) ≡ false
any-keep o p [] h = refl
any-keep o p (q ∷ os) h = ground (arith, any-keep o p os)

keep-IsNumbered :
    (p : WorkOrderRow → Bool) (os : List WorkOrderRow) → IsNumbered os → IsNumbered (keep p os)
keep-IsNumbered p [] n = tt
keep-IsNumbered p (q ∷ os) (n, ns) =
    let fresh = any-keep q p os n in
    let rest = keep-IsNumbered p os ns in ground (arith, fresh, rest)

-- With the id taken, no other row is the order of that id.
no_other :
    (org id : ℕ) (o new : WorkOrderRow) (os : List WorkOrderRow)
    → o.id ≡ id
    → any (is_clash o) os ≡ false
    → All (λ q. is_order_of org id q ≡ true → SameKey q new) os
no_other org id o new [] e h = tt
no_other org id o new (q ∷ os) e h =
    ((λ k. absurd (ground arith)), no_other org id o new os e (ground arith))

found_only :
    (org id : ℕ) (o new : WorkOrderRow) (os : List WorkOrderRow)
    → IsNumbered os
    → find (is_order_of org id) os ≡ some o
    → SameKey o new
    → All (λ q. is_order_of org id q ≡ true → SameKey q new) os
found_only org id o new [] n f k = tt
found_only org id o new (q ∷ os) (n, ns) f k = elim (Bool-cases (is_order_of org id q)) [
  | inl e ↦
      let same : q ≡ o = ground arith in
      ((λ i. subst (λ r. SameKey r new) (sym same) k), no_other org id q new os (ground arith) n)
  | inr e ↦ ((λ i. absurd (ground arith)), found_only org id o new os ns (ground arith) k)
]

status-SameKey :
    (status : Text) (org id : ℕ) (now : Time) (os : List WorkOrderRow)
    → All (λ q. is_order_of org id q ≡ true → SameKey q (with_status status now q)) os
status-SameKey status org id now [] = tt
status-SameKey status org id now (q ∷ os) =
    ((λ e. (refl, refl, refl)), status-SameKey status org id now os)

execute-IsNumbered :
    (x : Casts) (s : Statement) (db : Db)
    → IsNumbered db.work_orders
    → IsNumbered (execute x s db).work_orders
unfolding execute change_work_order_status delete_work_order_by_id
execute-IsNumbered x (creates ids now org user p) db n =
    let keeps = create_work_order_from_json-KeepsNumbers x ids now org user p db n in
    elim (Option-cases (create_work_order_from_json x ids now org user p db)) [
      | inl e ↦ rw e n
      | inr ((id, db'), e) ↦ rw e (subst KeepsNumbers e keeps)
    ]
execute-IsNumbered x (patches p org id now) db n =
    elim (Option-cases (update_work_order_from_json x p org id now db)) [
      | inl e ↦ rw e n
      | inr ((same, db'), e) ↦
          let (o, new, found, kept, is_id, rows) =
            update_work_order_from_json-Updated x p org id now db (same, db') e in
          rw e (
            subst IsNumbered (sym rows) (
              update-IsNumbered (is_order_of org id) (λ row. new) db.work_orders
                (found_only org id o new db.work_orders n found
                  (kept.id, kept.organisation, kept.number))
                n))
    ]
execute-IsNumbered x (changes_status status id org now) db n =
    update-IsNumbered (is_order_of org id) (with_status status now) db.work_orders
      (status-SameKey status org id now db.work_orders) n
execute-IsNumbered x (deletes org id) db n =
    keep-IsNumbered (λ o. not (is_order_of org id o)) db.work_orders n

execute_all-IsNumbered :
    (x : Casts) (ss : List Statement) (db : Db)
    → IsNumbered db.work_orders
    → IsNumbered (execute_all x ss db).work_orders
unfolding execute_all
execute_all-IsNumbered x [] db n = n
execute_all-IsNumbered x (s ∷ ss) db n =
    execute_all-IsNumbered x ss (execute x s db) (execute-IsNumbered x s db n)

-- If no two work orders have one id, or one custom id in one organisation, none do after any sequence
-- of creations, patches, changes of status and deletions, of whatever organisations and payloads and
-- whether or not they succeed.
pub execute_all-AreApart :
    (x : Casts) (ss : List Statement) (db : Db)
    → AreApart db.work_orders
    → AreApart (execute_all x ss db).work_orders
execute_all-AreApart x ss db n =
    (IsNumbered-AreApart (execute_all x ss db).work_orders).0
      (execute_all-IsNumbered x ss db ((IsNumbered-AreApart db.work_orders).1 n))
