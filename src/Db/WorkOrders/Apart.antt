-- ===== src/Db/WorkOrders/Apart.antt =====
-- The unique indexes on work orders, described without their Boolean tests: `work_order_pkey` and the
-- one of database/schema/004_data.up.sql on the organisation and the custom id.
use go_cmms.Base.{
  ℕ, ◌≡◌, ◌↔◌, refl, sym, ap, Bool, true, false, ◌&&◌, Option, none, some, List, [], ◌∷◌, arith,
  inl, inr, Bool-cases,
}
use go_cmms.Base.Lists.{All, any}
use go_cmms.Text.{Text, text_eq_iff}
use go_cmms.Db.{WorkOrderRow}
use go_cmms.Db.Orgs.{is_text}
use go_cmms.Db.WorkOrders.{is_uuid}
use go_cmms.Db.WorkOrders.Create.Laws.{is_clash, IsNumbered}

-- Two rows that have not both one organisation and one custom id, where neither is missing.
abbrev pub OtherNumber : Option ℕ → Option Text → Option ℕ → Option Text → Type 0
OtherNumber g a h b =
    (org : ℕ) (number : Text) → g ≡ some org → h ≡ some org → a ≡ some number → ¬ (b ≡ some number)

abbrev pub Apart : WorkOrderRow → WorkOrderRow → Type 0
Apart o r =
    ¬ (r.id ≡ o.id) × OtherNumber o.organisation_id o.custom_id r.organisation_id r.custom_id

-- Any two of the rows are apart.
abbrev pub AreApart : List WorkOrderRow → Type 0
AreApart [] = Unit
AreApart (o ∷ os) = All (Apart o) os × AreApart os

abbrev is_same : Option ℕ → Option Text → Option ℕ → Option Text → Bool
is_same g a h b = is_text a b && elim g [ none ↦ false | some org ↦ is_uuid org h ]

same_given :
    (g h : Option ℕ) (a b : Option Text) (org : ℕ) (number : Text)
    → g ≡ some org
    → h ≡ some org
    → a ≡ some number
    → b ≡ some number
    → is_same g a h b ≡ true
same_given g h a b org number e f k l = rw (e, f, k, l) (ground (arith, text_eq_iff number number))

is_same-OtherNumber :
    (g h : Option ℕ) (a b : Option Text) → (is_same g a h b ≡ false) ↔ OtherNumber g a h b
is_same-OtherNumber g h a b = (
  (λ e org number f k l m.
      let yes = same_given g h a b org number f k l m in absurd (ground arith)),
  back g h a b,
)
  where
    back : (g h : Option ℕ) (a b : Option Text) → OtherNumber g a h b → is_same g a h b ≡ false
    back g h none b other = refl
    back g h (some s) none other = refl
    back none h (some s) (some t) other = ground arith
    back (some i) none (some s) (some t) other = ground arith
    back (some i) (some j) (some s) (some t) other =
        elim (Bool-cases (is_same (some i) (some s) (some j) (some t))) [
          | inl e ↦
              let same : t ≡ s = sym ((text_eq_iff s t).0 (ground arith)) in
              let org : j ≡ i = ground arith in
              absurd (other i s refl (ap some org) refl (ap some same))
          | inr e ↦ e
        ]

is_clash-Apart : (o r : WorkOrderRow) → (is_clash o r ≡ false) ↔ Apart o r
is_clash-Apart o r =
    let same = is_same-OtherNumber o.organisation_id r.organisation_id o.custom_id r.custom_id in
    (
      (λ e. ((λ i. absurd (ground arith)), same.0 (ground arith))),
      (λ (i, n). let no = same.1 n in ground arith),
    )

any-Apart :
    (o : WorkOrderRow) (os : List WorkOrderRow) → (any (is_clash o) os ≡ false) ↔ All (Apart o) os
any-Apart o [] = ((λ e. tt), (λ e. refl))
any-Apart o (r ∷ os) =
    let one = is_clash-Apart o r in
    let more = any-Apart o os in
    (
      (λ e. (one.0 (ground arith), more.0 (ground arith))),
      (λ (a, b). let no = one.1 a in let none_left = more.1 b in ground arith),
    )

pub IsNumbered-AreApart : (os : List WorkOrderRow) → IsNumbered os ↔ AreApart os
IsNumbered-AreApart [] = ((λ e. tt), (λ e. tt))
IsNumbered-AreApart (o ∷ os) =
    let head = any-Apart o os in
    let tail = IsNumbered-AreApart os in
    ((λ (a, b). (head.0 a, tail.0 b)), (λ (a, b). (head.1 a, tail.1 b)))
