-- ===== src/Db/WorkOrders/Search/Wanted.antt =====
-- The filters of a search, described without their Boolean tests.
use go_cmms.Base.{
  ℕ, ◌≡◌, ◌⊎◌, ◌↔◌, refl, ap, sym, ◌∙◌, Bool, true, false, Option, none, some, List, [], ◌∷◌, arith,
}
use go_cmms.Text.{Text, text_eq_iff, to_lower, contains}
use go_cmms.Db.{WorkOrderRow}
use go_cmms.Db.Orgs.{member_of}
use go_cmms.Db.Like.{search_pattern}
use go_cmms.Db.Like.Laws.{ilike-search_pattern}
use go_cmms.Db.WorkOrders.{is_uuid}
use go_cmms.Db.WorkOrders.Search.{is_wanted, text_ok, status_ok, archived_ok, ilike_column}

-- The text is one of the list.
abbrev pub Among : Text → List Text → Type 0
Among t [] = ⊥
Among t (u ∷ us) = (t ≡ u) ⊎ Among t us

-- A column that holds the term somewhere, case aside.
abbrev pub Has : Text → Text → Type 0
Has term s = contains (to_lower s) (to_lower term) ≡ true

abbrev pub HasColumn : Text → Option Text → Type 0
HasColumn term none = ⊥
HasColumn term (some s) = Has term s

abbrev pub HasTerm : Option Text → WorkOrderRow → Type 0
HasTerm none o = Unit
HasTerm (some term) o = Has term o.title ⊎ HasColumn term o.description

abbrev pub HasStatus : List Text → Text → Type 0
HasStatus [] status = Unit
HasStatus (v ∷ vals) status = Among status (v ∷ vals)

abbrev pub IsArchiving : Option Bool → Bool → Type 0
IsArchiving none archived = Unit
IsArchiving (some b) archived = archived ≡ b

-- A row of the organisation with one of the statuses, if there are any, archived as is asked for, if
-- anything is, and with the term, if there is one, in its title or its description.
pub record Wanted (org_id : ℕ) (vals : List Text) (archived : Option Bool) (term : Option Text)
    (o : WorkOrderRow) : Type 0 where
  pub organisation : o.organisation_id ≡ some org_id
  pub status : HasStatus vals o.status
  pub archiving : IsArchiving archived o.archived
  pub text : HasTerm term o

is_uuid_iff : (id : ℕ) (o : Option ℕ) → (is_uuid id o ≡ true) ↔ (o ≡ some id)
is_uuid_iff id none = ((λ e. absurd (ground arith)), (λ e. absurd (ground arith)))
is_uuid_iff id (some other) = ((λ e. ap some (ground arith)), (λ e. ground arith))

member_of_iff : (t : Text) (us : List Text) → (member_of t us ≡ true) ↔ Among t us
member_of_iff t [] = ((λ e. absurd (ground arith)), (λ e. absurd e))
member_of_iff t (u ∷ us) = ground (arith, text_eq_iff t u, member_of_iff t us)

status_ok_iff : (vals : List Text) (s : Text) → (status_ok vals s ≡ true) ↔ HasStatus vals s
status_ok_iff [] s = ((λ e. tt), (λ e. refl))
status_ok_iff (v ∷ vals) s = member_of_iff s (v ∷ vals)

archived_ok_iff : (a : Option Bool) (b : Bool) → (archived_ok a b ≡ true) ↔ IsArchiving a b
archived_ok_iff none b = ((λ e. tt), (λ e. refl))
archived_ok_iff (some true) b = ((λ e. e), (λ e. e))
archived_ok_iff (some false) b = ((λ e. ground arith), (λ e. ground arith))

ilike_column_iff :
    (term : Text) (s : Option Text)
    → (ilike_column s (search_pattern term) ≡ true) ↔ HasColumn term s
ilike_column_iff term none = ((λ e. absurd (ground arith)), (λ e. absurd e))
ilike_column_iff term (some s) =
    ((λ e. sym (ilike-search_pattern s term) ∙ e), (λ e. ilike-search_pattern s term ∙ e))

text_ok_iff : (term : Option Text) (o : WorkOrderRow) → (text_ok term o ≡ true) ↔ HasTerm term o
unfolding text_ok
text_ok_iff none o = ((λ e. tt), (λ e. refl))
text_ok_iff (some term) o =
    ground (arith, ilike-search_pattern o.title term, ilike_column_iff term o.description)

pub is_wanted-Wanted :
    (org_id : ℕ) (vals : List Text) (archived : Option Bool) (term : Option Text) (o : WorkOrderRow)
    → (is_wanted org_id vals archived term o ≡ true) ↔ Wanted org_id vals archived term o
unfolding is_wanted
is_wanted-Wanted org_id vals archived term o =
    let u = is_uuid_iff org_id o.organisation_id in
    let s = status_ok_iff vals o.status in
    let a = archived_ok_iff archived o.archived in
    let t = text_ok_iff term o in
    (
      (λ e. record {
        organisation = u.0 (ground arith);
        status = s.0 (ground arith);
        archiving = a.0 (ground arith);
        text = t.0 (ground arith);
      }),
      (λ w.
          let e1 = u.1 w.organisation in
          let e2 = s.1 w.status in let e3 = a.1 w.archiving in let e4 = t.1 w.text in ground arith),
    )
