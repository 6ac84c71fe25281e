-- ===== src/Db/WorkOrders/Patch/Laws.antt =====
-- What `update_work_order_from_json` changes.
use mathlib.Core.Path.{subst}
use go_cmms.Base.{ℕ, ◌≡◌, refl, some, if◌then◌else◌, none}
use go_cmms.Base.Lists.{find, update, and_then_inv}
use go_cmms.Models.{Time}
use go_cmms.Db.{Db, WorkOrderRow}
use go_cmms.Db.WorkOrders.{is_order_of}
use go_cmms.Db.WorkOrders.Create.Laws.{some_inj}
use go_cmms.Db.WorkOrders.Create.Payload.{Casts, JsonObject}
use go_cmms.Db.WorkOrders.Patch.{
  new_title, new_description, new_due, new_start, new_duration, new_signature, new_archived,
  new_primary, new_location, new_team, new_asset, patched, patched_workers, patched_customers,
  given_ok, update_work_order_from_json,
}

-- The columns that no payload changes, and the time of the update.
pub record Kept (now : Time) (o new : WorkOrderRow) : Type 0 where
  pub id : new.id ≡ o.id
  pub organisation : new.organisation_id ≡ o.organisation_id
  pub number : new.custom_id ≡ o.custom_id
  pub status : new.status ≡ o.status
  pub created_at : new.created_at ≡ o.created_at
  pub created_by : new.created_by_id ≡ o.created_by_id
  pub completed_on : new.completed_on ≡ o.completed_on
  pub updated_at : new.updated_at ≡ now

-- An update that does not fail keeps these columns.
pub patched-Kept :
    (x : Casts) (p : JsonObject) (now : Time) (o new : WorkOrderRow)
    → patched x p now o ≡ some new
    → Kept now o new
unfolding patched
patched-Kept x p now o new h =
    let (title, f1, g1) = and_then_inv (new_title x p o) _ new h in
    let (description, f2, g2) = and_then_inv (new_description x p o) _ new g1 in
    let (due, f3, g3) = and_then_inv (new_due x p o) _ new g2 in
    let (start, f4, g4) = and_then_inv (new_start x p o) _ new g3 in
    let (duration, f5, g5) = and_then_inv (new_duration x p o) _ new g4 in
    let (signature, f6, g6) = and_then_inv (new_signature x p o) _ new g5 in
    let (archived, f7, g7) = and_then_inv (new_archived x p) _ new g6 in
    let (primary, f8, g8) = and_then_inv (new_primary x p o) _ new g7 in
    let (location, f9, g9) = and_then_inv (new_location x p o) _ new g8 in
    let (team, f10, g10) = and_then_inv (new_team x p o) _ new g9 in
    let (asset, f11, g11) = and_then_inv (new_asset x p o) _ new g10 in
    subst (Kept now o) (some_inj g11) (record {
      id = refl;
      organisation = refl;
      number = refl;
      status = refl;
      created_at = refl;
      created_by = refl;
      completed_on = refl;
      updated_at = refl;
    })

-- How an update changes the work orders: that of the organisation with the id is replaced.
abbrev pub Updated : ℕ → ℕ → Time → Db → ℕ × Db → Type 0
Updated org id now db (same, db') =
    (o : WorkOrderRow) × (new : WorkOrderRow) × (find (is_order_of org id) db.work_orders ≡ some o)
    × Kept now o new
    × (same ≡ id)
    × (db'.work_orders ≡ update (is_order_of org id) (λ row. new) db.work_orders)

pub update_work_order_from_json-Updated :
    (x : Casts) (p : JsonObject) (org id : ℕ) (now : Time) (db : Db) (e : ℕ × Db)
    → update_work_order_from_json x p org id now db ≡ some e
    → Updated org id now db e
unfolding update_work_order_from_json
update_work_order_from_json-Updated x p org id now db e h =
    let (o, f1, g1) = and_then_inv (find (is_order_of org id) db.work_orders) _ e h in
    let (new, f2, g2) = and_then_inv (patched x p now o) _ e g1 in
    let (assigned, f3, g3) =
      and_then_inv (if given_ok x p new db then patched_workers x p id db else none) _ e g2 in
    let (links, f4, g4) = and_then_inv (patched_customers x p id db) _ e g3 in
    subst (Updated org id now db) (some_inj g4)
      (o, new, f1, patched-Kept x p now o new f2, refl, refl)
