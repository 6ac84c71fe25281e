-- ===== src/Handlers/WorkOrders/Modify.antt =====
-- What `Modify` does.
use mathlib.Core.Path.{subst}
use go_cmms.Base.{ℕ, ◌≡◌, refl, sym, some, [], ◌∷◌, arith, Option-cases, Bool-cases, inl, inr, suc}
use go_cmms.Text.{Text, codes}
use go_cmms.Models.{User}
use go_cmms.Db.{Db}
use go_cmms.Db.WorkOrders.Create.Payload.{JsonObject}
use go_cmms.Db.WorkOrders.Patch as Sql
use go_cmms.Db.WorkOrders.Patch.Laws.{Updated, update_work_order_from_json-Updated}
use go_cmms.Http.{World, Request, Response, Result, ok, stop, statement, json, str, uuid}
use go_cmms.Repo.WorkOrders.{update_work_order_from_json}
use go_cmms.Auth.{External}
use go_cmms.Middleware.{Context}
use go_cmms.Handlers.{failure}
use go_cmms.Handlers.WorkOrders.{decoded, modify}

-- How a change ends.
abbrev pub ModifyEnd : ℕ → ℕ → World → Result Response × World → Type 0
ModifyEnd org id w (ok r, w') =
    Updated org id w.now w.db (id, w'.db)
    × (r
        ≡ json 200
            ((codes "message", str (codes "updated work order")) ∷ (codes "id", uuid id) ∷ []))
ModifyEnd org id w (stop r, w') = w'.db ≡ w.db

module _ (x : External) where
  -- A change that succeeds has found a work order with the id of the path in the caller's organisation,
  -- and replaces that one only; whatever the body asks for, its id, organisation, custom id, status,
  -- creator and times of creation and completion stay, and it is marked as updated now. A change that
  -- fails leaves the database as it was.
  pub modify-ModifyEnd :
      (id_text : Text) (p : JsonObject) (req : Request) (c : Context) (org id : ℕ) (user : User)
      (w : World)
      → c.org ≡ some org
      → c.user ≡ some user
      → x.uuid_parse id_text ≡ some id
      → ModifyEnd org id w (modify x id_text (decoded p) req c w)
  unfolding modify update_work_order_from_json statement
  modify-ModifyEnd id_text p req c org id user w e f g = elim (Bool-cases (w.faults w.queries)) [
    | inl k ↦ fails (ground arith)
    | inr k ↦ elim (Option-cases (Sql.update_work_order_from_json x.casts p org id w.now w.db)) [
      | inl h ↦ fails (ground arith)
      | inr ((same, db'), h) ↦
          succeeds same db'
            (update_work_order_from_json-Updated x.casts p org id w.now w.db (same, db') h)
            (ground arith)
    ]
  ]
    where
      fails :
          modify x id_text (decoded p) req c w ≡ (
            stop (failure 500 (codes "failed to modify work order: ")),
            record w { queries = suc w.queries },
          )
          → ModifyEnd org id w (modify x id_text (decoded p) req c w)
      fails done = subst (ModifyEnd org id w) (sym done) refl

      succeeds :
          (same : ℕ) (db' : Db)
          → Updated org id w.now w.db (same, db')
          → modify x id_text (decoded p) req c w ≡ (
            ok (
                json 200 (
                  (codes "message", str (codes "updated work order"))
                  ∷ (codes "id", uuid same)
                  ∷ [])),
            record w { queries = suc w.queries; db = db' },
          )
          → ModifyEnd org id w (modify x id_text (decoded p) req c w)
      succeeds same db' (o, new, found, kept, is_id, rows) done =
          subst (ModifyEnd org id w) (sym done) ((o, new, found, kept, refl, rows), rw is_id refl)
