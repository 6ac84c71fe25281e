-- ===== src/Handlers/WorkOrders/Create.antt =====
-- What `Create` does.
use mathlib.Core.Path.{subst}
use go_cmms.Base.{
  ℕ, ◌≡◌, refl, sym, some, [], ◌∷◌, arith, Bool-cases, Option-cases, inl, inr, suc, ◌+◌,
}
use go_cmms.Base.Maps.{lookup}
use go_cmms.Text.{codes, text_key}
use go_cmms.Models.{User}
use go_cmms.Http.{World, Request, Response, Result, ok, stop, statement, json, str, uuid}
use go_cmms.Db.WorkOrders.Create.Payload.{JsonObject}
use go_cmms.Db.WorkOrders.Create as Sql
use go_cmms.Db.WorkOrders.Create.Laws.{Created, create_work_order_from_json-Created}
use go_cmms.Repo.WorkOrders.{create_work_order_from_json}
use go_cmms.Db.{Db}
use go_cmms.Auth.{External}
use go_cmms.Middleware.{Context}
use go_cmms.Handlers.{failure}
use go_cmms.Handlers.WorkOrders.{decoded, create, lacks_title}

-- How a creation ends.
abbrev pub CreateEnd : ℕ → ℕ → World → Result Response × World → Type 0
CreateEnd org user w (ok r, w') =
    (id : ℕ) × (r
      ≡ json 200 ((codes "message", str (codes "created work order")) ∷ (codes "id", uuid id) ∷ []))
    × Created org user w.db (id, w'.db)
CreateEnd org user w (stop r, w') = w'.db ≡ w.db

module _ (x : External) where
  -- A creation that succeeds has added one open work order to the caller's organisation and in the
  -- caller's name, whatever organisation, user, status or id the body asks for; its id, which is
  -- answered, and its custom id in the organisation are new. One that fails leaves the database as it
  -- was.
  pub create-CreateEnd :
      (p : JsonObject) (req : Request) (c : Context) (org : ℕ) (user : User) (w : World)
      → c.org ≡ some org
      → c.user ≡ some user
      → CreateEnd org user.id w (create x (decoded p) req c w)
  unfolding create create_work_order_from_json statement
  create-CreateEnd p req c org user w e f =
      elim (Bool-cases (lacks_title (lookup (codes "title") p))) [
        | inl g ↦ rw (e, f, g) refl
        | inr g ↦ elim (Bool-cases (w.faults w.queries)) [
          | inl h ↦ fails (ground arith)
          | inr h ↦
              elim (Option-cases (
                Sql.create_work_order_from_json x.casts (λ k. w.ids (w.drawn + k)) w.now org user.id
                  p w.db)) [
                    | inl k ↦ fails (ground arith)
                    | inr ((id, db'), k) ↦ succeeds id db' k (ground arith)
                  ]
        ]
      ]
    where
      fails :
          create x (decoded p) req c w ≡ (
            stop (failure 500 (codes "failed to create work order")),
            record w { drawn = w.drawn + 10; queries = suc w.queries },
          )
          → CreateEnd org user.id w (create x (decoded p) req c w)
      fails same = subst (CreateEnd org user.id w) (sym same) refl

      succeeds :
          (id : ℕ) (db' : Db)
          → Sql.create_work_order_from_json x.casts
              (λ k. w.ids (w.drawn + k))
              w.now
              org
              user.id
              p
              w.db
            ≡ some (id, db')
          → create x (decoded p) req c w ≡ (
            ok (
                json 200 (
                  (codes "message", str (codes "created work order"))
                  ∷ (codes "id", uuid id)
                  ∷ [])),
            record w { drawn = w.drawn + 10; queries = suc w.queries; db = db' },
          )
          → CreateEnd org user.id w (create x (decoded p) req c w)
      succeeds id db' made same = subst (CreateEnd org user.id w) (sym same) (
        id,
        refl,
        create_work_order_from_json-Created x.casts (λ n. w.ids (w.drawn + n)) w.now org user.id p
            w.db (id, db') made,
      )
