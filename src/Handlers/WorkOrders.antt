-- ===== src/Handlers/WorkOrders.antt =====
-- internal/handlers/work_orders/work_orders.go. The text of a database error is left out.
pub mod Search
pub mod Create
pub mod Modify
use go_cmms.Base.{ℕ, Bool, true, Option, none, some, List, [], ◌∷◌, if◌then◌else◌}
use go_cmms.Base.Int.{ℤ}
use go_cmms.Text.{Text, codes, is_empty, trim_space, text_key}
use go_cmms.Base.Maps.{lookup}
use go_cmms.Db.WorkOrders.Create.Payload.{JsonObject, JsonValue, string}
use go_cmms.Db.WorkOrders.Search.{FilterField, Payload}
use go_cmms.Http.{
  Action, ◌>>=◌, ◌>>◌, pure, reply_if, or_reply, json, answer_with, Response, str, num, uuid,
  strings, work_orders, work_order,
}
use go_cmms.Auth.{External}
use go_cmms.Middleware.{Handler}
use go_cmms.Repo.WorkOrders as Repo
use go_cmms.Handlers.{failure, unauthorized}

-- `SearchRequest`; a missing key has Go's zero value.
pub record SearchRequest : Type 0 where
  pub page_num : ℤ
  pub page_size : ℤ
  pub filter_fields : List FilterField
  pub sort_field : Text
  pub direction : Text

-- `omitempty`
abbrev pub unless_empty : Text → Option Text
unless_empty t = if is_empty t then none else some t

-- `json.Marshal(req)`: the page is always written.
unfoldable pub payload_of : SearchRequest → Payload
payload_of req = record {
  page_num = some req.page_num;
  page_size = some req.page_size;
  filter_fields = req.filter_fields;
  sort_field = unless_empty req.sort_field;
  direction = unless_empty req.direction;
}

-- What the decoder makes of a body: an error, an object with something after it, or an object (none
-- for the JSON null).
pub data Decoded : Type 0 where
  invalid trailing : Decoded
  decoded : JsonObject → Decoded

abbrev pub object_of : Decoded → Option JsonObject
object_of invalid = none
object_of trailing = none
object_of (decoded p) = some p

-- The text of the error is that of `invalid`; its details are left out.
abbrev pub decode_error : Decoded → Response
decode_error trailing = failure 400 (codes "invalid JSON (extra content)")
decode_error _ = failure 400 (codes "invalid JSON: ")

-- `t, ok := body["title"].(string); !ok || strings.TrimSpace(t) == ""`
abbrev pub lacks_title : Option JsonValue → Bool
lacks_title (some (string t)) = is_empty (trim_space t)
lacks_title _ = true

module _ (x : External) where
  -- `Create`
  unfoldable pub create : Decoded → Handler
  create body req c = do
    org ← or_reply c.org unauthorized
    user ← or_reply c.user unauthorized
    payload ← or_reply (object_of body) (decode_error body)
    reply_if (lacks_title (lookup (codes "title") payload))
        (failure 400 (codes "title is required"))
    id ←
        or_reply (← Repo.create_work_order_from_json x.casts org user.id payload)
          (failure 500 (codes "failed to create work order"))
    pure (
        json 200 ((codes "message", str (codes "created work order")) ∷ (codes "id", uuid id) ∷ []))

  -- `Modify`
  unfoldable pub modify : Text → Decoded → Handler
  modify id_text body req c = do
    org ← or_reply c.org unauthorized
    user ← or_reply c.user unauthorized
    id ← or_reply (x.uuid_parse id_text) (failure 400 (codes "invalid work order ID"))
    payload ← or_reply (object_of body) (decode_error body)
    updated_id ←
        or_reply (← Repo.update_work_order_from_json x.casts org id user.id payload)
          (failure 500 (codes "failed to modify work order: "))
    pure (
        json 200 (
          (codes "message", str (codes "updated work order")) ∷ (codes "id", uuid updated_id) ∷ []))

  -- `FilterSearch`
  unfoldable pub filter_search : Option SearchRequest → Handler
  unfolding payload_of
  filter_search body req c = do
    org ← or_reply c.org (failure 500 (codes "failed to get org from context"))
    b ← or_reply body (failure 400 (codes "invalid request body"))
    (found, count) ←
        or_reply (← Repo.list_work_orders_paged x.collate org (payload_of b))
          (failure 500 (codes "failed to search work orders"))
    pure (
        json 200 (
          (codes "message", str (codes "search work orders"))
          ∷ (codes "totalElements", num count)
          ∷ (codes "content", work_orders found)
          ∷ []))

  -- `GetByID`
  unfoldable pub get_by_id : Text → Handler
  get_by_id id_text req c = do
    id ← or_reply (x.uuid_parse id_text) (failure 400 (codes "invalid work order ID"))
    wo ← or_reply (← Repo.get_work_order_detail id) (failure 500 [])
    pure (answer_with 200 (work_order wo))

  -- `Delete`
  unfoldable pub delete : Text → Handler
  delete id_text req c = do
    org ← or_reply c.org unauthorized
    id ← or_reply (x.uuid_parse id_text) (failure 400 (codes "invalid work order ID"))
    done ←
        or_reply (← Repo.delete_work_order_by_id org id)
          (failure 500 (codes "failed to delete work order"))
    pure (
        json 200 ((codes "message", str (codes "work order deleted")) ∷ (codes "id", uuid id) ∷ []))

  -- `ChangeStatus`
  unfoldable pub change_status : Text → Option Text → Handler
  change_status id_text body req c = do
    id ← or_reply (x.uuid_parse id_text) (failure 400 (codes "invalid work order ID"))
    org ← or_reply c.org (failure 500 (codes "failed to get org from context"))
    status ← or_reply body (failure 400 (codes "invalid request body"))
    reply_if (is_empty status) (failure 400 (codes "status field is required"))
    done ←
        or_reply (← Repo.change_work_order_status org id status)
          (failure 500 (codes "failed to change work order status"))
    pure (
        json 200 (
          (codes "message", str (codes "changed work order status"))
          ∷ (codes "id", uuid id)
          ∷ (codes "status", str status)
          ∷ []))

-- `List` and `Update`, which are placeholders.
unfoldable pub list : Handler
list req c =
    pure (
      json 200
        ((codes "message", str (codes "list work orders")) ∷ (codes "data", strings []) ∷ []))

unfoldable pub update : Text → Handler
update id_text req c =
    pure (
      json 200
        ((codes "message", str (codes "update work order")) ∷ (codes "id", str id_text) ∷ []))
