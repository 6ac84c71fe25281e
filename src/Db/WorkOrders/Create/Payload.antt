-- ===== src/Db/WorkOrders/Create/Payload.antt =====
-- What `create_work_order_from_json` of database/schema/007_functions.up.sql reads of its payload.
use go_cmms.Base.{ℕ, Bool, false, ◌&&◌, Option, none, some, List, [], ◌∷◌, ◌==◌, leb, if◌then◌else◌}
use go_cmms.Base.Lists.{all, and_then, ◌>>=◌}
use go_cmms.Base.Maps.{Map, lookup}
use go_cmms.Text.{Text, codes, is_empty, text_key, to_upper, trim}
use go_cmms.Models.{Time}
use go_cmms.Db.{WorkOrderRow}
use go_cmms.Db.WorkOrders.Search.{to_boolean, null_if_empty}

-- A value of a JSON object: a string, an array by its elements and its text, or anything else by its
-- text; an element of an array is its text, or `none` for null.
pub data JsonValue : Type 0 where
  null : JsonValue
  string : Text → JsonValue
  other : Text → JsonValue
  array : List (Option Text) → Text → JsonValue

abbrev pub JsonObject : Type 0
JsonObject = Map Text JsonValue

-- What the database's casts from text give, `none` for an error, and the year of `current_date`.
pub record Casts : Type 0 where
  pub timestamptz : Text → Option Time
  pub date : Text → Option Time
  pub double : Text → Option ℕ
  pub uuid : Text → Option ℕ
  pub year : Time → ℕ

abbrev pub text_of : JsonValue → Option Text
text_of null = none
text_of (string t) = some t
text_of (other t) = some t
text_of (array ts t) = some t

-- `payload->>key`
abbrev pub text_at : JsonObject → Text → Option Text
text_at p key = and_then (lookup key p) text_of

-- `COALESCE(payload->>…, …)`
abbrev pub first_text : JsonObject → List Text → Option Text
first_text p [] = none
first_text p (key ∷ keys) = elim (text_at p key) [ some t ↦ some t | none ↦ first_text p keys ]

-- `COALESCE(payload->…, …)`, where a JSON null is a value.
abbrev pub first_value : JsonObject → List Text → Option JsonValue
first_value p [] = none
first_value p (key ∷ keys) = elim (lookup key p) [ some v ↦ some v | none ↦ first_value p keys ]

-- A cast of a nullable text.
abbrev pub cast {ℓ} : {A : Type ℓ} → (Text → Option A) → Option Text → Option (Option A)
cast f none = some none
cast f (some t) = and_then (f t) (λ a. some (some a))

abbrev pub is_digit : ℕ → Bool
is_digit c = leb b'0' c && leb c b'9'

-- `~ '^\d{4}-\d{2}-\d{2}$'`
abbrev pub looks_like_date : Text → Bool
looks_like_date (a ∷ b ∷ c ∷ d ∷ e ∷ f ∷ g ∷ h ∷ i ∷ j ∷ []) =
    all is_digit (a ∷ b ∷ c ∷ d ∷ f ∷ g ∷ i ∷ j ∷ []) && (e == b'-' && h == b'-')
looks_like_date _ = false

abbrev pub to_time : Casts → Text → Option Time
to_time x t = if looks_like_date t then x.date t else x.timestamptz t

abbrev pub or_default {ℓ} : {A : Type ℓ} → A → Option A → A
or_default d none = d
or_default d (some a) = a

-- `COALESCE(a::…, b::…, d)`: the second cast is made only if the first text is missing.
abbrev pub first_cast {ℓ} :
    {A : Type ℓ} → (Text → Option A) → Option Text → Option Text → A → Option A
first_cast f (some t) b d = f t
first_cast f none none d = some d
first_cast f none (some t) d = f t

-- `NULLIF(btrim(…), '')` of the title, without which an exception is raised.
abbrev pub title_of : JsonObject → Option Text
title_of p =
    null_if_empty
      (some (trim b' ' (or_default [] (first_text p (codes "title" ∷ codes "Title" ∷ [])))))

-- `COALESCE(NULLIF(upper(…), ''), 'NONE')`
abbrev pub priority_of : JsonObject → Text
priority_of p =
    let priority =
      to_upper (or_default [] (first_text p (codes "priority" ∷ codes "Priority" ∷ []))) in
    if is_empty priority then codes "NONE" else priority

abbrev pub description_of : JsonObject → Option Text
description_of p = null_if_empty (first_text p (codes "description" ∷ codes "Description" ∷ []))

module _ (x : Casts) (p : JsonObject) where
  abbrev pub due_of : Option (Option Time)
  due_of = cast (to_time x) (first_text p (codes "dueDate" ∷ codes "due_date" ∷ []))

  abbrev pub start_of : Option (Option Time)
  start_of =
      cast (to_time x)
        (first_text p (codes "estimatedStartDate" ∷ codes "estimated_start_date" ∷ []))

  abbrev pub duration_of : Option ℕ
  duration_of =
      first_cast x.double (text_at p (codes "estimatedDuration"))
        (text_at p (codes "estimated_duration")) 0

  abbrev pub signature_of : Option Bool
  signature_of =
      first_cast to_boolean (text_at p (codes "requiredSignature"))
        (text_at p (codes "required_signature")) false

  -- `NULLIF(COALESCE(…), '')::uuid`
  abbrev pub uuid_at : List Text → Option (Option ℕ)
  uuid_at keys = cast x.uuid (null_if_empty (first_text p keys))

  abbrev pub user_keys : List Text
  user_keys =
      codes "primary_user"
      ∷ codes "primaryUser"
      ∷ codes "primary_worker"
      ∷ codes "primaryWorker"
      ∷ []

  abbrev pub location_keys : List Text
  location_keys = codes "location" ∷ codes "location_id" ∷ []

  abbrev pub asset_keys : List Text
  asset_keys = codes "asset" ∷ codes "asset_id" ∷ []

  -- The columns that the payload gives, for an id, an organisation, a user and a time.
  unfoldable pub row_of : ℕ → ℕ → ℕ → Time → Option WorkOrderRow
  row_of id org_id created_by now = do
    title ← title_of p
    due ← due_of
    start ← start_of
    duration ← duration_of
    signature ← signature_of
    primary ← uuid_at user_keys
    location ← uuid_at location_keys
    asset ← uuid_at asset_keys
    some (record {
      id = id;
      organisation_id = some org_id;
      created_at = now;
      updated_at = now;
      due_date = due;
      priority = priority_of p;
      description = description_of p;
      title = title;
      custom_id = none;
      completed_on = none;
      status = codes "OPEN";
      archived = false;
      created_by_id = some created_by;
      estimated_duration = duration;
      estimated_start_date = start;
      required_signature = signature;
      primary_user_id = primary;
      location_id = location;
      team_id = none;
      asset_id = asset;
    })

-- The ids of an array, without nulls and empty texts; anything but an array has none.
abbrev pub ids_of : Casts → List (Option Text) → Option (List ℕ)
ids_of x [] = some []
ids_of x (none ∷ ts) = ids_of x ts
ids_of x (some t ∷ ts) =
    let rest = ids_of x ts in
    if is_empty t then rest else and_then (x.uuid t) (λ id. and_then rest (λ ids. some (id ∷ ids)))

abbrev pub array_ids : Casts → Option JsonValue → Option (List ℕ)
array_ids x none = some []
array_ids x (some null) = some []
array_ids x (some (string t)) = some []
array_ids x (some (other t)) = some []
array_ids x (some (array ts t)) = ids_of x ts

module _ (x : Casts) (p : JsonObject) where
  abbrev pub worker_ids : Option (List ℕ)
  worker_ids = array_ids x (first_value p (codes "assigned_to" ∷ codes "assignedTo" ∷ []))

  abbrev pub customer_ids : Option (List ℕ)
  customer_ids = array_ids x (first_value p (codes "customers" ∷ codes "customer_ids" ∷ []))

abbrev pub given_id : JsonObject → Option Text
given_id p = first_text p (codes "custom_id" ∷ codes "customId" ∷ [])
