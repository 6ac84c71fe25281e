-- ===== src/Tests/Orders.antt =====
-- Work orders, tasks and the sign-in with a provider on the small server.
use go_cmms.Base.{List, ◌+◌, ◌≡◌, refl, true, false, none, some, [], ◌∷◌, arith, is_some}
use Prim.Native.Nat.{compare}
use go_cmms.Base.Int.{pos}
use go_cmms.Base.Lists.{length, take}
use go_cmms.Base.Sort.Laws.{compare-IsOrder, on-IsOrder}
use go_cmms.Base.Maps.{lookup}
use go_cmms.Phc.{print_d, digits}
use go_cmms.Db.Orgs.{find_org_by_id}
use go_cmms.Db.Users.{get_user_by_id}
use go_cmms.Text.{text_eq, codes, contains, to_lower}
use go_cmms.Models.{User}
use go_cmms.Db.{Db}
use go_cmms.Db.Like.{ilike, search_pattern}
use go_cmms.Db.Like.Laws.{ilike-search_pattern}
use go_cmms.Db.WorkOrders.{stored_description}
use go_cmms.Db.WorkOrders.Search.{FilterField, Payload, ordered}
use go_cmms.Db.WorkOrders.Search.Laws.{pages, listed, pages-take}
use go_cmms.Db.WorkOrders.Search.Answers.{OrderedEnd, ordered-OrderedEnd}
use go_cmms.Db.WorkOrders.Create.Payload.{JsonObject, JsonValue}
use go_cmms.Db.WorkOrders.Create.{create_work_order_from_json, insert_numbered, custom_id_of}
use go_cmms.Db.WorkOrders.Apart.{AreApart}
use go_cmms.Db.WorkOrders.Invariant.{
  Statement, creates, patches, changes_status, deletes, execute_all, execute_all-AreApart,
}
use go_cmms.Db.WorkOrders.Create.Numbering.{insert_numbered-IsFree}
use go_cmms.Db.WorkOrders.Create.Overflow.{create_work_order_from_json_stuck}
use go_cmms.Db.Tasks.Toggle.{toggles, shown, toggles-shown}
use go_cmms.Http.{Request}
use go_cmms.Auth.Provider.{Provider, Github, IdToken, extract_identity}
use go_cmms.Auth.OAuth.{callback, cookie_state, cookie_nonce}
use go_cmms.Auth.OAuth.Laws.{CallbackEnd, callback-CallbackEnd}
use go_cmms.Auth.OAuth.Nonce.{nonce_of, extract_identity-nonce}
use go_cmms.Auth.Profile.{list_sessions}
use go_cmms.Auth.Profile.Laws.{Listed, list_sessions-Listed}
use go_cmms.Auth.SessionCookie.{session_of}
use go_cmms.Middleware.{Context, no_context, require_auth}
use go_cmms.Handlers.WorkOrders.{SearchRequest, Decoded, create, modify, filter_search}
use go_cmms.Handlers.WorkOrders.Search.{Searched, filter_search-Searched}
use go_cmms.Handlers.WorkOrders.Create.{CreateEnd, create-CreateEnd}
use go_cmms.Handlers.WorkOrders.Modify.{ModifyEnd, modify-ModifyEnd}
use go_cmms.Handlers.Routes.{change_order_status, routed}
use go_cmms.Handlers.Tenants.Requests.{Confined, require_auth-Confined}
use go_cmms.Tests.{
  toy, toy_casts, by_length, toy_order, toy_task, toy_db, toy_world, toy_request, toy_frontend,
}

-- Amy in her organisation.
abbrev amy : User
amy = record { id = 1; email = codes "amy@x"; name = []; avatar_url = []; phone = []; country = [] }

abbrev amy_context : Context
amy_context = record no_context { org = some 7; user = some amy }

abbrev open_filter : FilterField
open_filter = record {
  field = codes "status";
  operation = codes "in";
  value = none;
  values = some (codes "OPEN" ∷ []);
}

abbrev open_search : SearchRequest
open_search = record {
  page_num = pos 0;
  page_size = pos 10;
  filter_fields = open_filter ∷ [];
  sort_field = codes "title";
  direction = codes "asc";
}

abbrev open_payload : Payload
open_payload = record {
  page_num = none;
  page_size = none;
  filter_fields = open_filter ∷ [];
  sort_field = some (codes "title");
  direction = none;
}

abbrev order_body : JsonObject
order_body = (codes "title", JsonValue.string (codes "Fan")) ∷ []

-- A database whose counter has run past its four digits, with number 1000 in use.
abbrev full_db : Db
full_db = record toy_db {
  work_orders = record toy_order { custom_id = some (codes "WO-2025-1000") } ∷ [];
  counters = record { organisation_id = 7; year = 2025; next_seq = 10000 } ∷ [];
}

require_auth-Confined_example :
    Confined
      (session_of toy_request toy_world)
      toy_world.db
      (require_auth
        (routed toy (change_order_status (11 ∷ []) (some (codes "COMPLETE"))))
        toy_request
        no_context
        toy_world).1.db
require_auth-Confined_example =
    require_auth-Confined toy (change_order_status (11 ∷ []) (some (codes "COMPLETE"))) toy_request
      no_context toy_world

filter_search-Searched_example :
    Searched toy 7 open_search toy_world
      (filter_search toy (some open_search) toy_request amy_context toy_world)
filter_search-Searched_example =
    filter_search-Searched toy open_search toy_request amy_context 7 toy_world refl

create-CreateEnd_example :
    CreateEnd 7 1 toy_world
      (create toy (Decoded.decoded order_body) toy_request amy_context toy_world)
create-CreateEnd_example =
    create-CreateEnd toy order_body toy_request amy_context 7 amy toy_world refl refl

modify-ModifyEnd_example :
    ModifyEnd 7 11 toy_world
      (modify toy (11 ∷ []) (Decoded.decoded order_body) toy_request amy_context toy_world)
modify-ModifyEnd_example =
    modify-ModifyEnd toy (11 ∷ []) order_body toy_request amy_context 7 11 amy toy_world refl refl
      refl

pages-take_example :
    pages by_length 7 open_payload toy_db 10 2
    ≡ take 20 (listed (ordered by_length 7 open_payload toy_db))
pages-take_example =
    pages-take by_length 7 open_payload toy_db 10 2 (omega arith) (omega arith) (omega arith)

ordered-OrderedEnd_example :
    OrderedEnd by_length 7 open_payload toy_db (ordered by_length 7 open_payload toy_db)
ordered-OrderedEnd_example =
    ordered-OrderedEnd by_length 7 open_payload toy_db (on-IsOrder length compare compare-IsOrder)

ilike-search_pattern_example :
    ilike (codes "A 50% cut") (search_pattern (codes "50%"))
    ≡ contains (to_lower (codes "A 50% cut")) (to_lower (codes "50%"))
ilike-search_pattern_example = ilike-search_pattern (codes "A 50% cut") (codes "50%")

toggles-shown_example :
    (toggles ((true, 7) ∷ (false, 8) ∷ (true, 9) ∷ []) toy_task).value
    ≡ some (shown (codes "HALF") true)
toggles-shown_example = toggles-shown 7 ((false, 8) ∷ (true, 9) ∷ []) toy_task tt

abbrev orders_written : List Statement
orders_written =
    creates (λ k. k + 40) 100 7 1 order_body
    ∷ changes_status (codes "COMPLETE") 11 7 200
    ∷ patches order_body 7 11 300
    ∷ deletes 7 11
    ∷ []

execute_all-AreApart_example : AreApart (execute_all toy_casts orders_written toy_db).work_orders
execute_all-AreApart_example = execute_all-AreApart toy_casts orders_written toy_db (tt, tt)

insert_numbered-IsFree_example :
    is_some (insert_numbered 10 (λ k. k + 40) toy_order 7 2025 toy_db) ≡ true
unfolding custom_id_of find_org_by_id get_user_by_id text_eq print_d digits stored_description
insert_numbered-IsFree_example =
    insert_numbered-IsFree 1 8 9 (λ k. k + 40) toy_order 7 2025 toy_db refl (omega arith) refl refl
      refl

create_work_order_from_json_stuck_example :
    create_work_order_from_json toy_casts (λ k. k + 40) 100 7 1 order_body full_db ≡ none
unfolding custom_id_of lookup text_eq print_d digits
create_work_order_from_json_stuck_example =
    create_work_order_from_json_stuck toy_casts (λ k. k + 40) 100 7 1 order_body full_db refl refl
      refl

list_sessions-Listed_example :
    Listed toy toy_request toy_world (list_sessions toy toy_request toy_world)
list_sessions-Listed_example = list_sessions-Listed toy toy_request toy_world

-- A provider whose tokens are all amy's.
abbrev amy_token : IdToken
amy_token = record {
  ms_claims = none;
  oidc_claims = some (record {
    email = codes "amy@x";
    email_verified = true;
    name = [];
    sub = codes "77";
    nonce = codes "n";
    picture = [];
  });
}

abbrev google : Provider
google = record {
  auth_code_url = λ state nonce. state;
  exchange = λ code. some (record { id_token = codes "raw"; access_token = [] });
  verifier = some (λ now raw. some amy_token);
}

abbrev no_github : Github
no_github = record { user = λ t. none; avatar = λ t. [] }

abbrev callback_request : Request
callback_request = record toy_request {
  cookies = (cookie_state, codes "s") ∷ (cookie_nonce, codes "n") ∷ [];
  query = (codes "state", codes "s") ∷ (codes "code", codes "c") ∷ [];
}

callback-CallbackEnd_example :
    CallbackEnd toy toy_frontend
      ((codes "google", google) ∷ [])
      no_github
      (codes "google")
      callback_request
      toy_world
      (callback toy toy_frontend
        ((codes "google", google) ∷ [])
        no_github
        (codes "google")
        callback_request
        toy_world)
callback-CallbackEnd_example =
    callback-CallbackEnd toy toy_frontend ((codes "google", google) ∷ []) no_github (codes "google")
      callback_request toy_world

extract_identity-nonce_example :
    (idt : IdToken) × (some amy_token ≡ some idt) × (nonce_of (codes "google") idt ≡ codes "n")
unfolding extract_identity text_eq
extract_identity-nonce_example =
    extract_identity-nonce google no_github (codes "google") (codes "n")
      (record { id_token = codes "raw"; access_token = [] }) 100
      (record {
        email = codes "amy@x";
        name = [];
        subject = codes "77";
        tenant = [];
        groups = [];
        picture = [];
      })
      (λ now raw. some amy_token) refl refl refl
