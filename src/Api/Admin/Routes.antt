-- ===== src/Api/Admin/Routes.antt =====
-- internal/api/admin.go: the routes, and who may use them. The router is a choice among the routes.
use providerapi.Prelude.{ℕ, String, Bool, true, Option, ◌==◌, if◌then◌else◌}
use providerapi.Prelude.Int.{ℤ}
use providerapi.Text.{is_empty, trim_prefix}
use providerapi.Dict.{Dict}
use providerapi.Json.{str, obj, end, field}
use providerapi.Config.{Config}
use providerapi.Plugin.Instance.{Instance}
use providerapi.Trace.Store.{EventRow, Store}
use providerapi.Trace.Payload.{Files}
use providerapi.Api.Console.{serve_console}
use providerapi.Api.Request.{Reply, answer}
use providerapi.Api.Admin.{requests, request, plugins, models}

-- auth, from the configured token and the headers X-Admin-Token and Authorization
unfoldable pub auth : String → String → String → Bool
auth token admin_header authorization =
    if is_empty token
    then true
    else (if is_empty admin_header then trim_prefix authorization "Bearer " else admin_header)
      == token

-- the answer of auth to a request without the token
abbrev pub unauthorized : Reply
unauthorized = answer 401 (
    obj (
      field "error"
        (obj (
          field "message" (str "unauthorized")
            (field "type" (str "auth_error") (field "code" (str "unauthorized") end))))
        end))

-- What the interface reads: the configuration, the instances, the tables and the files.
pub record State : Type 0 where
  pub cfg : Config
  pub instances : Dict Instance
  pub store : Store
  pub files : Files

-- The routes that are the interface's own, and a page of the console by its path, read or not.
pub data ApiRoute : Type 0 where
  get_health get_requests get_plugins get_models get_metrics : ApiRoute
  get_request_by_id : String → ApiRoute

pub data Route : Type 0 where
  api : ApiRoute → Route
  page : Bool → String → Route

-- What the interface answers: a reply of its own, a file of the console, or the metrics.
pub data Served : Type 0 where
  own : Reply → Served
  console : Option String → Served
  exposition : Served

-- `decimal` is the decimal text of an integer and `digits` of a number; `pid` is the number of an
-- instance's process and `stamp` the time of an event.
module _ (decimal : ℤ → String) (digits : ℕ → String) (pid : Instance → ℤ)
    (stamp : EventRow → ℤ) where
  abbrev guarded : Option String → State → ApiRoute → Served
  guarded db_error s get_health = own (answer 200 (obj (field "status" (str "ok") end)))
  guarded db_error s get_requests = own (requests decimal digits pid stamp db_error s.store)
  guarded db_error s (get_request_by_id id) =
      own (request decimal digits pid stamp db_error id s.store s.files)
  guarded db_error s get_plugins = own (plugins decimal digits pid stamp s.instances).0
  guarded db_error s get_models = own (models decimal digits pid stamp s.cfg)
  guarded db_error s get_metrics = exposition

  -- Routes: every route but the console's is behind auth. `exists` tells whether the console has a file.
  unfoldable pub routes : (String → Bool) → String → String → Option String → State → Route → Served
  unfolding auth serve_console requests request plugins models
  routes exists header authorization db_error s (page is_read path) =
      console (serve_console exists is_read path)
  routes exists header authorization db_error s (api route) =
      if auth s.cfg.admin.token header authorization
      then guarded db_error s route
      else own unauthorized
