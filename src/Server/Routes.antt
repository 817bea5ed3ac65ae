-- ===== src/Server/Routes.antt =====
-- setupRoutes of internal/api/server.go: the table of routes and the middlewares in front of each.
-- What chi makes of a path is chi's: a request is known by the route that it matches.
use Prim.Native.String.{String}
use agentic_paasd.Prelude.{Bool, true, ◌&&◌, List, [], ◌∷◌, ◌++◌, Text, codes, if◌then◌else◌}

pub data Middleware : Type 0 where
  request_id logger recoverer timeout max_body throttle strip_forwarded https : Middleware
  auth tenant_rate global_rate idempotency : Middleware

pub data Method : Type 0 where
  http_get http_post http_patch http_delete : Method

-- The handlers that have a route.
pub data Endpoint : Type 0 where
  health tenant_register health_detailed tenant_get tenant_update tenant_delete : Endpoint
  key_create key_list key_revoke : Endpoint
  service_create service_list service_get service_delete service_start service_stop : Endpoint
  service_restart service_reset service_env_get service_env_set service_env_delete : Endpoint
  build_create build_list build_get build_cancel build_logs : Endpoint
  database_list database_get database_connection_string database_delete database_create : Endpoint

pub record Route : Type 0 where
  pub method : Method
  pub pattern : Text
  pub endpoint : Endpoint
  pub chain : List Middleware

-- r.Use on the root router.
unfoldable pub outer : Bool → List Middleware
outer dev_mode =
    request_id
    ∷ logger
    ∷ recoverer
    ∷ timeout
    ∷ max_body
    ∷ throttle
    ∷ strip_forwarded
    ∷ (if dev_mode then [] else https ∷ [])

abbrev pub guarded : List Middleware
guarded = auth ∷ tenant_rate ∷ global_rate ∷ idempotency ∷ []

abbrev route : List Middleware → Method → String → Endpoint → Route
route chain method pattern endpoint = record {
  method = method;
  pattern = codes pattern;
  endpoint = endpoint;
  chain = chain;
}

abbrev pub public_routes : List Route
public_routes =
    route [] http_get "/v1/system/health" health
    ∷ route [] http_post "/v1/tenants/register" tenant_register
    ∷ []

abbrev pub guarded_routes : List Route
guarded_routes =
    route guarded http_get "/v1/system/health/detailed" health_detailed
    ∷ route guarded http_get "/v1/tenant" tenant_get
    ∷ route guarded http_patch "/v1/tenant" tenant_update
    ∷ route guarded http_delete "/v1/tenant" tenant_delete
    ∷ route guarded http_post "/v1/auth/keys" key_create
    ∷ route guarded http_get "/v1/auth/keys" key_list
    ∷ route guarded http_delete "/v1/auth/keys/{keyID}" key_revoke
    ∷ route guarded http_post "/v1/services" service_create
    ∷ route guarded http_get "/v1/services" service_list
    ∷ route guarded http_get "/v1/services/{serviceID}" service_get
    ∷ route guarded http_delete "/v1/services/{serviceID}" service_delete
    ∷ route guarded http_post "/v1/services/{serviceID}/start" service_start
    ∷ route guarded http_post "/v1/services/{serviceID}/stop" service_stop
    ∷ route guarded http_post "/v1/services/{serviceID}/restart" service_restart
    ∷ route guarded http_post "/v1/services/{serviceID}/reset" service_reset
    ∷ route guarded http_get "/v1/services/{serviceID}/env" service_env_get
    ∷ route guarded http_post "/v1/services/{serviceID}/env" service_env_set
    ∷ route guarded http_delete "/v1/services/{serviceID}/env/{key}" service_env_delete
    ∷ route guarded http_post "/v1/services/{serviceID}/builds" build_create
    ∷ route guarded http_get "/v1/services/{serviceID}/builds" build_list
    ∷ route guarded http_get "/v1/services/{serviceID}/builds/{buildID}" build_get
    ∷ route guarded http_delete "/v1/services/{serviceID}/builds/{buildID}" build_cancel
    ∷ route guarded http_get "/v1/databases" database_list
    ∷ route guarded http_get "/v1/databases/{dbID}" database_get
    ∷ route guarded http_get "/v1/databases/{dbID}/connection-string" database_connection_string
    ∷ route guarded http_delete "/v1/databases/{dbID}" database_delete
    ∷ []

abbrev pub long_routes : List Route
long_routes =
    route (auth ∷ []) http_get "/v1/services/{serviceID}/builds/{buildID}/logs" build_logs
    ∷ route (auth ∷ []) http_post "/v1/databases" database_create
    ∷ []

unfoldable pub routes : List Route
routes = public_routes ++ (guarded_routes ++ long_routes)

-- A request goes through the middlewares in order; one that answers itself ends the way.
unfoldable pub goes_through : (Middleware → Bool) → List Middleware → Bool
goes_through passes [] = true
goes_through passes (m ∷ ms) = passes m && goes_through passes ms

-- Whether a request that matches the route reaches its handler, by what each middleware does.
unfoldable pub reaches : Bool → (Middleware → Bool) → Route → Bool
reaches dev_mode passes r = goes_through passes (outer dev_mode ++ r.chain)
