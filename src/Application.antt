-- ===== src/Application.antt =====
-- app/main.py, app/observability.py and the engine of app/database.py: how a process is set up.
pub mod Setup
pub mod Logging
use text.Mathlib.Text.{starts_with}
use pix_tools.Base.{
  ℕ, String, Bool, true, false, not, ◌&&◌, ◌||◌, Option, none, some, List, [], ◌∷◌, ◌++◌, is_in,
  ◌==◌, if◌then◌else◌, Result, ok, err,
}
use pix_tools.Store.Client.{S3, Failing, get_client}

-- The settings that these modules read.
pub record SetupSettings : Type 0 where
  pub observability_enabled : Bool
  pub metrics_enabled : Bool
  pub otel_service_name_api : String
  pub otel_service_name_worker : String

-- The flags of app/observability.py, the libraries that have been instrumented, and the service of the
-- tracer provider: only the first that is set counts.
pub record Telemetry : Type 0 where
  pub api_instrumented : Bool
  pub celery_instrumented : Bool
  pub httpx_instrumented : Bool
  pub instrumented : List String
  pub provider : Option String

-- A process that has just started.
abbrev pub untraced : Telemetry
untraced = record {
  api_instrumented = false;
  celery_instrumented = false;
  httpx_instrumented = false;
  instrumented = [];
  provider = none;
}

-- The middleware of app/middleware.py, the inner one first, and the paths of the routes.
pub record App : Type 0 where
  pub middleware : List String
  pub paths : List String

abbrev set_once : Option String → String → Option String
set_once none service = some service
set_once (some set) service = some set

abbrev pub init_tracing : (service_name : String) → Telemetry → Telemetry
init_tracing service_name t = record t { provider = set_once t.provider service_name }

abbrev pub instrument : String → Telemetry → Telemetry
instrument library t = record t { instrumented = t.instrumented ++ library ∷ [] }

abbrev pub instrument_httpx : Telemetry → Telemetry
instrument_httpx t =
    if t.httpx_instrumented then t else record (instrument "httpx" t) { httpx_instrumented = true }

-- the first block of `setup_api_observability`, on the process
unfoldable pub trace_api : SetupSettings → Telemetry → Telemetry
trace_api s t =
    if s.observability_enabled && not t.api_instrumented
    then record (instrument_httpx (instrument "fastapi" (init_tracing s.otel_service_name_api t))) {
      api_instrumented = true;
    }
    else t

-- the second block, on the application
unfoldable pub expose_metrics : SetupSettings → App → App
expose_metrics s app =
    if s.metrics_enabled && not (is_in "/metrics" app.paths)
    then record app { paths = app.paths ++ "/metrics" ∷ [] }
    else app

abbrev pub setup_api_observability : SetupSettings → App × Telemetry → App × Telemetry
setup_api_observability s (app, t) = (expose_metrics s app, trace_api s t)

unfoldable pub setup_celery_observability : SetupSettings → Telemetry → Telemetry
setup_celery_observability s t =
    if not s.observability_enabled || t.celery_instrumented
    then t
    else record (instrument "celery" (init_tracing s.otel_service_name_worker t)) {
      celery_instrumented = true;
    }

-- The routers of app/routers, with the prefix "/api".
abbrev pub router_paths : List String
router_paths =
    "/api/process" ∷ "/api/jobs/{job_id}" ∷ "/api/livez" ∷ "/api/readyz" ∷ "/api/health" ∷ []

abbrev pub static_paths : (static_dir_exists : Bool) → List String
static_paths there = if there then "/static" ∷ [] else []

-- What the route "/" answers with: a file, or an object of JSON.
pub data Root : Type 0 where
  file_response : String → Root
  message : List (String × String) → Root

abbrev pub root : (index_exists : Bool) → Root
root true = file_response "static/index.html"
root false = message (("message", "PixTools API") ∷ ("docs", "/docs") ∷ [])

-- `create_app`. `builtin` are the paths that FastAPI gives a new application. Importing the routers
-- imports app/tasks/celery_app.py, which sets up Celery's telemetry.
unfoldable pub create_app :
    SetupSettings → (static_dir_exists : Bool) (builtin : List String) → Telemetry → App × Telemetry
create_app s static_dir_exists builtin t =
    let bare : App = record {
      middleware = "request_id_middleware" ∷ "request_metrics_middleware" ∷ [];
      paths = builtin;
    } in
    let (app, traced) = setup_api_observability s (bare, t) in
    (
      record app {
        paths = app.paths ++ (router_paths ++ (static_paths static_dir_exists ++ "/" ∷ []));
      },
      setup_celery_observability s traced,
    )

-- `engine_kwargs` of app/database.py, but for `echo`
abbrev pub engine_kwargs : (database_url : String) → List (String × ℕ)
engine_kwargs database_url =
    if starts_with database_url "sqlite" then [] else ("pool_size", 5) ∷ ("max_overflow", 10) ∷ []

-- What the lifespan of the application sees to.
pub record Service : Type 0 where
  pub tables : Bool
  pub s3 : S3
  pub engine : Bool

abbrev with_client : Service → Result (Unit {0}) × S3 → Result (Unit {0}) × Service
with_client service (r, s3) = (r, record service { s3 = s3 })

-- `lifespan`, before its `yield`
unfoldable pub startup :
    (database_url : String) (endpoint_url : Bool) (retention_days : ℕ)
    → Failing
    → Service
    → Result (Unit {0}) × Service
startup database_url endpoint_url days failing service =
    let created = record service { tables = service.tables || starts_with database_url "sqlite" } in
    with_client created (get_client endpoint_url days failing created.s3)

-- `lifespan`, after it
abbrev pub shutdown : Service → Service
shutdown service = record service { engine = false }
