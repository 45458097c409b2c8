-- ===== src/Middleware.antt =====
-- app/middleware.py and app/dependencies.py: what stands between a request and its handler.
pub mod Served
use Prim.Native.String.{◌++◌ as cat}
use pix_tools.Base.{
  ℕ, ◌-◌, String, Bool, true, false, not, Option, none, some, or_default, List, [], ◌∷◌, ◌++◌,
  lookup, insert, ◌==◌, if◌then◌else◌, Exn, http, Result, ok, err, raise_if,
}
use pix_tools.Runtime.{Runtime}
use pix_tools.Platform.{Platform}
use pix_tools.Metrics.{Gauges, Broker, refresh_queue_depth_metrics}
use pix_tools.World.{
  World, Action, Metric, observe, gets, modify, pure, record_metric, uuid4, ◌>>=◌, ◌>>◌,
}

-- What the middleware reads of a request. `route` is the path of the route that took it, if any, and
-- the names of the headers are written as the source writes them.
pub record HttpRequest : Type 0 where
  pub method : String
  pub path : String
  pub route : Option String
  pub headers : List (String × String)

pub record HttpResponse : Type 0 where
  pub status_code : ℕ
  pub headers : List (String × String)

-- `_route_template`
abbrev pub route_template : HttpRequest → String
route_template r = or_default r.route r.path

abbrev pub status_of : Result HttpResponse → ℕ
status_of (ok response) = response.status_code
status_of (err e) = 500

abbrev pub with_header : String → String → HttpResponse → HttpResponse
with_header name value response = record response { headers = insert name value response.headers }

-- `verify_api_key`, given the key of the settings
unfoldable pub verify_api_key : (api_key x_api_key : String) → Result String
verify_api_key api_key x_api_key =
    if x_api_key == api_key then ok x_api_key else err (http 401 "Invalid API key")

-- `labels(method, path, status_code).observe(latency)`, with blanks between the labels
abbrev pub latency_metric : Runtime → HttpRequest → (status_code latency : ℕ) → Metric
latency_metric rt request status_code latency =
    observe "pixtools_api_request_latency_seconds"
      (cat request.method
        (cat " " (cat (route_template request) (cat " " (rt.str_int status_code)))))
      latency

-- What comes before `start`.
unfoldable pub before_request : (now : ℕ) → Broker → HttpRequest → Gauges → Gauges
before_request now broker request g =
    if request.path == "/metrics" then refresh_queue_depth_metrics false now broker g else g

module _ {p : Platform} where
  -- `try: m` with a `finally`
  abbrev pub ensuring : {A : Type 0} → Action p A → (Result A → World p → World p) → Action p A
  ensuring m cleanup w = let (r, w') = m w in (r, cleanup r w')

  abbrev pub tagged : (call_next : Action p HttpResponse) → String → Action p HttpResponse
  tagged call_next rid = do response ← call_next; pure (with_header "X-Request-ID" rid response)

  unfoldable pub request_id_middleware :
      (call_next : HttpRequest → Action p HttpResponse) → HttpRequest → Action p HttpResponse
  request_id_middleware call_next request = do
    n ← uuid4
    let rid = or_default (lookup "X-Request-ID" request.headers) (p.runtime.uuid_str n)
    before ← gets (λ w. w.request_id)
    modify (λ w. record w { request_id = rid })
    ensuring (tagged (call_next request) rid) (λ _ w. record w { request_id = before })

  -- The `finally` of `request_metrics_middleware`; the clock does not go back.
  abbrev pub observed : HttpRequest → (start : ℕ) → Result HttpResponse → World p → World p
  observed request start r w = record w {
    metrics =
        w.metrics ++ latency_metric p.runtime request (status_of r) (w.monotonic - start) ∷ [];
  }

  -- `request_metrics_middleware` from its `start` on
  unfoldable pub timed :
      (call_next : HttpRequest → Action p HttpResponse) → HttpRequest → Action p HttpResponse
  timed call_next request = do
    start ← gets (λ w. w.monotonic)
    ensuring (call_next request) (observed request start)

  -- The whole of it, with the module's state of app/metrics.py at the time `now`.
  unfoldable pub request_metrics_middleware :
      (now : ℕ)
      → Broker
      → (call_next : HttpRequest → Action p HttpResponse) → HttpRequest
      → Gauges × World p
      → Result HttpResponse × (Gauges × World p)
  request_metrics_middleware now broker call_next request (g, w) =
      let (r, w') = timed call_next request w in (r, (before_request now broker request g, w'))

  -- `register_request_id_middleware` and then `register_request_metrics_middleware`: the one that is
  -- registered last is the outer one.
  unfoldable pub served :
      (now : ℕ)
      → Broker
      → (handler : HttpRequest → Action p HttpResponse) → HttpRequest
      → Gauges × World p
      → Result HttpResponse × (Gauges × World p)
  served now broker handler = request_metrics_middleware now broker (request_id_middleware handler)
