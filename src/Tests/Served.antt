-- ===== src/Tests/Served.antt =====
-- A request with an id of its own, and its way to a handler, in memory.
use pix_tools.Base.{◌-◌, false, ◌≡◌, ◌⊎◌, Option, some, [], ◌∷◌, ◌++◌, lookup, Exn, ok, err}
use pix_tools.World.{Action, pure}
use pix_tools.Memory.{memory}
use pix_tools.Metrics.{Broker, unset, refresh_queue_depth_metrics}
use pix_tools.Middleware.{HttpRequest, HttpResponse, status_of, with_header, latency_metric, served}
use pix_tools.Middleware.Served.{handled, served_lem}
use pix_tools.Tests.Tasks.{start}

abbrev scrape : HttpRequest
scrape = record {
  method = "GET";
  path = "/metrics";
  route = some "/metrics";
  headers = ("X-Request-ID", "r7") ∷ [];
}

abbrev exposition : HttpRequest → Action memory HttpResponse
exposition request = pure (record { status_code = 200; headers = [] })

abbrev down : Broker
down = record { reachable = false; declared = λ name. Option.none }

served_lem_example :
    let (answer, (g', w')) = served 6000000000 down exposition scrape (unset, start) in
    let (r, later) = handled exposition scrape start 6000000000 down unset in
    (w' ≡ record later {
      request_id = "r1";
      metrics =
          later.metrics
          ++ latency_metric memory.runtime scrape (status_of r) (later.monotonic - start.monotonic)
            ∷ [];
    })
    × (g' ≡ refresh_queue_depth_metrics false 6000000000 down unset)
    × (((response : HttpResponse) × (r ≡ ok response)
          × (answer ≡ ok (with_header "X-Request-ID" "r7" response))
          × (lookup "X-Request-ID" (with_header "X-Request-ID" "r7" response).headers ≡ some "r7"))
        ⊎ ((e : Exn) × (r ≡ err e) × (answer ≡ err e)))
served_lem_example = served_lem exposition scrape start 6000000000 down unset
