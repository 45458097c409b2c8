-- ===== src/Middleware/Served.antt =====
-- What a request meets on its way to the handler and back.
use pix_tools.Base.{
  ℕ, suc, ◌-◌, String, false, if◌then◌else◌, ◌==◌, ◌≡◌, refl, ◌⊎◌, inl, inr, some, or_default, [],
  ◌∷◌, ◌++◌, lookup, lookup-insert, eq_refl, Exn, Result, ok, err, arith, Result-cases,
}
use pix_tools.Platform.{Platform}
use pix_tools.World.{World, Action}
use pix_tools.Metrics.{Gauges, Broker}
use pix_tools.Metrics.{refresh_queue_depth_metrics}
use pix_tools.Middleware.{
  HttpRequest, HttpResponse, with_header, latency_metric, request_id_middleware, timed,
  before_request, request_metrics_middleware, served,
}

module _ {p : Platform} (handler : HttpRequest → Action p HttpResponse) (request : HttpRequest)
    (w : World p) (now : ℕ) (broker : Broker) (g : Gauges) where
  -- The id of the request: its own, or a new UUID.
  abbrev pub id_of : String
  id_of = or_default (lookup "X-Request-ID" request.headers) (p.runtime.uuid_str w.drawn)

  -- The world that the handler starts in, and what it comes to.
  abbrev pub entered : World p
  entered = record w { drawn = suc w.drawn; request_id = id_of }

  abbrev pub handled : Result HttpResponse × World p
  handled = handler request entered

  -- The status under which a result is observed.
  abbrev pub observed_status : Result HttpResponse → ℕ
  observed_status (ok response) = response.status_code
  observed_status (err e) = 500

  -- The handler runs with the request's own id, or a new one, as the correlation id, and whatever it
  -- returns or raises: the correlation id is what it was before the request, and one latency is
  -- observed behind the handler's own metrics, under the status of the response, or 500 for an
  -- exception. The gauges of the queues are refreshed for the path "/metrics" and for no other. An
  -- exception goes on, and a response gets the id as its header. Nothing else changes.
  pub served_lem :
      let (answer, (g', w')) = served now broker handler request (g, w) in
      (w' ≡ record (handled.1) {
        request_id = w.request_id;
        metrics =
            handled.1.metrics
            ++ latency_metric p.runtime request
                (observed_status handled.0)
                (handled.1.monotonic - w.monotonic)
              ∷ [];
      })
      × (g' ≡ (
          if request.path == "/metrics" then refresh_queue_depth_metrics false now broker g else g))
      × (((response : HttpResponse) × (handled.0 ≡ ok response)
            × (answer ≡ ok (with_header "X-Request-ID" id_of response))
            × (lookup "X-Request-ID" (with_header "X-Request-ID" id_of response).headers
                ≡ some id_of))
          ⊎ ((e : Exn) × (handled.0 ≡ err e) × (answer ≡ err e)))
  unfolding served before_request timed request_metrics_middleware request_id_middleware
  served_lem = elim (Result-cases handled.0) [
    | inl (response, e) ↦ (
      ground (arith, e),
      refl,
      inl (
        response,
        e,
        ground (arith, e),
        ground (
          arith,
          lookup-insert "X-Request-ID" "X-Request-ID" id_of response.headers,
          eq_refl "X-Request-ID",
        ),
      ),
    )
    | inr (x, e) ↦ (ground (arith, e), refl, inr (x, e, ground (arith, e)))
  ]
