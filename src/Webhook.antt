-- ===== src/Webhook.antt =====
-- `notify_job_update` of app/services/webhook.py. What comes of the POST and of the circuit breaker
-- around it is the state's `delivery`.
use Prim.Native.String.{◌++◌ as cat}
use pix_tools.Base.{
  Option, or_default, String, Bool, true, false, not, ◌||◌, ◌&&◌, List, [], ◌∷◌, ◌++◌, ◌==◌, ◌≡◌,
  if◌then◌else◌, arith, ok,
}
use pix_tools.Platform.{Platform}
use pix_tools.World.{
  World, Action, Metric, Delivery, delivered, circuit_open, undelivered, count, gets, pure, modify,
  record_metric, ◌>>=◌, ◌>>◌,
}

abbrev delivery_metric : String
delivery_metric = "pixtools_webhook_delivery_total"

-- The metric of `_WebhookCircuitMetricsListener.state_change`: the names of the states, or
-- "unknown", with a blank between.
abbrev pub state_change : (old_state new_state : Option String) → Metric
state_change old_state new_state =
    count "pixtools_webhook_circuit_transition_total"
      (cat (or_default old_state "unknown") (cat " " (or_default new_state "unknown")))

-- Whether a notification counts as delivered.
abbrev pub is_delivered : Delivery → Bool
is_delivered delivered = true
is_delivered _ = false

module _ {p : Platform} where
  unfoldable pub notify_job_update :
      (webhook_url job_id status : String) (result_urls : List (String × String)) → Action p Bool
  notify_job_update webhook_url job_id status result_urls =
      if webhook_url == ""
      then (record_metric (count delivery_metric "no_webhook") >> pure true)
      else do
        outcome ← gets (λ w. w.delivery webhook_url)
        elim outcome [
          | delivered ↦ do
            modify (λ w. record w {
              received =
                  w.received
                  ++ (
                    webhook_url,
                    record { job_id = job_id; status = status; result_urls = result_urls },
                  )
                    ∷ [];
            })
            record_metric (count delivery_metric "success")
            pure true
          | circuit_open ↦ record_metric (count delivery_metric "circuit_open") >> pure false
          | undelivered ↦ record_metric (count delivery_metric "error") >> pure false
        ]

  -- A notification returns true exactly when there is no URL or the payload was delivered, and the
  -- payload is received exactly when there is a URL and it was delivered. It never raises.
  notify_job_update_result :
      (url job_id status : String) (urls : List (String × String)) (w : World p)
      → ((notify_job_update url job_id status urls w).0
          ≡ ok (url == "" || is_delivered (w.delivery url)))
        × ((notify_job_update url job_id status urls w).1.received ≡ (
            if not (url == "") && is_delivered (w.delivery url)
            then w.received
              ++ (url, record { job_id = job_id; status = status; result_urls = urls }) ∷ []
            else w.received))
  unfolding notify_job_update
  notify_job_update_result url job_id status urls w = (ground arith, ground arith)

  -- It leaves all but the metrics and the received payloads alone.
  pub notify_job_update_jobs :
      (url job_id status : String) (urls : List (String × String)) (w : World p)
      → (notify_job_update url job_id status urls w).1.jobs ≡ w.jobs
  unfolding notify_job_update
  notify_job_update_jobs url job_id status urls w = ground arith
