-- ===== src/Metrics/Families.antt =====
-- The metric families of app/metrics.py, and the uses of a metric that its family allows. Buckets are
-- in milliseconds.
use pix_tools.Base.{
  ℕ, String, Bool, true, false, not, ◌&&◌, ◌||◌, ◌≡◌, List, [], ◌∷◌, ◌++◌, is_empty, ◌==◌, arith,
}
use pix_tools.World.{Metric, count, observe}

pub data Kind : Type 0 where
  counter gauge histogram : Kind

pub record Family : Type 0 where
  pub kind : Kind
  pub name : String
  pub documentation : String
  pub labels : List String
  pub buckets : List ℕ

abbrev api_request_latency_seconds : Family
api_request_latency_seconds = record {
  kind = histogram;
  name = "pixtools_api_request_latency_seconds";
  documentation = "API request latency in seconds.";
  labels = "method" ∷ "path" ∷ "status_code" ∷ [];
  buckets = 5 ∷ 10 ∷ 25 ∷ 50 ∷ 100 ∷ 250 ∷ 500 ∷ 1000 ∷ 2500 ∷ 5000 ∷ 10000 ∷ [];
}

abbrev job_status_total : Family
job_status_total = record {
  kind = counter;
  name = "pixtools_job_status_total";
  documentation = "Total jobs observed by final status.";
  labels = "status" ∷ [];
  buckets = [];
}

abbrev task_retry_total : Family
task_retry_total = record {
  kind = counter;
  name = "pixtools_task_retry_total";
  documentation = "Total Celery task retries.";
  labels = "task_name" ∷ [];
  buckets = [];
}

abbrev task_failure_total : Family
task_failure_total = record {
  kind = counter;
  name = "pixtools_task_failure_total";
  documentation = "Total Celery task failures.";
  labels = "task_name" ∷ [];
  buckets = [];
}

abbrev worker_task_processing_seconds : Family
worker_task_processing_seconds = record {
  kind = histogram;
  name = "pixtools_worker_task_processing_seconds";
  documentation = "Worker task processing time in seconds.";
  labels = "task_name" ∷ [];
  buckets =
      50 ∷ 100 ∷ 250 ∷ 500 ∷ 1000 ∷ 2500 ∷ 5000 ∷ 10000 ∷ 30000 ∷ 60000 ∷ 120000 ∷ 300000 ∷ [];
}

abbrev job_queue_wait_seconds : Family
job_queue_wait_seconds = record {
  kind = histogram;
  name = "pixtools_job_queue_wait_seconds";
  documentation = "Queue wait time from enqueue to worker start.";
  labels = "task_name" ∷ [];
  buckets = 10 ∷ 50 ∷ 100 ∷ 250 ∷ 500 ∷ 1000 ∷ 2500 ∷ 5000 ∷ 10000 ∷ 30000 ∷ 60000 ∷ 120000 ∷ [];
}

abbrev job_end_to_end_seconds : Family
job_end_to_end_seconds = record {
  kind = histogram;
  name = "pixtools_job_end_to_end_seconds";
  documentation = "End-to-end job duration from enqueue to finalize.";
  labels = [];
  buckets =
      100 ∷ 250 ∷ 500 ∷ 1000 ∷ 2500 ∷ 5000 ∷ 10000 ∷ 30000 ∷ 60000 ∷ 120000 ∷ 300000 ∷ 600000 ∷ [];
}

abbrev webhook_circuit_transition_total : Family
webhook_circuit_transition_total = record {
  kind = counter;
  name = "pixtools_webhook_circuit_transition_total";
  documentation = "Circuit breaker transition count.";
  labels = "old_state" ∷ "new_state" ∷ [];
  buckets = [];
}

abbrev webhook_delivery_total : Family
webhook_delivery_total = record {
  kind = counter;
  name = "pixtools_webhook_delivery_total";
  documentation = "Webhook delivery attempts by outcome.";
  labels = "result" ∷ [];
  buckets = [];
}

abbrev rabbitmq_queue_depth : Family
rabbitmq_queue_depth = record {
  kind = gauge;
  name = "pixtools_rabbitmq_queue_depth";
  documentation = "RabbitMQ queue depth.";
  labels = "queue" ∷ [];
  buckets = [];
}

abbrev rabbitmq_queue_consumers : Family
rabbitmq_queue_consumers = record {
  kind = gauge;
  name = "pixtools_rabbitmq_queue_consumers";
  documentation = "RabbitMQ queue consumers.";
  labels = "queue" ∷ [];
  buckets = [];
}

abbrev rabbitmq_up : Family
rabbitmq_up = record {
  kind = gauge;
  name = "pixtools_rabbitmq_up";
  documentation = "RabbitMQ broker connectivity (1=up, 0=down).";
  labels = [];
  buckets = [];
}

-- The names of the module, in its order.
abbrev families : List Family
families =
    api_request_latency_seconds ∷ job_status_total ∷ task_retry_total ∷ task_failure_total
    ∷ worker_task_processing_seconds ∷ job_queue_wait_seconds ∷ job_end_to_end_seconds
    ∷ webhook_circuit_transition_total ∷ webhook_delivery_total ∷ rabbitmq_queue_depth
    ∷ rabbitmq_queue_consumers ∷ rabbitmq_up ∷ []

abbrev is_kind : Kind → Kind → Bool
is_kind counter counter = true
is_kind gauge gauge = true
is_kind histogram histogram = true
is_kind _ _ = false

-- The family of a use of a metric: it is of the kind that has the method, and a use has no label where
-- it has none.
abbrev allows : Kind → (name label : String) → Family → Bool
allows kind name label f =
    name == f.name && (is_kind kind f.kind && (not (is_empty f.labels) || label == ""))

unfoldable pub any_allows : Kind → (name label : String) → List Family → Bool
any_allows kind name label [] = false
any_allows kind name label (f ∷ fs) = allows kind name label f || any_allows kind name label fs

unfoldable pub is_declared : Metric → Bool
is_declared (count name label) = any_allows counter name label families
is_declared (observe name label ticks) = any_allows histogram name label families

unfoldable pub all_declared : List Metric → Bool
all_declared [] = true
all_declared (m ∷ ms) = is_declared m && all_declared ms

pub all_declared-append :
    (ms : List Metric) (m : Metric)
    → all_declared (ms ++ m ∷ []) ≡ (all_declared ms && is_declared m)
unfolding all_declared
all_declared-append [] m = ground arith
all_declared-append (n ∷ ms) m = ground (arith, all_declared-append ms m)
