-- ===== src/Tasks/Queues.antt =====
-- The queues, the routing table and the settings of Celery in app/tasks/celery_app.py.
pub mod Routed
use Prim.Native.String.{◌++◌}
use pix_tools.Base.Text.{has}
use pix_tools.Base.{
  ℕ, String, Bool, true, false, ◌≡◌, ◌≢◌, ◌&&◌, ◌||◌, Option, none, some, is_some, List, [], ◌∷◌,
  lookup, keys, is_in, ◌==◌, if◌then◌else◌,
}

-- `Queue(name, exchange, routing_key, queue_arguments)`, the arguments being the dead letter exchange
-- and its routing key.
pub record Queue : Type 0 where
  pub name : String
  pub exchange : String
  pub routing_key : String
  pub dead_letter : Option (String × String)

abbrev default_queue : (name routing_key : String) → Queue
default_queue name routing_key = record {
  name = name;
  exchange = "default";
  routing_key = routing_key;
  dead_letter = some ("dlx", "dead_letter");
}

abbrev pub task_queues : List Queue
task_queues =
    default_queue "default_queue" "default"
    ∷ default_queue "ml_inference_queue" "ml_inference"
    ∷ record {
      name = "dead_letter";
      exchange = "dlx";
      routing_key = "dead_letter";
      dead_letter = none;
    }
    ∷ []

abbrev pub ml_queue_name : (ml_queue_isolation_enabled : Bool) → String
ml_queue_name enabled = if enabled then "ml_inference_queue" else "default_queue"

abbrev pub task_routes : (ml_queue_isolation_enabled : Bool) → List (String × String)
task_routes enabled =
    ("app.tasks.router.*", "default_queue")
    ∷ ("app.tasks.ml_ops.denoise", ml_queue_name enabled)
    ∷ ("app.tasks.image_ops.*", "default_queue")
    ∷ ("app.tasks.archive.*", "default_queue")
    ∷ ("app.tasks.metadata.*", "default_queue")
    ∷ ("app.tasks.maintenance.*", "default_queue")
    ∷ ("app.tasks.finalize.*", "default_queue")
    ∷ []

-- The task of `beat_schedule`.
abbrev pub scheduled_task : String
scheduled_task = "app.tasks.maintenance.prune_expired_jobs"

-- The other fields of `celery_app.conf`; times are in seconds.
pub record Conf : Type 0 where
  pub task_acks_late : Bool
  pub task_reject_on_worker_lost : Bool
  pub worker_prefetch_multiplier : ℕ
  pub broker_connection_retry_on_startup : Bool
  pub broker_heartbeat : ℕ
  pub accept_content : List String
  pub task_serializer : String
  pub result_serializer : String
  pub task_time_limit : ℕ
  pub task_soft_time_limit : ℕ
  pub task_default_retry_delay : ℕ

abbrev pub conf : Conf
conf = record {
  task_acks_late = true;
  task_reject_on_worker_lost = true;
  worker_prefetch_multiplier = 1;
  broker_connection_retry_on_startup = true;
  broker_heartbeat = 0;
  accept_content = "json" ∷ [];
  task_serializer = "json";
  result_serializer = "json";
  task_time_limit = 300;
  task_soft_time_limit = 290;
  task_default_retry_delay = 5;
}

abbrev pub find_queue : String → List Queue → Option Queue
find_queue name [] = none
find_queue name (q ∷ qs) = if q.name == name then some q else find_queue name qs

abbrev pub is_bound : (exchange routing_key : String) → List Queue → Bool
is_bound exchange routing_key [] = false
is_bound exchange routing_key (q ∷ qs) =
    q.exchange == exchange && q.routing_key == routing_key || is_bound exchange routing_key qs

-- The queue is declared, and what it rejects goes to a queue that is declared too.
abbrev pub is_dead_lettered : String → Bool
is_dead_lettered name = elim (find_queue name task_queues) [
  | none ↦ false
  | some q ↦ elim q.dead_letter [
    | none ↦ false
    | some (exchange, routing_key) ↦ is_bound exchange routing_key task_queues
  ]
]

-- How Celery routes a task by such a table.
pub record Router : Type 0 where
  pub route : List (String × String) → String → Option String
  -- A name without a star that is a key has the queue of that key.
  pub route_exact :
      (routes : List (String × String)) (name queue : String)
      → has "*" name ≡ false
      → lookup name routes ≡ some queue
      → route routes name ≡ some queue
  -- A key that ends in a star takes every name that goes on after what stands before the star.
  pub route_star :
      (routes : List (String × String)) (start rest name : String)
      → is_in (start ++ "*") (keys routes) ≡ true
      → name ≡ start ++ rest
      → rest ≢ ""
      → is_some (route routes name) ≡ true
  -- The queue is one of the table's.
  pub route_listed :
      (routes : List (String × String)) (name queue : String)
      → route routes name ≡ some queue
      → (key : String) × (lookup key routes ≡ some queue)
