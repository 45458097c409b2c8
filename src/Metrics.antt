-- ===== src/Metrics.antt =====
-- `refresh_queue_depth_metrics` of app/metrics.py: the gauges of the queues, refreshed at most every
-- five seconds. Times are in nanoseconds, the resolution of the clock.
pub mod Rate
pub mod Families
use pix_tools.Base.{
  ℕ, ◌-◌, String, Bool, true, false, not, ◌&&◌, Option, none, some, List, [], ◌∷◌, ◌++◌, insert,
  ltb, if◌then◌else◌,
}

-- `_QUEUE_NAMES`
abbrev pub queue_names : List String
queue_names = "default_queue" ∷ "ml_inference_queue" ∷ "dead_letter" ∷ []

-- The module's state: `_last_queue_refresh_monotonic`, and the gauges by queue. `connections` are the
-- times at which a connection to the broker was opened.
pub record Gauges : Type 0 where
  pub last_refresh : ℕ
  pub depth : List (String × ℕ)
  pub consumers : List (String × ℕ)
  pub up : Bool
  pub connections : List ℕ

-- The module as it is loaded: a gauge without labels starts at 0.
abbrev pub unset : Gauges
unset = record { last_refresh = 0; depth = []; consumers = []; up = false; connections = [] }

-- The broker during one call: whether a connection with a channel can be opened, and what a passive
-- declaration of a queue returns, `none` for an exception.
pub record Broker : Type 0 where
  pub reachable : Bool
  pub declared : String → Option (ℕ × ℕ)

abbrev pub interval : ℕ
interval = 5000000000

-- The body of `try`: the loop over the queues, which an exception ends.
unfoldable pub read_queues : Broker → List String → Gauges → Gauges
read_queues broker [] g = record g { up = true }
read_queues broker (queue_name ∷ names) g = elim (broker.declared queue_name) [
  | none ↦ record g { up = false }
  | some (message_count, consumer_count) ↦ read_queues broker names (record g {
    depth = insert queue_name message_count g.depth;
    consumers = insert queue_name consumer_count g.consumers;
  })
]

abbrev pub read_broker : Broker → Gauges → Gauges
read_broker broker g =
    if broker.reachable then read_queues broker queue_names g else record g { up = false }

-- `refresh_queue_depth_metrics(force)` at a time of the monotonic clock
unfoldable pub refresh_queue_depth_metrics : (force : Bool) (now : ℕ) → Broker → Gauges → Gauges
refresh_queue_depth_metrics force now broker g =
    if not force && ltb (now - g.last_refresh) interval
    then g
    else read_broker broker
        (record g { last_refresh = now; connections = g.connections ++ now ∷ [] })
