-- ===== src/World.antt =====
-- The state that the program's processes share, and their actions on it: state and exceptions. The
-- state comes back after an exception too, since what was sent stays sent.
pub mod Rules
use pix_tools.Base.{
  ℕ, suc, String, Bool, true, false, Option, List, [], ◌∷◌, ◌++◌, if◌then◌else◌, Call, Exn,
  unavailable, Result, ok, err,
}
use pix_tools.Json.{Fields}
use pix_tools.Models.{Job}
use pix_tools.Platform.{Platform}

-- The keyword arguments of the tasks that the modelled code sends.
pub data Kwargs : Type 0 where
  operation : (job_id s3_raw_key : String) (params : Fields) → Kwargs
  finalize : (job_id : String) → Kwargs
  extract : (job_id s3_raw_key : String) (mark_completed : Bool) → Kwargs
  bundle :
      (job_id : String) (result_keys : List (String × String)) (original_filename : Option String)
      → Kwargs

-- `celery_app.signature(task, kwargs, headers)`
pub record Signature : Type 0 where
  pub task : String
  pub kwargs : Kwargs
  pub headers : List (String × String)

-- What goes to RabbitMQ: `chord(group(header))(body)`, or one `apply_async`.
pub data Message : Type 0 where
  chord : (header : List Signature) (body : Signature) → Message
  single : Signature → Message

-- A counter with its label, or an observation of a histogram.
pub data Metric : Type 0 where
  count : (name label : String) → Metric
  observe : (name label : String) (ticks : ℕ) → Metric

-- What a POST to a webhook comes to: `deliver_webhook` returns, the circuit breaker is open, or
-- `deliver_webhook` raises.
pub data Delivery : Type 0 where
  delivered circuit_open undelivered : Delivery

-- The payload of a webhook.
pub record Payload : Type 0 where
  pub job_id : String
  pub status : String
  pub result_urls : List (String × String)

pub record World (p : Platform) : Type 0 where
  pub jobs : p.Table
  -- the rows of the open API session that are not committed yet
  pub session : List Job
  pub cache : p.Cache
  pub bucket : p.Bucket
  -- oldest first
  pub published : List Message
  pub metrics : List Metric
  -- the webhook payloads that were received, with their URLs
  pub received : List (String × Payload)
  -- `time.time()` and `time.monotonic()`
  pub now : ℕ
  pub monotonic : ℕ
  -- how many UUIDs have been drawn
  pub drawn : ℕ
  -- the context variables of app/logging_config.py
  pub request_id : String
  pub job_id : String
  -- `_task_start_times`
  pub task_start_times : List (String × ℕ)
  -- the calls that fail now, and what a POST to a URL comes to
  pub fails : Call → Bool
  pub delivery : String → Delivery

abbrev pub Action : Platform → Type 0 → Type 0
Action p A = World p → Result A × World p

module _ {p : Platform} {A : Type 0} where
  abbrev pub pure : A → Action p A
  pure a w = (ok a, w)

  abbrev pub raise : Exn → Action p A
  raise e w = (err e, w)

  abbrev pub lift : Result A → Action p A
  lift r w = (r, w)

  abbrev pub gets : (World p → A) → Action p A
  gets f w = (ok (f w), w)

infixl 5 ◌>>=◌ ◌>>◌
abbrev pub ◌>>=◌ : {p : Platform} {A B : Type 0} → Action p A → (A → Action p B) → Action p B
◌>>=◌ m f w = let (r, w') = m w in elim r [ ok a ↦ f a w' | err e ↦ (err e, w') ]

abbrev pub ◌>>◌ : {p : Platform} {A B : Type 0} → Action p A → Action p B → Action p B
m >> k = m >>= λ _. k

module _ {p : Platform} where
  abbrev pub modify : (World p → World p) → Action p (Unit {0})
  modify f w = (ok tt, f w)

  -- A call that leaves the process, and fails or returns.
  abbrev pub call : Call → Action p (Unit {0})
  call c w = (if w.fails c then err (unavailable c) else ok tt, w)

  -- `if test: action`
  abbrev pub when : Bool → Action p (Unit {0}) → Action p (Unit {0})
  when true m = m
  when false m = pure tt

  -- `try: action` with an `except Exception` that only logs
  abbrev pub attempt : Action p (Unit {0}) → Action p (Unit {0})
  attempt m w = (ok tt, (m w).1)

  -- `labels(...).inc()` and `labels(...).observe(t)`
  abbrev pub record_metric : Metric → Action p (Unit {0})
  record_metric m = modify (λ w. record w { metrics = w.metrics ++ m ∷ [] })

  -- `apply_async` and `chord(...)(...)`
  abbrev pub publish : Call → Message → Action p (Unit {0})
  publish c m = call c >> modify (λ w. record w { published = w.published ++ m ∷ [] })

  -- `uuid.uuid4()`, as its number
  abbrev pub uuid4 : Action p ℕ
  uuid4 w = (ok w.drawn, record w { drawn = suc w.drawn })

module _ {p : Platform} {A : Type 0} where
  -- `try: action` with `except Exception as exc: raise self.retry(exc=exc)`. What `self.retry`
  -- raises is Celery's choice.
  abbrev pub reraise : (Exn → Exn) → Result A × World p → Result A × World p
  reraise celery_retry (ok a, w) = (ok a, w)
  reraise celery_retry (err e, w) = (err (celery_retry e), w)

  abbrev pub retrying : (Exn → Exn) → Action p A → Action p A
  retrying celery_retry m w = reraise celery_retry (m w)
