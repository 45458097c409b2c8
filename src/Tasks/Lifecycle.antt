-- ===== src/Tasks/Lifecycle.antt =====
-- app/tasks/celery_app.py: job status and telemetry around every task.
pub mod Laws
use pix_tools.Base.{
  ℕ, ◌-◌, String, Bool, true, false, not, ◌&&◌, ◌||◌, Option, none, some, List, [], ◌∷◌, lookup,
  insert, keep, is_in, ◌==◌, if◌then◌else◌, or_default, is_empty,
}
use text.Mathlib.Text.{starts_with}
use pix_tools.Models.{Job, JobStatus, processing, failed}
use pix_tools.Platform.{Platform}
use pix_tools.Runtime.{Runtime}
use pix_tools.World.{
  World, Action, count, observe, gets, modify, pure, when, attempt, record_metric, ◌>>=◌, ◌>>◌,
}
use pix_tools.Jobs.{truthy}
use pix_tools.Tasks.Rows.{update_row}

-- A task as the signal handlers see it: the keyword arguments and headers that are texts.
pub record Task : Type 0 where
  pub task_id : Option String
  pub name : String
  pub kwargs : List (String × String)
  pub headers : List (String × String)

-- The header first, then the keyword argument; `None` if there is neither or it is no number.
unfoldable pub parse_enqueued_at : Runtime → (headers kwargs : List (String × String)) → Option ℕ
parse_enqueued_at rt headers kwargs = elim (lookup "X-Job-Enqueued-At" headers) [
  | some raw ↦ rt.time_of_str raw
  | none ↦ elim (lookup "enqueued_at" kwargs) [ none ↦ none | some raw ↦ rt.time_of_str raw ]
]

abbrev pub with_status : JobStatus → Option String → Job → Job
with_status status error_message job = elim (truthy error_message) [
  | none ↦ record job { status = status }
  | some message ↦ record job { status = status; error_message = some message }
]

-- Tasks that do not put their job into PROCESSING.
abbrev pub is_bookkeeping : String → Bool
is_bookkeeping name =
    starts_with name "app.tasks.finalize."
    || starts_with name "app.tasks.archive."
    || starts_with name "app.tasks.maintenance."

abbrev pub job_id_of : Task → String
job_id_of t = or_default (lookup "job_id" t.kwargs) (or_default (lookup "X-Job-ID" t.headers) "N/A")

abbrev pub request_id_of : Task → String
request_id_of t =
    or_default (lookup "X-Request-ID" t.headers) (or_default (lookup "request_id" t.kwargs) "N/A")

-- `d.pop(k, None)`: the dict without the key
abbrev pub without {ℓ} : {V : Type ℓ} → String → List (String × V) → List (String × V)
without k d = keep (λ e. not (e.0 == k)) d

module _ {p : Platform} where
  unfoldable pub set_job_status : Option String → JobStatus → Option String → Action p (Unit {0})
  set_job_status job_id status error_message = elim (truthy job_id) [
    | none ↦ pure tt
    | some id ↦ attempt (update_row id (with_status status error_message))
  ]

  -- `job_queue_wait_seconds`
  abbrev queue_wait : Task → Action p (Unit {0})
  queue_wait t = do
    started_at ← gets (λ w. w.now)
    elim (parse_enqueued_at p.runtime t.headers t.kwargs) [
      | none ↦ pure tt
      | some enqueued_at ↦
          record_metric
            (observe "pixtools_job_queue_wait_seconds" t.name (started_at - enqueued_at))
    ]

  -- the handler for a task
  task_started : Task → Action p (Unit {0})
  task_started t = do
    modify (λ w. record w { job_id = job_id_of t; request_id = request_id_of t })
    queue_wait t
    when (not (is_in (job_id_of t) ("" ∷ "N/A" ∷ [])) && not (is_bookkeeping t.name))
        (set_job_status (some (job_id_of t)) processing none)
    elim (truthy t.task_id) [
      | none ↦ pure tt
      | some id ↦
          modify (λ w. record w { task_start_times = insert id w.monotonic w.task_start_times })
    ]

  unfoldable pub on_task_prerun : Option Task → Action p (Unit {0})
  unfolding task_started
  on_task_prerun none = pure tt
  on_task_prerun (some t) = task_started t

  -- the duration of a task whose start is known
  abbrev duration : Task → String → Action p (Unit {0})
  duration t id = do
    started ← gets (λ w. lookup id w.task_start_times)
    modify (λ w. record w { task_start_times = without id w.task_start_times })
    finished ← gets (λ w. w.monotonic)
    elim started [
      | none ↦ pure tt
      | some s ↦
          record_metric (observe "pixtools_worker_task_processing_seconds" t.name (finished - s))
    ]

  unfoldable pub on_task_postrun : Task → Action p (Unit {0})
  on_task_postrun t = do
    elim (truthy t.task_id) [ none ↦ pure tt | some id ↦ duration t id ]
    modify (λ w. record w { request_id = "N/A"; job_id = "N/A" })

  unfoldable pub on_task_retry : Task → Action p (Unit {0})
  on_task_retry t = record_metric (count "pixtools_task_retry_total" t.name)

  -- `exception` is the text of the exception, if there is one
  unfoldable pub on_task_failure : Task → Option String → Action p (Unit {0})
  on_task_failure t exception = do
    let job_id = lookup "job_id" t.kwargs
    set_job_status job_id failed (some (or_default exception "unknown"))
    record_metric (count "pixtools_task_failure_total" t.name)
