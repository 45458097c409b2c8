-- ===== src/Tasks/Finalize.antt =====
-- `finalize_job` of app/tasks/finalize.py, the callback of a job's chord.
pub mod Keys
pub mod Outcome
pub mod Repeated
use pix_tools.Base.{
  ℕ, ◌-◌, String, Bool, true, false, not, ◌&&◌, Option, none, some, List, [], ◌∷◌, lookup, insert,
  is_empty, is_some, or_default, ◌==◌, if◌then◌else◌, publish_task,
}
use pix_tools.Base.Text.{before_first, after_last}
use pix_tools.Models.{Job, JobStatus, completed, completed_webhook_failed, status_value}
use pix_tools.Platform.{Platform}
use pix_tools.Runtime.{Runtime}
use pix_tools.World.{
  World, Action, Signature, single, bundle, count, observe, gets, modify, pure, when, attempt,
  record_metric, publish, ◌>>=◌, ◌>>◌,
}
use pix_tools.Store.{base_name, download_name, generate_presigned_url}
use pix_tools.Webhook.{notify_job_update}
use pix_tools.Jobs.{truthy}
use pix_tools.Tasks.Rows.{get_row, commit_row, update_row}

-- `s3_key.split("/")[-1]`, and the operation and extension that it names
abbrev pub file_part : String → String
file_part s3_key = after_last "/" s3_key

abbrev pub op_of_key : String → String
op_of_key s3_key = before_first "_" (file_part s3_key)

abbrev pub ext_of_key : String → String
ext_of_key s3_key = after_last "." (file_part s3_key)

-- `{"job_id": job_id, "status": status.value, "result_urls": result_urls}`
pub record Finalized : Type 0 where
  pub job_id : String
  pub status : String
  pub result_urls : List (String × String)

unfoldable pub parse_enqueued_at : Runtime → List (String × String) → Option ℕ
parse_enqueued_at rt headers = elim (lookup "X-Job-Enqueued-At" headers) [
  | none ↦ none
  | some raw ↦ rt.time_of_str raw
]

abbrev pub filename_of : Option Job → Option String
filename_of none = none
filename_of (some job) = truthy job.original_filename

-- One round of the loop over `results`, on the dict `result_keys`.
unfoldable pub add_key : Option String → List (String × String) → List (String × String)
add_key r ks = elim (truthy r) [ none ↦ ks | some s3_key ↦ insert (op_of_key s3_key) s3_key ks ]

unfoldable pub collect_keys : List (Option String) → List (String × String) → List (String × String)
collect_keys [] ks = ks
collect_keys (r ∷ rs) ks = collect_keys rs (add_key r ks)

abbrev pub finished_job : JobStatus → (urls keys : List (String × String)) → Job → Job
finished_job status urls keys job = record job {
  status = status;
  result_urls = some urls;
  result_keys = some keys;
}

abbrev pub bundle_signature : String → List (String × String) → Option String → String → Signature
bundle_signature job_id result_keys original_filename request_id = record {
  task = "app.tasks.archive.bundle_results";
  kwargs = bundle job_id result_keys original_filename;
  headers = ("X-Request-ID", request_id) ∷ [];
}

module _ {p : Platform} where
  -- The same round on the dict `result_urls`.
  unfoldable pub add_url :
      String → Option String → List (String × String) → Action p (List (String × String))
  add_url orig_name r urls = elim (truthy r) [
    | none ↦ pure urls
    | some s3_key ↦ do
      url ←
          generate_presigned_url s3_key
            (some (download_name (op_of_key s3_key) orig_name (ext_of_key s3_key)))
      pure (insert (op_of_key s3_key) url urls)
  ]

  unfoldable pub collect_urls :
      String → List (Option String) → List (String × String) → Action p (List (String × String))
  collect_urls orig_name [] urls = pure urls
  collect_urls orig_name (r ∷ rs) urls = do
    next ← add_url orig_name r urls
    collect_urls orig_name rs next

  -- the archive task, whose failure is only logged
  abbrev pub send_bundle :
      List (String × String) → String → Option Job → List (String × String) → Action p (Unit {0})
  send_bundle headers job_id found result_keys =
      when (is_some found && not (is_empty result_keys)) (
        attempt (
          publish publish_task (
            single (
              bundle_signature job_id result_keys (filename_of found)
                (or_default (lookup "X-Request-ID" headers) "N/A")))))

  -- the row, read again after a webhook that was not delivered
  abbrev pub mark_undelivered : Option Job → Action p JobStatus
  mark_undelivered none = pure completed
  mark_undelivered (some row) = do
    commit_row (record row { status = completed_webhook_failed })
    pure completed_webhook_failed

  abbrev pub after_delivery : String → Bool → Action p JobStatus
  after_delivery job_id true = pure completed
  after_delivery job_id false = do again ← get_row job_id; mark_undelivered again

  -- the webhook, and the status after it
  unfoldable pub deliver : String → Option Job → List (String × String) → Action p JobStatus
  deliver job_id none urls = pure completed
  deliver job_id (some job) urls = do
    delivered ←
        if job.webhook_url == ""
        then pure true
        else notify_job_update job.webhook_url job_id (status_value completed) urls
    after_delivery job_id delivered

  -- the metrics of a finished job
  abbrev pub final_metrics : Option ℕ → JobStatus → Action p (Unit {0})
  final_metrics enqueued_at status = do
    now ← gets (λ w. w.now)
    elim enqueued_at [
      | none ↦ pure tt
      | some t ↦ record_metric (observe "pixtools_job_end_to_end_seconds" "" (now - t))
    ]
    record_metric (count "pixtools_job_status_total" (status_value status))

  -- `if job: ... session.commit()`
  abbrev pub commit_finished :
      (urls keys : List (String × String)) → Option Job → Action p (Unit {0})
  commit_finished urls keys none = pure tt
  commit_finished urls keys (some job) = commit_row (finished_job completed urls keys job)

  -- what follows the commit
  abbrev pub conclude :
      List (String × String)
      → String
      → Option Job
      → (urls keys : List (String × String)) → Action p Finalized
  conclude headers job_id found result_urls result_keys = do
    send_bundle headers job_id found result_keys
    status ← deliver job_id found result_urls
    final_metrics (parse_enqueued_at p.runtime headers) status
    pure (record { job_id = job_id; status = status_value status; result_urls = result_urls })

  -- the task after its row has been read
  abbrev pub finalize_found :
      List (String × String) → List (Option String) → String → Option Job → Action p Finalized
  finalize_found headers results job_id found = do
    let result_keys = collect_keys results []
    result_urls ← collect_urls (base_name (filename_of found)) results []
    commit_finished result_urls result_keys found
    conclude headers job_id found result_urls result_keys

  unfoldable pub finalize_job :
      List (String × String) → List (Option String) → String → Action p Finalized
  finalize_job headers results job_id = do
    found ← get_row job_id
    finalize_found headers results job_id found
