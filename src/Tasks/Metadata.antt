-- ===== src/Tasks/Metadata.antt =====
-- The task `extract_metadata` of app/tasks/metadata.py.
pub mod Outcome
use pix_tools.Base.{
  ℕ, ◌-◌, String, Bool, true, false, not, ◌&&◌, Option, none, some, List, [], ◌∷◌, lookup,
  or_default, ◌==◌, if◌then◌else◌, Exn, Result, ok, err,
}
use pix_tools.Json.{Fields, end}
use pix_tools.Models.{Job, JobStatus, completed, completed_webhook_failed, status_value}
use pix_tools.Runtime.{Runtime}
use pix_tools.Platform.{Platform}
use pix_tools.Pillow.{Pillow}
use pix_tools.World.{
  World, Action, count, observe, gets, pure, lift, when, record_metric, retrying, ◌>>=◌, ◌>>◌,
}
use pix_tools.Webhook.{notify_job_update}
use pix_tools.Images.Convert.{download_raw}
use pix_tools.Metadata.Values.{Exif}
use pix_tools.Metadata.Extract.{exif_metadata_of}
use pix_tools.Tasks.Rows.{get_row, commit_row, update_row}

-- `float | str | None` of a time, where it is given
pub data Stamp : Type 0 where
  at : ℕ → Stamp
  written : String → Stamp

-- `float(raw)`, `None` for a `ValueError`
abbrev pub read_stamp : Runtime → Option Stamp → Option ℕ
read_stamp rt none = none
read_stamp rt (some (at t)) = some t
read_stamp rt (some (written s)) = rt.time_of_str s

-- The header first, then the argument.
unfoldable pub parse_enqueued_at : Runtime → List (String × String) → Option Stamp → Option ℕ
parse_enqueued_at rt headers fallback = elim (lookup "X-Job-Enqueued-At" headers) [
  | some raw ↦ rt.time_of_str raw
  | none ↦ read_stamp rt fallback
]

-- `d or {}`
abbrev pub or_empty : Option (List (String × String)) → Option (List (String × String))
or_empty d = some (or_default d [])

-- The row after the extraction.
abbrev pub extracted : (mark_completed : Bool) → Fields → Job → Job
extracted false metadata job = record job { exif_metadata = some metadata }
extracted true metadata job = record job {
  exif_metadata = some metadata;
  status = completed;
  result_urls = or_empty job.result_urls;
  result_keys = or_empty job.result_keys;
}

abbrev pub webhook_failed : Job → Job
webhook_failed job = record job { status = completed_webhook_failed }

module _ {p : Platform} where
  -- `try: action` with `except Exception: handler`
  abbrev pub recover : {A : Type 0} → Action p A → Action p A → Action p A
  recover m handler w = let (r, w') = m w in elim r [ ok a ↦ (ok a, w') | err _ ↦ handler w' ]

  -- the webhook of a job that has no other result
  unfoldable pub notify_extracted : (webhook_url job_id : String) → Action p Bool
  notify_extracted webhook_url job_id =
      if webhook_url == ""
      then pure true
      else (recover
          (do
            delivered ← notify_job_update webhook_url job_id (status_value completed) []
            when (not delivered) (update_row job_id webhook_failed)
            pure delivered)
          (do update_row job_id webhook_failed; pure false))

  abbrev pub completion_metrics : Option ℕ → JobStatus → Action p (Unit {0})
  completion_metrics enqueued_at final_status = do
    now ← gets (λ w. w.now)
    elim enqueued_at [
      | none ↦ pure tt
      | some t ↦ record_metric (observe "pixtools_job_end_to_end_seconds" "" (now - t))
    ]
    record_metric (count "pixtools_job_status_total" (status_value final_status))

  -- what follows the commit of a job that the task completes
  unfoldable pub complete_extracted : (webhook_url job_id : String) → Option ℕ → Action p (Unit {0})
  complete_extracted webhook_url job_id enqueued_at = do
    delivered ← notify_extracted webhook_url job_id
    completion_metrics enqueued_at (if delivered then completed else completed_webhook_failed)

  -- the part of the task after its row has been read
  abbrev pub save_found :
      (mark_completed : Bool) (job_id : String) → Option ℕ → Fields → Option Job → Action p Fields
  save_found mark_completed job_id enqueued_at metadata none = pure end
  save_found mark_completed job_id enqueued_at metadata (some job) = do
    commit_row (extracted mark_completed metadata job)
    when mark_completed (complete_extracted job.webhook_url job_id enqueued_at)
    pure metadata

  -- the part of the task after the download
  unfoldable pub save_metadata :
      (mark_completed : Bool) (job_id : String) → Option ℕ → Fields → Action p Fields
  save_metadata mark_completed job_id enqueued_at metadata = do
    found ← get_row job_id
    save_found mark_completed job_id enqueued_at metadata found

  module _ {pil : Pillow} (x : Exif pil) where
    unfoldable pub extract_exif_metadata : String → Action p Fields
    extract_exif_metadata s3_raw_key = do
      image ← download_raw pil s3_raw_key
      lift (exif_metadata_of x image)

    unfoldable pub extract_metadata :
        (Exn → Exn)
        → List (String × String)
        → (job_id s3_raw_key : String) (mark_completed : Bool) (enqueued_at : Option Stamp)
        → Action p Fields
    extract_metadata celery_retry headers job_id s3_raw_key mark_completed enqueued_at =
        retrying celery_retry (do
          metadata ← extract_exif_metadata s3_raw_key
          save_metadata mark_completed job_id (parse_enqueued_at p.runtime headers enqueued_at)
              metadata)
