-- ===== src/System/Exposed/Runs.antt =====
-- The metrics that the whole system records.
use pix_tools.Base.{
  String, true, ◌≡◌, refl, ap, ◌∙◌, Option, List, [], arith, inl, inr, Exn, Result, Result-cases,
  Option-cases,
}
use pix_tools.Json.{Fields}
use pix_tools.Platform.{Platform, Bytes}
use pix_tools.Pillow.{Pillow}
use pix_tools.World.{World}
use pix_tools.Metadata.Values.{Exif}
use pix_tools.Denoise.{Model, not_loaded, loaded, denoise}
use pix_tools.Denoise.Network.{Torch}
use pix_tools.Denoise.Stored.{denoise_outcome}
use pix_tools.Images.Convert.Stored.{IsAllOrNothing, retrying-convert_outcome}
use pix_tools.Tasks.Router.{start_pipeline}
use pix_tools.Dag.{build_dag}
use pix_tools.Jobs.{Request, Accepted, validate}
use pix_tools.Jobs.Create.{dispatch, submit, create_job_body, with_db, create_job}
use pix_tools.Jobs.Create.Stored.{earlier_job_unchanged}
use pix_tools.Jobs.Get.{get_job, get_job_body, urls_of, archive_url_of, keys_of}
use pix_tools.Jobs.Get.Laws.{fresh_urls_total}
use pix_tools.Store.{
  generate_presigned_url, object_exists, upload_raw, upload_archive_bytes, base_name,
}
use pix_tools.Idempotency.{set_idempotency}
use pix_tools.Tasks.Archive.{bundle_results}
use pix_tools.Tasks.Metadata.{Stamp}
use pix_tools.Tasks.Maintenance.{prune_expired_jobs}
use pix_tools.System.Bundling.{collect_members_unchanged}
use pix_tools.System.Requests.{with_db_ends}
use pix_tools.System.Steps.{
  TaskStep, starts, ends, retries, fails, converts, extracts, denoises, routes, finalizes, bundles,
  elsewhere, Step, task, requests, polls, prunes, Run, here, next,
}
use pix_tools.Metrics.Families.{all_declared}
use pix_tools.System.Exposed.{
  is_exposed, on_task_prerun-is_exposed, on_task_postrun-is_exposed, on_task_retry-is_exposed,
  on_task_failure-is_exposed,
}
use pix_tools.System.Exposed.Finishing.{finalize_job-is_exposed, extract_metadata-is_exposed}

module _ {p : Platform} where
  stored-metrics :
      (pil : Pillow) (work : pil.Image → Result Bytes) (celery_retry : Exn → Exn)
      (id raw fmt op : String) (v : World p) (r : Result String × World p)
      → IsAllOrNothing pil work celery_retry id raw fmt op v r
      → r.1.metrics ≡ v.metrics
  stored-metrics pil work celery_retry id raw fmt op v r (inl (_, _, _, state)) =
      ap (λ u. u.metrics) state
  stored-metrics pil work celery_retry id raw fmt op v r (inr (_, _, inl state)) =
      ap (λ u. u.metrics) state
  stored-metrics pil work celery_retry id raw fmt op v r (inr (_, _, inr state)) =
      ap (λ u. u.metrics) state

  denoise-metrics :
      {pil : Pillow} (torch : Torch pil) (celery_retry : Exn → Exn) (model : Model)
      (id raw : String) (params : Option Fields) (v : World p)
      → (denoise torch celery_retry model id raw params v).1.metrics ≡ v.metrics
  unfolding denoise
  denoise-metrics torch celery_retry not_loaded id raw params v = refl
  denoise-metrics {pil = pil} torch celery_retry loaded id raw params v =
      stored-metrics pil _ celery_retry id raw "PNG" "denoise" v _
        (denoise_outcome torch celery_retry id raw params v)

  submit-metrics : (r : Request) (v : Accepted) (w : World p) → (submit r v w).1.metrics ≡ w.metrics
  unfolding submit upload_raw set_idempotency dispatch build_dag
  submit-metrics r v w = ground arith

  create_job_body-metrics :
      (r : Request) (w : World p) → (create_job_body r w).1.metrics ≡ w.metrics
  unfolding create_job_body
  create_job_body-metrics r w = elim (Result-cases (validate p.runtime p.settings r)) [
    | inr (e, q) ↦ ground (arith, q)
    | inl (v, q) ↦
        ground (arith, q, earlier_job_unchanged r.idempotency_key w, submit-metrics r v w)
  ]

  create_job-metrics : (r : Request) (w : World p) → (create_job r w).1.metrics ≡ w.metrics
  unfolding create_job
  create_job-metrics r w = elim (with_db_ends (create_job_body r) w) [
    | inl back ↦ ap (λ (u : World p). u.metrics) back ∙ create_job_body-metrics r w
    | inr kept ↦ ap (λ (u : World p). u.metrics) kept ∙ create_job_body-metrics r w
  ]

  get_job-metrics : (id : String) (w : World p) → (get_job id w).1.metrics ≡ w.metrics
  unfolding get_job with_db get_job_body urls_of archive_url_of object_exists generate_presigned_url
  get_job-metrics id w = elim (Option-cases (p.row id w.jobs)) [
    | inl gone ↦ ground (arith, gone)
    | inr (job, there) ↦
        ground
          (arith, there, (fresh_urls_total (base_name job.original_filename) (keys_of job) [] w).1)
  ]

  prune_expired_jobs-metrics :
      (celery_retry : Exn → Exn) (w : World p)
      → (prune_expired_jobs celery_retry w).1.metrics ≡ w.metrics
  unfolding prune_expired_jobs
  prune_expired_jobs-metrics celery_retry w = ground arith

  bundle_results-metrics :
      (zip : List (String × Bytes) → Bytes) (celery_retry : Exn → Exn) (id : String)
      (keys : List (String × String)) (filename : Option String) (w : World p)
      → (bundle_results zip celery_retry id keys filename w).1.metrics ≡ w.metrics
  unfolding bundle_results upload_archive_bytes
  bundle_results-metrics zip celery_retry id keys filename w =
      ground (arith, collect_members_unchanged (base_name filename) keys w)

  start_pipeline-metrics :
      (id raw : String) (operations : List String) (params : List (String × Fields))
      (request_id : String) (enqueued_at : Option Stamp) (w : World p)
      → (start_pipeline id raw operations params request_id enqueued_at w).1.metrics ≡ w.metrics
  unfolding start_pipeline dispatch build_dag
  start_pipeline-metrics id raw operations params request_id enqueued_at w = ground arith

module _ {p : Platform} {pil : Pillow} (x : Exif pil) (torch : Torch pil)
    (zip : List (String × Bytes) → Bytes) (celery_retry : Exn → Exn) where
  -- A step outside of the code records no metric.
  abbrev pub IsSilent : {v w : World p} → Step x torch zip celery_retry v w → Type 0
  IsSilent {v = v} {w = w} (task (elsewhere _ _)) = w.metrics ≡ v.metrics
  IsSilent _ = Unit {0}

  abbrev pub AllSilent : {v w : World p} → Run x torch zip celery_retry v w → Type 0
  AllSilent here = Unit {0}
  AllSilent (next r s) = AllSilent r × IsSilent s

  TaskStep-is_exposed :
      (v w : World p) (s : TaskStep x torch zip celery_retry v w)
      → IsSilent (task s)
      → is_exposed w ≡ is_exposed v
  TaskStep-is_exposed v w (starts t e) q =
      ap (λ (u : World p). is_exposed u) e ∙ (on_task_prerun-is_exposed t v)
  TaskStep-is_exposed v w (ends t e) q =
      ap (λ (u : World p). is_exposed u) e ∙ (on_task_postrun-is_exposed t v)
  TaskStep-is_exposed v w (retries t e) q =
      ap (λ (u : World p). is_exposed u) e ∙ (on_task_retry-is_exposed t v)
  TaskStep-is_exposed v w (fails t text e) q =
      ap (λ (u : World p). is_exposed u) e ∙ (on_task_failure-is_exposed t text v)
  TaskStep-is_exposed v w (converts id raw fmt op params e) q =
      ap (λ (u : World p). is_exposed u) e
      ∙ ap all_declared (
          stored-metrics pil _ celery_retry id raw fmt op v _
            (retrying-convert_outcome pil celery_retry id raw fmt op params v))
  TaskStep-is_exposed v w (extracts headers id raw mark stamp e) q =
      ap (λ (u : World p). is_exposed u) e
      ∙ (extract_metadata-is_exposed x celery_retry headers id raw mark stamp v)
  TaskStep-is_exposed v w (denoises model id raw params e) q =
      ap (λ (u : World p). is_exposed u) e
      ∙ ap all_declared (denoise-metrics torch celery_retry model id raw params v)
  TaskStep-is_exposed v w (routes id raw ops params request_id stamp e) q =
      ap (λ (u : World p). is_exposed u) e
      ∙ ap all_declared (start_pipeline-metrics id raw ops params request_id stamp v)
  TaskStep-is_exposed v w (finalizes headers results id e) q =
      ap (λ (u : World p). is_exposed u) e ∙ (finalize_job-is_exposed headers results id v)
  TaskStep-is_exposed v w (bundles id keys filename e) q =
      ap (λ (u : World p). is_exposed u) e
      ∙ ap all_declared (bundle_results-metrics zip celery_retry id keys filename v)
  TaskStep-is_exposed v w (elsewhere jobs session) q = ap all_declared q

  Step-is_exposed :
      (v w : World p) (s : Step x torch zip celery_retry v w)
      → IsSilent s
      → is_exposed w ≡ is_exposed v
  Step-is_exposed v w (task s) q = TaskStep-is_exposed v w s q
  Step-is_exposed v w (requests r e) q =
      ap (λ (u : World p). is_exposed u) e ∙ ap all_declared (create_job-metrics r v)
  Step-is_exposed v w (polls id e) q =
      ap (λ (u : World p). is_exposed u) e ∙ ap all_declared (get_job-metrics id v)
  Step-is_exposed v w (prunes e) q =
      ap (λ (u : World p). is_exposed u) e
      ∙ ap all_declared (prune_expired_jobs-metrics celery_retry v)

  -- However requests, polls, tasks, signal handlers and pruning interleave, and whatever fails: if
  -- what happens outside of them records no metric, and the metrics at the start are all declared in
  -- app/metrics.py, then so are the metrics at every later time. Each is counted only if its family
  -- is a counter, observed only if that is a histogram, and has no label where that has none.
  pub Run-is_exposed :
      {v w : World p} (r : Run x torch zip celery_retry v w)
      → AllSilent r
      → is_exposed v ≡ true
      → is_exposed w ≡ true
  Run-is_exposed here q h = h
  Run-is_exposed (next r s) (q, silent) h = Step-is_exposed _ _ s silent ∙ Run-is_exposed r q h
