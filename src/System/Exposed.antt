-- ===== src/System/Exposed.antt =====
-- The metrics that the workers record.
pub mod Finishing
pub mod Runs
use pix_tools.Base.{
  ℕ, String, Bool, true, ◌&&◌, ◌≡◌, refl, Option, none, some, List, [], ◌∷◌, ◌++◌, ◌∙◌, arith, Exn,
  ◌-◌, inl, inr, Option-cases, Bool-cases, ap, lookup,
}
use pix_tools.Models.{JobStatus, status_value, Job, processing, completed, completed_webhook_failed}
use pix_tools.Platform.{Platform}
use pix_tools.World.{World, Action, Metric, count, observe}
use pix_tools.Metrics.Families.{any_allows, is_declared, all_declared, all_declared-append}
use pix_tools.Tasks.Lifecycle.{
  Task, job_id_of, request_id_of, parse_enqueued_at, set_job_status, on_task_prerun,
  on_task_postrun, on_task_retry, on_task_failure,
}
use pix_tools.Tasks.Lifecycle.Laws.{is_tracked}
use pix_tools.Base.{Result-cases, ok, db_get, db_commit, if◌then◌else◌}
use pix_tools.Store.{base_name}
use pix_tools.Tasks.Rows.{save_row, get_row, commit_row}
use pix_tools.Tasks.Finalize.Outcome.{collect_urls_total}
use pix_tools.Tasks.Metadata.{
  notify_extracted, complete_extracted, save_metadata, extract_metadata, extract_exif_metadata,
  extracted, Stamp,
}
use pix_tools.Tasks.Metadata.Outcome.{extract_exif_metadata_unchanged}
use pix_tools.Metadata.Values.{Exif}
use pix_tools.Pillow.{Pillow}
use pix_tools.Json.{Fields}
use pix_tools.World.{◌>>◌}
use pix_tools.World.Rules.{bind_ok}
use pix_tools.Tasks.Finalize.{
  deliver, final_metrics, conclude, send_bundle, finalize_job, collect_keys, filename_of,
  finished_job, commit_finished, finalize_found, collect_urls,
}
use pix_tools.Jobs.{truthy}
use pix_tools.Webhook.{state_change, notify_job_update}

module _ (label : String) where
  failure_declared : is_declared (count "pixtools_task_failure_total" label) ≡ true
  unfolding is_declared any_allows
  failure_declared = refl

  retry_declared : is_declared (count "pixtools_task_retry_total" label) ≡ true
  unfolding is_declared any_allows
  retry_declared = refl

  pub status_declared : is_declared (count "pixtools_job_status_total" label) ≡ true
  unfolding is_declared any_allows
  status_declared = refl

  delivery_declared : is_declared (count "pixtools_webhook_delivery_total" label) ≡ true
  unfolding is_declared any_allows
  delivery_declared = refl

  wait_declared : (t : ℕ) → is_declared (observe "pixtools_job_queue_wait_seconds" label t) ≡ true
  unfolding is_declared any_allows
  wait_declared t = refl

  processing_declared :
      (t : ℕ) → is_declared (observe "pixtools_worker_task_processing_seconds" label t) ≡ true
  unfolding is_declared any_allows
  processing_declared t = refl

pub end_to_end_declared :
    (t : ℕ) → is_declared (observe "pixtools_job_end_to_end_seconds" "" t) ≡ true
unfolding is_declared any_allows
end_to_end_declared t = refl

-- So is what the listener of the circuit breaker counts.
state_change_declared :
    (old_state new_state : Option String) → is_declared (state_change old_state new_state) ≡ true
unfolding is_declared any_allows
state_change_declared old_state new_state = refl

pub recorded :
    (ms : List Metric) (m : Metric)
    → is_declared m ≡ true
    → all_declared (ms ++ m ∷ []) ≡ all_declared ms
recorded ms m h = ground (arith, all_declared-append ms m, h)

module _ {p : Platform} where
  abbrev pub is_exposed : World p → Bool
  is_exposed w = all_declared w.metrics

  pub on_task_retry-is_exposed :
      (t : Task) (w : World p) → is_exposed (on_task_retry t w).1 ≡ is_exposed w
  unfolding on_task_retry
  on_task_retry-is_exposed t w =
      recorded w.metrics (count "pixtools_task_retry_total" t.name) (retry_declared t.name)

  pub notify_job_update-is_exposed :
      (url job_id status : String) (urls : List (String × String)) (w : World p)
      → is_exposed (notify_job_update url job_id status urls w).1 ≡ is_exposed w
  unfolding notify_job_update
  notify_job_update-is_exposed url job_id status urls w =
      let add = λ (l : String).
        recorded w.metrics (count "pixtools_webhook_delivery_total" l) (delivery_declared l) in
      ground (arith, add "no_webhook", add "success", add "circuit_open", add "error")

  set_job_status-metrics :
      (id : Option String) (status : JobStatus) (message : Option String) (w : World p)
      → (set_job_status id status message w).1.metrics ≡ w.metrics
  unfolding set_job_status
  set_job_status-metrics id status message w = ground arith

  pub on_task_failure-is_exposed :
      (t : Task) (exception : Option String) (w : World p)
      → is_exposed (on_task_failure t exception w).1 ≡ is_exposed w
  unfolding on_task_failure set_job_status
  on_task_failure-is_exposed t e w = ground (
    arith,
    recorded w.metrics (count "pixtools_task_failure_total" t.name) (failure_declared t.name),
  )

  prerun_timed-metrics :
      (t : Task) (w : World p) (s : ℕ)
      → parse_enqueued_at p.runtime t.headers t.kwargs ≡ some s
      → (on_task_prerun (some t) w).1.metrics
        ≡ w.metrics ++ observe "pixtools_job_queue_wait_seconds" t.name (w.now - s) ∷ []
  unfolding on_task_prerun set_job_status
  prerun_timed-metrics t w s there = elim (Bool-cases (is_tracked t)) [
    | inl tracked ↦ ground (arith, there, tracked)
    | inr untracked ↦ ground (arith, there, untracked)
  ]

  prerun_untimed-metrics :
      (t : Task) (w : World p)
      → parse_enqueued_at p.runtime t.headers t.kwargs ≡ none
      → (on_task_prerun (some t) w).1.metrics ≡ w.metrics
  unfolding on_task_prerun set_job_status
  prerun_untimed-metrics t w nothing = elim (Bool-cases (is_tracked t)) [
    | inl tracked ↦ ground (arith, nothing, tracked)
    | inr untracked ↦ ground (arith, nothing, untracked)
  ]

  pub on_task_prerun-is_exposed :
      (t : Option Task) (w : World p) → is_exposed (on_task_prerun t w).1 ≡ is_exposed w
  unfolding on_task_prerun
  on_task_prerun-is_exposed none w = refl
  on_task_prerun-is_exposed (some t) w =
      elim (Option-cases (parse_enqueued_at p.runtime t.headers t.kwargs)) [
        | inl nothing ↦ ap all_declared (prerun_untimed-metrics t w nothing)
        | inr (s, there) ↦
            ap all_declared (prerun_timed-metrics t w s there)
            ∙ recorded w.metrics (observe "pixtools_job_queue_wait_seconds" t.name (w.now - s))
                (wait_declared t.name (w.now - s))
      ]

  pub on_task_postrun-is_exposed :
      (t : Task) (w : World p) → is_exposed (on_task_postrun t w).1 ≡ is_exposed w
  unfolding on_task_postrun
  on_task_postrun-is_exposed t w = elim (Option-cases (truthy t.task_id)) [
    | inl nothing ↦ ground (arith, nothing)
    | inr (id, known) ↦ elim (Option-cases (lookup id w.task_start_times)) [
      | inl unseen ↦ ground (arith, known, unseen)
      | inr (s, seen) ↦ ground (
        arith,
        known,
        seen,
        recorded w.metrics
            (observe "pixtools_worker_task_processing_seconds" t.name (w.monotonic - s))
            (processing_declared t.name (w.monotonic - s)),
      )
    ]
  ]
