-- ===== src/System/Exposed/Finishing.antt =====
-- The metrics that the finalizer and the metadata task record.
use pix_tools.Base.{
  ℕ, String, Bool, ◌≡◌, refl, Option, none, some, List, [], ◌∷◌, ◌++◌, ◌∙◌, arith, Exn, ◌-◌, inl,
  inr, Option-cases, Bool-cases, ap,
}
use pix_tools.Models.{JobStatus, status_value, Job, completed, completed_webhook_failed}
use pix_tools.Platform.{Platform}
use pix_tools.World.{World, count, observe}
use pix_tools.Base.{Result-cases, ok, db_get, db_commit, if◌then◌else◌}
use pix_tools.Store.{base_name}
use pix_tools.Tasks.Rows.{save_row, get_row, commit_row}
use pix_tools.Tasks.Finalize.Outcome.{collect_urls_total}
use pix_tools.Tasks.Metadata.{
  notify_extracted, complete_extracted, save_metadata, extract_metadata, extract_exif_metadata,
  extracted, Stamp,
}
use pix_tools.Tasks.Metadata.Outcome.{extract_exif_metadata_unchanged}
use pix_tools.Metadata.Values.{Exif}
use pix_tools.Pillow.{Pillow}
use pix_tools.Json.{Fields}
use pix_tools.World.{◌>>◌}
use pix_tools.World.Rules.{bind_ok}
use pix_tools.Tasks.Finalize.{
  deliver, final_metrics, conclude, send_bundle, finalize_job, collect_keys, filename_of,
  finished_job, commit_finished, finalize_found, collect_urls,
}
use pix_tools.System.Exposed.{
  status_declared, end_to_end_declared, recorded, is_exposed, notify_job_update-is_exposed,
}

module _ {p : Platform} where
  final_metrics-is_exposed :
      (enqueued_at : Option ℕ) (status : JobStatus) (w : World p)
      → is_exposed (final_metrics enqueued_at status w).1 ≡ is_exposed w
  final_metrics-is_exposed none status w =
      recorded w.metrics (count "pixtools_job_status_total" (status_value status))
        (status_declared (status_value status))
  final_metrics-is_exposed (some s) status w =
      let waited = observe "pixtools_job_end_to_end_seconds" "" (w.now - s) in
      recorded (w.metrics ++ waited ∷ []) (count "pixtools_job_status_total" (status_value status))
        (status_declared (status_value status))
      ∙ recorded w.metrics waited (end_to_end_declared (w.now - s))

  deliver-is_exposed :
      (id : String) (found : Option Job) (urls : List (String × String)) (w : World p)
      → is_exposed (deliver id found urls w).1 ≡ is_exposed w
  unfolding deliver
  deliver-is_exposed id none urls w = refl
  deliver-is_exposed id (some job) urls w =
      ground
        (arith, notify_job_update-is_exposed job.webhook_url id (status_value completed) urls w)

  conclude-is_exposed :
      (headers : List (String × String)) (id : String) (found : Option Job)
      (urls keys : List (String × String)) (w : World p)
      → is_exposed (conclude headers id found urls keys w).1 ≡ is_exposed w
  conclude-is_exposed headers id found urls keys w =
      let w1 = (send_bundle headers id found keys w).1 in
      let sent : w1.metrics ≡ w.metrics = ground arith in
      let w2 = (deliver id found urls w1).1 in
      elim (Result-cases (deliver id found urls w1).0) [
        | inl (status, q) ↦ ground (
          arith,
          sent,
          q,
          deliver-is_exposed id found urls w1,
          final_metrics-is_exposed (pix_tools.Tasks.Finalize.parse_enqueued_at p.runtime headers)
              status w2,
        )
        | inr (e, q) ↦ ground (arith, sent, q, deliver-is_exposed id found urls w1)
      ]

  commit_finished-is_exposed :
      (headers : List (String × String)) (id : String) (found : Option Job)
      (urls keys : List (String × String)) (w : World p)
      → is_exposed ((commit_finished urls keys found >> conclude headers id found urls keys) w).1
        ≡ is_exposed w
  commit_finished-is_exposed headers id none urls keys w =
      conclude-is_exposed headers id none urls keys w
  commit_finished-is_exposed headers id (some job) urls keys w =
      let new = finished_job completed urls keys job in
      elim (Bool-cases (w.fails db_commit)) [
        | inl down ↦ ground (arith, down)
        | inr up ↦
            let saved : commit_row new w ≡ (ok tt, save_row new w) = ground (arith, up) in
            ap (λ r. is_exposed r.1)
              (bind_ok (commit_row new) (λ _. conclude headers id (some job) urls keys) w
                (save_row new w) tt saved)
            ∙ conclude-is_exposed headers id (some job) urls keys (save_row new w)
      ]

  pub finalize_job-is_exposed :
      (headers : List (String × String)) (results : List (Option String)) (id : String)
      (w : World p)
      → is_exposed (finalize_job headers results id w).1 ≡ is_exposed w
  unfolding finalize_job
  finalize_job-is_exposed headers results id w =
      let found = p.row id w.jobs in
      let keys = collect_keys results [] in
      let (urls, signed) = collect_urls_total (base_name (filename_of found)) results [] w in
      elim (Bool-cases (w.fails db_get)) [
        | inl down ↦ ground (arith, down)
        | inr up ↦
            let read : get_row id w ≡ (ok found, w) = ground (arith, up) in
            ap (λ r. is_exposed r.1)
              (bind_ok (get_row id) (finalize_found headers results id) w w found read
                ∙ bind_ok (collect_urls (base_name (filename_of found)) results [])
                    (λ result_urls.
                      commit_finished result_urls keys found
                      >> conclude headers id found result_urls keys)
                    w w urls signed)
            ∙ commit_finished-is_exposed headers id found urls keys w
      ]

  notify_extracted-is_exposed :
      (url id : String) (w : World p) → is_exposed (notify_extracted url id w).1 ≡ is_exposed w
  unfolding notify_extracted
  notify_extracted-is_exposed url id w =
      ground (arith, notify_job_update-is_exposed url id (status_value completed) [] w)

  complete_extracted-is_exposed :
      (url id : String) (enqueued_at : Option ℕ) (w : World p)
      → is_exposed (complete_extracted url id enqueued_at w).1 ≡ is_exposed w
  unfolding complete_extracted
  complete_extracted-is_exposed url id enqueued_at w =
      let w1 = (notify_extracted url id w).1 in
      let noted = notify_extracted-is_exposed url id w in
      elim (Result-cases (notify_extracted url id w).0) [
        | inl (delivered, q) ↦ ground (
          arith,
          q,
          noted,
          final_metrics-is_exposed enqueued_at
              (if delivered then completed else completed_webhook_failed) w1,
        )
        | inr (e, q) ↦ ground (arith, q, noted)
      ]

  save_metadata-is_exposed :
      (mark : Bool) (id : String) (enqueued_at : Option ℕ) (metadata : Fields) (w : World p)
      → is_exposed (save_metadata mark id enqueued_at metadata w).1 ≡ is_exposed w
  unfolding save_metadata
  save_metadata-is_exposed mark id enqueued_at metadata w = elim (Option-cases (p.row id w.jobs)) [
    | inl missing ↦ ground (arith, missing)
    | inr (job, there) ↦
        let saved = save_row (extracted mark metadata job) w in
        ground (arith, there, complete_extracted-is_exposed job.webhook_url id enqueued_at saved)
  ]

  pub extract_metadata-is_exposed :
      {pil : Pillow} (x : Exif pil) (celery_retry : Exn → Exn) (headers : List (String × String))
      (id key : String) (mark : Bool) (enqueued_at : Option Stamp) (w : World p)
      → is_exposed (extract_metadata x celery_retry headers id key mark enqueued_at w).1
        ≡ is_exposed w
  unfolding extract_metadata
  extract_metadata-is_exposed x celery_retry headers id key mark enqueued_at w =
      let same = extract_exif_metadata_unchanged x key w in
      elim (Result-cases (extract_exif_metadata x key w).0) [
        | inl (metadata, q) ↦ ground (
          arith,
          q,
          same,
          save_metadata-is_exposed mark id
              (pix_tools.Tasks.Metadata.parse_enqueued_at p.runtime headers enqueued_at) metadata w,
        )
        | inr (e, q) ↦ ground (arith, q, same)
      ]
