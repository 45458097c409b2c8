-- ===== src/System/Extraction.antt =====
-- The metadata task, as the rows see it.
use pix_tools.Base.{
  ℕ, String, Bool, true, false, not, ◌≡◌, refl, ap, Option, none, some, List, [], ◌==◌,
  if◌then◌else◌, Exn, arith,
}
use pix_tools.Json.{Fields}
use pix_tools.Models.{Job, JobStatus, completed, completed_webhook_failed, status_value}
use pix_tools.Platform.{Platform}
use pix_tools.Pillow.{Pillow}
use pix_tools.World.{World, pure, when, ◌>>=◌, ◌>>◌}
use pix_tools.World.Rules.{
  Relation, Keeps, Rel-refl, Rel-bind, Keeps-pure, Keeps-bind, Keeps-quiet, Keeps-retrying,
  Keeps-if, Keeps-when,
}
use pix_tools.Webhook.{notify_job_update}
use pix_tools.Metadata.Values.{Exif}
use pix_tools.Tasks.Rows.{commit_row, update_row}
use pix_tools.Tasks.Metadata.{
  Stamp, extracted, webhook_failed, notify_extracted, completion_metrics, complete_extracted,
  save_found, save_metadata, extract_exif_metadata, extract_metadata, parse_enqueued_at,
}
use pix_tools.Tasks.Metadata.Outcome.{extract_exif_metadata_unchanged}
use pix_tools.System.Spec.{describe, complete, step, move}
use pix_tools.System.Rows.{IsChanged, Evolves, evolution, commit_row-Evolves, get_row-Evolves}
use pix_tools.System.Guarded.{
  guarded, Keeps-webhook_failed, Keeps-notify_job_update, Keeps-recover, commit_row-Evolves_done,
}

extracted-IsChanged :
    (mark : Bool) (metadata : Fields) (job : Job) → IsChanged job (extracted mark metadata job)
extracted-IsChanged true metadata job = record {
  id = refl;
  operations = refl;
  webhook_url = refl;
  s3_raw_key = refl;
  original_filename = refl;
  created_at = refl;
  pending_never = λ q. cc;
  results_stay = λ q. refl;
  exif_stays = λ q. refl;
  sound_stays = λ q. refl;
  path = step (move (describe _ refl)) (complete _ refl);
}
extracted-IsChanged false metadata job = record {
  id = refl;
  operations = refl;
  webhook_url = refl;
  s3_raw_key = refl;
  original_filename = refl;
  created_at = refl;
  pending_never = λ q. q;
  results_stay = λ q. q;
  exif_stays = λ q. refl;
  sound_stays = λ q. q;
  path = move (describe _ refl);
}

module _ {p : Platform} (id : String) where
  notify_extracted-Keeps : (url : String) → Keeps (guarded {p = p} id) (notify_extracted url id)
  unfolding notify_extracted
  notify_extracted-Keeps url =
      let r = guarded id in
      let mark = Keeps-webhook_failed id in
      Keeps-if r (url == "") (pure true) _ (Keeps-pure r true) (
        Keeps-recover r _ _
          (Keeps-bind r (notify_job_update url id (status_value completed) []) _
            (Keeps-notify_job_update r url id (status_value completed) [])
            (λ delivered.
              Keeps-bind r (when (not delivered) (update_row id webhook_failed))
                (λ _. pure delivered)
                (Keeps-when r (not delivered) (update_row id webhook_failed) mark)
                (λ _. Keeps-pure r delivered)))
          (Keeps-bind r (update_row id webhook_failed) (λ _. pure false) mark
            (λ _. Keeps-pure r false)))

  completion_metrics-Keeps :
      (r : Relation p) (enqueued_at : Option ℕ) (status : JobStatus)
      → Keeps r (completion_metrics {p = p} enqueued_at status)
  completion_metrics-Keeps r enqueued_at status =
      Keeps-quiet r (completion_metrics enqueued_at status) (λ w. ground arith) (λ w. ground arith)

  complete_extracted-Keeps :
      (url : String) (enqueued_at : Option ℕ)
      → Keeps (guarded {p = p} id) (complete_extracted url id enqueued_at)
  unfolding complete_extracted
  complete_extracted-Keeps url enqueued_at =
      Keeps-bind (guarded id) (notify_extracted url id)
        (λ delivered.
          completion_metrics enqueued_at
            (if delivered then completed else completed_webhook_failed))
        (notify_extracted-Keeps url)
        (λ delivered. completion_metrics-Keeps (guarded id) enqueued_at _)

  save_found-Evolves :
      (mark : Bool) (enqueued_at : Option ℕ) (metadata : Fields) (w : World p) (found : Option Job)
      → p.row id w.jobs ≡ found
      → Evolves w (save_found mark id enqueued_at metadata found w).1
  save_found-Evolves mark enqueued_at metadata w none there = Rel-refl evolution w
  save_found-Evolves true enqueued_at metadata w (some job) there =
      let finish = complete_extracted job.webhook_url id enqueued_at in
      commit_row-Evolves_done id job (extracted true metadata job) (finish >> pure metadata) w there
        (extracted-IsChanged true metadata job) refl
        (Keeps-bind (guarded id) finish (λ _. pure metadata)
          (complete_extracted-Keeps job.webhook_url enqueued_at)
          (λ _. Keeps-pure (guarded id) metadata))
  save_found-Evolves false enqueued_at metadata w (some job) there =
      let done = extracted false metadata job in
      Rel-bind evolution (commit_row done) (λ _. pure metadata) w
        (commit_row-Evolves id job done w there (extracted-IsChanged false metadata job))
        (λ _ _. Rel-refl evolution _)

  save_metadata-Evolves :
      (mark : Bool) (enqueued_at : Option ℕ) (metadata : Fields) (w : World p)
      → Evolves w (save_metadata mark id enqueued_at metadata w).1
  unfolding save_metadata
  save_metadata-Evolves mark enqueued_at metadata w =
      get_row-Evolves id (save_found mark id enqueued_at metadata) w
        (save_found-Evolves mark enqueued_at metadata w)

  -- The metadata task.
  pub extract_metadata-Evolves :
      {pil : Pillow} (x : Exif pil) (celery_retry : Exn → Exn) (headers : List (String × String))
      (key : String) (mark : Bool) (enqueued_at : Option Stamp) (w : World p)
      → Evolves w (extract_metadata x celery_retry headers id key mark enqueued_at w).1
  unfolding extract_metadata
  extract_metadata-Evolves x celery_retry headers key mark enqueued_at w =
      let save = λ (metadata : Fields).
        save_metadata mark id (parse_enqueued_at p.runtime headers enqueued_at) metadata in
      (Keeps-retrying evolution celery_retry (extract_exif_metadata x key >>= save) (
          Keeps-bind evolution (extract_exif_metadata x key) save
            (Keeps-quiet evolution (extract_exif_metadata x key)
              (λ v. ap (λ u. u.jobs) (extract_exif_metadata_unchanged x key v))
              (λ v. ap (λ u. u.session) (extract_exif_metadata_unchanged x key v)))
            (λ metadata. record {
              at =
                  save_metadata-Evolves mark (parse_enqueued_at p.runtime headers enqueued_at)
                    metadata;
            }))).at
        w
