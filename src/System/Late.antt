-- ===== src/System/Late.antt =====
-- A metadata task that starts after the finalizer of its job.
use pix_tools.Base.{
  String, true, false, ◌≡◌, refl, ap, ◌∙◌, Option, some, none, List, [], ok, eq_refl, Exn, db_get,
  db_commit,
}
use pix_tools.Json.{Fields}
use pix_tools.Models.{Job, processing}
use pix_tools.Platform.{Platform}
use pix_tools.Pillow.{Pillow}
use pix_tools.World.{World}
use pix_tools.Metadata.Values.{Exif}
use pix_tools.Jobs.Get.{View, get_job}
use pix_tools.Jobs.Get.Laws.{get_job-unfinished}
use pix_tools.Tasks.Lifecycle.{Task, job_id_of, on_task_prerun, on_task_postrun}
use pix_tools.Tasks.Lifecycle.Laws.{is_tracked, on_task_prerun_row}
use pix_tools.Tasks.Metadata.{Stamp, extract_exif_metadata, extract_metadata}
use pix_tools.Tasks.Metadata.Outcome.{extract_metadata_outcome}
use pix_tools.Tasks.Finalize.{finalize_job}
use pix_tools.Tasks.Finalize.Outcome.{final_job, finalize_job-outcome}
use pix_tools.Tasks.Finalize.Repeated.{finalize_job-IsAlike}
use pix_tools.System.Attempts.Ending.{prerun_fails, postrun_jobs}

module _ {p : Platform} where
  -- The finalizer of a job, and then a metadata task beside its chord.
  abbrev pub late :
      {pil : Pillow} (x : Exif pil) (celery_retry : Exn → Exn) (t : Task)
      (finalizer_headers headers : List (String × String)) (results : List (Option String))
      (raw : String) (stamp : Option Stamp)
      → World p
      → World p
  late x celery_retry t finalizer_headers headers results raw stamp w =
      let id = job_id_of t in
      let w1 = (finalize_job finalizer_headers results id w).1 in
      let w2 = (on_task_prerun (some t) w1).1 in
      let w3 = (extract_metadata x celery_retry headers id raw false stamp w2).1 in
      (on_task_postrun t w3).1

  module _ {pil : Pillow} (x : Exif pil) (celery_retry : Exn → Exn) (t : Task)
      (finalizer_headers headers : List (String × String)) (results : List (Option String))
      (raw : String) (stamp : Option Stamp) (job : Job) (metadata : Fields) (w : World p) where
    -- The world in which the metadata task finds its job.
    abbrev pub started : World p
    started = (on_task_prerun (some t) (finalize_job finalizer_headers results (job_id_of t) w).1).1

    late_row :
        is_tracked t ≡ true
        → p.row (job_id_of t) w.jobs ≡ some job
        → w.fails db_get ≡ false
        → w.fails db_commit ≡ false
        → (extract_exif_metadata x raw started).0 ≡ ok metadata
        → (urls : List (String × String)) × (p.row
              (job_id_of t)
              (late x celery_retry t finalizer_headers headers results raw stamp w).jobs
            ≡ some (record (final_job w results urls job) {
              status = processing;
              exif_metadata = some metadata;
            }))
    late_row tracked there up commits read =
        let id = job_id_of t in
        let w1 = (finalize_job finalizer_headers results id w).1 in
        let (urls, _, _, row1, _) =
          finalize_job-outcome finalizer_headers results id id job w there up commits in
        let fails1 =
          (finalize_job-IsAlike finalizer_headers results id job w there up commits).fails in
        let fails2 = prerun_fails t w1 ∙ fails1 in
        let there1 : p.row id w1.jobs ≡ some (final_job w results urls job) =
          row1 ∙ rw (eq_refl id) refl in
        let row2 =
          on_task_prerun_row t id (final_job w results urls job) w1 tracked there1
            (ap (λ f. f db_get) fails1 ∙ up) (ap (λ f. f db_commit) fails1 ∙ commits) in
        let done : Job = record (final_job w results urls job) { status = processing } in
        let there2 : p.row id started.jobs ≡ some done = row2 ∙ rw (eq_refl id) refl in
        let (_, row3, _) =
          extract_metadata_outcome x celery_retry headers id raw id false stamp metadata done
            started read there2 (ap (λ f. f db_get) fails2 ∙ up)
            (ap (λ f. f db_commit) fails2 ∙ commits) in
        (urls, ap (p.row id) (postrun_jobs t _) ∙ (row3 ∙ rw (eq_refl id) refl))

    -- A job that has been finalized, and whose metadata task, one that is not told to complete the
    -- job, starts only then and ends well: the job is PROCESSING again. Every poll that finds the row
    -- so, with its calls up and no session open, shows PROCESSING, whatever the results are, and no
    -- archive.
    pub late-processing :
        (u : World p)
        → is_tracked t ≡ true
        → p.row (job_id_of t) w.jobs ≡ some job
        → w.fails db_get ≡ false
        → w.fails db_commit ≡ false
        → (extract_exif_metadata x raw started).0 ≡ ok metadata
        → p.row (job_id_of t) u.jobs
          ≡ p.row
              (job_id_of t)
              (late x celery_retry t finalizer_headers headers results raw stamp w).jobs
        → u.session ≡ []
        → u.fails db_get ≡ false
        → u.fails db_commit ≡ false
        → (view : View) × (get_job (job_id_of t) u ≡ (ok view, u))
          × (view.status ≡ "PROCESSING")
          × (view.metadata ≡ metadata)
          × (view.archive_url ≡ none)
    late-processing u tracked there up commits read kept clean up' commits' =
        let (urls, row) = late_row tracked there up commits read in
        (
          _,
          get_job-unfinished (job_id_of t) _ u clean up' commits' (kept ∙ row) refl,
          refl,
          refl,
          refl,
        )
