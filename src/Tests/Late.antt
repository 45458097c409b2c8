-- ===== src/Tests/Late.antt =====
-- A metadata task that starts after the finalizer, in memory.
use pix_tools.Base.{refl, ◌≡◌, some, none, [], ◌∷◌, ok, retry}
use pix_tools.World.{World}
use pix_tools.Memory.{memory}
use pix_tools.Exposures.{camera}
use pix_tools.Jobs.Get.{View, get_job}
use pix_tools.Store.{generate_presigned_url}
use pix_tools.Webhook.{notify_job_update}
use pix_tools.Images.Convert.{download_raw}
use pix_tools.Tasks.Lifecycle.{Task, set_job_status, on_task_prerun}
use pix_tools.Tasks.Metadata.{extract_exif_metadata}
use pix_tools.Tasks.Finalize.{finalize_job, add_url, add_key, collect_urls, collect_keys, deliver}
use pix_tools.System.Late.{late, started, late-processing}
use pix_tools.Tests.Tasks.{job, results}
use pix_tools.Tests.Metadata.{exif, uploaded, read_metadata}

abbrev extracting : Task
extracting = record {
  task_id = some "t9";
  name = "app.tasks.metadata.extract_metadata";
  kwargs = ("job_id", "u") ∷ [];
  headers = [];
}

abbrev later : World memory
later = record uploaded {
  jobs = (late camera retry extracting [] [] results "raw/u/x.png" none uploaded).jobs;
}

read_late :
    (extract_exif_metadata camera "raw/u/x.png" (
      started camera retry extracting [] [] results "raw/u/x.png" none job read_metadata
        uploaded)).0
    ≡ ok read_metadata
unfolding exif extract_exif_metadata download_raw on_task_prerun set_job_status finalize_job add_url
    add_key collect_urls collect_keys deliver notify_job_update generate_presigned_url
    pix_tools.Tasks.Lifecycle.parse_enqueued_at pix_tools.Tasks.Finalize.parse_enqueued_at
read_late = refl

late-processing_example :
    (view : View) × (get_job "u" later ≡ (ok view, later))
    × (view.status ≡ "PROCESSING")
    × (view.metadata ≡ read_metadata)
    × (view.archive_url ≡ none)
late-processing_example =
    late-processing camera retry extracting [] [] results "raw/u/x.png" none job read_metadata
      uploaded later refl refl refl refl read_late refl refl refl refl
