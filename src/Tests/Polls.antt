-- ===== src/Tests/Polls.antt =====
-- Polls on the platform in memory.
use pix_tools.Base.{◌≡◌, refl, none, some, [], ◌∷◌, ok}
use pix_tools.Base.Text.{before_last}
use pix_tools.Models.{Job, completed}
use pix_tools.World.{World}
use pix_tools.Memory.{memory}
use pix_tools.Store.{base_name, get_archive_key, object_exists, generate_presigned_url}
use pix_tools.Jobs.Get.{view_of, fresh_urls, archive_url_of, urls_of, get_job_body, get_job}
use pix_tools.Tests.Jobs.{api, start}

abbrev finished : Job
finished = record {
  id = "u";
  status = completed;
  operations = "webp" ∷ [];
  result_urls = some [];
  result_keys = some (("webp", "processed/u/webp_0123abcd.webp") ∷ []);
  exif_metadata = none;
  webhook_url = "https://example.com/hook";
  s3_raw_key = "raw/u/x.png";
  original_filename = some "photo.png";
  error_message = none;
  retry_count = 0;
  created_at = 5;
}

abbrev after_finish : World memory
after_finish = record start {
  jobs = memory.put_row finished start.jobs;
  bucket = ("archives/u/bundle.zip", 7 ∷ []) ∷ [];
}

-- The archive is there, and its URL is shown.
shows_archive :
    (get_job "u" after_finish).0
    ≡ ok (
        view_of memory.runtime finished
          (("webp", "https://s3/processed/u/webp_0123abcd.webp") ∷ [])
          (some "https://s3/archives/u/bundle.zip"))
unfolding api get_job get_job_body urls_of fresh_urls archive_url_of object_exists
    generate_presigned_url get_archive_key base_name before_last
shows_archive = refl
