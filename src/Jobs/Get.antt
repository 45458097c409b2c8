-- ===== src/Jobs/Get.antt =====
-- `GET /jobs/{job_id}` of app/routers/jobs.py, inside `get_db`.
pub mod Laws
use Prim.Native.String.{◌++◌}
use pix_tools.Base.{
  ℕ, String, Bool, true, false, not, ◌&&◌, Option, none, some, List, [], ◌∷◌, is_empty, insert,
  or_default, if◌then◌else◌, http, db_get,
}
use pix_tools.Base.Text.{after_last}
use pix_tools.Json.{Fields, end}
use pix_tools.Models.{Job, JobStatus, completed, completed_webhook_failed, status_value}
use pix_tools.Runtime.{Runtime}
use pix_tools.Platform.{Platform}
use pix_tools.World.{World, Action, pure, raise, gets, call, when, ◌>>=◌, ◌>>◌}
use pix_tools.Store.{
  base_name, download_name, get_archive_key, object_exists, generate_presigned_url,
}
use pix_tools.Jobs.Create.{with_db}

-- The body of the answer.
pub record View : Type 0 where
  pub job_id : String
  pub status : String
  pub operations : List String
  pub result_urls : List (String × String)
  pub archive_url : Option String
  pub metadata : Fields
  pub error_message : Option String
  pub created_at : Option String

-- `job.status in [COMPLETED, COMPLETED_WEBHOOK_FAILED]`
abbrev pub is_completed : JobStatus → Bool
is_completed completed = true
is_completed completed_webhook_failed = true
is_completed _ = false

-- `job.result_keys`, with `None` as the empty dict, which is as falsy
abbrev pub keys_of : Job → List (String × String)
keys_of job = or_default job.result_keys []

abbrev pub view_of : Runtime → Job → List (String × String) → Option String → View
view_of rt job urls archive_url = record {
  job_id = job.id;
  status = status_value job.status;
  operations = job.operations;
  result_urls = urls;
  archive_url = archive_url;
  metadata = or_default job.exif_metadata end;
  error_message = job.error_message;
  created_at = some (rt.isoformat job.created_at);
}

module _ {p : Platform} where
  -- the loop over `job.result_keys.items()`
  unfoldable pub fresh_urls :
      String → List (String × String) → List (String × String) → Action p (List (String × String))
  fresh_urls base [] urls = pure urls
  fresh_urls base ((op, s3_key) ∷ rest) urls = do
    url ← generate_presigned_url s3_key (some (download_name op base (after_last "." s3_key)))
    fresh_urls base rest (insert op url urls)

  -- the archive's URL, if the archive is there
  unfoldable pub archive_url_of : Job → Action p (Option String)
  archive_url_of job = do
    let archive_key = get_archive_key job.id
    there ← object_exists archive_key
    elim there [
      | false ↦ pure none
      | true ↦ do
        url ←
            generate_presigned_url archive_key
              (some ("pixtools_bundle_" ++ (base_name job.original_filename ++ ".zip")))
        pure (some url)
    ]

  unfoldable pub urls_of : Job → Action p (List (String × String) × Option String)
  urls_of job = elim (is_completed job.status && not (is_empty (keys_of job))) [
    | false ↦ pure (or_default job.result_urls [], none)
    | true ↦ do
      urls ← fresh_urls (base_name job.original_filename) (keys_of job) []
      archive_url ← archive_url_of job
      pure (urls, archive_url)
  ]

  unfoldable pub get_job_body : String → Action p View
  get_job_body job_id = do
    call db_get
    found ← gets (λ w. p.row job_id w.jobs)
    elim found [
      | none ↦ raise (http 404 ("Job " ++ (job_id ++ " not found")))
      | some job ↦ do urls ← urls_of job; pure (view_of p.runtime job urls.0 urls.1)
    ]

  unfoldable pub get_job : String → Action p View
  get_job job_id = with_db (get_job_body job_id)
