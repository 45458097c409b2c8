-- ===== src/Tests/Tasks.antt =====
-- The tasks on the platform in memory.
use pix_tools.Base.{
  String, retry, false, ◌||◌, ◌≡◌, refl, ◌≢◌, Option, none, some, List, [], ◌∷◌, ◌++◌, ok, lookup,
  map, is_empty, or_default, if◌then◌else◌,
}
use pix_tools.Base.Text.{has}
use text.Mathlib.TextLemmas.{cons-ne-nil}
use pix_tools.Models.{Job, webp, completed, status_value}
use pix_tools.World.{World, undelivered, single}
use pix_tools.Memory.{memory}
use pix_tools.Store.{base_name, get_archive_key}
use pix_tools.Platform.{Bytes, unless}
use pix_tools.Tasks.Archive.{bundle_results, bundle_results-stored, key_of, member_of}
use pix_tools.Tasks.Maintenance.{prune_expired_jobs, prune_expired_jobs_row, is_expired}
use pix_tools.Jobs.Create.Repeated.{all_up}
use pix_tools.Tasks.Lifecycle.{Task}
use pix_tools.Tasks.Finalize.{
  filename_of, collect_keys, collect_urls, bundle_signature, finalize_job, op_of_key, ext_of_key,
}
use pix_tools.Tasks.Finalize.Keys.{
  Stored, IsPlain, stored_key, parse-stored_key, lookup-collect_keys,
}
use pix_tools.Tasks.Finalize.Outcome.{end_status, final_job, finalize_job-outcome}

abbrev pub job : Job
job = record {
  id = "u";
  status = completed;
  operations = "webp" ∷ [];
  result_urls = none;
  result_keys = none;
  exif_metadata = none;
  webhook_url = "https://example.com/hook";
  s3_raw_key = "raw/u/x.png";
  original_filename = some "photo.png";
  error_message = none;
  retry_count = 0;
  created_at = 5;
}

abbrev pub start : World memory
start = record {
  jobs = memory.put_row job ([], λ j. none);
  session = [];
  cache = [];
  bucket = [];
  published = [];
  metrics = [];
  received = [];
  now = 5;
  monotonic = 3;
  drawn = 0;
  request_id = "r1";
  job_id = "u";
  task_start_times = ("t1", 1) ∷ [];
  fails = all_up;
  delivery = λ url. undelivered;
}

abbrev pub denoising : Task
denoising = record {
  task_id = some "t1";
  name = "app.tasks.ml_ops.denoise";
  kwargs = ("job_id", "u") ∷ [];
  headers = [];
}

named : ◌≢◌ {A = String} "u" ""
named = λ e. cons-ne-nil _ _ e

abbrev pub results : List (Option String)
results = some "processed/u/webp_0123abcd.webp" ∷ some "" ∷ none ∷ []

finalize_job-outcome_example :
    (urls : List (String × String)) × (collect_urls {p = memory}
        (base_name (filename_of (some job)))
        results
        []
        start
      ≡ (ok urls, start))
    × ((finalize_job {p = memory} [] results "u" start).0
        ≡ ok (record {
          job_id = "u";
          status = status_value (end_status start job);
          result_urls = urls;
        }))
    × (memory.row "u" (finalize_job {p = memory} [] results "u" start).1.jobs
        ≡ some (final_job start results urls job))
    × ((finalize_job {p = memory} [] results "u" start).1.published ≡ (
        if is_empty (collect_keys results []) || false
        then start.published
        else start.published
          ++ single (
              bundle_signature "u"
                (collect_keys results [])
                (filename_of (some job))
                (or_default (lookup "X-Request-ID" []) "N/A"))
            ∷ []))
finalize_job-outcome_example = finalize_job-outcome [] results "u" "u" job start refl refl refl

abbrev stored : Stored
stored = record { op = webp; hex8 = "0123abcd"; ext = "webp" }

abbrev stored_again : Stored
stored_again = record { op = webp; hex8 = "ffffffff"; ext = "webp" }

stored-IsPlain : IsPlain stored
unfolding has
stored-IsPlain = record { hex_slash = refl; ext_slash = refl; ext_dot = refl }

stored_again-IsPlain : IsPlain stored_again
unfolding has
stored_again-IsPlain = record { hex_slash = refl; ext_slash = refl; ext_dot = refl }

parse-stored_key_example :
    (op_of_key (stored_key "a/b" stored) ≡ "webp") × (ext_of_key (stored_key "a/b" stored) ≡ "webp")
parse-stored_key_example = parse-stored_key "a/b" stored stored-IsPlain

lookup-collect_keys_example :
    lookup "webp"
      (collect_keys (map (λ d. some (stored_key "u" d)) (stored ∷ stored_again ∷ [])) [])
    ≡ some "processed/u/webp_ffffffff.webp"
lookup-collect_keys_example =
    lookup-collect_keys "u" "webp" (stored ∷ stored_again ∷ []) []
      (stored-IsPlain, (stored_again-IsPlain, tt))

abbrev bundled : List (String × (String × Bytes))
bundled = ("webp", ("processed/u/webp_0123abcd.webp", 640 ∷ 480 ∷ [])) ∷ []

abbrev with_results : World memory
with_results = record start { bucket = ("processed/u/webp_0123abcd.webp", 640 ∷ 480 ∷ []) ∷ [] }

-- In place of a ZIP file: the bytes of the first member.
abbrev first_member : List (String × Bytes) → Bytes
first_member [] = []
first_member ((_, bytes) ∷ _) = bytes

bundle_results-stored_example :
    bundle_results first_member retry "u" (map key_of bundled) (some "photo.png") with_results ≡ (
      ok (get_archive_key "u"),
      record with_results {
        bucket =
            memory.put_object
              (get_archive_key "u")
              (first_member (map (member_of (base_name (some "photo.png"))) bundled))
              with_results.bucket;
      },
    )
bundle_results-stored_example =
    bundle_results-stored first_member retry "u" (some "photo.png") bundled with_results refl refl
      refl (refl, tt)

abbrev a_day_later : World memory
a_day_later = record start { now = 86406 }

prune_expired_jobs_row_example :
    memory.row "u" (prune_expired_jobs {p = memory} retry a_day_later).1.jobs
    ≡ unless (is_expired a_day_later) (memory.row "u" a_day_later.jobs)
prune_expired_jobs_row_example = prune_expired_jobs_row retry a_day_later "u" refl refl

-- The row was created at 5, so it is gone after a day.
expired : unless (is_expired a_day_later) (memory.row "u" a_day_later.jobs) ≡ none
expired = refl
