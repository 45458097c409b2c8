-- ===== src/Jobs/Get/Laws.antt =====
-- What polling a job shows.
use Prim.Native.String.{◌++◌ as cat}
use pix_tools.Base.{
  String, true, false, not, ◌&&◌, ◌≡◌, refl, Option, none, some, is_some, List, [], ◌∷◌, map,
  is_empty, or_default, arith, ok, err, http, db_get, db_commit, s3_head, Option-cases,
  Result-cases, inl, inr,
}
use pix_tools.Models.{Job, value}
use pix_tools.Platform.{Platform}
use pix_tools.World.{World}
use pix_tools.Store.{base_name, get_archive_key, object_exists, generate_presigned_url}
use pix_tools.Jobs.{Request, Accepted, validate}
use pix_tools.Jobs.Create.{with_db, Created, earlier_job, create_job}
use pix_tools.Jobs.Create.Stored.{create_job_ok, create_job-stored}
use pix_tools.Jobs.Get.{
  View, view_of, is_completed, keys_of, fresh_urls, archive_url_of, urls_of, get_job_body, get_job,
}

module _ {p : Platform} where
  pub fresh_urls_total :
      (base : String) (ks urls : List (String × String)) (w : World p)
      → (u : List (String × String)) × (fresh_urls base ks urls w ≡ (ok u, w))
  unfolding fresh_urls generate_presigned_url
  fresh_urls_total base [] urls w = (urls, refl)
  fresh_urls_total base ((op, key) ∷ ks) urls w = fresh_urls_total base ks _ w

  archive_url_of_total :
      (job : Job) (w : World p)
      → w.fails s3_head ≡ false
      → (a : Option String) × (archive_url_of job w ≡ (ok a, w))
        × (is_some a ≡ is_some (p.object (get_archive_key job.id) w.bucket))
  unfolding archive_url_of object_exists generate_presigned_url
  archive_url_of_total job w up = elim (Result-cases (archive_url_of job w).0) [
    | inl (a, q) ↦ (a, ground (arith, q), ground (arith, q))
    | inr (e, q) ↦ ground (arith, q)
  ]

  -- Polling changes nothing, whatever it answers.
  pub get_job_unchanged : (id : String) (w : World p) → w.session ≡ [] → (get_job id w).1 ≡ w
  unfolding get_job with_db get_job_body urls_of archive_url_of object_exists generate_presigned_url
  get_job_unchanged id w clean = elim (Option-cases (p.row id w.jobs)) [
    | inl gone ↦ ground (arith, gone)
    | inr (job, there) ↦
        ground
          (arith, there, (fresh_urls_total (base_name job.original_filename) (keys_of job) [] w).1)
  ]

  -- A job that is not in the table is answered with 404.
  get_job-missing :
      (id : String) (w : World p)
      → w.session ≡ []
      → w.fails db_get ≡ false
      → p.row id w.jobs ≡ none
      → get_job id w ≡ (err (http 404 (cat "Job " (cat id " not found"))), w)
  unfolding get_job with_db get_job_body
  get_job-missing id w clean up gone = ground (arith, gone)

  -- A job that is not completed, or has no results, is shown with its status and its stored URLs,
  -- and with no archive.
  pub get_job-unfinished :
      (id : String) (job : Job) (w : World p)
      → w.session ≡ []
      → w.fails db_get ≡ false
      → w.fails db_commit ≡ false
      → p.row id w.jobs ≡ some job
      → (is_completed job.status && not (is_empty (keys_of job))) ≡ false
      → get_job id w ≡ (ok (view_of p.runtime job (or_default job.result_urls []) none), w)
  unfolding get_job with_db get_job_body urls_of
  get_job-unfinished id job w clean up commits there unfinished = ground (arith, there, unfinished)

  pub get_job-archive_iff :
      (id : String) (job : Job) (w : World p)
      → w.session ≡ []
      → w.fails db_get ≡ false
      → w.fails db_commit ≡ false
      → w.fails s3_head ≡ false
      → p.row id w.jobs ≡ some job
      → (is_completed job.status && not (is_empty (keys_of job))) ≡ true
      → (urls : List (String × String)) × (archive : Option String) × (fresh_urls
            (base_name job.original_filename)
            (keys_of job)
            []
            w
          ≡ (ok urls, w))
        × (get_job id w ≡ (ok (view_of p.runtime job urls archive), w))
        × (is_some archive ≡ is_some (p.object (get_archive_key job.id) w.bucket))
  unfolding get_job with_db get_job_body urls_of
  get_job-archive_iff id job w clean up commits heads there finished =
      let (urls, signed) = fresh_urls_total (base_name job.original_filename) (keys_of job) [] w in
      let (archive, found, same) = archive_url_of_total job w heads in
      (urls, archive, signed, ground (arith, there, finished, signed, found), same)

  -- An accepted request that repeats none can be polled at once: it is answered as PENDING with the
  -- operations that were asked for, and with no URL.
  pub create_job-polled :
      (r : Request) (w w' : World p) (c : Created)
      → w.session ≡ []
      → (earlier_job r.idempotency_key w).0 ≡ ok none
      → create_job r w ≡ (ok c, w')
      → w.fails db_get ≡ false
      → w.fails db_commit ≡ false
      → (v : Accepted) × (view : View) × (validate p.runtime p.settings r ≡ ok v)
        × (get_job c.job_id w' ≡ (ok view, w'))
        × (view.status ≡ "PENDING")
        × (view.operations ≡ map value v.ops)
        × (view.result_urls ≡ [])
        × (view.archive_url ≡ none)
  create_job-polled r w w' c clean fresh h up commits =
      let (_, _, _, after) = create_job_ok r w w' c clean fresh h in
      let clean' : w'.session ≡ [] = ground arith in
      let up' : w'.fails db_get ≡ false = ground arith in
      let commits' : w'.fails db_commit ≡ false = ground arith in
      let (v, q, stored, _, _) = create_job-stored r w w' c clean fresh h in
      (
        v,
        _,
        q,
        get_job-unfinished c.job_id _ w' clean' up' commits' stored refl,
        refl,
        refl,
        refl,
        refl,
      )
