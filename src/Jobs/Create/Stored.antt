-- ===== src/Jobs/Create/Stored.antt =====
-- What `POST /process` stores and sends when it accepts a request, and that it changes nothing when
-- it refuses one.
use pix_tools.Base.{
  ℕ, map, String, ◌≡◌, ◌≢◌, Option, none, some, [], inl, inr, eq_iff, eq_refl, arith, http, ok, err,
  Result-cases,
}
use pix_tools.Models.{value, pending}
use pix_tools.Platform.{Platform}
use pix_tools.World.{World}
use pix_tools.Idempotency.{check_idempotency, set_idempotency}
use pix_tools.Store.{upload_raw}
use pix_tools.Dag.{build_dag}
use pix_tools.Jobs.{Request, Accepted, validate}
use pix_tools.Jobs.Create.{
  Created, created, new_job, put_rows, dispatch, submit, earlier_job, create_job_body, with_db,
  create_job,
}
use pix_tools.Jobs.Create.Effects.{new_id, new_raw_key, submitted, submit_ok}

module _ {p : Platform} where
  pub earlier_job_unchanged : (key : Option String) (w : World p) → (earlier_job key w).1 ≡ w
  unfolding earlier_job check_idempotency
  earlier_job_unchanged key w = ground arith

  earlier_job-ne-http :
      (key : Option String) (w : World p) (n : ℕ) (d : String)
      → (earlier_job key w).0 ≢ err (http n d)
  unfolding earlier_job check_idempotency
  earlier_job-ne-http key w n d = ground arith

  submit-ne-http :
      (r : Request) (v : Accepted) (w : World p) (n : ℕ) (d : String)
      → (submit r v w).0 ≢ err (http n d)
  unfolding submit upload_raw set_idempotency dispatch build_dag
  submit-ne-http r v w n d = ground arith

  -- The committed world.
  abbrev pub committed : World p → World p
  committed w = record w { jobs = put_rows p w.session w.jobs; session = [] }

  create_job_body_ok :
      (r : Request) (w w' : World p) (c : Created)
      → (earlier_job r.idempotency_key w).0 ≡ ok none
      → create_job_body r w ≡ (ok c, w')
      → (v : Accepted) × (validate p.runtime p.settings r ≡ ok v) × (submit r v w ≡ (ok c, w'))
  unfolding create_job_body
  create_job_body_ok r w w' c fresh h = elim (Result-cases (validate p.runtime p.settings r)) [
    | inl (v, q) ↦ (v, q, ground (arith, q, earlier_job_unchanged r.idempotency_key w))
    | inr (e, q) ↦ ground (arith, q)
  ]

  pub create_job_ok :
      (r : Request) (w w' : World p) (c : Created)
      → w.session ≡ []
      → (earlier_job r.idempotency_key w).0 ≡ ok none
      → create_job r w ≡ (ok c, w')
      → (v : Accepted) × (validate p.runtime p.settings r ≡ ok v)
        × (c ≡ created (new_id w))
        × (w' ≡ committed (submitted r v w))
  unfolding create_job with_db
  create_job_ok r w w' c clean fresh h =
      let w1 = (create_job_body r w).1 in
      let done : create_job_body r w ≡ (ok c, w1) = ground arith in
      let (v, q, e) = create_job_body_ok r w w1 c fresh done in
      let (same, after) = submit_ok r v w w1 c e in (v, q, same, ground arith)

  -- A request that is refused with an HTTP error leaves every part of the state as it was: no row,
  -- no object, no idempotency key and no message.
  pub create_job-refused_unchanged :
      (r : Request) (w w' : World p) (status : ℕ) (detail : String)
      → w.session ≡ []
      → create_job r w ≡ (err (http status detail), w')
      → w' ≡ w
  unfolding create_job with_db create_job_body
  create_job-refused_unchanged r w w' n d clean h =
      elim (Result-cases (validate p.runtime p.settings r)) [
        | inl (v, q) ↦ ground (
          arith,
          q,
          earlier_job_unchanged r.idempotency_key w,
          earlier_job-ne-http r.idempotency_key w n d,
          submit-ne-http r v w n d,
        )
        | inr (e, q) ↦ ground (arith, q)
      ]

  -- A request that is accepted, and that repeats none, has its job committed as PENDING with the
  -- operations and the webhook that its fields were validated to, in their order, the file's name, the
  -- key of the uploaded object, the time, and no results, EXIF data or error; its file is stored under
  -- that key, and every other row is as it was.
  pub create_job-stored :
      (r : Request) (w w' : World p) (c : Created)
      → w.session ≡ []
      → (earlier_job r.idempotency_key w).0 ≡ ok none
      → create_job r w ≡ (ok c, w')
      → (v : Accepted) × (validate p.runtime p.settings r ≡ ok v)
        × (p.row c.job_id w'.jobs
            ≡ some (record {
              id = c.job_id;
              status = pending;
              operations = map value v.ops;
              result_urls = none;
              result_keys = none;
              exif_metadata = none;
              webhook_url = v.webhook;
              s3_raw_key = new_raw_key r w;
              original_filename = r.file.filename;
              error_message = none;
              retry_count = 0;
              created_at = w.now;
            }))
        × (p.object (new_raw_key r w) w'.bucket ≡ some r.file.contents)
        × ((j : String) → j ≢ c.job_id → p.row j w'.jobs ≡ p.row j w.jobs)
  create_job-stored r w w' c clean fresh h =
      let (v, q, same, after) = create_job_ok r w w' c clean fresh h in
      let job = new_job r v (new_id w) (new_raw_key r w) w.now in
      let at = λ (j : String). p.row-put_row j job w.jobs in
      (
        v,
        q,
        ground (arith, at (new_id w), eq_refl (new_id w)),
        ground (
          arith,
          p.object-put_object (new_raw_key r w) (new_raw_key r w) r.file.contents w.bucket,
          eq_refl (new_raw_key r w),
        ),
        λ j other. ground (arith, at j, eq_iff (new_id w) j),
      )
