-- ===== src/Tasks/Metadata/Outcome.antt =====
-- What the task does to a job.
use pix_tools.Base.{
  ℕ, String, Bool, true, false, not, ◌&&◌, ◌||◌, ◌≡◌, refl, Option, some, List, [], or_default,
  arith, ok, ◌==◌, eq_refl, ap, ◌∙◌, err, Exn, s3_get, Option-cases, Result, Result-cases,
  if◌then◌else◌, db_get, db_commit, Bool-cases, inl, inr,
}
use pix_tools.Json.{Fields}
use pix_tools.Models.{Job, completed, completed_webhook_failed}
use pix_tools.Platform.{Platform}
use pix_tools.Pillow.{Pillow}
use pix_tools.Metadata.Values.{Exif}
use pix_tools.Images.Convert.{download_raw}
use pix_tools.World.{World, reraise}
use pix_tools.Webhook.{notify_job_update, is_delivered}
use pix_tools.Tasks.Rows.{row-put_row_id, save_row}
use pix_tools.Tasks.Metadata.{
  Stamp, extracted, webhook_failed, notify_extracted, complete_extracted, save_metadata,
  parse_enqueued_at, extract_exif_metadata, extract_metadata,
}

extracted_id :
    (mark_completed : Bool) (metadata : Fields) (job : Job)
    → (extracted mark_completed metadata job).id ≡ job.id
extracted_id true metadata job = refl
extracted_id false metadata job = refl

module _ {p : Platform} where
  abbrev pub is_told : World p → String → Bool
  is_told w webhook_url = webhook_url == "" || is_delivered (w.delivery webhook_url)

  notify_extracted_ok :
      (url id : String) (row : Job) (w : World p)
      → p.row id w.jobs ≡ some row
      → w.fails db_get ≡ false
      → w.fails db_commit ≡ false
      → let r = notify_extracted url id w in
        (r.0 ≡ ok (is_told w url))
        × (r.1.jobs ≡ (if is_told w url then w.jobs else p.put_row (webhook_failed row) w.jobs))
        × (r.1.published ≡ w.published)
  unfolding notify_extracted notify_job_update
  notify_extracted_ok url id row w there up commits =
      (ground (arith, there), ground (arith, there), ground (arith, there))

  -- The job that the task writes.
  abbrev written : (mark_completed : Bool) → World p → Fields → Job → Job
  written mark_completed w metadata job =
      if mark_completed && not (is_told w job.webhook_url)
      then webhook_failed (extracted mark_completed metadata job)
      else extracted mark_completed metadata job

  -- The job after the task, said without the code. A metadata task that has no chord beside it ends
  -- its job.
  abbrev pub ended : (mark_completed : Bool) → World p → Fields → Job → Job
  ended false w metadata job = record job { exif_metadata = some metadata }
  ended true w metadata job = record job {
    exif_metadata = some metadata;
    status = if is_told w job.webhook_url then completed else completed_webhook_failed;
    result_urls = some (or_default job.result_urls []);
    result_keys = some (or_default job.result_keys []);
  }

  written-ended :
      (mark : Bool) (w : World p) (metadata : Fields) (job : Job)
      → written mark w metadata job ≡ ended mark w metadata job
  written-ended false w metadata job = refl
  written-ended true w metadata job = elim (Bool-cases (is_told w job.webhook_url)) [
    | inl told ↦ rw told refl
    | inr untold ↦ rw untold refl
  ]

  -- the table after one write or two
  abbrev ended_jobs : (mark_completed : Bool) → World p → Job → Job → p.Table
  ended_jobs mark_completed w job done =
      if mark_completed && not (is_told w job.webhook_url)
      then p.put_row (webhook_failed done) (p.put_row done w.jobs)
      else p.put_row done w.jobs

  row-ended_jobs :
      (mark : Bool) (w : World p) (id j : String) (metadata : Fields) (job : Job)
      → p.row id w.jobs ≡ some job
      → p.row j (ended_jobs mark w job (extracted mark metadata job))
        ≡ (if id == j then some (written mark w metadata job) else p.row j w.jobs)
  row-ended_jobs mark w id j metadata job there =
      let done = extracted mark metadata job in
      let same = extracted_id mark metadata job in
      let once = row-put_row_id p id j job done w.jobs there same in
      let there1 : p.row id (p.put_row done w.jobs) ≡ some done =
        rw (row-put_row_id p id id job done w.jobs there same) (rw (eq_refl id) refl) in
      let twice =
        row-put_row_id p id j done (webhook_failed done) (p.put_row done w.jobs) there1 refl in
      elim (Bool-cases (mark && not (is_told w job.webhook_url))) [
        | inr ends ↦ rw ends once
        | inl fails ↦ rw fails (
            rw twice
              (elim (Bool-cases (id == j)) [ inl e ↦ rw e refl | inr e ↦ rw e (rw e at once) ]))
      ]

  completed_ok :
      (url id : String) (enqueued_at : Option ℕ) (row : Job) (w : World p)
      → p.row id w.jobs ≡ some row
      → w.fails db_get ≡ false
      → w.fails db_commit ≡ false
      → let r = complete_extracted url id enqueued_at w in
        (r.0 ≡ ok tt)
        × (r.1.jobs ≡ (if is_told w url then w.jobs else p.put_row (webhook_failed row) w.jobs))
        × (r.1.published ≡ w.published)
  unfolding complete_extracted
  completed_ok url id enqueued_at row w there up commits =
      let (told, jobs, published) = notify_extracted_ok url id row w there up commits in
      (ground (arith, told), ground (arith, told, jobs), ground (arith, told, published))

  saved :
      (mark : Bool) (id : String) (enqueued_at : Option ℕ) (metadata : Fields) (job : Job)
      (w : World p)
      → p.row id w.jobs ≡ some job
      → w.fails db_get ≡ false
      → w.fails db_commit ≡ false
      → let r = save_metadata mark id enqueued_at metadata w in
        (r.0 ≡ ok metadata)
        × (r.1.jobs ≡ ended_jobs mark w job (extracted mark metadata job))
        × (r.1.published ≡ w.published)
  unfolding save_metadata
  saved false id enqueued_at metadata job w there up commits =
      (ground (arith, there), ground (arith, there), ground (arith, there))
  saved true id enqueued_at metadata job w there up commits =
      let done = extracted true metadata job in
      let w1 = save_row done w in
      let there1 : p.row id w1.jobs ≡ some done =
        rw (row-put_row_id p id id job done w.jobs there refl) (rw (eq_refl id) refl) in
      let (told, jobs, published) =
        completed_ok job.webhook_url id enqueued_at done w1 there1 up commits in
      (ground (arith, there, told), ground (arith, there, jobs), ground (arith, there, published))

  reraise_state : {A : Type 0} (f : Exn → Exn) (r : Result A × World p) → (reraise f r).1 ≡ r.1
  reraise_state f (ok a, w) = refl
  reraise_state f (err e, w) = refl

  module _ {pil : Pillow} (x : Exif pil) where
    pub extract_exif_metadata_unchanged :
        (key : String) (w : World p) → (extract_exif_metadata x key w).1 ≡ w
    unfolding extract_exif_metadata download_raw
    extract_exif_metadata_unchanged key w = elim (Bool-cases (w.fails s3_get)) [
      | inl down ↦ ground arith
      | inr up ↦ elim (Option-cases (p.object key w.bucket)) [
        | inl gone ↦ ground arith
        | inr (b, there) ↦ elim (Result-cases (pil.open_image b)) [
          | inl (image, opened) ↦ ground arith
          | inr (e, broken) ↦ ground arith
        ]
      ]
    ]

    run_eq :
        (celery_retry : Exn → Exn) (headers : List (String × String)) (id key : String)
        (mark_completed : Bool) (enqueued_at : Option Stamp) (metadata : Fields) (w : World p)
        → (extract_exif_metadata x key w).0 ≡ ok metadata
        → extract_metadata x celery_retry headers id key mark_completed enqueued_at w
          ≡ reraise celery_retry (
              save_metadata mark_completed id
                (parse_enqueued_at p.runtime headers enqueued_at)
                metadata
                w)
    unfolding extract_metadata
    run_eq celery_retry headers id key mark stamp metadata w read =
        ap (reraise celery_retry) (ground (arith, read, extract_exif_metadata_unchanged key w))

    -- If the EXIF data of the raw image can be read, the job is in the table and the database is
    -- up, then the task returns the data and stores it in the job's row; no other row changes and
    -- nothing is sent. A task that is told to complete the job makes it COMPLETED, with results that
    -- are dicts, if it has no webhook or its webhook was delivered, and COMPLETED_WEBHOOK_FAILED
    -- otherwise; any other leaves the status and the results as they were.
    pub extract_metadata_outcome :
        (celery_retry : Exn → Exn) (headers : List (String × String)) (id key j : String)
        (mark_completed : Bool) (enqueued_at : Option Stamp) (metadata : Fields) (job : Job)
        (w : World p)
        → (extract_exif_metadata x key w).0 ≡ ok metadata
        → p.row id w.jobs ≡ some job
        → w.fails db_get ≡ false
        → w.fails db_commit ≡ false
        → let r = extract_metadata x celery_retry headers id key mark_completed enqueued_at w in
          (r.0 ≡ ok metadata)
          × (p.row j r.1.jobs
              ≡ (if id == j then some (ended mark_completed w metadata job) else p.row j w.jobs))
          × (r.1.published ≡ w.published)
    unfolding extract_metadata
    extract_metadata_outcome celery_retry headers id key j mark stamp metadata job w read there up
          commits =
        let still = extract_exif_metadata_unchanged key w in
        let (done, jobs, published) =
          saved mark id (parse_enqueued_at p.runtime headers stamp) metadata job w there up
            commits in
        let table =
          ap (p.row j) jobs
          ∙ row-ended_jobs mark w id j metadata job there
          ∙ ap (λ (done : Job). if id == j then some done else p.row j w.jobs)
              (written-ended mark w metadata job) in
        (
          ground (arith, read, still, done),
          ap (λ r. p.row j r.1.jobs) (run_eq celery_retry headers id key mark stamp metadata w read)
              ∙ (ap (λ v. p.row j v.jobs) (reraise_state celery_retry _) ∙ table),
          ground (arith, read, still, done, published),
        )

    -- If the EXIF data cannot be read, the task raises what Celery's retry makes of the exception and
    -- changes nothing.
    pub extract_metadata_unread :
        (celery_retry : Exn → Exn) (headers : List (String × String)) (id key : String)
        (mark_completed : Bool) (enqueued_at : Option Stamp) (e : Exn) (w : World p)
        → (extract_exif_metadata x key w).0 ≡ err e
        → extract_metadata x celery_retry headers id key mark_completed enqueued_at w
          ≡ (err (celery_retry e), w)
    unfolding extract_metadata
    extract_metadata_unread celery_retry headers id key mark stamp e w unread =
        ground (arith, unread, extract_exif_metadata_unchanged key w)
