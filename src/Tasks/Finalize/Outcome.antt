-- ===== src/Tasks/Finalize/Outcome.antt =====
-- How a job ends.
use pix_tools.Base.{
  String, false, ◌||◌, ◌≡◌, refl, Option, some, List, [], ◌∷◌, ◌++◌, is_empty, lookup, or_default,
  arith, ok, ◌==◌, eq_refl, if◌then◌else◌, db_get, db_commit, publish_task, Result-cases,
  Bool-cases, inl, inr,
}
use pix_tools.Models.{Job, JobStatus, completed, completed_webhook_failed, status_value}
use pix_tools.Platform.{Platform}
use pix_tools.World.{World, single}
use pix_tools.Store.{generate_presigned_url, base_name}
use pix_tools.Webhook.{notify_job_update, is_delivered}
use pix_tools.Tasks.Rows.{row-put_row_id, save_row}
use pix_tools.Tasks.Finalize.{
  filename_of, collect_keys, add_url, collect_urls, finished_job, bundle_signature, deliver,
  finalize_job,
}

module _ {p : Platform} where
  pub add_url_total :
      (base : String) (r : Option String) (urls : List (String × String)) (w : World p)
      → (u : List (String × String)) × (add_url base r urls w ≡ (ok u, w))
  unfolding add_url generate_presigned_url
  add_url_total base r urls w = elim (Result-cases (add_url base r urls w).0) [
    | inl (u, q) ↦ (u, ground (arith, q))
    | inr (e, q) ↦ ground (arith, q)
  ]

  pub collect_urls_total :
      (base : String) (rs : List (Option String)) (urls : List (String × String)) (w : World p)
      → (u : List (String × String)) × (collect_urls base rs urls w ≡ (ok u, w))
  unfolding collect_urls
  collect_urls_total base [] urls w = (urls, refl)
  collect_urls_total base (r ∷ rs) urls w =
      let (next, e) = add_url_total base r urls w in
      let (u, e') = collect_urls_total base rs next w in (u, ground (arith, e, e'))

  -- The status that a job ends with: its webhook, if it has one, has to be delivered.
  abbrev pub end_status : World p → Job → JobStatus
  end_status w job =
      if job.webhook_url == "" || is_delivered (w.delivery job.webhook_url)
      then completed
      else completed_webhook_failed

  pub deliver_ok :
      (id : String) (job row : Job) (urls : List (String × String)) (w : World p)
      → p.row id w.jobs ≡ some row
      → w.fails db_get ≡ false
      → w.fails db_commit ≡ false
      → let r = deliver id (some job) urls w in
        (r.0 ≡ ok (end_status w job))
        × (r.1.jobs ≡ (
            if job.webhook_url == "" || is_delivered (w.delivery job.webhook_url)
            then w.jobs
            else p.put_row (record row { status = completed_webhook_failed }) w.jobs))
        × (r.1.published ≡ w.published)
  unfolding deliver notify_job_update
  deliver_ok id job row urls w there up commits =
      (ground (arith, there), ground (arith, there), ground (arith, there))

  -- The table after both of its writes.
  abbrev ended_jobs : World p → String → Job → p.Table
  ended_jobs w id done =
      if done.webhook_url == "" || is_delivered (w.delivery done.webhook_url)
      then p.put_row done w.jobs
      else p.put_row (record done { status = completed_webhook_failed }) (p.put_row done w.jobs)

  row-ended_jobs :
      (w : World p) (id j : String) (job done : Job)
      → p.row id w.jobs ≡ some job
      → p.row id (p.put_row done w.jobs) ≡ some done
      → done.id ≡ job.id
      → p.row j (ended_jobs w id done) ≡ (
          if id == j
          then some (record done {
            status =
                if done.webhook_url == "" || is_delivered (w.delivery done.webhook_url)
                then done.status
                else completed_webhook_failed;
          })
          else p.row j w.jobs)
  row-ended_jobs w id j job done there there1 same =
      let once = row-put_row_id p id j job done w.jobs there same in
      let twice =
        row-put_row_id p id j done (record done { status = completed_webhook_failed })
          (p.put_row done w.jobs) there1 refl in
      elim (Bool-cases (done.webhook_url == "" || is_delivered (w.delivery done.webhook_url))) [
        | inl ends ↦ rw ends once
        | inr fails ↦
            rw fails (
              rw twice (elim (Bool-cases (id == j)) [ inl e ↦ rw e | inr e ↦ rw e (rw e at once) ]))
      ]

  -- The job after it has been finalized, said without the code.
  abbrev pub final_job :
      World p → List (Option String) → (urls : List (String × String)) → Job → Job
  final_job w results urls job = record job {
    status = end_status w job;
    result_urls = some urls;
    result_keys = some (collect_keys results []);
  }

  -- The world in front of the webhook.
  abbrev pub before_webhook :
      (headers : List (String × String)) (results : List (Option String)) (id : String) (job : Job)
      (urls : List (String × String))
      → World p
      → World p
  before_webhook headers results id job urls w =
      let keys = collect_keys results [] in
      record (save_row (finished_job completed urls keys job) w) {
        published =
            if is_empty keys || w.fails publish_task
            then w.published
            else w.published
              ++ single (
                  bundle_signature id keys (filename_of (some job))
                    (or_default (lookup "X-Request-ID" headers) "N/A"))
                ∷ [];
      }

  pub done_there :
      (headers : List (String × String)) (results : List (Option String)) (id : String) (job : Job)
      (urls : List (String × String)) (w : World p)
      → p.row id w.jobs ≡ some job
      → p.row id (before_webhook headers results id job urls w).jobs
        ≡ some (finished_job completed urls (collect_keys results []) job)
  done_there headers results id job urls w there =
      let done = finished_job completed urls (collect_keys results []) job in
      ground (arith, eq_refl id, row-put_row_id p id id job done w.jobs there refl)

  -- Finalizing a job that is in the table, with the database up, ends it: it is COMPLETED, with the
  -- URLs and keys of its results, if it has no webhook or its webhook was delivered, and otherwise
  -- COMPLETED_WEBHOOK_FAILED; the task returns that status. No other row changes. The archive task
  -- is sent exactly if there are results and the broker takes it, and nothing else is.
  pub finalize_job-outcome :
      (headers : List (String × String)) (results : List (Option String)) (id j : String)
      (job : Job) (w : World p)
      → p.row id w.jobs ≡ some job
      → w.fails db_get ≡ false
      → w.fails db_commit ≡ false
      → (urls : List (String × String)) × (collect_urls
            (base_name (filename_of (some job)))
            results
            []
            w
          ≡ (ok urls, w))
        × ((finalize_job headers results id w).0
            ≡ ok (record {
              job_id = id;
              status = status_value (end_status w job);
              result_urls = urls;
            }))
        × (p.row j (finalize_job headers results id w).1.jobs
            ≡ (if id == j then some (final_job w results urls job) else p.row j w.jobs))
        × ((finalize_job headers results id w).1.published ≡ (
            if is_empty (collect_keys results []) || w.fails publish_task
            then w.published
            else w.published
              ++ single (
                  bundle_signature id
                    (collect_keys results [])
                    (filename_of (some job))
                    (or_default (lookup "X-Request-ID" headers) "N/A"))
                ∷ []))
  unfolding finalize_job
  finalize_job-outcome headers results id j job w there up commits =
      let (urls, signed) = collect_urls_total (base_name (filename_of (some job))) results [] w in
      let done = finished_job completed urls (collect_keys results []) job in
      let there1 = done_there headers results id job urls w there in
      let w2 = before_webhook headers results id job urls w in
      let (status, jobs, published) = deliver_ok id job done urls w2 there1 up commits in
      (
        urls,
        signed,
        ground (arith, there, signed, status),
        let table : (finalize_job headers results id w).1.jobs ≡ ended_jobs w id done =
              ground (arith, there, signed, jobs) in
            rw table (row-ended_jobs w id j job done there there1 refl),
        ground (arith, there, signed, published),
      )
