-- ===== src/Tasks/Finalize/Repeated.antt =====
-- `finalize_job` on a message that is delivered twice: with `task_acks_late` and
-- `task_reject_on_worker_lost`, a worker that is lost before it acknowledges has its message
-- delivered again.
use mathlib.Core.List.{append-nil}
use mathlib.Core.Path.{subst}
use pix_tools.Base.{
  String, false, not, ◌&&◌, ◌||◌, ◌==◌, ◌≡◌, refl, ap, is_empty, or_default, lookup, ◌∙◌, Option,
  some, List, [], ◌∷◌, ◌++◌, arith, ok, db_get, db_commit, publish_task, Option-cases, Bool-cases,
  inl, inr, eq_refl, if◌then◌else◌,
}
use pix_tools.Models.{Job, completed, status_value}
use pix_tools.Platform.{Platform}
use pix_tools.World.{World, Message, single, Payload}
use pix_tools.Store.{generate_presigned_url, base_name}
use pix_tools.Webhook.{notify_job_update, is_delivered}
use pix_tools.Jobs.{truthy}
use pix_tools.Tasks.Finalize.{
  filename_of, collect_keys, add_url, collect_urls, finished_job, bundle_signature, deliver,
  finalize_job,
}
use pix_tools.Tasks.Finalize.Outcome.{
  end_status, final_job, add_url_total, collect_urls_total, before_webhook, done_there, deliver_ok,
  finalize_job-outcome,
}

module _ {p : Platform} where
  -- What the services do and what time it is.
  pub record IsAlike (v w : World p) : Type 0 where
    pub fails : v.fails ≡ w.fails
    pub delivery : v.delivery ≡ w.delivery
    pub now : v.now ≡ w.now
    pub bucket : v.bucket ≡ w.bucket

  deliver-IsAlike :
      (id : String) (job : Job) (urls : List (String × String)) (w : World p)
      → IsAlike (deliver id (some job) urls w).1 w
  unfolding deliver notify_job_update
  deliver-IsAlike id job urls w = record {
    fails = ground arith;
    delivery = ground arith;
    now = ground arith;
    bucket = ground arith;
  }

  -- The payloads that a finished job sends.
  abbrev payloads : World p → String → Job → List (String × String) → List (String × Payload)
  payloads w id job urls =
      if not (job.webhook_url == "") && is_delivered (w.delivery job.webhook_url)
      then (
        job.webhook_url,
        record { job_id = id; status = status_value completed; result_urls = urls },
      )
        ∷ []
      else []

  deliver_received :
      (id : String) (job : Job) (urls : List (String × String)) (w : World p)
      → (deliver id (some job) urls w).1.received ≡ w.received ++ payloads w id job urls
  unfolding deliver notify_job_update
  deliver_received id job urls w = ground (arith, append-nil w.received)

  pub finalize_job-IsAlike :
      (headers : List (String × String)) (results : List (Option String)) (id : String) (job : Job)
      (w : World p)
      → p.row id w.jobs ≡ some job
      → w.fails db_get ≡ false
      → w.fails db_commit ≡ false
      → IsAlike (finalize_job headers results id w).1 w
  unfolding finalize_job
  finalize_job-IsAlike headers results id job w there up commits =
      let (urls, signed) = collect_urls_total (base_name (filename_of (some job))) results [] w in
      let done = finished_job completed urls (collect_keys results []) job in
      let w2 = before_webhook headers results id job urls w in
      let there1 = done_there headers results id job urls w there in
      let (status, _, _) = deliver_ok id job done urls w2 there1 up commits in
      let alike = deliver-IsAlike id job urls w2 in
      record {
        fails = ground (arith, there, signed, status, alike.fails);
        delivery = ground (arith, there, signed, status, alike.delivery);
        now = ground (arith, there, signed, status, alike.now);
        bucket = ground (arith, there, signed, status, alike.bucket);
      }

  finalize_job_received :
      (headers : List (String × String)) (results : List (Option String)) (id : String) (job : Job)
      (w : World p) (urls : List (String × String))
      → p.row id w.jobs ≡ some job
      → w.fails db_get ≡ false
      → w.fails db_commit ≡ false
      → collect_urls (base_name (filename_of (some job))) results [] w ≡ (ok urls, w)
      → (finalize_job headers results id w).1.received ≡ w.received ++ payloads w id job urls
  unfolding finalize_job
  finalize_job_received headers results id job w urls there up commits signed =
      let done = finished_job completed urls (collect_keys results []) job in
      let w2 = before_webhook headers results id job urls w in
      let there1 = done_there headers results id job urls w there in
      let (status, _, _) = deliver_ok id job done urls w2 there1 up commits in
      ground (arith, there, signed, status, deliver_received id job urls w2)

  add_url_now :
      (base : String) (r : Option String) (urls : List (String × String)) (v w : World p)
      → v.now ≡ w.now
      → (add_url base r urls v).0 ≡ (add_url base r urls w).0
  unfolding add_url generate_presigned_url
  add_url_now base r urls v w same = elim (Option-cases (truthy r)) [
    | inl nothing ↦ ground (arith, nothing)
    | inr (s3_key, there) ↦ ground (arith, there, same)
  ]

  collect_urls_now :
      (base : String) (rs : List (Option String)) (urls : List (String × String)) (v w : World p)
      → v.now ≡ w.now
      → (collect_urls base rs urls v).0 ≡ (collect_urls base rs urls w).0
  unfolding collect_urls
  collect_urls_now base [] urls v w same = refl
  collect_urls_now base (r ∷ rs) urls v w same =
      let (next, e) = add_url_total base r urls v in
      let (next', e') = add_url_total base r urls w in
      ground
        (arith, e, e', add_url_now base r urls v w same, collect_urls_now base rs next v w same)

  -- The archive task that a finished job sends.
  abbrev messages :
      World p → List (String × String) → List (Option String) → String → Job → List Message
  messages w headers results id job =
      let keys = collect_keys results [] in
      if is_empty keys || w.fails publish_task
      then []
      else single (
          bundle_signature id keys (filename_of (some job))
            (or_default (lookup "X-Request-ID" headers) "N/A"))
        ∷ []

  -- The outcome, with the URLs that are known.
  finalize_job-signed :
      (headers : List (String × String)) (results : List (Option String)) (id j : String)
      (job : Job) (w : World p) (urls : List (String × String))
      → p.row id w.jobs ≡ some job
      → w.fails db_get ≡ false
      → w.fails db_commit ≡ false
      → collect_urls (base_name (filename_of (some job))) results [] w ≡ (ok urls, w)
      → let (r, w1) = finalize_job headers results id w in
        (r
          ≡ ok (record {
            job_id = id;
            status = status_value (end_status w job);
            result_urls = urls;
          }))
        × (p.row j w1.jobs
            ≡ (if id == j then some (final_job w results urls job) else p.row j w.jobs))
        × (w1.published ≡ w.published ++ messages w headers results id job)
  finalize_job-signed headers results id j job w urls there up commits signed =
      let (urls', signed', answer, row, published) =
        finalize_job-outcome headers results id j job w there up commits in
      let same : urls' ≡ urls = ground (arith, signed, signed') in
      (
        ground (arith, answer, same),
        subst
            (λ u.
              p.row j (finalize_job headers results id w).1.jobs
              ≡ (if id == j then some (final_job w results u job) else p.row j w.jobs))
            same row,
        ground (arith, published, append-nil w.published),
      )

  -- Finalizing what has been finalized.
  final_job_again :
      (v w : World p) (results : List (Option String)) (urls urls' : List (String × String))
      (job : Job)
      → v.delivery ≡ w.delivery
      → urls' ≡ urls
      → final_job v results urls' (final_job w results urls job) ≡ final_job w results urls job
  final_job_again v w results urls urls' job delivery same = rw delivery (rw same refl)

  -- A message that is delivered twice, because its worker was lost before it acknowledged, with the
  -- database up both times and nothing else between: the second run of the finalizer returns what the first
  -- one returned and leaves every row as it was, but it sends the archive task and the payload to the
  -- webhook once more, if the first run sent them.
  pub finalize_job-twice :
      (headers : List (String × String)) (results : List (Option String)) (id : String) (job : Job)
      (w : World p)
      → p.row id w.jobs ≡ some job
      → w.fails db_get ≡ false
      → w.fails db_commit ≡ false
      → let (r1, w1) = finalize_job headers results id w in
        let (r2, w2) = finalize_job headers results id w1 in
        (r2 ≡ r1)
        × ((j : String) → p.row j w2.jobs ≡ p.row j w1.jobs)
        × ((messages : List Message) × (w1.published ≡ w.published ++ messages)
            × (w2.published ≡ w1.published ++ messages))
        × ((sent : List (String × Payload)) × (w1.received ≡ w.received ++ sent)
            × (w2.received ≡ w1.received ++ sent))
  finalize_job-twice headers results id job w there up commits =
      let (r1, w1) = finalize_job headers results id w in
      let base = base_name (filename_of (some job)) in
      let (urls, signed) = collect_urls_total base results [] w in
      let (urls', signed') = collect_urls_total base results [] w1 in
      let job1 = final_job w results urls job in
      let alike = finalize_job-IsAlike headers results id job w there up commits in
      let same : urls' ≡ urls =
        ground (arith, signed, signed', collect_urls_now base results [] w1 w alike.now) in
      let first = λ (j : String).
        finalize_job-signed headers results id j job w urls there up commits signed in
      let there1 : p.row id w1.jobs ≡ some job1 = ground (arith, (first id).1, eq_refl id) in
      let up1 : w1.fails db_get ≡ false = ap (λ f. f db_get) alike.fails ∙ up in
      let commits1 : w1.fails db_commit ≡ false = ap (λ f. f db_commit) alike.fails ∙ commits in
      let second = λ (j : String).
        finalize_job-signed headers results id j job1 w1 urls' there1 up1 commits1 signed' in
      let stays : final_job w1 results urls' job1 ≡ job1 =
        final_job_again w1 w results urls urls' job alike.delivery same in
      (
        ground (arith, (first id).0, (second id).0, same, ap (λ (x : Job). x.status) stays),
        λ j. elim (Bool-cases (id == j)) [
          | inl e ↦ ground (arith, e, (first j).1, (second j).1, stays)
          | inr e ↦ ground (arith, e, (second j).1)
        ],
        (
          messages w headers results id job,
          (first id).2,
          ground (arith, (second id).2, ap (λ f. f publish_task) alike.fails),
        ),
        (
          payloads w id job urls,
          finalize_job_received headers results id job w urls there up commits signed,
          ground (
            arith,
            finalize_job_received headers results id job1 w1 urls' there1 up1 commits1 signed',
            ap (λ f. f job.webhook_url) alike.delivery,
            same,
          ),
        ),
      )
