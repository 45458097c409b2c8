-- ===== src/System/Pipeline/Chord.antt =====
-- From the message of a chord to the poll of its job.
use pix_tools.Base.{
  String, true, false, ◌≡◌, refl, ap, ◌∙◌, Option, some, is_some, List, [], map, All, ok, Exn,
  arith, is_in, lookup, eq_refl, db_get, db_commit, s3_head,
}
use pix_tools.Models.{Job, JobStatus, OperationType, value, status_value}
use pix_tools.Platform.{Platform, Bytes}
use pix_tools.World.{World, Signature}
use pix_tools.Dag.{finalize_signature}
use pix_tools.Jobs.Get.{View, get_job}
use pix_tools.Tasks.Lifecycle.{Task, on_task_prerun, on_task_postrun}
use pix_tools.Tasks.Lifecycle.Laws.{is_tracked}
use pix_tools.Tasks.Finalize.{Finalized, collect_keys, finalize_job}
use pix_tools.Tasks.Finalize.Keys.{Stored, stored_key, IsPlain}
use pix_tools.Tasks.Finalize.Outcome.{end_status, final_job, finalize_job-outcome}
use pix_tools.Tasks.Finalize.Repeated.{finalize_job-IsAlike}
use pix_tools.System.Finalizing.{finalize_job-Evolves}
use pix_tools.System.Attempts.Ending.{postrun_fails, postrun_jobs}
use pix_tools.System.Handlers.{on_task_postrun-Evolves}
use pix_tools.System.Completion.{finalize_job-polled}
use pix_tools.System.Pipeline.{task_for, call_back}
use pix_tools.System.Attempts.Ending.{prerun_bucket, postrun_bucket}
use pix_tools.System.Pipeline.State.{IsRunning, untracked-IsRunning}
use pix_tools.System.Pipeline.Results.{has_object, has_object-bucket, is_empty_of_lookup, collected}

module _ (task_id : Signature → Option String) where
  -- What the callback of a chord comes to: the finalizer between its signals, of which the first
  -- leaves the job alone.
  abbrev finalizing : String → List (String × String) → Task
  finalizing job_id headers =
      let body = finalize_signature job_id headers in task_for (task_id body) body

  finalizing_untracked :
      (job_id : String) (headers : List (String × String))
      → is_tracked (finalizing job_id headers) ≡ false
  finalizing_untracked job_id headers = ground arith

module _ {p : Platform} where
  -- What a client sees of a job whose chord has run: a poll shows the status that its webhook decides,
  -- and under `name` a URL exactly if that is one of the operations that were asked for; its row has
  -- a key for it, and the bucket an object under that key, exactly then.
  pub record IsShown (start : World p) (job : Job) (asked : List String) (name : String)
      (w : World p) : Type 0 where
    pub view : View
    pub got : get_job job.id w ≡ (ok view, w)
    pub status : view.status ≡ status_value (end_status start job)
    pub urls : is_some (lookup name view.result_urls) ≡ is_in name asked
    pub done : Job
    pub row : p.row job.id w.jobs ≡ some done
    pub keys : List (String × String)
    pub result_keys : done.result_keys ≡ some keys
    pub objects : has_object w (lookup name keys) ≡ is_in name asked

module _ {p : Platform} (text : Exn → Option String) (task_id : Signature → Option String) where
  -- The world in which the finalizer runs.
  abbrev awaited : String → List (String × String) → World p → World p
  awaited job_id headers w1 = (on_task_prerun (some (finalizing task_id job_id headers)) w1).1

  call_back_ok :
      (job_id : String) (headers : List (String × String)) (keys : List String) (w1 : World p)
      (answer : Finalized)
      → let w2 = awaited job_id headers w1 in
        (finalize_job headers (map some keys) job_id w2).0 ≡ ok answer
        → call_back text task_id (finalize_signature job_id headers) keys w1 ≡ (
          ok answer,
          (on_task_postrun
              (finalizing task_id job_id headers)
              (finalize_job headers (map some keys) job_id w2).1).1,
        )
  unfolding call_back
  call_back_ok job_id headers keys w1 answer done = rw done refl

  end_status_alike :
      (v w : World p) (a b : Job)
      → v.delivery ≡ w.delivery
      → a.webhook_url ≡ b.webhook_url
      → status_value (end_status v a) ≡ status_value (end_status w b)
  end_status_alike v w a b same url = rw same (rw url refl)

  -- The callback of a chord whose tasks have all stored their results.
  module _ (start : World p) (job : Job) (upload : String) (image_bytes : Bytes)
      (headers : List (String × String)) (ds : List Stored) (w1 : World p) where
    abbrev results : List (Option String)
    results = map some (map (stored_key job.id) ds)

    abbrev ending : Task
    ending = finalizing task_id job.id headers

    -- The world after the finalizer and the signal behind it.
    abbrev finalized : World p
    finalized =
        (on_task_postrun ending
          (finalize_job headers results job.id (awaited job.id headers w1)).1).1

    finalized_services :
        (status : JobStatus)
        → let w2 = awaited job.id headers w1 in
          p.row job.id w2.jobs ≡ some (record job { status = status })
          → w2.fails ≡ start.fails
          → w2.session ≡ start.session
          → start.session ≡ []
          → start.fails db_get ≡ false
          → start.fails db_commit ≡ false
          → (finalized.fails ≡ start.fails)
            × (finalized.session ≡ [])
            × (finalized.bucket ≡ w1.bucket)
    finalized_services status row fails session clean reads commits =
        let w2 = awaited job.id headers w1 in
        let w3 = (finalize_job headers results job.id w2).1 in
        let alike =
          finalize_job-IsAlike headers results job.id (record job { status = status }) w2 row
            (ap (λ f. f db_get) fails ∙ reads) (ap (λ f. f db_commit) fails ∙ commits) in
        (
          postrun_fails ending w3 ∙ (alike.fails ∙ fails),
          (on_task_postrun-Evolves ending w3).session
              ∙ ((finalize_job-Evolves job.id headers results w2).session ∙ (session ∙ clean)),
          postrun_bucket ending w3 ∙ (alike.bucket ∙ prerun_bucket ending w1),
        )

    abbrev pub called_back : World p
    called_back =
        (call_back text task_id (finalize_signature job.id headers) (map (stored_key job.id) ds)
          w1).1

    pub call_back-IsShown :
        (op : OperationType) (name : String)
        → IsRunning start job upload image_bytes w1
        → start.session ≡ []
        → start.fails db_get ≡ false
        → start.fails db_commit ≡ false
        → start.fails s3_head ≡ false
        → is_in (value op) (map value (map (λ (d : Stored). d.op) ds)) ≡ true
        → All IsPlain ds
        → All (λ (d : Stored). is_some (p.object (stored_key job.id d) w1.bucket) ≡ true) ds
        → IsShown start job (map value (map (λ (d : Stored). d.op) ds)) name called_back
    call_back-IsShown op name r clean reads commits heads some_op plain stored =
        let w2 = awaited job.id headers w1 in
        let r2 =
          untracked-IsRunning start job upload image_bytes ending w1 r
            (finalizing_untracked task_id job.id headers) in
        let job1 = record job { status = r2.status } in
        let reads2 : w2.fails db_get ≡ false = ap (λ f. f db_get) r2.fails ∙ reads in
        let commits2 : w2.fails db_commit ≡ false = ap (λ f. f db_commit) r2.fails ∙ commits in
        let (urls, _, answer, row, _) =
          finalize_job-outcome headers results job.id job.id job1 w2 r2.row reads2 commits2 in
        let same : called_back ≡ finalized =
          ap (λ q. q.1) (call_back_ok job.id headers (map (stored_key job.id) ds) w1 _ answer) in
        let keys = collect_keys results [] in
        let found = collected w1 job.id name ds plain stored in
        let some_key = (collected w1 job.id (value op) ds plain stored).0 ∙ some_op in
        let (fails, session, bucket) =
          finalized_services r2.status r2.row r2.fails r2.session clean reads commits in
        let kept =
          ap (p.row job.id) (postrun_jobs ending (finalize_job headers results job.id w2).1) in
        let (view, got, status, shown) =
          finalize_job-polled headers results job.id name job1 w2 finalized r2.row reads2 commits2
            (is_empty_of_lookup (value op) keys some_key) kept session
            (ap (λ f. f db_get) fails ∙ reads) (ap (λ f. f db_commit) fails ∙ commits)
            (ap (λ f. f s3_head) fails ∙ heads) in
        rw same (record {
          view = view;
          got = got;
          status = status ∙ end_status_alike w2 start job1 job r2.delivery refl;
          urls = shown ∙ found.0;
          done = final_job w2 results urls job1;
          row = kept ∙ (row ∙ rw (eq_refl job.id) refl);
          keys = keys;
          result_keys = refl;
          objects = has_object-bucket finalized w1 (lookup name keys) bucket ∙ found.1;
        })
