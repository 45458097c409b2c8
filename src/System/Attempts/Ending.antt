-- ===== src/System/Attempts/Ending.antt =====
-- The attempts end, and a job whose task has given up is FAILED.
use mathlib.Core.Path.{subst}
use pix_tools.Base.{
  ℕ, zero, suc, ◌+◌, ◌<◌, ◌≤◌, sym, ◌≡◌, ◌≢◌, ◌⊎◌, refl, ap, ◌∙◌, inl, inr, String, false, Option,
  none, some, Exn, Result, ok, err, arith, Bool-cases, lookup, or_default, db_get, db_commit,
  eq_refl,
}
use pix_tools.Models.{Job, failed}
use pix_tools.Platform.{Platform}
use pix_tools.World.{World, Action}
use pix_tools.Tasks.Lifecycle.{
  Task, with_status, set_job_status, on_task_prerun, on_task_postrun, on_task_retry,
  on_task_failure,
}
use pix_tools.Tasks.Lifecycle.Laws.{is_tracked, on_task_failure_row}
use pix_tools.System.Rows.{Changed, Evolves}
use pix_tools.System.Handlers.{
  on_task_prerun-Evolves, on_task_postrun-Evolves, on_task_retry-Evolves,
}
use pix_tools.System.Attempts.{
  is_retry, Celery, End, done, gave_up, to_run_again, after_body, attempt, attempts,
}

module _ {p : Platform} where
  -- The calls that a world refuses.
  pub prerun_fails : (t : Task) (w : World p) → (on_task_prerun (some t) w).1.fails ≡ w.fails
  unfolding on_task_prerun set_job_status
  prerun_fails t w = elim (Bool-cases (is_tracked t)) [
    | inl tracked ↦ ground (arith, tracked)
    | inr untracked ↦ ground (arith, untracked)
  ]

  pub postrun_fails : (t : Task) (w : World p) → (on_task_postrun t w).1.fails ≡ w.fails
  unfolding on_task_postrun
  postrun_fails t w = ground arith

  retry_fails : (t : Task) (w : World p) → (on_task_retry t w).1.fails ≡ w.fails
  unfolding on_task_retry
  retry_fails t w = refl

  pub postrun_jobs : (t : Task) (w : World p) → (on_task_postrun t w).1.jobs ≡ w.jobs
  unfolding on_task_postrun
  postrun_jobs t w = ground arith

  pub prerun_bucket : (t : Task) (w : World p) → (on_task_prerun (some t) w).1.bucket ≡ w.bucket
  unfolding on_task_prerun set_job_status
  prerun_bucket t w = elim (Bool-cases (is_tracked t)) [
    | inl tracked ↦ ground (arith, tracked)
    | inr untracked ↦ ground (arith, untracked)
  ]

  pub postrun_bucket : (t : Task) (w : World p) → (on_task_postrun t w).1.bucket ≡ w.bucket
  unfolding on_task_postrun
  postrun_bucket t w = ground arith

  retry_bucket : (t : Task) (w : World p) → (on_task_retry t w).1.bucket ≡ w.bucket
  unfolding on_task_retry
  retry_bucket t w = refl

  failure_bucket :
      (t : Task) (e : Option String) (w : World p) → (on_task_failure t e w).1.bucket ≡ w.bucket
  unfolding on_task_failure set_job_status
  failure_bucket t e w = ground arith

  -- The row of the job is there, and the database is up.
  pub record IsReady (id : String) (w : World p) : Type 0 where
    pub job : Job
    pub there : p.row id w.jobs ≡ some job
    pub reads : w.fails db_get ≡ false
    pub commits : w.fails db_commit ≡ false

module _ {p : Platform} (celery : Celery) (t : Task) (max_retries : ℕ)
    (body : (Exn → Exn) → Action p String) (Made : p.Bucket → String → p.Bucket → Type 0) where
  -- What the attempts rely on: the body changes rows as a task may, leaves the services alone, and
  -- returns a key of what it has made in the bucket, or raises what `self.retry` makes of an exception
  -- that is not Celery's own and leaves the bucket alone.
  pub record IsTask : Type 0 where
    pub evolves : (f : Exn → Exn) (w : World p) → Evolves w (body f w).1
    pub fails : (f : Exn → Exn) (w : World p) → (body f w).1.fails ≡ w.fails
    pub answers :
        (f : Exn → Exn) (w : World p)
        → ((key : String) × ((body f w).0 ≡ ok key) × Made w.bucket key (body f w).1.bucket)
          ⊎ ((e : Exn) × ((body f w).0 ≡ err (f e))
              × (is_retry e ≡ false)
              × ((body f w).1.bucket ≡ w.bucket))

still_there :
    (a b : Option Job) (job : Job) → Changed a b → a ≡ some job → (new : Job) × (b ≡ some new)
still_there none b job c e = cc
still_there (some a) none job c e = absurd c
still_there (some a) (some b) job c e = (b, refl)

IsReady-Evolves :
    {p : Platform} (id : String) (v w : World p)
    → Evolves v w
    → w.fails ≡ v.fails
    → IsReady id v
    → IsReady id w
IsReady-Evolves {p} id v w h same r =
    let (new, there) = still_there (p.row id v.jobs) (p.row id w.jobs) r.job (h.rows id) r.there in
    record {
      job = new;
      there = there;
      reads = ap (λ f. f db_get) same ∙ r.reads;
      commits = ap (λ f. f db_commit) same ∙ r.commits;
    }

module _ {p : Platform} (celery : Celery) (t : Task) (max_retries : ℕ)
    (body : (Exn → Exn) → Action p String) (Made : p.Bucket → String → p.Bucket → Type 0)
    (id : String) where
  -- The task has returned a key of what it has made, or it has given up and its job is FAILED.
  abbrev HasReturned : p.Bucket → End × World p → Type 0
  HasReturned b r = (key : String) × (r.0 ≡ done key) × Made b key r.1.bucket

  abbrev HasFailed : p.Bucket → End × World p → Type 0
  HasFailed b r =
      (e : Exn) × (job : Job) × (r.0 ≡ gave_up e)
      × (p.row id r.1.jobs ≡ some job)
      × (job.status ≡ failed)
      × (r.1.bucket ≡ b)

  -- From a bucket: in at most so many attempts the task has made its object, or it has given up after
  -- exactly so many, its job is FAILED, and the bucket is as it was.
  abbrev pub HasEnded : (most : ℕ) → p.Bucket → (End × World p) × ℕ → Type 0
  HasEnded most b (r, n) = (HasReturned b r × (n ≤ most)) ⊎ (HasFailed b r × (n ≡ most))

  abbrev IsToRunAgain : ℕ → p.Bucket → End × World p → Type 0
  IsToRunAgain left b r = (r.0 ≡ to_run_again) × IsReady id r.1 × (0 < left) × (r.1.bucket ≡ b)

  -- What one attempt comes to. Only the last one gives up.
  abbrev HasTried : ℕ → p.Bucket → End × World p → Type 0
  HasTried left b r = HasReturned b r ⊎ ((HasFailed b r × (left ≡ 0)) ⊎ IsToRunAgain left b r)

  failed_row :
      (e : Exn) (w : World p)
      → lookup "job_id" t.kwargs ≡ some id
      → id ≢ ""
      → IsReady id w
      → (job : Job) × (p.row id (on_task_postrun t (on_task_failure t (celery.text e) w).1).1.jobs
          ≡ some job)
        × (job.status ≡ failed)
  failed_row e w given named r =
      let new = with_status failed (some (or_default (celery.text e) "unknown")) r.job in
      let at =
        on_task_failure_row t (celery.text e) id id r.job w given named r.there r.reads r.commits in
      (
        new,
        ap (p.row id) (postrun_jobs t (on_task_failure t (celery.text e) w).1)
            ∙ at
            ∙ rw (eq_refl id) refl,
        ground arith,
      )

  after_body_ends :
      (left retries : ℕ) (r : Result String) (b : p.Bucket) (w : World p)
      → left + retries ≡ max_retries
      → lookup "job_id" t.kwargs ≡ some id
      → id ≢ ""
      → IsReady id w
      → ((key : String) × (r ≡ ok key) × Made b key w.bucket)
        ⊎ ((e : Exn) × (r ≡ err (celery.raised max_retries retries e))
            × (is_retry e ≡ false)
            × (w.bucket ≡ b))
      → HasTried left b (after_body celery t max_retries body r w)
  unfolding after_body
  after_body_ends left retries r b w sum given named ready (inl (key, e, made)) =
      rw e (inl (key, refl, subst (Made b key) (sym (postrun_bucket t w)) made))
  after_body_ends zero retries r b w sum given named ready (inr (x, e, other, still)) =
      let last = celery.raised_over max_retries retries x (omega arith) in
      let (job, at, status) = failed_row x w given named ready in
      let w1 = (on_task_failure t (celery.text x) w).1 in
      let bucket = postrun_bucket t w1 ∙ failure_bucket t (celery.text x) w ∙ still in
      rw (e ∙ ap err last) (rw other (inr (inl ((x, job, refl, at, status, bucket), refl))))
  after_body_ends (suc left) retries r b w sum given named ready (inr (x, e, other, still)) =
      let again = celery.raised_again max_retries retries x (omega arith) in
      let w1 = (on_task_retry t w).1 in
      let ready1 = IsReady-Evolves id w w1 (on_task_retry-Evolves t w) (retry_fails t w) ready in
      let ready2 =
        IsReady-Evolves id w1 (on_task_postrun t w1).1 (on_task_postrun-Evolves t w1)
          (postrun_fails t w1) ready1 in
      let bucket = postrun_bucket t w1 ∙ retry_bucket t w ∙ still in
      rw (e ∙ ap err again) (inr (inr (refl, ready2, omega arith, bucket)))

  attempt_ends :
      (left retries : ℕ) (w : World p)
      → left + retries ≡ max_retries
      → lookup "job_id" t.kwargs ≡ some id
      → id ≢ ""
      → IsTask celery t max_retries body Made
      → IsReady id w
      → HasTried left w.bucket (attempt celery t max_retries body retries w)
  unfolding attempt
  attempt_ends left retries w sum given named good ready =
      let w1 = (on_task_prerun (some t) w).1 in
      let f = celery.raised max_retries retries in
      let ready1 =
        IsReady-Evolves id w w1 (on_task_prerun-Evolves (some t) w) (prerun_fails t w) ready in
      let ready2 =
        IsReady-Evolves id w1 (body f w1).1 (good.evolves f w1) (good.fails f w1) ready1 in
      subst
        (λ b. HasTried left b (after_body celery t max_retries body (body f w1).0 (body f w1).1))
        (prerun_bucket t w)
        (after_body_ends left retries (body f w1).0 w1.bucket (body f w1).1 sum given named ready2
          (good.answers f w1))

  abbrev go_on : ℕ → ℕ → End × World p → (End × World p) × ℕ
  go_on left retries (e, w') = elim e [
    | done key ↦ ((done key, w'), 1)
    | gave_up x ↦ ((gave_up x, w'), 1)
    | to_run_again ↦
        let (r, n) = attempts celery t max_retries body left (suc retries) w' in (r, suc n)
  ]

  once_more :
      (most : ℕ) (b : p.Bucket) (q : (End × World p) × ℕ)
      → HasEnded most b q
      → HasEnded (suc most) b (q.0, suc q.1)
  once_more most b q (inl (returned, n)) = inl (returned, omega (arith, n))
  once_more most b q (inr (failed_, n)) = inr (failed_, ap suc n)

  go_on_ends :
      (left retries : ℕ) (b : p.Bucket) (r : End × World p)
      → ((w : World p)
          → IsReady id w
          → HasEnded (suc left) w.bucket (attempts celery t max_retries body left (suc retries) w))
      → HasTried (suc left) b r
      → HasEnded (suc (suc left)) b (go_on left retries r)
  go_on_ends left retries b (done key, w) ih (inl returned) = inl (returned, omega arith)
  go_on_ends left retries b (done key, w) ih (inr (inl (h, last))) = absurd (omega (arith, last))
  go_on_ends left retries b (done key, w) ih (inr (inr (e, ready, more, still))) = cc
  go_on_ends left retries b (gave_up x, w) ih (inl returned) = inl (returned, omega arith)
  go_on_ends left retries b (gave_up x, w) ih (inr (inl (h, last))) = absurd (omega (arith, last))
  go_on_ends left retries b (gave_up x, w) ih (inr (inr (e, ready, more, still))) = cc
  go_on_ends left retries b (to_run_again, w) ih (inl (key, e, made)) = cc
  go_on_ends left retries b (to_run_again, w) ih (inr (inl (h, last))) =
      absurd (omega (arith, last))
  go_on_ends left retries b (to_run_again, w) ih (inr (inr (e, ready, more, still))) =
      let q = attempts celery t max_retries body left (suc retries) w in
      once_more (suc left) b q (subst (λ c. HasEnded (suc left) c q) still (ih w ready))

  -- With any number of retries: in at most that many more attempts the task ends.
  pub attempts_end :
      (left retries : ℕ) (w : World p)
      → left + retries ≡ max_retries
      → lookup "job_id" t.kwargs ≡ some id
      → id ≢ ""
      → IsTask celery t max_retries body Made
      → IsReady id w
      → HasEnded (suc left) w.bucket (attempts celery t max_retries body left retries w)
  unfolding attempts
  attempts_end zero retries w sum given named good ready =
      elim (attempt_ends zero retries w sum given named good ready) [
        | inl returned ↦ inl (returned, omega arith)
        | inr (inl (h, last)) ↦ inr (h, refl)
        | inr (inr (e, r, more, still)) ↦ absurd (omega (arith, more))
      ]
  attempts_end (suc left) retries w sum given named good ready =
      go_on_ends left retries w.bucket (attempt celery t max_retries body retries w)
        (λ v r. attempts_end left (suc retries) v (omega arith) given named good r)
        (attempt_ends (suc left) retries w sum given named good ready)
