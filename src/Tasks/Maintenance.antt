-- ===== src/Tasks/Maintenance.antt =====
-- app/tasks/maintenance.py: the periodic pruning of old jobs. Times are in seconds.
use pix_tools.Base.{
  ℕ, ◌+◌, ◌-◌, ◌*◌, Bool, false, String, ◌≡◌, Option, none, some, Exn, arith, ltb, db_flush,
  db_commit, ap, refl, ◌∙◌,
}
use pix_tools.Models.{Job}
use pix_tools.Platform.{Platform, unless}
use pix_tools.World.{World, Action, gets, modify, call, pure, retrying, ◌>>=◌, ◌>>◌}

-- `{"deleted": deleted, "cutoff": cutoff.isoformat()}`
pub record Pruned : Type 0 where
  pub deleted : ℕ
  pub cutoff : ℕ

-- `Job.created_at < cutoff`
abbrev pub older : ℕ → Job → Bool
older cutoff job = ltb job.created_at cutoff

module _ {p : Platform} where
  -- The rows go when the deletion is committed. A cutoff before time 0 is 0: no row is older than
  -- either.
  unfoldable pub prune_expired_jobs : (Exn → Exn) → Action p Pruned
  prune_expired_jobs celery_retry = do
    cutoff ← gets (λ w. w.now - p.settings.job_retention_hours * 3600)
    retrying celery_retry (do
      call db_flush
      call db_commit
      deleted ← gets (λ w. p.count_where (older cutoff) w.jobs)
      modify (λ w. record w { jobs = p.delete_where (older cutoff) w.jobs })
      pure (record { deleted = deleted; cutoff = cutoff }))

  -- A job that has outlived its retention.
  abbrev pub is_expired : World p → Job → Bool
  is_expired w job = ltb (job.created_at + p.settings.job_retention_hours * 3600) w.now

  unless_same :
      (w : World p) (o : Option Job)
      → unless (older (w.now - p.settings.job_retention_hours * 3600)) o ≡ unless (is_expired w) o
  unless_same w none = ground arith
  unless_same w (some job) = later (p.settings.job_retention_hours * 3600)
    where
      later :
          (h : ℕ)
          → unless (older (w.now - h)) (some job)
            ≡ unless (λ j. ltb (j.created_at + h) w.now) (some job)
      later h = ground arith

  -- Pruning, with the database up, removes exactly the jobs that were created longer ago than the
  -- configured retention, and leaves every other row as it was.
  pub prune_expired_jobs_row :
      (celery_retry : Exn → Exn) (w : World p) (j : String)
      → w.fails db_flush ≡ false
      → w.fails db_commit ≡ false
      → p.row j (prune_expired_jobs celery_retry w).1.jobs ≡ unless (is_expired w) (p.row j w.jobs)
  unfolding prune_expired_jobs
  prune_expired_jobs_row celery_retry w j flush_up commit_up =
      let cutoff = w.now - p.settings.job_retention_hours * 3600 in
      let swept : (prune_expired_jobs celery_retry w).1.jobs
          ≡ p.delete_where (older cutoff) w.jobs =
        rw (flush_up, prune_expired_jobs) (rw commit_up refl) in
      ap (p.row j) swept
      ∙ (p.row-delete_where j (older cutoff) w.jobs ∙ unless_same w (p.row j w.jobs))
