-- ===== src/Tasks/Lifecycle/Laws.antt =====
-- What the signal handlers do to a job.
use pix_tools.Base.{
  ℕ, String, Bool, true, false, not, ◌&&◌, ◌≡◌, refl, ◌≢◌, ◌⊎◌, Option, none, some, List, [], ◌∷◌,
  lookup, is_in, or_default, arith, ok, ◌==◌, eq_iff, if◌then◌else◌, db_get, db_commit,
}
use pix_tools.Models.{Job, JobStatus, processing, failed}
use pix_tools.Platform.{Platform}
use pix_tools.World.{World}
use pix_tools.Jobs.{truthy}
use pix_tools.Tasks.Rows.{row-put_row_id}
use pix_tools.Tasks.Lifecycle.{
  Task, with_status, without, is_bookkeeping, job_id_of, set_job_status, on_task_prerun,
  on_task_postrun, on_task_failure,
}

-- The handler puts the job of such a task into PROCESSING.
abbrev pub is_tracked : Task → Bool
is_tracked t = not (is_in (job_id_of t) ("" ∷ "N/A" ∷ [])) && not (is_bookkeeping t.name)

pub with_status_id :
    (status : JobStatus) (message : Option String) (job : Job)
    → (with_status status message job).id ≡ job.id
with_status_id status message job = ground arith

lookup-without : (id : String) (m : List (String × ℕ)) → lookup id (without id m) ≡ none
lookup-without id [] = refl
lookup-without id ((k, n) ∷ m) = ground (arith, lookup-without id m)

module _ {p : Platform} where
  -- Recording a status never raises; if the job is there and the database is up, exactly that
  -- job's row changes; else the table is as it was.
  pub set_job_status_row :
      (id j : String) (status : JobStatus) (message : Option String) (job : Job) (w : World p)
      → id ≢ ""
      → p.row id w.jobs ≡ some job
      → w.fails db_get ≡ false
      → w.fails db_commit ≡ false
      → p.row j (set_job_status (some id) status message w).1.jobs
        ≡ (if id == j then some (with_status status message job) else p.row j w.jobs)
  unfolding set_job_status
  set_job_status_row id j status message job w named there up commits = ground (
    arith,
    eq_iff id "",
    there,
    row-put_row_id p id j job (with_status status message job) w.jobs there
        (with_status_id status message job),
  )

  -- Whatever happens, recording a status does not raise, and without the job or the database it
  -- changes nothing.
  pub set_job_status_safe :
      (id : Option String) (status : JobStatus) (message : Option String) (w : World p)
      → ((set_job_status id status message w).0 ≡ ok tt)
        × ((w.fails db_get ≡ true)
              ⊎ (w.fails db_commit ≡ true)
              ⊎ (p.row (or_default id "") w.jobs ≡ none)
            → (set_job_status id status message w).1 ≡ w)
  unfolding set_job_status
  set_job_status_safe id status message w = (ground arith, λ h. ground (arith, h))

  -- Before a tracked task runs, its job is put into PROCESSING, whatever its status was, and keeps
  -- everything else; no other row changes. The job is in the table and the database is up.
  pub on_task_prerun_row :
      (t : Task) (j : String) (job : Job) (w : World p)
      → is_tracked t ≡ true
      → p.row (job_id_of t) w.jobs ≡ some job
      → w.fails db_get ≡ false
      → w.fails db_commit ≡ false
      → p.row j (on_task_prerun (some t) w).1.jobs
        ≡ (if job_id_of t == j then some (record job { status = processing }) else p.row j w.jobs)
  unfolding on_task_prerun set_job_status
  on_task_prerun_row t j job w tracked there up commits = ground (
    arith,
    tracked,
    eq_iff (job_id_of t) "",
    there,
    row-put_row_id p (job_id_of t) j job (record job { status = processing }) w.jobs there refl,
  )

  -- A task of finalize, archive or maintenance, or one without a job, leaves the table alone.
  pub on_task_prerun_untracked :
      (t : Task) (w : World p) → is_tracked t ≡ false → (on_task_prerun (some t) w).1.jobs ≡ w.jobs
  unfolding on_task_prerun
  on_task_prerun_untracked t w untracked = ground (arith, untracked)

  -- After a task the correlation ids are reset, and its start time is forgotten.
  pub on_task_postrun_reset :
      (t : Task) (id : String) (w : World p)
      → truthy t.task_id ≡ some id
      → let w' = (on_task_postrun t w).1 in
        (w'.request_id ≡ "N/A")
        × (w'.job_id ≡ "N/A")
        × (lookup id w'.task_start_times ≡ none)
        × (w'.jobs ≡ w.jobs)
  unfolding on_task_postrun
  on_task_postrun_reset t id w known = (
    ground (arith, known),
    ground (arith, known),
    ground (arith, known, lookup-without id w.task_start_times),
    ground (arith, known),
  )

  -- After a task has failed for good its job is FAILED, with the text of the exception unless that
  -- is empty; no other row changes.
  pub on_task_failure_row :
      (t : Task) (exception : Option String) (id j : String) (job : Job) (w : World p)
      → lookup "job_id" t.kwargs ≡ some id
      → id ≢ ""
      → p.row id w.jobs ≡ some job
      → w.fails db_get ≡ false
      → w.fails db_commit ≡ false
      → p.row j (on_task_failure t exception w).1.jobs ≡ (
          if id == j
          then some (with_status failed (some (or_default exception "unknown")) job)
          else p.row j w.jobs)
  unfolding on_task_failure
  on_task_failure_row t exception id j job w given named there up commits = ground (
    arith,
    given,
    set_job_status_row id j failed (some (or_default exception "unknown")) job w named there up
        commits,
  )
