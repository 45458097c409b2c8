-- ===== src/System/Handlers.antt =====
-- The signal handlers of the worker, as the rows see them.
use pix_tools.Base.{
  String, true, false, ◌≡◌, refl, ◌∙◌, Option, none, some, or_default, lookup, arith, inl, inr,
  Bool-cases, Option-cases,
}
use pix_tools.Models.{
  Job, JobStatus, pending, processing, completed, failed, completed_webhook_failed,
}
use pix_tools.Jobs.Get.{is_completed}
use pix_tools.Platform.{Platform}
use pix_tools.World.{World, Action, count, pure, attempt, record_metric}
use pix_tools.World.Rules.{
  Keeps, Rel-refl, Rel-bind, Keeps-pure, Keeps-attempt, Keeps-record_metric,
}
use pix_tools.Jobs.{truthy}
use pix_tools.Tasks.Lifecycle.{
  Task, job_id_of, with_status, set_job_status, on_task_prerun, on_task_postrun, on_task_retry,
  on_task_failure,
}
use pix_tools.Tasks.Rows.{update_row}
use pix_tools.Tasks.Lifecycle.Laws.{is_tracked, on_task_prerun_untracked}
use pix_tools.System.Spec.{begin, fail, Moves, move, ticket_of}
use pix_tools.System.Rows.{
  IsChanged, is_pending, Evolves, Evolves-quiet, Evolves-rows, evolution, Keeps-update_row,
}

ticket-with_status :
    (status : JobStatus) (message : Option String) (job : Job)
    → ticket_of (with_status status message job) ≡ record (ticket_of job) { status = status }
ticket-with_status status message job = elim (Option-cases (truthy message)) [
  | inl nothing ↦ ground (arith, nothing)
  | inr (m, there) ↦ ground (arith, there)
]

with_status-Moves :
    (status : JobStatus) (message : Option String) (job : Job)
    → is_completed status ≡ false
    → is_pending status ≡ false
    → Moves (ticket_of job) (ticket_of (with_status status message job))
with_status-Moves processing m job c q = move (begin _ (ticket-with_status processing m job))
with_status-Moves failed m job c q = move (fail _ (ticket-with_status failed m job))
with_status-Moves pending m job c q = cc
with_status-Moves completed m job c q = cc
with_status-Moves completed_webhook_failed m job c q = cc

-- A task may write any status but PENDING and those that promise results.
with_status-IsChanged :
    (status : JobStatus) (message : Option String) (job : Job)
    → is_completed status ≡ false
    → is_pending status ≡ false
    → IsChanged job (with_status status message job)
with_status-IsChanged status message job c q = record {
  id = ground arith;
  operations = ground arith;
  webhook_url = ground arith;
  s3_raw_key = ground arith;
  original_filename = ground arith;
  created_at = ground arith;
  pending_never = λ h. ground arith;
  results_stay = λ h. ground arith;
  exif_stays = λ h. ground arith;
  sound_stays = λ h. ground arith;
  path = with_status-Moves status message job c q;
}

module _ {p : Platform} where
  set_job_status-Keeps :
      (id : Option String) (status : JobStatus) (message : Option String)
      → is_completed status ≡ false
      → is_pending status ≡ false
      → Keeps (evolution {p = p}) (set_job_status id status message)
  unfolding set_job_status
  set_job_status-Keeps id status message c q = go (truthy id)
    where
      go :
          (o : Option String)
          → Keeps (evolution {p = p}) (elim o as (λ _. Action p (Unit {0})) [
            | none ↦ pure tt
            | some i ↦ attempt (update_row i (with_status status message))
          ])
      go none = Keeps-pure evolution tt
      go (some i) = Keeps-attempt evolution _ (
          Keeps-update_row i (with_status status message)
            (λ job. with_status-IsChanged status message job c q))

  session_untracked :
      (t : Task) (w : World p)
      → is_tracked t ≡ false
      → (on_task_prerun (some t) w).1.session ≡ w.session
  unfolding on_task_prerun
  session_untracked t w untracked = ground (arith, untracked)

  session_tracked :
      (t : Task) (w : World p)
      → is_tracked t ≡ true
      → (on_task_prerun (some t) w).1.session
        ≡ (set_job_status (some (job_id_of t)) processing none w).1.session
  unfolding on_task_prerun set_job_status
  session_tracked t w tracked = ground (arith, tracked)

  tracked_jobs :
      (t : Task) (w : World p)
      → is_tracked t ≡ true
      → (on_task_prerun (some t) w).1.jobs
        ≡ (set_job_status (some (job_id_of t)) processing none w).1.jobs
  unfolding on_task_prerun set_job_status
  tracked_jobs t w tracked = ground (arith, tracked)

  -- A task that starts.
  pub on_task_prerun-Evolves : (t : Option Task) (w : World p) → Evolves w (on_task_prerun t w).1
  unfolding on_task_prerun
  on_task_prerun-Evolves none w = Rel-refl evolution w
  on_task_prerun-Evolves (some t) w = elim (Bool-cases (is_tracked t)) [
    | inr untracked ↦
        Evolves-quiet w _ (on_task_prerun_untracked t w untracked) (session_untracked t w untracked)
    | inl tracked ↦
        let marked = (set_job_status-Keeps (some (job_id_of t)) processing none refl refl).at w in
        Evolves-rows w (set_job_status (some (job_id_of t)) processing none w).1 _ marked
          (tracked_jobs t w tracked) (session_tracked t w tracked ∙ marked.session)
  ]

  -- A task that ends.
  pub on_task_postrun-Evolves : (t : Task) (w : World p) → Evolves w (on_task_postrun t w).1
  unfolding on_task_postrun
  on_task_postrun-Evolves t w = Evolves-quiet w _ (ground arith) (ground arith)

  -- A task that is retried.
  pub on_task_retry-Evolves : (t : Task) (w : World p) → Evolves w (on_task_retry t w).1
  unfolding on_task_retry
  on_task_retry-Evolves t w = Evolves-quiet w _ refl refl

  -- A task that has failed for good.
  pub on_task_failure-Evolves :
      (t : Task) (exception : Option String) (w : World p)
      → Evolves w (on_task_failure t exception w).1
  unfolding on_task_failure
  on_task_failure-Evolves t exception w =
      let message = some (or_default exception "unknown") in
      Rel-bind evolution (set_job_status (lookup "job_id" t.kwargs) failed message)
        (λ _. record_metric (count "pixtools_task_failure_total" t.name)) w
        ((set_job_status-Keeps (lookup "job_id" t.kwargs) failed message refl refl).at w)
        (λ _ _. (Keeps-record_metric evolution _).at _)
