-- ===== src/Tests/System.antt =====
-- The whole system on the platform in memory.
use pix_tools.Base.{String, true, ◌≡◌, refl, none, some, List, [], retry}
use pix_tools.World.{World}
use pix_tools.Platform.{Bytes}
use pix_tools.Memory.{memory}
use pix_tools.Planes.{planes}
use pix_tools.Exposures.{camera}
use pix_tools.Jobs.Create.{create_job}
use pix_tools.Tasks.Lifecycle.{on_task_prerun, on_task_failure}
use pix_tools.Tasks.Finalize.{finalize_job}
use pix_tools.Tasks.Maintenance.{prune_expired_jobs}
use pix_tools.System.Rows.{Evolves}
use pix_tools.System.Requests.{IsSound}
use pix_tools.System.Steps.{
  starts, finalizes, fails, TaskRun, Run, none_yet, then_task, requests, prunes, here, next,
  TaskRun-Evolves, Run-IsSound,
}
use pix_tools.System.Spec.{tickets_of, Life}
use pix_tools.System.Steps.{task}
use pix_tools.Metrics.Families.{all_declared}
use pix_tools.System.Exposed.{is_exposed}
use pix_tools.System.Exposed.Runs.{Run-is_exposed}
use pix_tools.System.Refinement.{Run-Life}
use pix_tools.Tests.Jobs.{photo, api}
use pix_tools.Tests.Tasks.{start, denoising, results}

abbrev zip : List (String × Bytes) → Bytes
zip members = []

abbrev running : World memory
running = (on_task_prerun (some denoising) start).1

abbrev finished : World memory
finished = (finalize_job {p = memory} [] results "u" running).1

-- The denoising task starts, the job is finalized, and then the task fails after all.
abbrev broken : World memory
broken = (on_task_failure denoising (some "late") finished).1

abbrev tasks : TaskRun camera planes zip retry start broken
tasks =
    then_task
      (then_task (then_task none_yet (starts (some denoising) refl))
        (finalizes [] results "u" refl))
      (fails denoising (some "late") refl)

TaskRun-Evolves_example : Evolves start broken
TaskRun-Evolves_example = TaskRun-Evolves camera planes zip retry tasks

abbrev empty : World memory
empty = record start { jobs = ([], λ j. none) }

empty-IsSound : IsSound empty
empty-IsSound = record { session = refl; rows = λ j old h. cc }

abbrev requested : World memory
requested = (create_job photo empty).1

abbrev pruned : World memory
pruned = (prune_expired_jobs retry requested).1

abbrev course : Run camera planes zip retry empty pruned
course = next (next here (requests photo refl)) (prunes refl)

Run-Life_example :
    Life (tickets_of (memory.row "u" empty.jobs)) (tickets_of (memory.row "u" pruned.jobs))
unfolding api
Run-Life_example = Run-Life camera planes zip retry course "u" empty-IsSound ((tt, refl), refl)

Run-IsSound_example : IsSound pruned
Run-IsSound_example = Run-IsSound camera planes zip retry course empty-IsSound

-- A task that fails, and the finalizer after it.
abbrev failing : World memory
failing = (on_task_failure denoising (some "late") start).1

abbrev finalized : World memory
finalized = (finalize_job {p = memory} [] results "u" failing).1

abbrev counting : Run camera planes zip retry start finalized
counting =
    next (next here (task (fails denoising (some "late") refl)))
      (task (finalizes [] results "u" refl))

nothing_yet : is_exposed start ≡ true
unfolding all_declared
nothing_yet = refl

Run-is_exposed_example : is_exposed finalized ≡ true
Run-is_exposed_example = Run-is_exposed camera planes zip retry counting ((tt, tt), tt) nothing_yet
