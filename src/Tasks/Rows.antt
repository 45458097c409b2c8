-- ===== src/Tasks/Rows.antt =====
-- The job row in a task's own session: `session.get(Job, job_id)` and `session.commit()`.
use pix_tools.Base.{String, ◌≡◌, Option, none, some, ◌==◌, if◌then◌else◌, arith, db_get, db_commit}
use pix_tools.Models.{Job}
use pix_tools.Platform.{Platform}
use pix_tools.World.{World, Action, gets, modify, call, pure, ◌>>=◌, ◌>>◌}

module _ {p : Platform} where
  abbrev pub get_row : String → Action p (Option Job)
  get_row job_id = call db_get >> gets (λ w. p.row job_id w.jobs)

  abbrev pub save_row : Job → World p → World p
  save_row job w = record w { jobs = p.put_row job w.jobs }

  abbrev pub commit_row : Job → Action p (Unit {0})
  commit_row job = call db_commit >> modify (save_row job)

  -- The row with the given id, changed; nothing if there is none.
  abbrev pub update_row : String → (Job → Job) → Action p (Unit {0})
  update_row job_id change = do
    found ← get_row job_id
    elim found [ none ↦ pure tt | some job ↦ commit_row (change job) ]

-- Writing a changed row replaces the row of its id, and no other.
pub row-put_row_id :
    (p : Platform) (id j : String) (job new : Job) (t : p.Table)
    → p.row id t ≡ some job
    → new.id ≡ job.id
    → p.row j (p.put_row new t) ≡ (if id == j then some new else p.row j t)
row-put_row_id p id j job new t there same =
    ground (arith, p.row-put_row j new t, p.id_of_row id job t there)
