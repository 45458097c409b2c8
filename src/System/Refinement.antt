-- ===== src/System/Refinement.antt =====
-- The whole system refines the specification of a job's life.
use mathlib.Core.Path.{subst}
use pix_tools.Base.{String, ◌≡◌, refl, ◌∙◌, sym, Option, none, some, List, Exn}
use pix_tools.Models.{Job}
use pix_tools.Platform.{Platform, Bytes}
use pix_tools.Pillow.{Pillow}
use pix_tools.World.{World}
use pix_tools.Metadata.Values.{Exif}
use pix_tools.Denoise.Network.{Torch}
use pix_tools.Jobs.Create.Effects.{new_id}
use pix_tools.Jobs.Get.Laws.{get_job_unchanged}
use pix_tools.System.Spec.{tickets_of, Life, still, Life-trans, Moves-Life}
use pix_tools.System.Rows.{Changed}
use pix_tools.System.Requests.{IsSound}
use pix_tools.System.Lives.{Lives, Lives-same, create_job-Lives, prune_expired_jobs-Lives}
use pix_tools.System.Steps.{
  Step, task, requests, polls, prunes, Run, here, next, TaskStep-Evolves, Run-IsSound,
}

Changed-Life : (a b : Option Job) → Changed a b → Life (tickets_of a) (tickets_of b)
Changed-Life none none c = still
Changed-Life (some a) (some b) c = Moves-Life c.path
Changed-Life none (some b) c = absurd c
Changed-Life (some a) none c = absurd c

module _ {p : Platform} {pil : Pillow} (x : Exif pil) (torch : Torch pil)
    (zip : List (String × Bytes) → Bytes) (celery_retry : Exn → Exn) where
  -- At no step of the run is the next UUID that of a job in the table.
  abbrev pub NoCollision : {v w : World p} → Run x torch zip celery_retry v w → Type 0
  NoCollision here = Unit
  NoCollision (next {u = u} r st) = NoCollision r × (p.row (new_id u) u.jobs ≡ none)

  Step-Lives :
      (v w : World p)
      → Step x torch zip celery_retry v w
      → IsSound v
      → p.row (new_id v) v.jobs ≡ none
      → Lives v w
  Step-Lives v w (task t) s free =
      let change = TaskStep-Evolves x torch zip celery_retry v w t in
      record { at = λ id. Changed-Life _ _ (change.rows id) }
  Step-Lives v w (requests r e) s free =
      subst (Lives v) (sym e) (create_job-Lives r v s.session free)
  Step-Lives v w (polls id e) s free =
      subst (Lives v) (sym (e ∙ get_job_unchanged id v s.session)) (Lives-same v v refl)
  Step-Lives v w (prunes e) s free =
      subst (Lives v) (sym e) (prune_expired_jobs-Lives celery_retry v)

  -- The system refines the specification of a job. However requests, polls, tasks, signal handlers
  -- and pruning interleave, and whatever fails, from a sound world and with UUIDs that are new: what
  -- becomes of each id is a life of its ticket. It is accepted as PENDING, without results, only if
  -- it is not there; its status becomes PROCESSING, FAILED, or COMPLETED together with its results,
  -- and COMPLETED_WEBHOOK_FAILED only when it has results; it gets EXIF data; and it expires.
  pub Run-Life :
      {v w : World p} (r : Run x torch zip celery_retry v w) (id : String)
      → IsSound v
      → NoCollision r
      → Life (tickets_of (p.row id v.jobs)) (tickets_of (p.row id w.jobs))
  Run-Life here id s n = still
  Run-Life (next r st) id s (n, free) =
      let now = Run-IsSound x torch zip celery_retry r s in
      Life-trans (Run-Life r id s n) ((Step-Lives _ _ st now free).at id)
