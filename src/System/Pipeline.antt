-- ===== src/System/Pipeline.antt =====
-- A chord from its message to the finalizer: what the workers do with what app/services/dag_builder.py
-- sends. Celery's part is documented behaviour: the task that is registered under a name runs between
-- its signals, the tasks of a header run in any order, and the callback of a chord gets their results,
-- in the header's order, once all of them have returned.
pub mod Order
pub mod Running
pub mod State
pub mod Header
pub mod Results
pub mod Chord
pub mod Accepted
use mathlib.Core.List.{Permᴰ}
use pix_tools.Base.{
  String, Option, none, some, List, [], ◌∷◌, map, ◌==◌, if◌then◌else◌, Exn, key_error, Result, ok,
  err,
}
use pix_tools.Json.{Fields}
use pix_tools.Platform.{Platform}
use pix_tools.Pillow.{Pillow}
use pix_tools.World.{
  World, Action, Signature, Kwargs, operation, finalize, extract, bundle, pure, raise, ◌>>=◌,
}
use pix_tools.Images.Convert.{convert_jpg, convert_png, convert_webp, convert_avif}
use pix_tools.Denoise.{Model, denoise}
use pix_tools.Denoise.Network.{Torch}
use pix_tools.Tasks.Lifecycle.{Task, on_task_prerun, on_task_postrun, on_task_failure}
use pix_tools.System.Pipeline.Order.{carry}
use pix_tools.Tasks.Finalize.{Finalized, finalize_job}

-- The keyword arguments that the signal handlers read.
abbrev pub texts : Kwargs → List (String × String)
texts (operation job_id raw params) = ("job_id", job_id) ∷ []
texts (finalize job_id) = ("job_id", job_id) ∷ []
texts (extract job_id raw mark_completed) = ("job_id", job_id) ∷ []
texts (bundle job_id keys filename) = ("job_id", job_id) ∷ []

-- The task that the signal handlers are given, under the id that Celery has drawn for it.
abbrev pub task_for : Option String → Signature → Task
task_for task_id s = record {
  task_id = task_id;
  name = s.task;
  kwargs = texts s.kwargs;
  headers = s.headers;
}

module _ {p : Platform} (text : Exn → Option String) where
  -- the signals behind a task that is not run again
  abbrev pub ended : {A : Type 0} → Task → Result A → World p → Result A × World p
  ended t (ok a) w = (ok a, (on_task_postrun t w).1)
  ended t (err e) w = (err e, (on_task_postrun t (on_task_failure t (text e) w).1).1)

  abbrev pub signalled : {A : Type 0} → Task → Action p A → Action p A
  signalled t m w = let (r, w1) = m (on_task_prerun (some t) w).1 in ended t r w1

  unfoldable pub call_back :
      (task_id : Signature → Option String) → Signature → List String → Action p Finalized
  call_back task_id s keys = elim s.kwargs [
    | finalize job_id ↦
        signalled (task_for (task_id s) s) (finalize_job s.headers (map some keys) job_id)
    | operation job_id raw params ↦ raise key_error
    | extract job_id raw mark_completed ↦ raise key_error
    | bundle job_id keys filename ↦ raise key_error
  ]

module _ {p : Platform} {pil : Pillow} (torch : Torch pil) (celery_retry : Exn → Exn)
    (model : Model) where
  -- the tasks by the names of their decorators
  unfoldable pub perform : (task job_id raw : String) (params : Fields) → Action p String
  perform task job_id raw params =
      if task == "app.tasks.image_ops.convert_jpg"
      then convert_jpg pil celery_retry job_id raw (some params)
      else if task == "app.tasks.image_ops.convert_png"
      then convert_png pil celery_retry job_id raw (some params)
      else if task == "app.tasks.image_ops.convert_webp"
      then convert_webp pil celery_retry job_id raw (some params)
      else if task == "app.tasks.image_ops.convert_avif"
      then convert_avif pil celery_retry job_id raw (some params)
      else if task == "app.tasks.ml_ops.denoise"
      then denoise torch celery_retry model job_id raw (some params)
      else raise key_error

  module _ (text : Exn → Option String) (task_id : Signature → Option String) where
    -- a task of a header
    unfoldable pub work_on : Signature → Action p String
    work_on s = elim s.kwargs [
      | operation job_id raw params ↦
          signalled text (task_for (task_id s) s) (perform s.task job_id raw params)
      | finalize job_id ↦ raise key_error
      | extract job_id raw mark_completed ↦ raise key_error
      | bundle job_id keys filename ↦ raise key_error
    ]

    unfoldable pub run_header : List Signature → Action p (List String)
    run_header [] = pure []
    run_header (s ∷ ss) = do key ← work_on s; keys ← run_header ss; pure (key ∷ keys)

    -- The tasks of the header run in any order; the callback gets their results in the header's.
    unfoldable pub run_chord :
        {order header : List Signature}
        → Permᴰ order header
        → (body : Signature) → Action p Finalized
    run_chord {order = order} turn body = do
      keys ← run_header order
      call_back text task_id body (carry turn keys)
