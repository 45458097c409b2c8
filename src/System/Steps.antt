-- ===== src/System/Steps.antt =====
-- Every interleaving of requests, tasks and signal handlers, as runs of a step relation.
use mathlib.Core.Path.{subst}
use pix_tools.Base.{
  String, Bool, true, ◌≡◌, refl, sym, ap, ◌∙◌, Option, none, some, List, Exn, inl, inr, Result,
}
use pix_tools.Json.{Fields}
use pix_tools.Models.{Job}
use pix_tools.Platform.{Platform, Bytes}
use pix_tools.Pillow.{Pillow}
use pix_tools.World.{World, retrying}
use pix_tools.World.Rules.{Rel-refl}
use pix_tools.Metadata.Values.{Exif}
use pix_tools.Jobs.{Request}
use pix_tools.Jobs.Create.{create_job}
use pix_tools.Jobs.Get.{get_job}
use pix_tools.Jobs.Get.Laws.{get_job_unchanged}
use pix_tools.Images.Convert.{convert}
use pix_tools.Images.Convert.Stored.{IsAllOrNothing, retrying-convert_outcome}
use pix_tools.Denoise.{Model, not_loaded, loaded, denoise}
use pix_tools.Denoise.Network.{Torch}
use pix_tools.Denoise.Stored.{denoise_outcome}
use pix_tools.Tasks.Router.{start_pipeline, start_pipeline_jobs}
use pix_tools.Tasks.Lifecycle.{
  Task, on_task_prerun, on_task_postrun, on_task_retry, on_task_failure,
}
use pix_tools.Tasks.Finalize.{finalize_job}
use pix_tools.Tasks.Archive.{bundle_results}
use pix_tools.Tasks.Metadata.{Stamp, extract_metadata}
use pix_tools.Tasks.Maintenance.{prune_expired_jobs}
use pix_tools.System.Rows.{Changed, is_sound, Evolves, Evolves-trans, Evolves-quiet, evolution}
use pix_tools.System.Guarded.{some_injective}
use pix_tools.System.Bundling.{bundle_results-Evolves}
use pix_tools.System.Handlers.{
  on_task_prerun-Evolves, on_task_postrun-Evolves, on_task_retry-Evolves, on_task_failure-Evolves,
}
use pix_tools.System.Extraction.{extract_metadata-Evolves}
use pix_tools.System.Finalizing.{finalize_job-Evolves}
use pix_tools.System.Requests.{IsSound, create_job-IsSound, prune_expired_jobs-IsSound}

rows_sound :
    (a b : Option Job)
    → Changed a b
    → ((job : Job) → a ≡ some job → is_sound job ≡ true)
    → (job : Job) → b ≡ some job
    → is_sound job ≡ true
rows_sound none none c h job e = cc
rows_sound (some a) (some b) c h job e =
    subst (λ y. is_sound y ≡ true) (some_injective e) (c.sound_stays (h a refl))
rows_sound none (some b) c h job e = absurd c
rows_sound (some a) none c h job e = absurd c

-- A task on an image leaves the rows alone.
pub stored-Evolves :
    {p : Platform} (pil : Pillow) (work : pil.Image → Result Bytes) (celery_retry : Exn → Exn)
    (id raw fmt op : String) (v : World p) (r : Result String × World p)
    → IsAllOrNothing pil work celery_retry id raw fmt op v r
    → Evolves v r.1
stored-Evolves pil work celery_retry id raw fmt op v r (inl (_, _, _, state)) =
    Evolves-quiet v _ (ap (λ u. u.jobs) state) (ap (λ u. u.session) state)
stored-Evolves pil work celery_retry id raw fmt op v r (inr (_, _, inl state)) =
    Evolves-quiet v _ (ap (λ u. u.jobs) state) (ap (λ u. u.session) state)
stored-Evolves pil work celery_retry id raw fmt op v r (inr (_, _, inr state)) =
    Evolves-quiet v _ (ap (λ u. u.jobs) state) (ap (λ u. u.session) state)

module _ {p : Platform} {pil : Pillow} (x : Exif pil) (torch : Torch pil)
    (zip : List (String × Bytes) → Bytes) (celery_retry : Exn → Exn) where
  -- One step of the workers: a signal handler, a task, or anything that happens outside the table of
  -- jobs (time passes, a service fails or comes back, an object expires).
  pub data TaskStep (v w : World p) : Type 0 where
    starts : (t : Option Task) → w ≡ (on_task_prerun t v).1 → TaskStep v w
    ends : (t : Task) → w ≡ (on_task_postrun t v).1 → TaskStep v w
    retries : (t : Task) → w ≡ (on_task_retry t v).1 → TaskStep v w
    fails :
        (t : Task) (exception : Option String)
        → w ≡ (on_task_failure t exception v).1
        → TaskStep v w
    converts :
        (id raw fmt op : String) (params : Option Fields)
        → w ≡ (retrying celery_retry (convert pil id raw fmt op params) v).1
        → TaskStep v w
    extracts :
        (headers : List (String × String)) (id raw : String) (mark_completed : Bool)
        (enqueued_at : Option Stamp)
        → w ≡ (extract_metadata x celery_retry headers id raw mark_completed enqueued_at v).1
        → TaskStep v w
    denoises :
        (model : Model) (id raw : String) (params : Option Fields)
        → w ≡ (denoise torch celery_retry model id raw params v).1
        → TaskStep v w
    routes :
        (id raw : String) (operations : List String) (params : List (String × Fields))
        (request_id : String) (enqueued_at : Option Stamp)
        → w ≡ (start_pipeline id raw operations params request_id enqueued_at v).1
        → TaskStep v w
    finalizes :
        (headers : List (String × String)) (results : List (Option String)) (id : String)
        → w ≡ (finalize_job headers results id v).1
        → TaskStep v w
    bundles :
        (id : String) (result_keys : List (String × String)) (original_filename : Option String)
        → w ≡ (bundle_results zip celery_retry id result_keys original_filename v).1
        → TaskStep v w
    elsewhere : w.jobs ≡ v.jobs → w.session ≡ v.session → TaskStep v w

  pub data TaskRun (v : World p) : World p → Type 0 where
    none_yet : TaskRun v v
    then_task : {u w : World p} → TaskRun v u → TaskStep u w → TaskRun v w

  -- One step of the whole system: a task, a request, a poll, or the pruning.
  pub data Step (v w : World p) : Type 0 where
    task : TaskStep v w → Step v w
    requests : (r : Request) → w ≡ (create_job r v).1 → Step v w
    polls : (id : String) → w ≡ (get_job id v).1 → Step v w
    prunes : w ≡ (prune_expired_jobs celery_retry v).1 → Step v w

  pub data Run (v : World p) : World p → Type 0 where
    here : Run v v
    next : {u w : World p} → Run v u → Step u w → Run v w

  convert-Evolves :
      (id raw fmt op : String) (params : Option Fields) (v : World p)
      → Evolves v (retrying celery_retry (convert pil id raw fmt op params) v).1
  convert-Evolves id raw fmt op params v =
      stored-Evolves pil _ celery_retry id raw fmt op v _
        (retrying-convert_outcome pil celery_retry id raw fmt op params v)

  denoise-Evolves :
      (model : Model) (id raw : String) (params : Option Fields) (v : World p)
      → Evolves v (denoise torch celery_retry model id raw params v).1
  unfolding denoise
  denoise-Evolves not_loaded id raw params v = Evolves-quiet v v refl refl
  denoise-Evolves loaded id raw params v =
      stored-Evolves pil _ celery_retry id raw "PNG" "denoise" v _
        (denoise_outcome torch celery_retry id raw params v)

  pub TaskStep-Evolves : (v w : World p) → TaskStep v w → Evolves v w
  TaskStep-Evolves v w (starts t e) = subst (Evolves v) (sym e) (on_task_prerun-Evolves t v)
  TaskStep-Evolves v w (ends t e) = subst (Evolves v) (sym e) (on_task_postrun-Evolves t v)
  TaskStep-Evolves v w (retries t e) = subst (Evolves v) (sym e) (on_task_retry-Evolves t v)
  TaskStep-Evolves v w (fails t x e) = subst (Evolves v) (sym e) (on_task_failure-Evolves t x v)
  TaskStep-Evolves v w (converts id raw fmt op params e) =
      subst (Evolves v) (sym e) (convert-Evolves id raw fmt op params v)
  TaskStep-Evolves v w (extracts headers id raw mark stamp e) =
      subst (Evolves v) (sym e)
        (extract_metadata-Evolves id x celery_retry headers raw mark stamp v)
  TaskStep-Evolves v w (denoises model id raw params e) =
      subst (Evolves v) (sym e) (denoise-Evolves model id raw params v)
  TaskStep-Evolves v w (routes id raw ops params request_id stamp e) = subst (Evolves v) (sym e) (
      Evolves-quiet v _ (start_pipeline_jobs id raw ops params request_id stamp v).0
        (start_pipeline_jobs id raw ops params request_id stamp v).1)
  TaskStep-Evolves v w (finalizes headers results id e) =
      subst (Evolves v) (sym e) (finalize_job-Evolves id headers results v)
  TaskStep-Evolves v w (bundles id keys filename e) =
      subst (Evolves v) (sym e) (bundle_results-Evolves zip celery_retry id keys filename v)
  TaskStep-Evolves v w (elsewhere jobs session) = Evolves-quiet v w jobs session

  -- However the tasks and the signal handlers of all workers interleave, and whatever fails: no job
  -- appears or vanishes, the request that made a job stays in its row, results and EXIF data are
  -- never lost, a job that has left PENDING never becomes PENDING again, and a sound job stays sound.
  pub TaskRun-Evolves : {v w : World p} → TaskRun v w → Evolves v w
  TaskRun-Evolves none_yet = Rel-refl evolution _
  TaskRun-Evolves (then_task r s) = Evolves-trans _ _ _ (TaskRun-Evolves r) (TaskStep-Evolves _ _ s)

  Evolves-IsSound : (v w : World p) → Evolves v w → IsSound v → IsSound w
  Evolves-IsSound v w h s = record {
    session = h.session ∙ s.session;
    rows = λ j. rows_sound (p.row j v.jobs) (p.row j w.jobs) (h.rows j) (s.rows j);
  }

  Step-IsSound : (v w : World p) → Step v w → IsSound v → IsSound w
  Step-IsSound v w (task t) s = Evolves-IsSound v w (TaskStep-Evolves v w t) s
  Step-IsSound v w (requests r e) s = subst IsSound (sym e) (create_job-IsSound r v s)
  Step-IsSound v w (polls id e) s = subst IsSound (sym (e ∙ get_job_unchanged id v s.session)) s
  Step-IsSound v w (prunes e) s =
      subst IsSound (sym e) (prune_expired_jobs-IsSound celery_retry v s)

  -- However requests, polls, tasks, signal handlers and pruning interleave, and whatever fails: if
  -- every job that says it is completed has its results at the start, then so at every later time,
  -- and no request leaves its session open.
  pub Run-IsSound : {v w : World p} → Run v w → IsSound v → IsSound w
  Run-IsSound here s = s
  Run-IsSound (next r st) s = Step-IsSound _ _ st (Run-IsSound r s)
