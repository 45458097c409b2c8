-- ===== src/System/Pipeline/State.antt =====
-- The state in which the tasks of a chord run.
use pix_tools.Base.{
  ℕ, String, true, false, ◌≡◌, ◌≢◌, refl, ap, sym, ◌∙◌, some, arith, db_get, db_commit, eq_refl,
}
use Prim.Native.Char.{Char, code}
use text.Mathlib.TextLemmas.{cons-append, head-eq_of_cons-eq}
use pix_tools.Base.Text.{has}
use pix_tools.Runtime.{Runtime}
use pix_tools.Models.{
  Job, JobStatus, processing, OperationType, jpg, png, webp, avif, denoise, metadata,
}
use pix_tools.Platform.{Platform, Bytes}
use pix_tools.World.{World}
use pix_tools.Store.{processed_key, extension, raw_key}
use pix_tools.Dag.Laws.{is_metadata, task_name}
use pix_tools.Tasks.Lifecycle.{
  Task, job_id_of, is_bookkeeping, set_job_status, on_task_prerun, on_task_postrun,
}
use pix_tools.Tasks.Lifecycle.Laws.{is_tracked, on_task_prerun_row}
use pix_tools.System.Pipeline.Running.{format_of}

pub task_name-is_bookkeeping : (op : OperationType) → is_bookkeeping (task_name op) ≡ false
task_name-is_bookkeeping jpg = refl
task_name-is_bookkeeping png = refl
task_name-is_bookkeeping webp = refl
task_name-is_bookkeeping avif = refl
task_name-is_bookkeeping denoise = refl
task_name-is_bookkeeping metadata = refl

-- No result takes the place of an upload.
pub raw_key-ne-processed_key :
    (id hex ext job_id op hex8 fmt : String) → raw_key id hex ext ≢ processed_key job_id op hex8 fmt
raw_key-ne-processed_key id hex ext job_id op hex8 fmt e =
    let Char_r : Char = "r" in
    let Char_p : Char = "p" in
    let h : Char_r ≡ Char_p =
      head-eq_of_cons-eq (sym (cons-append "r" "aw/" _) ∙ (e ∙ cons-append "p" "rocessed/" _)) in
    absurd (omega (arith, ap code h))

module _ {p : Platform} where
  -- A world in which the tasks of a job run: the status of its row is any, its upload is there, and
  -- the services are as they were.
  pub record IsRunning (start : World p) (job : Job) (raw : String) (image_bytes : Bytes)
      (w : World p) : Type 0 where
    pub status : JobStatus
    pub row : p.row job.id w.jobs ≡ some (record job { status = status })
    pub image : p.object raw w.bucket ≡ some image_bytes
    pub fails : w.fails ≡ start.fails
    pub delivery : w.delivery ≡ start.delivery
    pub session : w.session ≡ start.session

  module _ (start : World p) (job : Job) (raw : String) (image_bytes : Bytes) (t : Task)
      (w : World p) (r : IsRunning start job raw image_bytes w) where
    prerun_row :
        is_tracked t ≡ true
        → job_id_of t ≡ job.id
        → start.fails db_get ≡ false
        → start.fails db_commit ≡ false
        → p.row job.id (on_task_prerun (some t) w).1.jobs
          ≡ some (record job { status = processing })
    prerun_row tracked same reads commits =
        on_task_prerun_row t job.id (record job { status = r.status }) w tracked
          (ap (λ i. p.row i w.jobs) same ∙ r.row) (ap (λ f. f db_get) r.fails ∙ reads)
          (ap (λ f. f db_commit) r.fails ∙ commits)
        ∙ rw same (rw (eq_refl job.id) refl)

    pub prerun-IsRunning :
        is_tracked t ≡ true
        → job_id_of t ≡ job.id
        → start.fails db_get ≡ false
        → start.fails db_commit ≡ false
        → IsRunning start job raw image_bytes (on_task_prerun (some t) w).1
    unfolding on_task_prerun set_job_status
    prerun-IsRunning tracked same reads commits = record {
      status = processing;
      row = prerun_row tracked same reads commits;
      image = ground (arith, tracked, r.image);
      fails = ground (arith, tracked, r.fails);
      delivery = ground (arith, tracked, r.delivery);
      session = ground (arith, tracked, r.session);
    }

    pub postrun-IsRunning : IsRunning start job raw image_bytes (on_task_postrun t w).1
    unfolding on_task_postrun
    postrun-IsRunning = record {
      status = r.status;
      row = ground (arith, r.row);
      image = ground (arith, r.image);
      fails = ground (arith, r.fails);
      delivery = ground (arith, r.delivery);
      session = ground (arith, r.session);
    }

    pub untracked-IsRunning :
        is_tracked t ≡ false → IsRunning start job raw image_bytes (on_task_prerun (some t) w).1
    unfolding on_task_prerun
    untracked-IsRunning untracked = record {
      status = r.status;
      row = ground (arith, untracked, r.row);
      image = ground (arith, untracked, r.image);
      fails = ground (arith, untracked, r.fails);
      delivery = ground (arith, untracked, r.delivery);
      session = ground (arith, untracked, r.session);
    }

-- What the code relies on in Python: the digits of a UUID, and `str.lower` of the names of formats.
pub record IsPlainRuntime (rt : Runtime) : Type 0 where
  pub hex8 : (n : ℕ) → has "/" (rt.uuid_hex8 n) ≡ false
  pub jpeg_lem : rt.lower "JPEG" ≡ "jpeg"
  pub png_lem : rt.lower "PNG" ≡ "png"
  pub webp_lem : rt.lower "WEBP" ≡ "webp"
  pub avif_lem : rt.lower "AVIF" ≡ "avif"

pub extension_of-plain :
    (rt : Runtime) (op : OperationType)
    → IsPlainRuntime rt
    → is_metadata op ≡ false
    → (has "/" (extension rt.lower (format_of op)) ≡ false)
      × (has "." (extension rt.lower (format_of op)) ≡ false)
unfolding extension has
extension_of-plain rt jpg plain h = rw plain.jpeg_lem (refl, refl)
extension_of-plain rt png plain h = rw plain.png_lem (refl, refl)
extension_of-plain rt webp plain h = rw plain.webp_lem (refl, refl)
extension_of-plain rt avif plain h = rw plain.avif_lem (refl, refl)
extension_of-plain rt denoise plain h = rw plain.png_lem (refl, refl)
extension_of-plain rt metadata plain h = cc
