-- ===== src/Tests/Attempts.antt =====
-- The attempts at a conversion in memory.
use text.Mathlib.TextLemmas.{cons-ne-nil}
use pix_tools.Base.{
  ℕ, String, ◌≤◌, ◌<◌, ◌≡◌, refl, false, none, some, [], ◌∷◌, ltb, if◌then◌else◌, Exn, retry, err,
  arith,
}
use pix_tools.Platform.{Bytes}
use pix_tools.World.{World, Action, retrying}
use pix_tools.Memory.{memory}
use pix_tools.Raster.{raster, opened}
use pix_tools.Runtime.{default_settings}
use pix_tools.Images.Encode.{converted, encode}
use pix_tools.Images.{parse_resize, resize_image, extract_quality}
use pix_tools.Images.Convert.{convert, download_raw}
use pix_tools.Tasks.Lifecycle.{
  parse_enqueued_at, Task, on_task_prerun, on_task_postrun, on_task_retry, set_job_status,
}
use pix_tools.System.Attempts.{is_retry, image_retries, Celery, attempts, attempt, after_body}
use pix_tools.System.Attempts.Ending.{IsReady, HasEnded}
use pix_tools.System.Attempts.Conversion.{IsPlain, IsMade, convert_ends}
use pix_tools.Tests.Tasks.{job, start}

abbrev raised : (max_retries retries : ℕ) → Exn → Exn
raised m r e = if ltb r m then retry e else e

raised_again : (m r : ℕ) (e : Exn) → r < m → raised m r e ≡ retry e
raised_again m r e h = ground arith

raised_over : (m r : ℕ) (e : Exn) → m ≤ r → raised m r e ≡ e
raised_over m r e h = ground arith

abbrev celery : Celery
celery = record {
  raised = raised;
  text = λ e. some "error";
  raised_again = raised_again;
  raised_over = raised_over;
}

abbrev converting : Task
converting = record {
  task_id = some "t2";
  name = "app.tasks.image_ops.convert_webp";
  kwargs = ("job_id", "u") ∷ [];
  headers = [];
}

opened_plain : (b : Bytes) (e : Exn) → opened b ≡ err e → is_retry e ≡ false
opened_plain [] e h = ground (arith, h)
opened_plain (w ∷ []) e h = ground (arith, h)
opened_plain (w ∷ h ∷ b) e q = cc

never_fails :
    (image : ℕ × ℕ) (e : Exn)
    → converted memory.runtime default_settings raster image "WEBP" "webp" none ≡ err e
    → is_retry e ≡ false
unfolding converted encode parse_resize resize_image extract_quality
never_fails image e h = cc

raster-IsPlain :
    IsPlain raster
      (λ image. converted memory.runtime default_settings raster image "WEBP" "webp" none)
raster-IsPlain = record { opens = opened_plain; works = never_fails }

abbrev body : (Exn → Exn) → Action memory String
body f = retrying f (convert raster "u" "raw/u/x.png" "WEBP" "webp" none)

-- The raw image is there.
abbrev ready : World memory
ready = record start { bucket = ("raw/u/x.png", 640 ∷ 480 ∷ []) ∷ [] }

ready-IsReady : IsReady {p = memory} "u" ready
ready-IsReady = record { job = job; there = refl; reads = refl; commits = refl }

convert_ends_example :
    HasEnded celery converting image_retries body
      (IsMade memory raster
        (λ image. converted memory.runtime default_settings raster image "WEBP" "webp" none)
        "u"
        "raw/u/x.png"
        "WEBP"
        "webp")
      "u"
      4
      ready.bucket
      (attempts celery converting image_retries body image_retries 0 ready)
convert_ends_example =
    convert_ends raster celery converting "u" "raw/u/x.png" "WEBP" "webp" none ready refl
      (λ e. cons-ne-nil _ _ e) raster-IsPlain ready-IsReady

-- Without the raw image there are four attempts.
tried : (attempts celery converting image_retries body image_retries 0 start).1 ≡ 4
unfolding attempts attempt after_body convert download_raw on_task_prerun on_task_postrun
    on_task_retry set_job_status parse_enqueued_at
tried = refl
