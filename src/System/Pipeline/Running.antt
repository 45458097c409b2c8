-- ===== src/System/Pipeline/Running.antt =====
-- What a task of a header leaves behind if nothing fails.
use pix_tools.Base.{
  suc, String, false, ◌≡◌, refl, ap, ◌∙◌, some, ok, Exn, Result, arith, s3_get, s3_put,
}
use pix_tools.Json.{Fields}
use pix_tools.Models.{OperationType, value, jpg, png, webp, avif, denoise, metadata}
use pix_tools.Platform.{Platform, Bytes}
use pix_tools.Pillow.{Pillow}
use pix_tools.World.{World}
use pix_tools.Store.{upload_processed}
use pix_tools.Dag.Laws.{is_metadata, task_name}
use pix_tools.Images.Encode.{converted}
use pix_tools.Images.Convert.{download_raw, convert}
use pix_tools.Store.{processed_key, extension}
use pix_tools.System.Attempts.Conversion.{image_task}
use pix_tools.Denoise.Inference.{denoised}
use pix_tools.Denoise.{loaded, denoise_image}
use pix_tools.Denoise
use pix_tools.Denoise.Network.{Torch}
use pix_tools.System.Pipeline.{perform}

-- The format of the result of an operation.
abbrev pub format_of : OperationType → String
format_of jpg = "JPEG"
format_of png = "PNG"
format_of webp = "WEBP"
format_of avif = "AVIF"
format_of denoise = "PNG"
format_of metadata = ""

-- What the task of an operation makes of an image.
abbrev pub work_of :
    (p : Platform) {pil : Pillow} (torch : Torch pil)
    → OperationType
    → Fields
    → pil.Image
    → Result Bytes
work_of p {pil} torch denoise params image =
    denoised p.runtime p.settings pil torch image (some params)
work_of p {pil} torch op params image =
    converted p.runtime p.settings pil image (format_of op) (value op) (some params)

module _ {p : Platform} {pil : Pillow} (torch : Torch pil) (celery_retry : Exn → Exn)
    (job_id raw : String) (params : Fields) where
  -- Each operation of a header is performed by the task that makes its work.
  perform-eq-image_task :
      (op : OperationType)
      → is_metadata op ≡ false
      → perform {p = p} torch celery_retry loaded (task_name op) job_id raw params
        ≡ image_task pil
            (work_of p torch op params)
            job_id
            raw
            (format_of op)
            (value op)
            celery_retry
  unfolding perform convert Denoise.denoise denoise_image
  perform-eq-image_task jpg h = refl
  perform-eq-image_task png h = refl
  perform-eq-image_task webp h = refl
  perform-eq-image_task avif h = refl
  perform-eq-image_task denoise h = refl
  perform-eq-image_task metadata h = cc

  -- It stores its result and returns the key, if the image is there and nothing fails.
  pub perform_stores :
      (op : OperationType) (image_bytes body : Bytes) (image : pil.Image) (w : World p)
      → is_metadata op ≡ false
      → w.fails s3_get ≡ false
      → w.fails s3_put ≡ false
      → p.object raw w.bucket ≡ some image_bytes
      → pil.open_image image_bytes ≡ ok image
      → work_of p torch op params image ≡ ok body
      → let key =
          processed_key job_id
            (value op)
            (p.runtime.uuid_hex8 w.drawn)
            (extension p.runtime.lower (format_of op)) in
        perform torch celery_retry loaded (task_name op) job_id raw params w
        ≡ (ok key, record w { bucket = p.put_object key body w.bucket; drawn = suc w.drawn })
  unfolding download_raw upload_processed
  perform_stores op image_bytes body image w pipeline gets puts there opens works =
      ap (λ m. m w) (perform-eq-image_task op pipeline) ∙ ground (arith, there, opens, works)
