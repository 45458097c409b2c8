-- ===== src/Images/Convert.antt =====
-- `_convert` and the four conversion tasks of app/tasks/image_ops.py, with `download_raw` of
-- app/services/s3.py.
pub mod Stored
use pix_tools.Base.{String, Option, none, some, Exn, Result, ok, err, unavailable, s3_get}
use pix_tools.Json.{Fields}
use pix_tools.Platform.{Platform}
use pix_tools.Pillow.{Pillow}
use pix_tools.World.{Action, World, gets, call, lift, raise, retrying, ◌>>=◌, ◌>>◌}
use pix_tools.Store.{upload_processed}
use pix_tools.Images.Encode.{converted}

module _ {p : Platform} (pil : Pillow) where
  -- A missing object is a `ClientError` as well.
  unfoldable pub download_raw : String → Action p pil.Image
  download_raw s3_key = do
    call s3_get
    found ← gets (λ w. p.object s3_key w.bucket)
    elim found [
      | none ↦ raise (unavailable s3_get)
      | some image_bytes ↦ lift (pil.open_image image_bytes)
    ]

  unfoldable pub convert :
      (job_id s3_raw_key target_format operation_name : String) (params : Option Fields)
      → Action p String
  convert job_id s3_raw_key target_format operation_name params = do
    image ← download_raw s3_raw_key
    body ← lift (converted p.runtime p.settings pil image target_format operation_name params)
    upload_processed body job_id operation_name target_format

  module _ (celery_retry : Exn → Exn) (job_id s3_raw_key : String) (params : Option Fields) where
    abbrev pub convert_jpg : Action p String
    convert_jpg = retrying celery_retry (convert job_id s3_raw_key "JPEG" "jpg" params)

    abbrev pub convert_png : Action p String
    convert_png = retrying celery_retry (convert job_id s3_raw_key "PNG" "png" params)

    abbrev pub convert_webp : Action p String
    convert_webp = retrying celery_retry (convert job_id s3_raw_key "WEBP" "webp" params)

    abbrev pub convert_avif : Action p String
    convert_avif = retrying celery_retry (convert job_id s3_raw_key "AVIF" "avif" params)
