-- ===== src/Denoise/Stored.antt =====
-- What the denoising task leaves behind.
use pix_tools.Base.{String, Option, Exn}
use pix_tools.Json.{Fields}
use pix_tools.Platform.{Platform}
use pix_tools.Pillow.{Pillow}
use pix_tools.World.{World}
use pix_tools.Images.Convert.Stored.{IsAllOrNothing, retrying-process_outcome}
use pix_tools.Denoise.Network.{Torch}
use pix_tools.Denoise.Inference.{denoised}
use pix_tools.Denoise.{loaded, denoise_image, denoise}

module _ {p : Platform} {pil : Pillow} (torch : Torch pil) (celery_retry : Exn → Exn) where
  -- In a worker that has loaded the model, the denoising task is all or nothing. Either it returns a
  -- key of its operation, under which the bucket now holds the denoised image as a PNG, or it raises
  -- what Celery's retry makes of an exception. Beyond that it changes nothing, a drawn UUID excepted.
  pub denoise_outcome :
      (job_id raw : String) (params : Option Fields) (w : World p)
      → IsAllOrNothing pil
          (λ image. denoised p.runtime p.settings pil torch image params)
          celery_retry
          job_id
          raw
          "PNG"
          "denoise"
          w
          (denoise torch celery_retry loaded job_id raw params w)
  unfolding denoise denoise_image
  denoise_outcome job_id raw params w =
      retrying-process_outcome pil (λ image. denoised p.runtime p.settings pil torch image params)
        celery_retry job_id raw "PNG" "denoise" w
