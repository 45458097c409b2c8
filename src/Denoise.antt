-- ===== src/Denoise.antt =====
-- The denoising task of app/tasks/ml_ops.py, over the network of app/ml/dncnn.py.
pub mod Network
pub mod Inference
pub mod Shapes
pub mod Stored
use pix_tools.Base.{String, Option, Exn, runtime_error}
use pix_tools.Json.{Fields}
use pix_tools.Platform.{Platform}
use pix_tools.Pillow.{Pillow}
use pix_tools.World.{Action, lift, raise, retrying, ◌>>=◌}
use pix_tools.Store.{upload_processed}
use pix_tools.Images.Convert.{download_raw}
use pix_tools.Denoise.Network.{Torch}
use pix_tools.Denoise.Inference.{denoised}

-- `_model`: whether `load_model` has run in this worker.
pub data Model : Type 0 where
  not_loaded loaded : Model

-- `load_model`, where the weights could be read
abbrev pub load_model : Model → Model
load_model _ = loaded

module _ {p : Platform} {pil : Pillow} (torch : Torch pil) (celery_retry : Exn → Exn) where
  -- the body of `try`
  unfoldable pub denoise_image :
      (job_id s3_raw_key : String) (params : Option Fields) → Action p String
  denoise_image job_id s3_raw_key params = do
    image ← download_raw pil s3_raw_key
    body ← lift (denoised p.runtime p.settings pil torch image params)
    upload_processed body job_id "denoise" "PNG"

  -- Without a model the task raises outside `try`, and is not retried.
  unfoldable pub denoise :
      Model → (job_id s3_raw_key : String) (params : Option Fields) → Action p String
  denoise not_loaded job_id s3_raw_key params = raise runtime_error
  denoise loaded job_id s3_raw_key params =
      retrying celery_retry (denoise_image job_id s3_raw_key params)
