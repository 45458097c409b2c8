-- ===== src/Denoise/Inference.antt =====
-- The pure part of `denoise` of app/tasks/ml_ops.py.
use pix_tools.Base.{Option, none, Result, or_default, ◌>>=◌}
use pix_tools.Json.{Fields}
use pix_tools.Runtime.{Runtime, Settings}
use pix_tools.Platform.{Bytes}
use pix_tools.Pillow.{Pillow}
use pix_tools.Images.{apply_resize_if_requested}
use pix_tools.Images.Encode.{encode}
use pix_tools.Denoise.Network.{Torch, dncnn, forward}

-- The steps of `denoise` between the download and the upload, and the encoding.
unfoldable pub denoised :
    (rt : Runtime) (settings : Settings) (pil : Pillow)
    → Torch pil
    → pil.Image
    → Option Fields
    → Result Bytes
denoised rt settings pil torch image params = do
  let rgb = pil.convert_rgb (or_default (pil.exif_transpose image) image)
  resized ← apply_resize_if_requested rt pil settings rgb params
  tensor_out ← forward torch (dncnn 3 20 64) (torch.tensor_of resized)
  out_image ← torch.image_of tensor_out
  encode rt pil out_image "PNG" none
