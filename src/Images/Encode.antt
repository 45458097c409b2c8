-- ===== src/Images/Encode.antt =====
-- The pure part of `_convert` of app/tasks/image_ops.py: resizing, and the encoding in
-- `upload_processed` of app/services/s3.py.
use pix_tools.Base.{
  String, true, Option, none, some, [], ◌∷◌, ◌==◌, or_default, is_in, if◌then◌else◌, Result, ◌>>=◌,
}
use pix_tools.Base.Int.{ℤ, pos}
use pix_tools.Json.{Fields}
use pix_tools.Runtime.{Runtime, Settings}
use pix_tools.Platform.{Bytes}
use pix_tools.Pillow.{Pillow, SaveOptions}
use pix_tools.Images.{parse_resize, extract_quality, resize_image}

-- The options of `image.save`: `quality` is the one that the task passes on.
unfoldable pub save_options : (format : String) (quality : Option ℤ) → SaveOptions
save_options format quality = record {
  quality =
      if format == "JPEG"
      then some (or_default quality (pos 85))
      else if format == "WEBP"
      then some (or_default quality (pos 80))
      else quality;
  optimize = if format == "PNG" then some true else none;
}

-- `save_kwargs`: a quality is passed on for jpg and webp only.
abbrev pub save_kwargs : (operation_name : String) → Option ℤ → Option ℤ
save_kwargs operation_name quality =
    if is_in operation_name ("jpg" ∷ "webp" ∷ []) then quality else none

-- The bytes that `upload_processed` stores for an image.
unfoldable pub encode :
    (rt : Runtime) (pil : Pillow) → pil.Image → (fmt : String) → Option ℤ → Result Bytes
encode rt pil image fmt quality =
    let format = rt.upper fmt in
    pil.save format (save_options format quality)
      (if format == "JPEG" then pil.convert_rgb image else image)

-- The steps of `_convert` between the download and the upload, and the encoding.
unfoldable pub converted :
    (rt : Runtime) (settings : Settings) (pil : Pillow)
    → pil.Image
    → (target_format operation_name : String) → Option Fields
    → Result Bytes
converted rt settings pil image target_format operation_name params = do
  dims ← parse_resize rt settings params
  resized ← resize_image rt pil (or_default (pil.exif_transpose image) image) dims
  quality ← extract_quality rt params
  encode rt pil resized target_format (save_kwargs operation_name quality)
