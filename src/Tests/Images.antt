-- ===== src/Tests/Images.antt =====
-- The workers on the platform in memory.
use pix_tools.Base.{◌≡◌, refl, All, some, [], ◌∷◌, ok, ◌>>=◌, arith, retry}
use pix_tools.Base.Int.{pos}
use pix_tools.Json.{Fields, int, obj, end, field, to_int}
use pix_tools.Runtime.{default_settings}
use pix_tools.World.{World, retrying}
use pix_tools.Memory.{memory}
use pix_tools.Raster.{raster}
use pix_tools.Images.{
  parse_side, parse_resize, extract_quality, proportional, resize_image, apply_resize_if_requested,
}
use pix_tools.Images.Bounds.{IsReadable, parse_operation_params-IsReadable}
use pix_tools.Images.Same.{apply_resize_if_requested-eq-resize_image}
use pix_tools.Images.Encode.{save_options, encode, converted}
use pix_tools.Images.Convert.{download_raw, convert, convert_webp}
use pix_tools.Images.Encode.{converted}
use pix_tools.Images.Convert.Stored.{IsAllOrNothing, retrying-convert_outcome}
use pix_tools.Store.{extension, upload_processed}
use pix_tools.Tests.Jobs.{start, taken_params, parsed}

parse_operation_params-IsReadable_example :
    All (λ e. IsReadable memory.runtime default_settings e.1) taken_params
parse_operation_params-IsReadable_example =
    parse_operation_params-IsReadable memory.runtime default_settings (some "params:webp")
      ("webp" ∷ []) taken_params (omega arith) (omega arith) parsed

-- A width alone.
abbrev narrow : Fields
narrow = field "resize" (obj (field "width" (int (pos 640)) end)) end

apply_resize_if_requested-eq-resize_image_example :
    apply_resize_if_requested memory.runtime raster default_settings (1280, 4000) (some narrow) ≡ (
      parse_resize memory.runtime default_settings (some narrow) >>= λ dims.
      resize_image memory.runtime raster (1280, 4000) dims)
apply_resize_if_requested-eq-resize_image_example =
    apply_resize_if_requested-eq-resize_image memory.runtime raster default_settings (1280, 4000)
      (some narrow) (omega arith) (omega arith) (omega arith) (omega arith)

worker : Unit {0}
unfolding to_int parse_side parse_resize extract_quality proportional resize_image save_options
    encode converted download_raw convert extension upload_processed
worker = tt

-- The height that follows from the width is above the configured maximum of 1080.
narrow_is_too_high :
    (parse_resize memory.runtime default_settings (some narrow) >>= λ dims.
    resize_image memory.runtime raster (1280, 4000) dims)
    ≡ ok (640, 2000)
unfolding worker
narrow_is_too_high = refl

abbrev uploaded : World memory
uploaded = record start { bucket = ("raw/u/r.jpg", 1280 ∷ 960 ∷ []) ∷ [] }

converted_key :
    (convert_webp raster retry "u" "raw/u/r.jpg" (some narrow) uploaded).0
    ≡ ok "processed/u/webp_0123abcd.webp"
unfolding worker
converted_key = refl

retrying-convert_outcome_example :
    IsAllOrNothing raster
      (λ image. converted memory.runtime default_settings raster image "WEBP" "webp" (some narrow))
      retry
      "u"
      "raw/u/r.jpg"
      "WEBP"
      "webp"
      uploaded
      (retrying retry (convert raster "u" "raw/u/r.jpg" "WEBP" "webp" (some narrow)) uploaded)
retrying-convert_outcome_example =
    retrying-convert_outcome raster retry "u" "raw/u/r.jpg" "WEBP" "webp" (some narrow) uploaded
