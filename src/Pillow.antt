-- ===== src/Pillow.antt =====
-- What the workers ask of Pillow.
use pix_tools.Base.{ℕ, String, Bool, Option, ◌≡◌, Result, ok}
use pix_tools.Base.Int.{ℤ, pos}
use pix_tools.Platform.{Bytes}

-- The keyword arguments of `Image.save`.
pub record SaveOptions : Type 0 where
  pub quality : Option ℤ
  pub optimize : Option Bool

pub record Pillow : Type 1 where
  pub Image : Type 0
  -- `Image.open(io.BytesIO(b))`
  pub open_image : Bytes → Result Image
  -- `image.size`: its width and its height
  pub size : Image → ℕ × ℕ
  -- `ImageOps.exif_transpose`, `none` for `None`
  pub exif_transpose : Image → Option Image
  -- `image.convert("RGB")`
  pub convert_rgb : Image → Image
  -- `image.resize((width, height), LANCZOS)`: a resized image has the size that was asked for
  pub resize : (width height : ℤ) → Image → Result Image
  pub size-resize :
      (width height : ℕ) (image out : Image)
      → resize (pos width) (pos height) image ≡ ok out
      → size out ≡ (width, height)
  -- `image.save(buffer, format, **options)`
  pub save : (format : String) → SaveOptions → Image → Result Bytes
