-- ===== src/Raster.antt =====
-- A Pillow in memory, on which the examples run: an image is its size.
use pix_tools.Base.{ℕ, ◌≡◌, [], ◌∷◌, Result, ok, err, image_error, value_error, none, arith}
use pix_tools.Base.Int.{ℤ, pos}
use pix_tools.Platform.{Bytes}
use pix_tools.Pillow.{Pillow}

abbrev pub opened : Bytes → Result (ℕ × ℕ)
opened (w ∷ h ∷ _) = ok (w, h)
opened _ = err image_error

abbrev pub resized : ℤ → ℤ → ℕ × ℕ → Result (ℕ × ℕ)
resized (pos w) (pos h) image = ok (w, h)
resized _ _ image = err value_error

pub resized_size :
    (w h : ℕ) (image out : ℕ × ℕ) → resized (pos w) (pos h) image ≡ ok out → out ≡ (w, h)
resized_size w h image out e = ground arith

abbrev pub raster : Pillow
raster = record {
  Image = ℕ × ℕ;
  open_image = opened;
  size = λ image. image;
  exif_transpose = λ image. none;
  convert_rgb = λ image. image;
  resize = resized;
  size-resize = resized_size;
  save = λ format options image. ok (image.0 ∷ image.1 ∷ []);
}
