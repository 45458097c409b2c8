-- ===== src/Images.antt =====
-- The params of an image operation as the workers read them: `_parse_resize`, `_resize_image` and
-- `_extract_quality` of app/tasks/image_ops.py, and `_apply_resize_if_requested` of
-- app/tasks/ml_ops.py.
pub mod Bounds
pub mod Same
pub mod Encode
pub mod Convert
use pix_tools.Base.{
  ℕ, String, Bool, true, false, ◌&&◌, ◌||◌, Option, none, some, is_some, eqb, if◌then◌else◌, Result,
  ok, err, ◌>>=◌, ◌>>◌, raise_if, value_error, zero_division,
}
use pix_tools.Base.Int.{ℤ, pos, ltb_ℤ, leb_ℤ, min_ℤ, max_ℤ}
use pix_tools.Json.{Json, Fields, find, get, is_null, as_dict, is_end, to_int}
use pix_tools.Runtime.{Runtime, Settings}
use pix_tools.Pillow.{Pillow}

-- `tuple[int | None, int | None]`
abbrev pub Dims : Type 0
Dims = Option ℤ × Option ℤ

-- The dict at `params["resize"]`, where there is one.
abbrev pub resize_of : Option Fields → Option Fields
resize_of none = none
resize_of (some params) = if is_end params then none else as_dict (get "resize" params)

module _ (rt : Runtime) where
  -- the block on `width`, and the one on `height`, of `_parse_resize`
  unfoldable pub parse_side : (limit : ℕ) → Json → Result (Option ℤ)
  parse_side limit value = if is_null value then ok none else do
    n ← to_int rt.int_of_str value
    raise_if (leb_ℤ n (pos 0)) value_error
    ok (some (min_ℤ n (pos limit)))

  unfoldable pub parse_resize : Settings → Option Fields → Result (Option Dims)
  parse_resize settings params = elim (resize_of params) [
    | none ↦ ok none
    | some resize ↦
        if is_null (get "width" resize) && is_null (get "height" resize) then ok none else do
          width ← parse_side settings.max_image_width (get "width" resize)
          height ← parse_side settings.max_image_height (get "height" resize)
          ok (some (width, height))
  ]

  unfoldable pub extract_quality : Option Fields → Result (Option ℤ)
  extract_quality none = ok none
  extract_quality (some params) = elim (find "quality" params) [
    | none ↦ ok none
    | some value ↦ do
      quality ← to_int rt.int_of_str value
      raise_if (ltb_ℤ quality (pos 1) || ltb_ℤ (pos 100) quality) value_error
      ok (some quality)
  ]

  -- `max(1, int((a / b) * c))`
  unfoldable pub proportional : (a : ℤ) (b c : ℕ) → Result ℤ
  proportional a b c =
      if eqb b 0 then err zero_division else do n ← rt.float_scale a b c; ok (max_ℤ (pos 1) n)

  module _ (pil : Pillow) where
    unfoldable pub resize_image : pil.Image → Option Dims → Result pil.Image
    resize_image image none = ok image
    resize_image image (some (width, height)) =
        let (src_w, src_h) = pil.size image in
        if eqb src_w 0 || eqb src_h 0 then ok image else elim width [
          | none ↦ elim height [
            | none ↦ ok image
            | some h ↦ do w ← proportional h src_h src_w; pil.resize w h image
          ]
          | some w ↦ elim height [
            | none ↦ do h ← proportional w src_w src_h; pil.resize w h image
            | some h ↦ pil.resize w h image
          ]
        ]

    -- the same blocks of `_apply_resize_if_requested`, which tests after the cut
    unfoldable pub cut_side : (limit : ℕ) → Json → Result (Option ℤ)
    cut_side limit value = if is_null value then ok none else do
      n ← to_int rt.int_of_str value
      raise_if (leb_ℤ (min_ℤ n (pos limit)) (pos 0)) value_error
      ok (some (min_ℤ n (pos limit)))

    unfoldable pub fit_image : pil.Image → Dims → Result pil.Image
    fit_image image (none, none) = ok image
    fit_image image (none, some h) = do
      w ← proportional h (pil.size image).1 (pil.size image).0
      pil.resize w h image
    fit_image image (some w, none) = do
      h ← proportional w (pil.size image).0 (pil.size image).1
      pil.resize w h image
    fit_image image (some w, some h) = pil.resize w h image

    unfoldable pub apply_resize_if_requested :
        Settings → pil.Image → Option Fields → Result pil.Image
    apply_resize_if_requested settings image params = elim (resize_of params) [
      | none ↦ ok image
      | some resize ↦
          if is_null (get "width" resize) && is_null (get "height" resize) then ok image else do
            width ← cut_side settings.max_image_width (get "width" resize)
            height ← cut_side settings.max_image_height (get "height" resize)
            fit_image image (width, height)
    ]
