-- ===== src/Images/Same.antt =====
-- The two resizing routines do the same.
use pix_tools.Base.{
  ℕ, ◌<◌, ◌≡◌, refl, Bool, true, false, inl, inr, ◌&&◌, Option, none, some, Option-cases,
  if◌then◌else◌, Result, ok, err, ◌>>=◌, ◌>>◌, raise_if, value_error, arith, ap,
}
use pix_tools.Base.Int.{ℤ, pos, negsuc, leb_ℤ, min_ℤ}
use pix_tools.Json.{Json, Fields, get, is_null, to_int}
use pix_tools.Runtime.{Runtime, Settings}
use pix_tools.Pillow.{Pillow}
use pix_tools.Images.{
  Dims, parse_side, cut_side, fit_image, resize_image, parse_resize, apply_resize_if_requested,
  resize_of,
}

-- Testing a side before it is cut or after makes no difference, for a positive limit.
tested_same :
    (limit : ℕ) (r : Result ℤ)
    → 0 < limit
    → (do
      n ← r
      raise_if (leb_ℤ (min_ℤ n (pos limit)) (pos 0)) value_error
      ok (some (min_ℤ n (pos limit))))
      ≡ (do n ← r; raise_if (leb_ℤ n (pos 0)) value_error; ok (some (min_ℤ n (pos limit))))
tested_same limit (ok (pos n)) h = ground arith
tested_same limit (ok (negsuc n)) h = ground arith
tested_same limit (err e) h = refl

module _ (rt : Runtime) (pil : Pillow) where
  cut_side-eq-parse_side :
      (limit : ℕ) (value : Json)
      → 0 < limit
      → cut_side rt pil limit value ≡ parse_side rt limit value
  unfolding cut_side parse_side
  cut_side-eq-parse_side limit value h =
      ap (λ r. if is_null value then ok none else r)
        (tested_same limit (to_int rt.int_of_str value) h)

  fit_image-eq-resize_image :
      (image : pil.Image) (dims : Dims)
      → 0 < (pil.size image).0
      → 0 < (pil.size image).1
      → fit_image rt pil image dims ≡ resize_image rt pil image (some dims)
  unfolding fit_image resize_image
  fit_image-eq-resize_image image (none, none) a b = ground arith
  fit_image-eq-resize_image image (none, some h) a b = ground arith
  fit_image-eq-resize_image image (some w, none) a b = ground arith
  fit_image-eq-resize_image image (some w, some h) a b = ground arith

  sized :
      (image : pil.Image)
      → 0 < (pil.size image).0
      → 0 < (pil.size image).1
      → (skip : Bool) (width height : Result (Option ℤ))
      → (if skip then ok image else do w ← width; h ← height; fit_image rt pil image (w, h)) ≡ (
          (if skip then ok none else do w ← width; h ← height; ok (some (w, h))) >>= λ dims.
          resize_image rt pil image dims)
  unfolding resize_image
  sized image a b true width height = refl
  sized image a b false (ok w) (ok h) = fit_image-eq-resize_image image (w, h) a b
  sized image a b false (ok w) (err e) = refl
  sized image a b false (err e) height = refl

  -- The denoising task resizes as the conversion tasks do, errors included: the same image comes
  -- out or the same exception is raised, for every image that is not empty, any params, and limits
  -- that are positive.
  pub apply_resize_if_requested-eq-resize_image :
      (settings : Settings) (image : pil.Image) (params : Option Fields)
      → 0 < settings.max_image_width
      → 0 < settings.max_image_height
      → 0 < (pil.size image).0
      → 0 < (pil.size image).1
      → apply_resize_if_requested rt pil settings image params
        ≡ (parse_resize rt settings params >>= λ dims. resize_image rt pil image dims)
  unfolding apply_resize_if_requested parse_resize
  apply_resize_if_requested-eq-resize_image s image params mw mh a b =
      let wide = cut_side-eq-parse_side s.max_image_width in
      let high = cut_side-eq-parse_side s.max_image_height in
      elim (Option-cases (resize_of params)) [
        | inl gone ↦
            rw (gone, apply_resize_if_requested, parse_resize)
              (sized image a b true (ok none) (ok none))
        | inr (resize, there) ↦
            rw (there, apply_resize_if_requested, parse_resize)
              (rw (wide (get "width" resize) mw, high (get "height" resize) mh)
                (sized image a b (is_null (get "width" resize) && is_null (get "height" resize))
                  (parse_side rt s.max_image_width (get "width" resize))
                  (parse_side rt s.max_image_height (get "height" resize))))
      ]
