-- ===== src/Metadata/Extract.antt =====
-- `_extract_exif_metadata` of app/tasks/metadata.py.
use Prim.Native.String.{◌++◌}
use pix_tools.Base.{String, Option, none, some, List, [], if◌then◌else◌, Result, ok, ◌>>=◌, ◌==◌}
use pix_tools.Json.{Json, str, int, obj, null, Fields, end, field, put}
use pix_tools.Pillow.{Pillow}
use pix_tools.Metadata.Values.{Value, Items, nil, cons, absent, tuple, list, Exif}
use pix_tools.Metadata.{
  is_absent, value_at, named, truthy, to_float, format_exposure, gps_to_decimal,
}

-- `iso_scalar[0] if iso_scalar else None`
abbrev pub first_of : {Real : Type 0} → Items Real → Value Real
first_of nil = absent
first_of (cons v _) = v

abbrev pub scalar_of : {Real : Type 0} → Value Real → Value Real
scalar_of (tuple vs) = first_of vs
scalar_of (list vs) = first_of vs
scalar_of v = v

abbrev pub put_some : String → Option Json → Fields → Fields
put_some name none metadata = metadata
put_some name (some v) metadata = put name v metadata

module _ {pil : Pillow} (x : Exif pil) where
  open x use {Real}

  -- the entry of the dict `metadata` for a text tag, stripped or not
  abbrev pub stripped_tag : String → List (String × Value Real) → Option Json
  stripped_tag tag exif_map =
      let v = value_at tag exif_map in
      if truthy x v then some (str (x.strip (x.str_of v))) else none

  abbrev pub captured_at : List (String × Value Real) → Option Json
  captured_at exif_map =
      let v = value_at "DateTimeOriginal" exif_map in
      if truthy x v then some (str (x.str_of v)) else none

  abbrev pub exposure_time : List (String × Value Real) → Option Json
  exposure_time exif_map = elim (format_exposure x (value_at "ExposureTime" exif_map)) [
    | none ↦ none
    | some exposure ↦ if exposure == "" then none else some (str exposure)
  ]

  abbrev pub aperture : List (String × Value Real) → Option Json
  aperture exif_map = elim (to_float x (value_at "FNumber" exif_map)) [
    | none ↦ none
    | some f_number ↦ some (str ("f/" ++ x.str_of_float (x.round f_number 2)))
  ]

  abbrev pub iso : List (String × Value Real) → Option Json
  iso exif_map =
      let rated = value_at "ISOSpeedRatings" exif_map in
      let iso_value =
        if truthy x rated then rated else value_at "PhotographicSensitivity" exif_map in
      let iso_scalar = scalar_of iso_value in
      if is_absent iso_scalar
      then none
      else elim (x.int_of iso_scalar) [ none ↦ none | some n ↦ some (int n) ]

  abbrev pub gps_info : Option (Value Real) → List (String × Value Real) → Value Real
  gps_info none exif_map = value_at "GPSInfo" exif_map
  gps_info (some v) exif_map = if is_absent v then value_at "GPSInfo" exif_map else v

  abbrev pub or_null : Option Real → Json
  or_null none = null
  or_null (some f) = x.to_json f

  abbrev pub gps : Option (Option Real × Option Real) → Option Json
  gps none = none
  gps (some (lat, lon)) =
      some (obj (field "latitude" (or_null lat) (field "longitude" (or_null lon) end)))

  unfoldable pub metadata_of : Option (Value Real) → List (String × Value Real) → Result Fields
  metadata_of ifd exif_map = do
    let make = put_some "camera_make" (stripped_tag "Make" exif_map) end
    let model = put_some "camera_model" (stripped_tag "Model" exif_map) make
    let lens = put_some "lens_model" (stripped_tag "LensModel" exif_map) model
    let captured = put_some "captured_at" (captured_at exif_map) lens
    let exposure = put_some "exposure_time" (exposure_time exif_map) captured
    let opened = put_some "aperture" (aperture exif_map) exposure
    let metadata = put_some "iso" (iso exif_map) opened
    gps_decimal ← gps_to_decimal x (gps_info ifd exif_map)
    ok (put_some "gps" (gps gps_decimal) metadata)

  unfoldable pub exif_metadata_of : pil.Image → Result Fields
  exif_metadata_of image = do
    exif ← x.getexif image
    elim exif [ [] ↦ ok end | tags ↦ metadata_of (x.get_gps_ifd image) (named x.tag_name tags []) ]
