-- ===== src/Tests/Metadata.antt =====
-- The metadata task on the platform in memory.
use pix_tools.Base.{
  String, true, ◌≡◌, refl, none, some, List, [], ◌∷◌, ok, retry, if◌then◌else◌, ◌==◌,
}
use pix_tools.Base.Int.{pos, negsuc}
use pix_tools.Json.{str, int, obj, null, Fields, end, field}
use pix_tools.World.{World}
use pix_tools.Memory.{memory}
use pix_tools.Exposures.{camera, southern}
use pix_tools.Metadata.Values.{Value, rational, ifd, is_hashable}
use pix_tools.Metadata.{
  named, elements, is_negative_ref, to_float, format_exposure, convert, gps_to_decimal,
}
use pix_tools.Metadata.Extract.{metadata_of, exif_metadata_of}
use pix_tools.Metadata.Shape.{AllFields, IsEntry, metadata_of-AllFields}
use pix_tools.Images.Convert.{download_raw}
use pix_tools.Tasks.Metadata.{extract_metadata, extract_exif_metadata}
use pix_tools.Tasks.Metadata.Outcome.{ended, extract_metadata_outcome}
use pix_tools.Tests.Tasks.{job, start}

unfoldable pub exif : Unit {0}
unfolding is_hashable named elements is_negative_ref to_float format_exposure convert gps_to_decimal
    metadata_of exif_metadata_of download_raw extract_exif_metadata
exif = tt

abbrev pub read_metadata : Fields
read_metadata = field "camera_make" (str "Acme") (
    field "aperture" (str "f/n")
      (field "gps" (obj (field "latitude" (int (negsuc 48)) (field "longitude" null end))) end))

abbrev tags : List (String × Value camera.Real)
tags = ("Make", Value.text "Acme") ∷ ("FNumber", rational (pos 8) (pos 1)) ∷ []

tags_read : metadata_of camera (some (ifd southern)) tags ≡ ok read_metadata
unfolding exif
tags_read = refl

metadata_of-AllFields_example : AllFields IsEntry read_metadata
metadata_of-AllFields_example =
    metadata_of-AllFields camera tags (some (ifd southern)) read_metadata tags_read

abbrev pub uploaded : World memory
uploaded = record start { bucket = ("raw/u/x.png", 1280 ∷ 960 ∷ []) ∷ [] }

read : (extract_exif_metadata camera "raw/u/x.png" uploaded).0 ≡ ok read_metadata
unfolding exif
read = refl

extract_metadata_outcome_example :
    let r = extract_metadata {p = memory} camera retry [] "u" "raw/u/x.png" true none uploaded in
    (r.0 ≡ ok read_metadata)
    × (memory.row "u" r.1.jobs ≡ (
        if "u" == "u"
        then some (ended true uploaded read_metadata job)
        else memory.row "u" uploaded.jobs))
    × (r.1.published ≡ uploaded.published)
extract_metadata_outcome_example =
    extract_metadata_outcome camera retry [] "u" "raw/u/x.png" "u" true none read_metadata job
      uploaded read refl refl refl
