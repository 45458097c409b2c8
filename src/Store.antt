-- ===== src/Store.antt =====
-- app/services/s3.py: the keys of the stored objects, and the calls on the bucket.
pub mod Client
use Prim.Native.String.{◌++◌}
use pix_tools.Base.{
  String, Bool, false, not, ◌&&◌, ◌==◌, if◌then◌else◌, Option, none, some, is_some, s3_put, s3_head,
}
use pix_tools.Base.Text.{has, after_last, before_last}
use pix_tools.Runtime.{Runtime}
use pix_tools.Platform.{Platform, Bytes}
use pix_tools.World.{Action, gets, modify, call, pure, uuid4, ◌>>=◌, ◌>>◌}

-- `f"raw/{job_id}/{uuid}.{ext}"`
abbrev pub raw_key : (job_id uuid_hex ext : String) → String
raw_key job_id uuid_hex ext = "raw/" ++ (job_id ++ ("/" ++ (uuid_hex ++ ("." ++ ext))))

-- `f"processed/{job_id}/{operation}_{uuid[:8]}.{ext}"`
abbrev pub processed_key : (job_id operation hex8 ext : String) → String
processed_key job_id operation hex8 ext =
    "processed/" ++ (job_id ++ ("/" ++ (operation ++ ("_" ++ (hex8 ++ ("." ++ ext))))))

unfoldable pub get_archive_key : String → String
get_archive_key job_id = "archives/" ++ (job_id ++ "/bundle.zip")

-- `fmt.lower()`, with `jpeg` as `jpg`
unfoldable pub extension : (String → String) → String → String
extension lower fmt = let ext = lower fmt in if ext == "jpeg" then "jpg" else ext

-- `original_filename.rsplit(".", 1)[0] if original_filename else "image"`
unfoldable pub base_name : Option String → String
base_name none = "image"
base_name (some filename) = if filename == "" then "image" else before_last "." filename

-- `f"pixtools_{op}_{base}.{ext}"`
abbrev pub download_name : (op base ext : String) → String
download_name op base ext = "pixtools_" ++ (op ++ ("_" ++ (base ++ ("." ++ ext))))

-- The extension of an uploaded file's name, `bin` if it has none.
unfoldable pub raw_ext : (String → String) → String → String
raw_ext lower original_filename =
    if has "." original_filename then lower (after_last "." original_filename) else "bin"

abbrev disposition_of : Option String → Option String
disposition_of none = none
disposition_of (some filename) =
    if filename == "" then none else some ("attachment; filename=\"" ++ (filename ++ "\""))

abbrev is_localstack : Runtime → Option String → Bool
is_localstack rt none = false
is_localstack rt (some endpoint) = not (endpoint == "") && rt.contains "localstack" endpoint

module _ {p : Platform} where
  open p use {runtime}

  abbrev put : String → Bytes → Action p (Unit {0})
  put key body = do call s3_put; modify (λ w. record w { bucket = p.put_object key body w.bucket })

  unfoldable pub upload_raw : Bytes → String → String → Action p String
  upload_raw file_bytes original_filename job_id = do
    let ext = raw_ext runtime.lower original_filename
    n ← uuid4
    let key = raw_key job_id (runtime.uuid_hex8 n ++ runtime.uuid_hex24 n) ext
    put key file_bytes
    pure key

  -- The second part of `upload_processed`: the object is stored under its key. `body` is the image
  -- as Pillow saved it.
  unfoldable pub upload_processed : Bytes → String → String → String → Action p String
  upload_processed body job_id operation fmt = do
    n ← uuid4
    let key = processed_key job_id operation (runtime.uuid_hex8 n) (extension runtime.lower fmt)
    put key body
    pure key

  unfoldable pub upload_archive_bytes : Bytes → String → Action p String
  unfolding get_archive_key
  upload_archive_bytes archive_bytes job_id = do
    let key = get_archive_key job_id
    put key archive_bytes
    pure key

  -- `head_object`: a missing object is `False`, any other failure is raised
  unfoldable pub object_exists : String → Action p Bool
  object_exists key = do call s3_head; gets (λ w. is_some (p.object key w.bucket))

  -- Signing is local: no call is made.
  unfoldable pub generate_presigned_url : String → Option String → Action p String
  generate_presigned_url key download_filename = do
    url ← gets (λ w.
        runtime.presign key (disposition_of download_filename)
          p.settings.presigned_url_expiry_seconds w.now)
    pure (
        if is_localstack runtime p.settings.aws_endpoint_url
        then runtime.replace "http://localstack:4566" "http://localhost:4566" url
        else url)
