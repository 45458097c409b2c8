-- ===== src/Models.antt =====
-- app/schemas.py's `OperationType`, and app/models.py's `JobStatus` and `Job`.
use pix_tools.Base.{ℕ, String, ◌≡◌, refl, Option, none, some, List, ◌==◌, if◌then◌else◌}
use pix_tools.Json.{Fields}

pub data OperationType : Type 0 where
  jpg png webp avif denoise metadata : OperationType

-- `op.value`
abbrev pub value : OperationType → String
value jpg = "jpg"
value png = "png"
value webp = "webp"
value avif = "avif"
value denoise = "denoise"
value metadata = "metadata"

-- `OperationType(s)`, `none` for the `ValueError`
abbrev pub of_value : String → Option OperationType
of_value s =
    if s == "jpg"
    then some jpg
    else if s == "png"
    then some png
    else if s == "webp"
    then some webp
    else if s == "avif"
    then some avif
    else if s == "denoise"
    then some denoise
    else if s == "metadata"
    then some metadata
    else none

pub of_value-value : (op : OperationType) → of_value (value op) ≡ some op
of_value-value jpg = refl
of_value-value png = refl
of_value-value webp = refl
of_value-value avif = refl
of_value-value denoise = refl
of_value-value metadata = refl

pub data JobStatus : Type 0 where
  pending processing completed failed completed_webhook_failed : JobStatus

-- `status.value`
abbrev pub status_value : JobStatus → String
status_value pending = "PENDING"
status_value processing = "PROCESSING"
status_value completed = "COMPLETED"
status_value failed = "FAILED"
status_value completed_webhook_failed = "COMPLETED_WEBHOOK_FAILED"

-- A row of the table `jobs`. The code never reads `updated_at`, which is left out.
pub record Job : Type 0 where
  pub id : String
  pub status : JobStatus
  pub operations : List String
  pub result_urls : Option (List (String × String))
  pub result_keys : Option (List (String × String))
  pub exif_metadata : Option Fields
  pub webhook_url : String
  pub s3_raw_key : String
  pub original_filename : Option String
  pub error_message : Option String
  pub retry_count : ℕ
  pub created_at : ℕ
