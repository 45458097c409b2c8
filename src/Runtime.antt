-- ===== src/Runtime.antt =====
-- What the program takes from Python's runtime and from its environment: parsers and generators
-- that are not the program's code, and the settings of app/config.py.
use pix_tools.Base.{
  ℕ, ◌*◌, ◌≡◌, refl, ◌⊎◌, inl, inr, String, List, [], ◌∷◌, Option, none, Bool, true, Result,
}
use pix_tools.Base.Int.{ℤ}
use pix_tools.Json.{Json}

pub data Loaded : Type 0 where
  decoded : Json → Loaded
  decode_error : (message : String) → Loaded

pub record Url : Type 0 where
  pub scheme : String
  pub netloc : String

pub record Runtime : Type 0 where
  -- `json.loads`, with the text of a `JSONDecodeError`
  pub json_loads : String → Loaded
  -- `int(s)`, `none` for a `ValueError`
  pub int_of_str : String → Option ℤ
  -- `str(n)`, and `str(l)` of a list of texts
  pub str_int : ℕ → String
  pub str_list : List String → String
  -- the text of the `ValueError` that `OperationType(v)` raises
  pub not_an_operation : Json → String
  -- `str(t)`, `t.isoformat()` and `float(s)` for a time: `none` for a `ValueError`
  pub str_time : ℕ → String
  pub isoformat : ℕ → String
  pub time_of_str : String → Option ℕ
  -- `sub in s` and `s.replace(old, new)`
  pub contains : (sub s : String) → Bool
  pub replace : (old new s : String) → String
  -- boto3's `generate_presigned_url` for a key, with a content disposition, a time to live and the time
  pub presign : (key : String) (disposition : Option String) (expires_in now : ℕ) → String
  -- `s.lower()` and `s.upper()`
  pub lower : String → String
  pub upper : String → String
  -- `int((a / b) * c)`, in floats, where `b` is not 0: an `OverflowError` if they are too large
  pub float_scale : (a : ℤ) (b c : ℕ) → Result ℤ
  -- `urlparse(s)`, `none` for the `ValueError` that some malformed hosts raise
  pub urlparse : String → Option Url
  -- the texts of the n-th `uuid4()`: `str(u)`, and `u.hex` in its first eight digits and the rest
  pub uuid_str : ℕ → String
  pub uuid_hex8 : ℕ → String
  pub uuid_hex24 : ℕ → String

-- The fields of `Settings` that the modelled code reads.
pub record Settings : Type 0 where
  pub aws_endpoint_url : Option String
  pub ml_queue_isolation_enabled : Bool
  pub idempotency_ttl_seconds : ℕ
  pub max_upload_bytes : ℕ
  pub accepted_mime_types : List String
  pub max_image_width : ℕ
  pub max_image_height : ℕ
  pub presigned_url_expiry_seconds : ℕ
  pub job_retention_hours : ℕ

abbrev pub default_settings : Settings
default_settings = record {
  aws_endpoint_url = none;
  ml_queue_isolation_enabled = true;
  idempotency_ttl_seconds = 86400;
  max_upload_bytes = 10 * 1024 * 1024;
  accepted_mime_types = "image/jpeg" ∷ "image/png" ∷ "image/webp" ∷ "image/avif" ∷ [];
  max_image_width = 1920;
  max_image_height = 1080;
  presigned_url_expiry_seconds = 86400;
  job_retention_hours = 24;
}

pub Loaded-cases :
    (l : Loaded) → ((m : String) × (l ≡ decode_error m)) ⊎ ((v : Json) × (l ≡ decoded v))
Loaded-cases (decoded v) = inr (v, refl)
Loaded-cases (decode_error m) = inl (m, refl)
