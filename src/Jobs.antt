-- ===== src/Jobs.antt =====
-- app/routers/jobs.py: `POST /process` up to the point where a request is accepted.
pub mod Create
pub mod Valid
pub mod Get
use Prim.Native.String.{◌++◌}
use pix_tools.Base.{
  ℕ, String, Bool, true, false, not, ◌&&◌, ◌||◌, Option, none, some, List, [], ◌∷◌, map, length,
  is_empty, keep, lookup, is_in, ◌==◌, if◌then◌else◌, ltb, ◌/◌, ◌*◌, Exn, http, type_error, Result,
  ok, err, ◌>>=◌, ◌>>◌, raise_if, unprocessable, value_error,
}
use pix_tools.Base.Text.{has, after_last}
use pix_tools.Json.{Json, null, bool, int, float, str, arr, obj, Fields, items, field_names}
use pix_tools.Models.{OperationType, value, of_value, denoise, metadata}
use pix_tools.Platform.{Bytes}
use pix_tools.Runtime.{Runtime, Settings, decoded, decode_error}
use pix_tools.Params.{parse_operation_params}

pub record Upload : Type 0 where
  pub filename : Option String
  pub content_type : Option String
  pub contents : Bytes

pub record Request : Type 0 where
  pub file : Upload
  pub operations : String
  pub idempotency_key : Option String
  pub operation_params : Option String
  pub webhook_url : Option String

-- What the checks of `create_job` hand to the rest of it.
pub record Accepted : Type 0 where
  pub ops : List OperationType
  pub op_params : List (String × Fields)
  pub webhook : String

abbrev pub ext_to_format : List (String × String)
ext_to_format =
    ("jpg", "jpg") ∷ ("jpeg", "jpg") ∷ ("png", "png") ∷ ("webp", "webp") ∷ ("avif", "avif") ∷ []

-- `key` if it is neither `None` nor empty
abbrev pub truthy : Option String → Option String
truthy none = none
truthy (some s) = if s == "" then none else some s

-- A value that is `None` or not in the list.
abbrev pub is_accepted : Option String → List String → Bool
is_accepted none types = false
is_accepted (some t) types = is_in t types

abbrev pub text_of : Option String → String
text_of none = "None"
text_of (some s) = s

-- `s == o`
abbrev pub is_value : String → Option String → Bool
is_value s none = false
is_value s (some t) = s == t

abbrev invalid : String → Exn
invalid message = unprocessable ("Invalid operations: " ++ message)

-- The characters of a text, as the values that iterating it gives.
abbrev pub characters : String → List Json
characters String.[] = []
characters (String.◌∷◌ c s) = str (String.◌∷◌ c String.[]) ∷ characters s

-- What `for op in ops_list` goes through. A number, a truth value and `None` cannot be iterated.
abbrev pub iterate : Json → Result (List Json)
iterate (arr vs) = ok (items vs)
iterate (obj fs) = ok (field_names fs)
iterate (str s) = ok (characters s)
iterate _ = err type_error

-- `OperationType(op)`, whose `ValueError` has the given text
abbrev pub operation_of : (Json → String) → Json → Result OperationType
operation_of message (str s) = elim (of_value s) [
  | none ↦ err (invalid (message (str s)))
  | some op ↦ ok op
]
operation_of message v = err (invalid (message v))

abbrev pub operations_of : (Json → String) → List Json → Result (List OperationType)
operations_of message [] = ok []
operations_of message (v ∷ vs) =
    operation_of message v >>= λ op. operations_of message vs >>= λ ops. ok (op ∷ ops)

-- A result, or the `ValueError` of a library function.
abbrev pub or_value_error {ℓ} : {A : Type ℓ} → Option A → Result A
or_value_error none = err value_error
or_value_error (some a) = ok a

-- `op not in {DENOISE, METADATA}`
abbrev pub is_conversion : OperationType → Bool
is_conversion denoise = false
is_conversion metadata = false
is_conversion _ = true

module _ (rt : Runtime) where
  unfoldable pub validate_webhook_url : Option String → Result String
  validate_webhook_url webhook_url = elim (truthy webhook_url) [
    | none ↦ ok ""
    | some url ↦ do
      parsed ← or_value_error (rt.urlparse url)
      raise_if (not (is_in parsed.scheme ("http" ∷ "https" ∷ [])) || parsed.netloc == "")
          (unprocessable "webhook_url must be a valid http(s) URL")
      ok url
  ]

  -- the `try` around `json.loads(operations)`, and the check that follows it
  unfoldable pub parse_operations : String → Result (List OperationType)
  parse_operations operations = elim (rt.json_loads operations) [
    | decode_error message ↦ err (invalid message)
    | decoded ops_list ↦ do
      vs ← iterate ops_list
      ops ← operations_of rt.not_an_operation vs
      raise_if (is_empty ops) (unprocessable "At least one operation is required")
      ok ops
  ]

  unfoldable pub source_ext : Option String → Option String
  source_ext none = none
  source_ext (some filename) =
      if has "." filename then some (rt.lower (after_last "." filename)) else none

  unfoldable pub source_format : Option String → Option String
  source_format filename = elim (truthy (source_ext filename)) [
    | none ↦ none
    | some ext ↦ lookup ext ext_to_format
  ]

  -- the loop over `conversion_ops`
  unfoldable pub check_conversions : Option String → List OperationType → Result (Unit {0})
  check_conversions filename [] = ok tt
  check_conversions filename (op ∷ ops) = do
    raise_if (is_value (value op) (source_format filename)) (
        unprocessable (
          "Cannot convert "
          ++ (text_of (source_ext filename)
              ++ (" to " ++ (value op ++ " - source and target formats are the same")))))
    check_conversions filename ops

  unfoldable pub check_file : Settings → Upload → Result (Unit {0})
  check_file cfg file = do
    raise_if (ltb cfg.max_upload_bytes (length file.contents)) (
        http 413
          ("File exceeds " ++ (rt.str_int (cfg.max_upload_bytes / (1024 * 1024)) ++ "MB limit")))
    raise_if (not (is_accepted file.content_type cfg.accepted_mime_types)) (
        http 400 (
          "Unsupported file type: "
          ++ (text_of file.content_type
              ++ (". Accepted: " ++ rt.str_list cfg.accepted_mime_types))))

  -- the first part of `create_job`: everything that can refuse a request
  unfoldable pub validate : Settings → Request → Result Accepted
  validate cfg r = do
    check_file cfg r.file
    ops ← parse_operations r.operations
    op_params ← parse_operation_params rt r.operation_params (map value ops)
    webhook ← validate_webhook_url r.webhook_url
    check_conversions r.file.filename (keep is_conversion ops)
    ok (record { ops = ops; op_params = op_params; webhook = webhook })
