-- ===== src/Tests/Jobs.antt =====
-- The API on the platform in memory.
use pix_tools.Base.{
  map, Result, ◌++◌, All, type_error, String, Bool, true, false, ◌≡◌, refl, ◌≢◌, none, some, List,
  [], ◌∷◌, ok, err, arith, Call, publish_dag,
}
use pix_tools.Base.Text.{has, after_last}
use pix_tools.Json.{int, obj, Fields, end, field, to_int}
use pix_tools.Base.Int.{pos}
use pix_tools.Models.{pending, value, webp, metadata}
use pix_tools.World.{World, undelivered}
use pix_tools.Memory.{memory, tally_named}
use pix_tools.Idempotency.{check_idempotency, set_idempotency}
use pix_tools.Store.{raw_ext, upload_raw}
use pix_tools.Params.{
  parse_quality, parse_dimension, parse_sides, parse_resize, parse_item, parse_items,
  parse_operation_params,
}
use pix_tools.Dag.{task_signatures, build_dag}
use pix_tools.Jobs.{
  Request, Accepted, validate_webhook_url, parse_operations, source_ext, source_format,
  check_conversions, check_file, validate,
}
use pix_tools.Jobs.Create.{
  Created, created, dispatch, submit, earlier_job, create_job_body, with_db, create_job,
}
use pix_tools.Jobs.Create.Repeated.{create_job-twice, all_up}
use pix_tools.Jobs.Create.Effects.{new_raw_key}
use pix_tools.Jobs.Create.Stored.{create_job-stored, create_job-refused_unchanged}
use pix_tools.Jobs.Create.Sent.{create_job-sent, expected_messages, headers_of}
use pix_tools.Jobs.Create.Orphaned.{create_job-orphaned}
use pix_tools.Jobs.Valid.{IsAcceptable, validate-IsAcceptable}
use pix_tools.Params.Normal.{Kept, parse_operation_params-IsNormal}

-- All that a run of `create_job` computes with.
unfoldable pub api : Unit {0}
unfolding has after_last to_int check_idempotency set_idempotency raw_ext upload_raw parse_quality
    parse_dimension parse_sides parse_resize parse_item parse_items parse_operation_params
    task_signatures build_dag validate_webhook_url parse_operations source_ext source_format
    check_conversions check_file validate dispatch submit earlier_job create_job_body with_db
    create_job
api = tt

abbrev pub start : World memory
start = record {
  jobs = ([], λ j. none);
  session = [];
  cache = [];
  bucket = [];
  published = [];
  metrics = [];
  received = [];
  now = 5;
  monotonic = 0;
  drawn = 0;
  request_id = "r1";
  job_id = "N/A";
  task_start_times = [];
  fails = all_up;
  delivery = λ url. undelivered;
}

abbrev pub photo : Request
photo = record {
  file = record {
    filename = some "photo.png";
    content_type = some "image/png";
    contents = 1 ∷ 2 ∷ [];
  };
  operations = "ops:webp,metadata";
  idempotency_key = some "k1";
  operation_params = some "params:webp";
  webhook_url = some "https://example.com/hook";
}

abbrev pub taken_params : List (String × Fields)
taken_params =
    (
      "webp",
      field "quality" (int (pos 75)) (field "resize" (obj (field "width" (int (pos 640)) end)) end),
    )
    ∷ []

abbrev taken : Accepted
taken = record {
  ops = webp ∷ metadata ∷ [];
  op_params = taken_params;
  webhook = "https://example.com/hook";
}

valid : validate memory.runtime memory.settings photo ≡ ok taken
unfolding api
valid = refl

-- The first accepted request draws UUID 0 for the job and 1 for the object.
abbrev first : Result Created × World memory
unfolding api
first = create_job photo start

accepted : create_job photo start ≡ (ok (created "u"), first.1)
unfolding api
accepted = refl

fresh : (earlier_job {p = memory} photo.idempotency_key start).0 ≡ ok none
unfolding api
fresh = refl

create_job-twice_example :
    let w1 = record (first.1) { now = 100; fails = all_up } in
    create_job photo w1 ≡ (ok (created "u"), w1)
unfolding api
create_job-twice_example =
    create_job-twice photo photo taken start first.1 (created "u") "k1" 100 tally_named refl refl
      refl fresh accepted valid (omega arith)

create_job-stored_example :
    (v : Accepted) × (validate memory.runtime memory.settings photo ≡ ok v)
    × (memory.row "u" first.1.jobs
        ≡ some (record {
          id = "u";
          status = pending;
          operations = map value v.ops;
          result_urls = none;
          result_keys = none;
          exif_metadata = none;
          webhook_url = v.webhook;
          s3_raw_key = new_raw_key photo start;
          original_filename = some "photo.png";
          error_message = none;
          retry_count = 0;
          created_at = 5;
        }))
    × (memory.object (new_raw_key photo start) first.1.bucket ≡ some (1 ∷ 2 ∷ []))
    × ((j : String) → j ≢ "u" → memory.row j first.1.jobs ≡ memory.row j start.jobs)
unfolding api
create_job-stored_example = create_job-stored photo start first.1 (created "u") refl fresh accepted

create_job-sent_example :
    (v : Accepted) × (validate memory.runtime memory.settings photo ≡ ok v)
    × (first.1.published
        ≡ []
          ++ expected_messages "u" (new_raw_key photo start) v.op_params (headers_of start) v.ops)
    × (expected_messages "u" (new_raw_key photo start) v.op_params (headers_of start) v.ops ≢ [])
unfolding api
create_job-sent_example = create_job-sent photo start first.1 (created "u") refl fresh accepted

validate-IsAcceptable_example : IsAcceptable memory.runtime memory.settings photo taken
validate-IsAcceptable_example =
    validate-IsAcceptable memory.runtime memory.settings photo taken valid

pub parsed :
    parse_operation_params memory.runtime (some "params:webp") ("webp" ∷ []) ≡ ok taken_params
unfolding api
parsed = refl

parse_operation_params-IsNormal_example : All (Kept memory.runtime ("webp" ∷ [])) taken_params
parse_operation_params-IsNormal_example =
    parse_operation_params-IsNormal memory.runtime (some "params:webp") ("webp" ∷ []) taken_params
      parsed

-- A request whose `operations` is a number raises a `TypeError`, which is not an HTTP error.
abbrev five : Request
five = record photo { operations = "five" }

five_is_not_refused : (create_job five start).0 ≡ err type_error
unfolding api
five_is_not_refused = refl

abbrev untyped : Request
untyped = record photo { file = record { filename = none; content_type = none; contents = [] } }

create_job-refused_unchanged_example : (create_job untyped start).1 ≡ start
unfolding api
create_job-refused_unchanged_example =
    create_job-refused_unchanged untyped start (create_job untyped start).1 400
      "Unsupported file type: None. Accepted: [...]" refl refl

-- The broker is down when the chord is sent.
abbrev is_publish_dag : Call → Bool
is_publish_dag publish_dag = true
is_publish_dag _ = false

abbrev unsent : World memory
unsent = record start { fails = is_publish_dag }

create_job-orphaned_example :
    ((create_job photo unsent).1.jobs ≡ start.jobs)
    × (let w1 = record ((create_job photo unsent).1) { now = 100; fails = all_up } in
        create_job photo w1 ≡ (ok (created "u"), w1))
unfolding api
create_job-orphaned_example =
    create_job-orphaned photo photo taken taken unsent "k1" 100 tally_named valid refl refl refl
      refl valid (omega arith)
