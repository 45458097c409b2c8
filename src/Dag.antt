-- ===== src/Dag.antt =====
-- app/services/dag_builder.py: the chord of one task for each operation, and its callback.
pub mod Laws
use pix_tools.Base.{
  ℕ, String, Option, none, some, List, [], ◌∷◌, lookup, is_empty, if◌then◌else◌, publish_dag,
  or_default,
}
use pix_tools.Json.{Fields, end}
use pix_tools.Platform.{Platform}
use pix_tools.World.{
  Action, Signature, chord, operation, finalize, gets, pure, publish, ◌>>=◌, ◌>>◌,
}

abbrev pub operation_task_map : List (String × String)
operation_task_map =
    ("jpg", "app.tasks.image_ops.convert_jpg")
    ∷ ("png", "app.tasks.image_ops.convert_png")
    ∷ ("webp", "app.tasks.image_ops.convert_webp")
    ∷ ("avif", "app.tasks.image_ops.convert_avif")
    ∷ ("denoise", "app.tasks.ml_ops.denoise")
    ∷ []

-- `operation_params.get(op, {})`
abbrev pub params_of : String → List (String × Fields) → Fields
params_of op params = or_default (lookup op params) end

abbrev pub dag_headers : (request_id job_id enqueued_at : String) → List (String × String)
dag_headers request_id job_id enqueued_at =
    ("X-Request-ID", request_id) ∷ ("X-Job-ID", job_id) ∷ ("X-Job-Enqueued-At", enqueued_at) ∷ []

module _ (job_id s3_raw_key : String) (params : List (String × Fields))
    (headers : List (String × String)) where
  -- the loop over `operations`; an unknown operation is skipped
  unfoldable pub task_signatures : List String → List Signature
  task_signatures [] = []
  task_signatures (op ∷ ops) = elim (lookup op operation_task_map) [
    | none ↦ task_signatures ops
    | some task_name ↦
        record {
          task = task_name;
          kwargs = operation job_id s3_raw_key (params_of op params);
          headers = headers;
        }
        ∷ task_signatures ops
  ]

abbrev pub finalize_signature : String → List (String × String) → Signature
finalize_signature job_id headers = record {
  task = "app.tasks.finalize.finalize_job";
  kwargs = finalize job_id;
  headers = headers;
}

module _ {p : Platform} where
  unfoldable pub build_dag :
      (job_id s3_raw_key : String) (operations : List String) (request_id : String)
      (operation_params : Option (List (String × Fields))) (enqueued_at : Option ℕ)
      → Action p (Unit {0})
  build_dag job_id s3_raw_key operations request_id operation_params enqueued_at = do
    now ← gets (λ w. w.now)
    let headers = dag_headers request_id job_id (p.runtime.str_time (or_default enqueued_at now))
    let signatures =
        task_signatures job_id s3_raw_key (or_default operation_params []) headers operations
    if is_empty signatures
        then pure tt
        else publish publish_dag (chord signatures (finalize_signature job_id headers))
