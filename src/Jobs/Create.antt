-- ===== src/Jobs/Create.antt =====
-- `create_job` of app/routers/jobs.py, inside the transaction of app/database.py's `get_db`.
pub mod Effects
pub mod Stored
pub mod Sent
pub mod Repeated
pub mod Orphaned
use pix_tools.Base.{
  ℕ, String, Bool, true, false, not, Option, none, some, List, [], ◌∷◌, map, is_empty, keep, is_in,
  ◌==◌, ◌++◌, if◌then◌else◌, or_default, Exn, unavailable, Result, ok, err, db_flush, db_commit,
  publish_task,
}
use pix_tools.Json.{Fields}
use pix_tools.Models.{OperationType, value, Job, pending}
use pix_tools.Platform.{Platform}
use pix_tools.World.{
  World, Action, Signature, extract, single, pure, raise, lift, gets, modify, call, when, publish,
  uuid4, ◌>>=◌, ◌>>◌,
}
use pix_tools.Idempotency.{check_idempotency, set_idempotency}
use pix_tools.Store.{upload_raw}
use pix_tools.Dag.{build_dag, dag_headers}
use pix_tools.Jobs.{Request, Accepted, truthy, validate}

-- `{"job_id": job_id, "status": "PENDING"}`
pub record Created : Type 0 where
  pub job_id : String
  pub status : String

abbrev pub created : String → Created
created job_id = record { job_id = job_id; status = "PENDING" }

-- `op_values` without `metadata`
abbrev pub pipeline_ops_of : List String → List String
pipeline_ops_of op_values = keep (λ op. not (op == "metadata")) op_values

abbrev pub new_job : Request → Accepted → (job_id s3_raw_key : String) (now : ℕ) → Job
new_job r v job_id s3_raw_key now = record {
  id = job_id;
  status = pending;
  operations = map value v.ops;
  result_urls = none;
  result_keys = none;
  exif_metadata = none;
  webhook_url = v.webhook;
  s3_raw_key = s3_raw_key;
  original_filename = r.file.filename;
  error_message = none;
  retry_count = 0;
  created_at = now;
}

abbrev pub metadata_signature :
    (job_id s3_raw_key : String) (mark_completed : Bool) (headers : List (String × String))
    → Signature
metadata_signature job_id s3_raw_key mark_completed headers = record {
  task = "app.tasks.metadata.extract_metadata";
  kwargs = extract job_id s3_raw_key mark_completed;
  headers = headers;
}

module _ (p : Platform) where
  abbrev pub put_rows : List Job → p.Table → p.Table
  put_rows [] t = t
  put_rows (job ∷ jobs) t = put_rows jobs (p.put_row job t)

module _ {p : Platform} where
  -- `db.add(job)` and `db.flush()`
  abbrev pub add_and_flush : Job → Action p (Unit {0})
  add_and_flush job = do call db_flush; modify (λ w. record w { session = w.session ++ job ∷ [] })

  -- the messages of a job
  unfoldable pub dispatch :
      (job_id s3_raw_key : String) (op_values : List String) (op_params : List (String × Fields))
      → Action p (Unit {0})
  dispatch job_id s3_raw_key op_values op_params = do
    request_id ← gets (λ w. w.request_id)
    enqueued_at ← gets (λ w. w.now)
    let pipeline_ops = pipeline_ops_of op_values
    when (not (is_empty pipeline_ops))
        (build_dag job_id s3_raw_key pipeline_ops request_id (some op_params) (some enqueued_at))
    when (is_in "metadata" op_values) (
        publish publish_task (
          single (
            metadata_signature job_id s3_raw_key (is_empty pipeline_ops)
              (dag_headers request_id job_id (p.runtime.str_time enqueued_at)))))

  -- an accepted request that is no repetition
  unfoldable pub submit : Request → Accepted → Action p Created
  submit r v = do
    n ← uuid4
    let job_id = p.runtime.uuid_str n
    s3_raw_key ←
        upload_raw r.file.contents (or_default (truthy r.file.filename) "upload.bin") job_id
    now ← gets (λ w. w.now)
    add_and_flush (new_job r v job_id s3_raw_key now)
    elim (truthy r.idempotency_key) [ none ↦ pure tt | some key ↦ set_idempotency key job_id ]
    dispatch job_id s3_raw_key (map value v.ops) v.op_params
    pure (created job_id)

  -- the job that an earlier request with the same key made
  unfoldable pub earlier_job : Option String → Action p (Option String)
  earlier_job idempotency_key = elim (truthy idempotency_key) [
    | none ↦ pure none
    | some key ↦ do existing ← check_idempotency key; pure (truthy existing)
  ]

  unfoldable pub create_job_body : Request → Action p Created
  create_job_body r = do
    v ← lift (validate p.runtime p.settings r)
    existing ← earlier_job r.idempotency_key
    elim existing [ none ↦ submit r v | some job_id ↦ pure (created job_id) ]

  abbrev pub rollback : World p → World p
  rollback w = record w { session = [] }

  -- `get_db` around a request: commit after the handler has returned, roll back if it raised or if
  -- the commit fails
  unfoldable pub with_db : {A : Type 0} → Action p A → Action p A
  with_db m w =
      let (r, w') = m w in
      elim r [
        | err e ↦ (err e, rollback w')
        | ok a ↦
            if w'.fails db_commit
            then (err (unavailable db_commit), rollback w')
            else (ok a, record w' { jobs = put_rows p w'.session w'.jobs; session = [] })
      ]

  unfoldable pub create_job : Request → Action p Created
  create_job r = with_db (create_job_body r)
