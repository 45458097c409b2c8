-- ===== src/Jobs/Create/Sent.antt =====
-- Which messages an accepted request sends.
use pix_tools.Base.{
  String, not, ◌≡◌, refl, ◌≢◌, none, List, [], ◌∷◌, ◌++◌, map, is_empty, is_empty-map, keep,
  if◌then◌else◌, arith, ok,
}
use pix_tools.Json.{Fields}
use pix_tools.Models.{OperationType, metadata, value}
use pix_tools.Platform.{Platform}
use pix_tools.World.{World, Message, chord, single, extract, finalize}
use pix_tools.Dag.{dag_headers}
use pix_tools.Dag.Laws.{
  is_metadata, task_of, task_signatures-eq-map, is_empty-pipeline, is_in-metadata,
}
use pix_tools.Jobs.{Request, Accepted, validate}
use pix_tools.Jobs.Valid.{validate-IsAcceptable}
use pix_tools.Jobs.Create.{Created, earlier_job, create_job}
use pix_tools.Jobs.Create.Effects.{new_id, new_raw_key, messages}
use pix_tools.Jobs.Create.Stored.{create_job_ok}

-- What a job's operations call for, said without the code: the other operations as one chord with
-- the finalizer behind it, then the metadata task, which completes the job if it is alone.
module _ (job_id key : String) (params : List (String × Fields))
    (headers : List (String × String)) where
  abbrev pub pipeline : List OperationType → List OperationType
  pipeline ops = keep (λ op. not (is_metadata op)) ops

  abbrev pub expected_chord : List OperationType → List Message
  expected_chord ops =
      if is_empty (pipeline ops)
      then []
      else chord (map (task_of job_id key params headers) (pipeline ops)) (record {
        task = "app.tasks.finalize.finalize_job";
        kwargs = finalize job_id;
        headers = headers;
      })
        ∷ []

  abbrev pub expected_extraction : List OperationType → List Message
  expected_extraction ops =
      if is_empty (keep is_metadata ops)
      then []
      else single (record {
        task = "app.tasks.metadata.extract_metadata";
        kwargs = extract job_id key (is_empty (pipeline ops));
        headers = headers;
      })
        ∷ []

  abbrev pub expected_messages : List OperationType → List Message
  expected_messages ops = expected_chord ops ++ expected_extraction ops

  expected_messages-ne-nil : (ops : List OperationType) → ops ≢ [] → expected_messages ops ≢ []
  expected_messages-ne-nil [] some_op = absurd (some_op refl)
  expected_messages-ne-nil (metadata ∷ ops) some_op = ground arith
  expected_messages-ne-nil (_ ∷ ops) some_op = λ e. cc

module _ {p : Platform} where
  abbrev pub headers_of : World p → List (String × String)
  headers_of w = dag_headers w.request_id (new_id w) (p.runtime.str_time w.now)

  messages-eq-expected :
      (w : World p) (key : String) (ops : List OperationType) (params : List (String × Fields))
      → messages w (new_id w) key (map value ops) params
        ≡ expected_messages (new_id w) key params (headers_of w) ops
  messages-eq-expected w key ops params = ground (
    arith,
    task_signatures-eq-map (new_id w) key params (headers_of w) ops,
    is_empty-pipeline ops,
    is_in-metadata ops,
    is_empty-map (task_of (new_id w) key params (headers_of w))
        (keep (λ op. not (is_metadata op)) ops),
  )

  -- An accepted request that repeats none sends exactly what its operations call for, in that
  -- order, behind what was sent before: one chord with one task for each operation but metadata, if
  -- there is any, and the metadata task, if it is asked for, which is told to complete the job just
  -- when there is no chord. It sends at least one message.
  pub create_job-sent :
      (r : Request) (w w' : World p) (c : Created)
      → w.session ≡ []
      → (earlier_job r.idempotency_key w).0 ≡ ok none
      → create_job r w ≡ (ok c, w')
      → (v : Accepted) × (validate p.runtime p.settings r ≡ ok v)
        × (w'.published
            ≡ w.published
              ++ expected_messages c.job_id (new_raw_key r w) v.op_params (headers_of w) v.ops)
        × (expected_messages c.job_id (new_raw_key r w) v.op_params (headers_of w) v.ops ≢ [])
  create_job-sent r w w' c clean fresh h =
      let (v, q, same, after) = create_job_ok r w w' c clean fresh h in
      (
        v,
        q,
        ground (arith, messages-eq-expected w (new_raw_key r w) v.ops v.op_params),
        expected_messages-ne-nil c.job_id (new_raw_key r w) v.op_params (headers_of w) v.ops
            (validate-IsAcceptable p.runtime p.settings r v q).nonempty,
      )
