-- ===== src/Tasks/Router.antt =====
-- app/tasks/router.py: the task that the Go API sends in place of a chord.
use pix_tools.Base.{
  ℕ, String, false, not, ◌≡◌, refl, sym, Result, ok, err, ◌∙◌, Option, none, some, List, [], ◌∷◌,
  is_in, is_empty, eq_iff, arith,
}
use pix_tools.Json.{Fields}
use pix_tools.Runtime.{Runtime}
use pix_tools.Platform.{Platform}
use pix_tools.World.{World, Action, when, pure}
use pix_tools.Dag.{build_dag, task_signatures}
use pix_tools.Jobs.Create.{dispatch, pipeline_ops_of}
use pix_tools.Tasks.Metadata.{Stamp, at, written}

-- `_parse_enqueued_at`
abbrev pub parse_enqueued_at : Runtime → Option Stamp → Option ℕ
parse_enqueued_at rt none = none
parse_enqueued_at rt (some (at t)) = some t
parse_enqueued_at rt (some (written s)) = rt.time_of_str s

without_metadata : (ops : List String) → is_in "metadata" ops ≡ false → pipeline_ops_of ops ≡ ops
without_metadata [] h = refl
without_metadata (op ∷ ops) h =
    ground (arith, h, without_metadata ops, eq_iff "metadata" op, eq_iff op "metadata")

module _ {p : Platform} where
  unfoldable pub start_pipeline :
      (job_id s3_raw_key : String) (operations : List String)
      (operation_params : List (String × Fields)) (request_id : String) (enqueued_at : Option Stamp)
      → Action p (Unit {0})
  start_pipeline job_id s3_raw_key operations operation_params request_id enqueued_at =
      build_dag job_id s3_raw_key operations request_id (some operation_params)
        (parse_enqueued_at p.runtime enqueued_at)

  nothing_more_at :
      (q : Result (Unit {0}) × World p)
      → (elim q.0 as (λ _. Result (Unit {0}) × World p) [
        | ok a ↦ pure tt q.1
        | err e ↦ (err e, q.1)
      ])
        ≡ q
  nothing_more_at (ok tt, v) = refl
  nothing_more_at (err e, v) = refl

  nothing_to_build :
      (job_id s3_raw_key : String) (ops : List String) (params : List (String × Fields)) (t : ℕ)
      (w : World p)
      → let build = build_dag job_id s3_raw_key ops w.request_id (some params) (some t) in
        when (not (is_empty ops)) build w ≡ build w
  unfolding build_dag task_signatures
  nothing_to_build job_id s3_raw_key [] params t w = refl
  nothing_to_build job_id s3_raw_key (op ∷ ops) params t w = refl

  -- For operations on images only, sent on at the time and with the request id of a request, the task
  -- sends what the Python API sends for that request, and fails where it fails.
  pub start_pipeline-eq-dispatch :
      (job_id s3_raw_key : String) (operations : List String) (params : List (String × Fields))
      (enqueued_at : Option Stamp) (w : World p)
      → is_in "metadata" operations ≡ false
      → parse_enqueued_at p.runtime enqueued_at ≡ some w.now
      → start_pipeline job_id s3_raw_key operations params w.request_id enqueued_at w
        ≡ dispatch job_id s3_raw_key operations params w
  unfolding start_pipeline dispatch
  start_pipeline-eq-dispatch job_id s3_raw_key operations params enqueued_at w none_such now =
      let same = without_metadata operations none_such in
      rw (same, now, none_such)
        (sym (nothing_to_build job_id s3_raw_key operations params w.now w)
          ∙ sym (
              nothing_more_at (
                when (not (is_empty operations))
                  (build_dag job_id s3_raw_key operations w.request_id (some params) (some w.now))
                  w)))

  -- The task leaves the rows alone.
  pub start_pipeline_jobs :
      (job_id s3_raw_key : String) (operations : List String) (params : List (String × Fields))
      (request_id : String) (enqueued_at : Option Stamp) (w : World p)
      → let w' = (start_pipeline job_id s3_raw_key operations params request_id enqueued_at w).1 in
        (w'.jobs ≡ w.jobs) × (w'.session ≡ w.session)
  unfolding start_pipeline build_dag
  start_pipeline_jobs job_id s3_raw_key operations params request_id enqueued_at w =
      (ground arith, ground arith)
