-- ===== src/Jobs/Create/Effects.antt =====
-- What an accepted request leaves behind.
use mathlib.Core.List.{append-nil, append_assoc}
use pix_tools.Base.{
  suc, String, ◌≡◌, Option, none, some, List, [], ◌∷◌, ◌++◌, map, is_empty, is_in, inl, inr,
  if◌then◌else◌, Option-cases, or_default, arith, ok,
}
use pix_tools.Json.{Fields}
use pix_tools.Models.{value}
use Prim.Native.String.{◌++◌ as cat}
use pix_tools.Idempotency.{cache_key, set_idempotency}
use pix_tools.Store.{raw_key, raw_ext, upload_raw}
use pix_tools.Platform.{Platform}
use pix_tools.World.{World, Message, chord, single}
use pix_tools.Dag.{task_signatures, build_dag, dag_headers, finalize_signature}
use pix_tools.Jobs.{Request, Accepted, truthy}
use pix_tools.Jobs.Create.{
  Created, created, new_job, pipeline_ops_of, metadata_signature, dispatch, submit,
}

module _ {p : Platform} where
  -- The chord of the pipeline operations, if there is a task for any of them.
  abbrev pub chords :
      World p → (job_id key : String) → List String → List (String × Fields) → List Message
  chords w job_id key ops params =
      let headers = dag_headers w.request_id job_id (p.runtime.str_time w.now) in
      let signatures = task_signatures job_id key params headers ops in
      if is_empty signatures then [] else chord signatures (finalize_signature job_id headers) ∷ []

  abbrev pub extractions : World p → (job_id key : String) → List String → List Message
  extractions w job_id key op_values =
      if is_in "metadata" op_values
      then single (
          metadata_signature job_id key (is_empty (pipeline_ops_of op_values))
            (dag_headers w.request_id job_id (p.runtime.str_time w.now)))
        ∷ []
      else []

  build_dag_ok :
      (job_id key : String) (ops : List String) (params : List (String × Fields)) (w w' : World p)
      → build_dag job_id key ops w.request_id (some params) (some w.now) w ≡ (ok tt, w')
      → w' ≡ record w { published = w.published ++ chords w job_id key ops params }
  unfolding build_dag
  build_dag_ok job_id key ops params w w' h = ground (arith, append-nil w.published)

  -- A job's messages, in the order in which they are sent.
  abbrev pub messages :
      World p → (job_id key : String) → List String → List (String × Fields) → List Message
  messages w job_id key op_values params =
      let pipeline = pipeline_ops_of op_values in
      (if is_empty pipeline then [] else chords w job_id key pipeline params)
      ++ extractions w job_id key op_values

  dispatch_ok :
      (job_id key : String) (op_values : List String) (params : List (String × Fields))
      (w w' : World p)
      → dispatch job_id key op_values params w ≡ (ok tt, w')
      → w' ≡ record w { published = w.published ++ messages w job_id key op_values params }
  unfolding dispatch build_dag
  dispatch_ok job_id key op_values params w w' h = ground (
    arith,
    append-nil w.published,
    append_assoc w.published (chords w job_id key (pipeline_ops_of op_values) params)
        (extractions w job_id key op_values),
  )

  abbrev pub new_id : World p → String
  new_id w = p.runtime.uuid_str w.drawn

  abbrev pub new_raw_key : Request → World p → String
  new_raw_key r w =
      raw_key (new_id w)
        (cat (p.runtime.uuid_hex8 (suc w.drawn)) (p.runtime.uuid_hex24 (suc w.drawn)))
        (raw_ext p.runtime.lower (or_default (truthy r.file.filename) "upload.bin"))

  abbrev pub remembered : Option String → World p → p.Cache
  remembered none w = w.cache
  remembered (some key) w =
      p.setex (cache_key key) p.settings.idempotency_ttl_seconds (new_id w) w.now w.cache

  -- The state after the request has been handled, before the commit.
  abbrev pub submitted : Request → Accepted → World p → World p
  submitted r v w = record w {
    drawn = suc (suc w.drawn);
    bucket = p.put_object (new_raw_key r w) r.file.contents w.bucket;
    session = w.session ++ new_job r v (new_id w) (new_raw_key r w) w.now ∷ [];
    cache = remembered (truthy r.idempotency_key) w;
    published =
        w.published ++ messages w (new_id w) (new_raw_key r w) (map value v.ops) v.op_params;
  }

  abbrev undispatched : Request → Accepted → World p → World p
  undispatched r v w = record (submitted r v w) { published = w.published }

  pub submit_ok :
      (r : Request) (v : Accepted) (w w' : World p) (c : Created)
      → submit r v w ≡ (ok c, w')
      → (c ≡ created (new_id w)) × (w' ≡ submitted r v w)
  unfolding submit upload_raw set_idempotency
  submit_ok r v w w' c h = elim (Option-cases (truthy r.idempotency_key)) [
    | inl k ↦ ground (
      arith,
      k,
      dispatch_ok (new_id w) (new_raw_key r w) (map value v.ops) v.op_params (undispatched r v w)
          w',
    )
    | inr (key, k) ↦ ground (
      arith,
      k,
      dispatch_ok (new_id w) (new_raw_key r w) (map value v.ops) v.op_params (undispatched r v w)
          w',
    )
  ]
