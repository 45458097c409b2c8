-- ===== src/System/Pipeline/Header.antt =====
-- What the tasks of a header leave behind if nothing fails.
use pix_tools.Base.{
  suc, String, Bool, true, false, ◌≡◌, refl, ap, ◌∙◌, Option, some, is_some, List, [], ◌∷◌, ok, Exn,
  Result, arith, is_in, s3_get, s3_put, s3_head, db_get, db_commit, eq_iff, eq_refl, All, map,
}
use pix_tools.Json.{Fields}
use pix_tools.Models.{Job, OperationType, value}
use pix_tools.Platform.{Platform, Bytes}
use pix_tools.Pillow.{Pillow}
use pix_tools.World.{World, Signature}
use pix_tools.Store.{extension, raw_key}
use pix_tools.Dag.{params_of}
use pix_tools.Dag.Laws.{is_metadata, task_name, task_of}
use pix_tools.Denoise.{loaded}
use pix_tools.Denoise.Network.{Torch}
use pix_tools.Tasks.Lifecycle.{on_task_prerun, on_task_postrun}
use pix_tools.Tasks.Lifecycle.Laws.{is_tracked}
use pix_tools.Tasks.Finalize.Keys.{Stored, stored_key, IsPlain}
use pix_tools.System.Pipeline.{task_for, perform, work_on, run_header}
use pix_tools.System.Pipeline.Running.{format_of, work_of, perform_stores}
use pix_tools.System.Attempts.Ending.{prerun_bucket, postrun_bucket}
use pix_tools.System.Pipeline.State.{
  IsRunning, IsPlainRuntime, extension_of-plain, task_name-is_bookkeeping, raw_key-ne-processed_key,
  prerun-IsRunning, postrun-IsRunning,
}

-- Nothing fails at the start, the job has an id, and the image is one that Pillow opens.
pub record IsServed {p : Platform} (pil : Pillow) (start : World p) (job : Job)
    (image_bytes : Bytes) (image : pil.Image) : Type 0 where
  pub gets : start.fails s3_get ≡ false
  pub puts : start.fails s3_put ≡ false
  pub reads : start.fails db_get ≡ false
  pub commits : start.fails db_commit ≡ false
  pub heads : start.fails s3_head ≡ false
  pub named : is_in job.id ("" ∷ "N/A" ∷ []) ≡ false
  pub opens : pil.open_image image_bytes ≡ ok image
  pub plain : IsPlainRuntime p.runtime

-- The operation is one of a chord, and its task makes something of the image.
abbrev pub Works :
    (p : Platform) {pil : Pillow}
    → Torch pil
    → pil.Image
    → (params : List (String × Fields)) → OperationType
    → Type 0
Works p torch image params op =
    (is_metadata op ≡ false)
    × ((body : Bytes) × (work_of p torch op (params_of (value op) params) image ≡ ok body))

module _ {p : Platform} {pil : Pillow} (torch : Torch pil) (celery_retry : Exn → Exn)
    (text : Exn → Option String) (task_id : Signature → Option String) (start : World p) (job : Job)
    (hex ext : String) (image_bytes : Bytes) (image : pil.Image) (params : List (String × Fields))
    (headers : List (String × String)) where
  abbrev raw : String
  raw = raw_key job.id hex ext

  abbrev pub Kept : World p → World p → Type 0
  Kept v w =
      (k : String) → is_some (p.object k v.bucket) ≡ true → is_some (p.object k w.bucket) ≡ true

  abbrev pub is_stored : World p → Stored → Bool
  is_stored w d = is_some (p.object (stored_key job.id d) w.bucket)

  pub work_on_stores :
      (op : OperationType) (w : World p)
      → IsServed pil start job image_bytes image
      → IsRunning start job raw image_bytes w
      → Works p torch image params op
      → let (r, w') =
          work_on torch celery_retry loaded text task_id (task_of job.id raw params headers op) w in
        (d : Stored) × (r ≡ ok (stored_key job.id d))
        × (d.op ≡ op)
        × IsPlain d
        × IsRunning start job raw image_bytes w'
        × (is_stored w' d ≡ true)
        × Kept w w'
  unfolding work_on
  work_on_stores op w s r (pipeline, (body, works)) =
      let sig = task_of job.id raw params headers op in
      let t = task_for (task_id sig) sig in
      let w1 = (on_task_prerun (some t) w).1 in
      let tracked : is_tracked t ≡ true = ground (arith, s.named, task_name-is_bookkeeping op) in
      let r1 = prerun-IsRunning start job raw image_bytes t w r tracked refl s.reads s.commits in
      let d : Stored = record {
        op = op;
        hex8 = p.runtime.uuid_hex8 w1.drawn;
        ext = extension p.runtime.lower (format_of op);
      } in
      let (slash, dot) = extension_of-plain p.runtime op s.plain pipeline in
      let key = stored_key job.id d in
      let w2 = record w1 { bucket = p.put_object key body w1.bucket; drawn = suc w1.drawn } in
      let done : perform torch celery_retry loaded (task_name op) job.id raw
            (params_of (value op) params) w1
          ≡ (ok key, w2) =
        perform_stores torch celery_retry job.id raw (params_of (value op) params) op image_bytes
          body image w1 pipeline (ap (λ f. f s3_get) r1.fails ∙ s.gets)
          (ap (λ f. f s3_put) r1.fails ∙ s.puts) r1.image s.opens works in
      let run : work_on torch celery_retry loaded text task_id sig w
          ≡ (ok key, (on_task_postrun t w2).1) =
        rw done refl in
      let put = λ (k : String). p.object-put_object k key body w1.bucket in
      let other = raw_key-ne-processed_key job.id hex ext job.id (value op) d.hex8 d.ext in
      let r2 : IsRunning start job raw image_bytes w2 = record {
        status = r1.status;
        row = r1.row;
        image = ground (arith, put raw, eq_iff key raw, other, r1.image);
        fails = r1.fails;
        delivery = r1.delivery;
        session = r1.session;
      } in
      rw run (
        d,
        refl,
        refl,
        record { hex_slash = s.plain.hex8 w1.drawn; ext_slash = slash; ext_dot = dot },
        postrun-IsRunning start job raw image_bytes t w2 r2,
        ap (λ b. is_some (p.object key b)) (postrun_bucket t w2)
            ∙ ground (arith, put key, eq_refl key),
        λ k h.
            ap (λ b. is_some (p.object k b)) (postrun_bucket t w2)
            ∙ ground (arith, put k, ap (p.object k) (prerun_bucket t w)),
      )

  -- What a header leaves: one stored result for each of its operations, in their order.
  pub record HasRun (ops : List OperationType) (w : World p) (r : Result (List String) × World p)
      : Type 0 where
    pub results : List Stored
    pub answer : r.0 ≡ ok (map (stored_key job.id) results)
    pub operations : map (λ (d : Stored). d.op) results ≡ ops
    pub plain : All IsPlain results
    pub running : IsRunning start job raw image_bytes r.1
    pub stored : All (λ (d : Stored). is_stored r.1 d ≡ true) results
    pub kept : Kept w r.1

  pub run_header-HasRun :
      (ops : List OperationType) (w : World p)
      → IsServed pil start job image_bytes image
      → IsRunning start job raw image_bytes w
      → All (Works p torch image params) ops
      → HasRun ops w (
          run_header torch celery_retry loaded text task_id
            (map (task_of job.id raw params headers) ops)
            w)
  unfolding run_header
  run_header-HasRun [] w s r works = record {
    results = [];
    answer = refl;
    operations = refl;
    plain = tt;
    running = r;
    stored = tt;
    kept = λ k h. h;
  }
  run_header-HasRun (op ∷ ops) w s r (work, works) =
      let sig = task_of job.id raw params headers op in
      let w1 = (work_on torch celery_retry loaded text task_id sig w).1 in
      let (d, done, same, plain, running, stored, kept) = work_on_stores op w s r work in
      let rest = run_header-HasRun ops w1 s running works in
      let sigs = map (task_of job.id raw params headers) ops in
      let w2 = (run_header torch celery_retry loaded text task_id sigs w1).1 in
      let run : run_header torch celery_retry loaded text task_id (sig ∷ sigs) w
          ≡ (ok (map (stored_key job.id) (d ∷ rest.results)), w2) =
        ground (arith, done, rest.answer) in
      rw run (record {
        results = d ∷ rest.results;
        answer = refl;
        operations = rw (same, rest.operations) refl;
        plain = (plain, rest.plain);
        running = rest.running;
        stored = (rest.kept (stored_key job.id d) stored, rest.stored);
        kept = λ k h. rest.kept k (kept k h);
      })
