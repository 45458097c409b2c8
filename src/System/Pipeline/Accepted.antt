-- ===== src/System/Pipeline/Accepted.antt =====
-- From an accepted request to the poll behind its chord.
use mathlib.Core.Path.{subst}
use mathlib.Core.List.{Permᴰ}
use mathlib.Core.List.Permᴰ
use pix_tools.System.Pipeline.Order.{
  carry, carry-map, carry_of_map, map-carry, All-carry, All_of_order,
}
use pix_tools.Tasks.Finalize.Keys.{IsPlain}
use pix_tools.System.Pipeline.Header.{HasRun}
use pix_tools.Base.{
  String, suc, or_default, true, ◌≡◌, refl, ap, ◌∙◌, Option, none, some, List, [], ◌∷◌, ◌++◌, map,
  All, ok, Exn, arith, is_in, eq_refl,
}
use Prim.Native.String.{◌++◌ as cat}
use pix_tools.Json.{Fields}
use pix_tools.Models.{Job, OperationType, value}
use pix_tools.Platform.{Platform, Bytes}
use pix_tools.Pillow.{Pillow}
use pix_tools.World.{World, Signature, chord}
use pix_tools.Dag.{finalize_signature}
use pix_tools.Dag.Laws.{task_of}
use pix_tools.Denoise.{loaded}
use pix_tools.Denoise.Network.{Torch}
use pix_tools.Jobs.{Request, Accepted, validate, truthy}
use pix_tools.Jobs.Create.{Created, created, new_job, earlier_job, create_job}
use pix_tools.Jobs.Create.Effects.{new_id, new_raw_key}
use pix_tools.Jobs.Create.Stored.{create_job_ok, create_job-stored}
use pix_tools.Jobs.Create.Sent.{
  create_job-sent, pipeline, headers_of, expected_extraction, expected_messages,
}
use pix_tools.Tasks.Finalize.Keys.{Stored, stored_key}
use pix_tools.System.Pipeline.{run_header, call_back, run_chord}
use pix_tools.Store.{raw_key, raw_ext}
use pix_tools.System.Pipeline.State.{IsRunning}
use pix_tools.System.Pipeline.Header.{IsServed, Works, run_header-HasRun}
use pix_tools.System.Pipeline.Chord.{IsShown, call_back-IsShown}

module _ {p : Platform} {pil : Pillow} (torch : Torch pil) (celery_retry : Exn → Exn)
    (text : Exn → Option String) (task_id : Signature → Option String) (start : World p) (job : Job)
    (hex ext : String) (image_bytes : Bytes) (image : pil.Image) (params : List (String × Fields))
    (headers : List (String × String)) (op : OperationType) (ops order : List OperationType)
    (turn : Permᴰ order (op ∷ ops)) where
  abbrev raw : String
  raw = raw_key job.id hex ext

  abbrev sig : OperationType → Signature
  sig = task_of job.id raw params headers

  abbrev pub after_chord : World p
  after_chord =
      (run_chord torch celery_retry loaded text task_id (Permᴰ.map sig turn)
        (finalize_signature job.id headers) start).1

  ran :
      IsServed pil start job image_bytes image
      → p.row job.id start.jobs ≡ some job
      → p.object raw start.bucket ≡ some image_bytes
      → All (Works p torch image params) (op ∷ ops)
      → HasRun torch celery_retry text task_id start job hex ext image_bytes image params headers
          order start
          (run_header torch celery_retry loaded text task_id (map sig order) start)
  ran s there stored works =
      let init : IsRunning start job raw image_bytes start = record {
        status = job.status;
        row = there;
        image = stored;
        fails = refl;
        delivery = refl;
        session = refl;
      } in
      run_header-HasRun torch celery_retry text task_id start job hex ext image_bytes image params
        headers order start s init (All_of_order (Works p torch image params) turn works)

  pub run_chord-IsShown :
      (name : String)
      → IsServed pil start job image_bytes image
      → p.row job.id start.jobs ≡ some job
      → p.object raw start.bucket ≡ some image_bytes
      → start.session ≡ []
      → All (Works p torch image params) (op ∷ ops)
      → IsShown start job (map value (op ∷ ops)) name after_chord
  unfolding run_chord
  run_chord-IsShown name s there stored clean works =
      let h = ran s there stored works in
      let ds = carry turn h.results in
      let w1 = (run_header torch celery_retry loaded text task_id (map sig order) start).1 in
      let after =
        (call_back text task_id (finalize_signature job.id headers) (map (stored_key job.id) ds)
          w1).1 in
      let handed : carry (Permᴰ.map sig turn) (map (stored_key job.id) h.results)
          ≡ map (stored_key job.id) ds =
        carry_of_map sig turn (map (stored_key job.id) h.results)
        ∙ carry-map (stored_key job.id) turn h.results in
      let same : after_chord ≡ after = ground (arith, h.answer, handed) in
      let operations = map-carry (λ (d : Stored). d.op) turn h.results h.operations in
      let first : is_in (value op) (map value (map (λ (d : Stored). d.op) ds)) ≡ true =
        rw operations (ground (arith, eq_refl (value op))) in
      let shown =
        call_back-IsShown text task_id start job raw image_bytes headers ds w1 op name h.running
          clean s.reads s.commits s.heads first (All-carry IsPlain turn h.results h.plain)
          (All-carry _ turn h.results h.stored) in
      rw same (subst (λ l. IsShown start job (map value l) name after) operations shown)

module _ {p : Platform} where
  -- The signature of the task of an operation of an accepted request.
  abbrev pub task_signature :
      Request → World p → (params : List (String × Fields)) → OperationType → Signature
  task_signature r w params = task_of (new_id w) (new_raw_key r w) params (headers_of w)

module _ {p : Platform} {pil : Pillow} (torch : Torch pil) (celery_retry : Exn → Exn)
    (text : Exn → Option String) (task_id : Signature → Option String) where
  -- The world once the chord of an accepted request has run from `w'`.
  abbrev pub world_after :
      Request
      → World p
      → (params : List (String × Fields)) → {order ops : List OperationType} → Permᴰ order ops
      → (w' : World p) → World p
  world_after r w params turn w' =
      (run_chord torch celery_retry loaded text task_id (Permᴰ.map (task_signature r w params) turn)
        (finalize_signature (new_id w) (headers_of w)) w').1

  -- A request that comes with no open session, is accepted, repeats none and names an operation
  -- other than metadata gets the drawn id, sends one chord with a task for each of these
  -- operations and the finalizer behind it, and then the metadata task if that is asked for. The
  -- chord leads to the end: if its tasks, whole and in any order, and then the finalizer run from
  -- there, each between its signals, reads and writes of the store and the table do not fail, the
  -- id is neither empty nor "N/A", the UUIDs have no slash and the names of the formats their
  -- lower case, the model is loaded, Pillow opens the upload and each operation makes something of
  -- it, then a poll shows the job under the status that its webhook decides, COMPLETED or
  -- COMPLETED_WEBHOOK_FAILED, and under a name a URL exactly if that is one of these operations;
  -- the row has a key for the name, and the bucket an object under that key, exactly then.
  pub create_job-IsShown :
      (r : Request) (v : Accepted) (op : OperationType) (ops order : List OperationType)
      (turn : Permᴰ order (op ∷ ops)) (image : pil.Image) (name : String) (w w' : World p)
      (c : Created)
      → w.session ≡ []
      → (earlier_job r.idempotency_key w).0 ≡ ok none
      → create_job r w ≡ (ok c, w')
      → validate p.runtime p.settings r ≡ ok v
      → pipeline (new_id w) (new_raw_key r w) v.op_params (headers_of w) v.ops ≡ op ∷ ops
      → IsServed pil w' (new_job r v (new_id w) (new_raw_key r w) w.now) r.file.contents image
      → All (Works p torch image v.op_params) (op ∷ ops)
      → let header = map (task_signature r w v.op_params) (op ∷ ops) in
        let body = finalize_signature (new_id w) (headers_of w) in
        let job = new_job r v (new_id w) (new_raw_key r w) w.now in
        (c ≡ created (new_id w))
        × (w'.published
            ≡ w.published
              ++ (chord header body
                  ∷ expected_extraction
                      (new_id w)
                      (new_raw_key r w)
                      v.op_params
                      (headers_of w)
                      v.ops))
        × IsShown w' job (map value (op ∷ ops)) name (world_after r w v.op_params turn w')
  create_job-IsShown r v op ops order turn image name w w' c clean fresh h valid some_op s works =
      let job = new_job r v (new_id w) (new_raw_key r w) w.now in
      let (v1, q1, made, after) = create_job_ok r w w' c clean fresh h in
      let (v2, q2, there, stored, others) = create_job-stored r w w' c clean fresh h in
      let (v3, q3, sent, some_message) = create_job-sent r w w' c clean fresh h in
      let named : c.job_id ≡ new_id w = ap (λ (d : Created). d.job_id) made in
      let same2 : v2 ≡ v = ground (arith, q2, valid) in
      let same3 : v3 ≡ v = ground (arith, q3, valid) in
      let row : p.row job.id w'.jobs ≡ some job =
        subst
          (λ u. p.row (new_id w) w'.jobs ≡ some (new_job r u (new_id w) (new_raw_key r w) w.now))
          same2
          (subst (λ i. p.row i w'.jobs ≡ some (new_job r v2 i (new_raw_key r w) w.now)) named
            there) in
      (
        made,
        subst
              (λ u.
                w'.published
                ≡ w.published
                  ++ expected_messages (new_id w) (new_raw_key r w) u.op_params (headers_of w)
                      u.ops)
              same3
              (subst
                (λ i.
                  w'.published
                  ≡ w.published
                    ++ expected_messages i (new_raw_key r w) v3.op_params (headers_of w) v3.ops)
                named sent)
            ∙ ground (arith, some_op),
        run_chord-IsShown torch celery_retry text task_id w' job
            (cat (p.runtime.uuid_hex8 (suc w.drawn)) (p.runtime.uuid_hex24 (suc w.drawn)))
            (raw_ext p.runtime.lower (or_default (truthy r.file.filename) "upload.bin"))
            r.file.contents image v.op_params (headers_of w) op ops order turn name s row stored
            (ap (λ (u : World p). u.session) after) works,
      )
