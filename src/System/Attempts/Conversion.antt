-- ===== src/System/Attempts/Conversion.antt =====
-- The attempts at a conversion task.
use pix_tools.Base.{
  ℕ, ◌≡◌, ◌≢◌, ◌⊎◌, refl, ap, ◌∙◌, inl, inr, String, false, Option, some, Exn, Result, ok, err,
  s3_get, s3_put, arith, Bool-cases, Option-cases, Result-cases, lookup, eq_iff, eq_refl,
}
use pix_tools.Json.{Fields}
use pix_tools.Platform.{Platform, Bytes}
use pix_tools.Pillow.{Pillow}
use pix_tools.World.{World, Action, retrying, reraise, lift, ◌>>=◌}
use pix_tools.Store.{upload_processed, processed_key, extension}
use pix_tools.Images.Encode.{converted}
use pix_tools.Images.Convert.{download_raw, convert}
use pix_tools.Images.Convert.Stored.{
  IsAllOrNothing, IsStored, IsUndone, next_key, retrying-process_outcome,
}
use pix_tools.Tasks.Lifecycle.{Task}
use pix_tools.System.Steps.{stored-Evolves}
use pix_tools.System.Attempts.{is_retry, image_retries, Celery, attempts}
use pix_tools.System.Attempts.Ending.{IsTask, IsReady, HasEnded, attempts_end}

-- Nothing that a task on an image asks of Pillow or torch raises Celery's own exception.
pub record IsPlain (pil : Pillow) (work : pil.Image → Result Bytes) : Type 0 where
  pub opens : (b : Bytes) (e : Exn) → pil.open_image b ≡ err e → is_retry e ≡ false
  pub works : (image : pil.Image) (e : Exn) → work image ≡ err e → is_retry e ≡ false

module _ (p : Platform) (pil : Pillow) (work : pil.Image → Result Bytes)
    (id raw fmt op : String) where
  -- What a task on an image makes in the bucket: under a key of the job and of its operation, what it
  -- makes of the image that is stored under `raw`; every other object is as it was.
  pub record IsMade (before : p.Bucket) (key : String) (now : p.Bucket) : Type 0 where
    pub image_bytes : Bytes
    pub image : pil.Image
    pub body : Bytes
    pub drawn : ℕ
    pub there : p.object raw before ≡ some image_bytes
    pub opened : pil.open_image image_bytes ≡ ok image
    pub worked : work image ≡ ok body
    pub named :
        key ≡ processed_key id op (p.runtime.uuid_hex8 drawn) (extension p.runtime.lower fmt)
    pub stored : p.object key now ≡ some body
    pub others : (other : String) → other ≢ key → p.object other now ≡ p.object other before

module _ {p : Platform} (pil : Pillow) (work : pil.Image → Result Bytes)
    (id raw fmt op : String) where
  download_raw_error :
      (w : World p) (e : Exn)
      → IsPlain pil work
      → (download_raw pil raw w).0 ≡ err e
      → is_retry e ≡ false
  unfolding download_raw
  download_raw_error w e plain h = elim (Bool-cases (w.fails s3_get)) [
    | inl down ↦ ground (arith, down, h)
    | inr up ↦ elim (Option-cases (p.object raw w.bucket)) [
      | inl gone ↦ ground (arith, up, gone, h)
      | inr (b, there) ↦ plain.opens b e (ground (arith, up, there, h))
    ]
  ]

  upload_error :
      (body : Bytes) (w : World p) (e : Exn)
      → (upload_processed body id op fmt w).0 ≡ err e
      → is_retry e ≡ false
  unfolding upload_processed
  upload_error body w e h = elim (Bool-cases (w.fails s3_put)) [
    | inl down ↦ ground (arith, down, h)
    | inr up ↦ ground (arith, up, h)
  ]

  -- The task under `try`, in one attempt.
  abbrev pub image_task : (Exn → Exn) → Action p String
  image_task f =
      retrying f
        (do image ← download_raw pil raw; body ← lift (work image); upload_processed body id op fmt)

  abbrev unretried : Action p String
  unretried = do
    image ← download_raw pil raw
    body ← lift (work image)
    upload_processed body id op fmt

  unretried_error :
      (w : World p) (e : Exn) → IsPlain pil work → (unretried w).0 ≡ err e → is_retry e ≡ false
  unretried_error w e plain h = elim (Result-cases (download_raw pil raw w).0) [
    | inr (x, q) ↦ download_raw_error w e plain (q ∙ ground (arith, q, h))
    | inl (image, q) ↦ elim (Result-cases (work image)) [
      | inr (x, k) ↦ plain.works image e (k ∙ ground (arith, q, k, h))
      | inl (body, k) ↦ upload_error body (download_raw pil raw w).1 e (ground (arith, q, k, h))
    ]
  ]

  reraised_answer :
      (f : Exn → Exn) (r : Result String × World p)
      → ((e : Exn) → r.0 ≡ err e → is_retry e ≡ false)
      → ((key : String) × ((reraise f r).0 ≡ ok key))
        ⊎ ((e : Exn) × ((reraise f r).0 ≡ err (f e)) × (is_retry e ≡ false))
  reraised_answer f (ok key, w) h = inl (key, refl)
  reraised_answer f (err e, w) h = inr (e, refl, h e refl)

  stored_fails :
      (f : Exn → Exn) (w : World p) (r : Result String × World p)
      → IsAllOrNothing pil work f id raw fmt op w r
      → r.1.fails ≡ w.fails
  stored_fails f w r (inl (_, _, _, state)) = ap (λ u. u.fails) state
  stored_fails f w r (inr (_, _, inl state)) = ap (λ u. u.fails) state
  stored_fails f w r (inr (_, _, inr state)) = ap (λ u. u.fails) state

  stored-IsMade :
      (f : Exn → Exn) (w : World p) (r : Result String × World p)
      → IsStored pil work f id raw fmt op w r
      → IsMade p pil work id raw fmt op w.bucket (next_key pil work f id raw fmt op w) r.1.bucket
  stored-IsMade f w r (body, made, answer, state) =
      let key = next_key pil work f id raw fmt op w in
      let bucket : r.1.bucket ≡ p.put_object key body w.bucket = ap (λ u. u.bucket) state in
      let at = λ (other : String). p.object-put_object other key body w.bucket in
      record {
        image_bytes = made.image_bytes;
        image = made.image;
        body = body;
        drawn = w.drawn;
        there = made.there;
        opened = made.opened;
        worked = made.same;
        named = refl;
        stored = ap (p.object key) bucket ∙ ground (arith, at key, eq_refl key);
        others =
            λ other n. ap (p.object other) bucket ∙ ground (arith, at other, eq_iff key other, n);
      }

  undone_bucket :
      (f : Exn → Exn) (w : World p) (r : Result String × World p)
      → IsUndone pil work f id raw fmt op w r
      → r.1.bucket ≡ w.bucket
  undone_bucket f w r (inl state) = ap (λ u. u.bucket) state
  undone_bucket f w r (inr state) = ap (λ u. u.bucket) state

  answers_of_outcome :
      (f : Exn → Exn) (w : World p) (r : Result String × World p)
      → IsAllOrNothing pil work f id raw fmt op w r
      → ((key : String) × (r.0 ≡ ok key)) ⊎ ((e : Exn) × (r.0 ≡ err (f e)) × (is_retry e ≡ false))
      → ((key : String) × (r.0 ≡ ok key) × IsMade p pil work id raw fmt op w.bucket key r.1.bucket)
        ⊎ ((e : Exn) × (r.0 ≡ err (f e)) × (is_retry e ≡ false) × (r.1.bucket ≡ w.bucket))
  answers_of_outcome f w r (inl (body, made, done, state)) answer =
      inl (next_key pil work f id raw fmt op w, done, stored-IsMade f w r (body, made, done, state))
  answers_of_outcome f w r (inr (x, failed_, undone)) (inl (key, e)) = cc
  answers_of_outcome f w r (inr (x, failed_, undone)) (inr (e, raised, plain)) =
      inr (e, raised, plain, undone_bucket f w r undone)

  pub image_task-IsTask :
      (celery : Celery) (t : Task) (m : ℕ)
      → IsPlain pil work
      → IsTask celery t m image_task (IsMade p pil work id raw fmt op)
  image_task-IsTask celery t m plain =
      let outcome =
        λ (f : Exn → Exn) (w : World p). retrying-process_outcome pil work f id raw fmt op w in
      record {
        evolves = λ f w. stored-Evolves pil work f id raw fmt op w _ (outcome f w);
        fails = λ f w. stored_fails f w _ (outcome f w);
        answers = λ f w.
            answers_of_outcome f w _ (outcome f w)
              (reraised_answer f (unretried w) (λ e h. unretried_error w e plain h));
      }

-- A conversion whose job is in the table, in a worker that reaches the database, ends after at most
-- four attempts, each between its signals. Either it has returned a key of the job and its operation,
-- under which the bucket holds the conversion of the raw image, every other object being as it was; or
-- it has failed four times, the job is FAILED and the bucket is as it was. The exceptions of Pillow
-- and of the reading of the params are not Celery's own.
pub convert_ends :
    {p : Platform} (pil : Pillow) (celery : Celery) (t : Task) (id raw fmt op : String)
    (params : Option Fields) (w : World p)
    → lookup "job_id" t.kwargs ≡ some id
    → id ≢ ""
    → IsPlain pil (λ image. converted p.runtime p.settings pil image fmt op params)
    → IsReady id w
    → let body : (Exn → Exn) → Action p String =
        λ f. retrying f (convert pil id raw fmt op params) in
      let work = λ (image : pil.Image). converted p.runtime p.settings pil image fmt op params in
      HasEnded celery t image_retries body
        (IsMade p pil work id raw fmt op)
        id
        4
        w.bucket
        (attempts celery t image_retries body image_retries 0 w)
unfolding convert
convert_ends {p} pil celery t id raw fmt op params w given named plain ready =
    let work = λ (image : pil.Image). converted p.runtime p.settings pil image fmt op params in
    attempts_end celery t image_retries (image_task pil work id raw fmt op)
      (IsMade p pil work id raw fmt op) id image_retries 0 w (omega arith) given named
      (image_task-IsTask pil work id raw fmt op celery t image_retries plain) ready
