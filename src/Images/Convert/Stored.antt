-- ===== src/Images/Convert/Stored.antt =====
-- What a conversion task leaves behind.
use mathlib.Core.Path.{subst, sym}
use pix_tools.Base.{
  suc, String, ◌≡◌, refl, ◌⊎◌, inl, inr, Option, some, Bool-cases, s3_put, s3_get, unavailable,
  Option-cases, Exn, Result, ok, err, arith,
}
use pix_tools.Json.{Fields}
use pix_tools.Platform.{Platform, Bytes}
use pix_tools.Pillow.{Pillow}
use pix_tools.World.{retrying, reraise, World, Action, lift, ◌>>=◌}
use pix_tools.Store.{upload_processed, processed_key, extension}
use pix_tools.Images.Convert.{convert, download_raw}
use pix_tools.Images.Encode.{converted}

-- What holds after a chain whose first action keeps the state holds in both cases of that action.
after :
    {p : Platform} {A B : Type 0} (Q : Result B × World p → Type 0) (w : World p) (m : Action p A)
    (next : A → Action p B)
    → (m w).1 ≡ w
    → ((e : Exn) → Q (err e, w))
    → ((a : A) → (m w).0 ≡ ok a → Q (next a w))
    → Q ((m >>= next) w)
after Q w m next kept failed went_on = go (m w) kept went_on
  where
    go :
        (r : Result _ × World _)
        → r.1 ≡ w
        → ((a : _) → r.0 ≡ ok a → Q (next a w))
        → Q (elim r.0 [ ok a ↦ next a r.1 | err e ↦ (err e, r.1) ])
    go (ok a, w') e f = subst (λ v. Q (next a v)) (sym e) (f a refl)
    go (err x, w') e f = subst (λ v. Q (err x, v)) (sym e) (failed x)

module _ {p : Platform} (pil : Pillow) (work : pil.Image → Result Bytes) (celery_retry : Exn → Exn)
    (job_id raw fmt op : String) (w : World p) where
  -- The key of the next object that `upload_processed` stores.
  abbrev pub next_key : String
  next_key = processed_key job_id op (p.runtime.uuid_hex8 w.drawn) (extension p.runtime.lower fmt)

  -- The bytes are what the task makes of the image that is stored under `raw`.
  pub record IsConverted (body : Bytes) : Type 0 where
    pub image_bytes : Bytes
    pub image : pil.Image
    pub there : p.object raw w.bucket ≡ some image_bytes
    pub opened : pil.open_image image_bytes ≡ ok image
    pub same : work image ≡ ok body

  abbrev pub IsStored : Result String × World p → Type 0
  IsStored r =
      (body : Bytes) × IsConverted body
      × (r.0 ≡ ok next_key)
      × (r.1 ≡ record w { bucket = p.put_object next_key body w.bucket; drawn = suc w.drawn })

  -- Nothing is left but, perhaps, a drawn UUID.
  abbrev pub IsUndone : Result String × World p → Type 0
  IsUndone r = (r.1 ≡ w) ⊎ (r.1 ≡ record w { drawn = suc w.drawn })

  IsOutcome : Result String × World p → Type 0
  IsOutcome r = IsStored r ⊎ ((e : Exn) × (r.0 ≡ err e) × IsUndone r)

  uploaded : (body : Bytes) → IsConverted body → IsOutcome (upload_processed body job_id op fmt w)
  unfolding upload_processed IsOutcome
  uploaded body made = elim (Bool-cases (w.fails s3_put)) [
    | inl down ↦ inr (unavailable s3_put, ground arith, inr (ground arith))
    | inr up ↦ inl (body, made, ground arith, ground arith)
  ]

  stopped : (e : Exn) → IsOutcome (err e, w)
  unfolding IsOutcome
  stopped e = inr (e, refl, inl refl)

  download_raw_unchanged : (download_raw pil raw w).1 ≡ w
  unfolding download_raw
  download_raw_unchanged = elim (Bool-cases (w.fails s3_get)) [
    | inl down ↦ ground arith
    | inr up ↦ elim (Option-cases (p.object raw w.bucket)) [
      | inl gone ↦ ground arith
      | inr (b, there) ↦ ground arith
    ]
  ]

  download_raw_result :
      (image : pil.Image)
      → (download_raw pil raw w).0 ≡ ok image
      → (b : Bytes) × (p.object raw w.bucket ≡ some b) × (pil.open_image b ≡ ok image)
  unfolding download_raw
  download_raw_result image h = elim (Bool-cases (w.fails s3_get)) [
    | inl down ↦ ground arith
    | inr up ↦ elim (Option-cases (p.object raw w.bucket)) [
      | inl gone ↦ ground arith
      | inr (b, there) ↦ (b, there, ground arith)
    ]
  ]

  -- What the tasks on images have in common.
  abbrev pub process : Action p String
  process = do
    image ← download_raw pil raw
    body ← lift (work image)
    upload_processed body job_id op fmt

  process_outcome : IsOutcome (process w)
  process_outcome =
      let store = λ (body : Bytes). upload_processed body job_id op fmt in
      after IsOutcome w (download_raw pil raw) (λ image. lift (work image) >>= store)
        download_raw_unchanged stopped
        (λ image got.
          let (b, there, opened) = download_raw_result image got in
          after IsOutcome w (lift (work image)) store refl stopped (λ body made.
            uploaded body (record {
              image_bytes = b;
              image = image;
              there = there;
              opened = opened;
              same = made;
            })))

  abbrev pub IsAllOrNothing : Result String × World p → Type 0
  IsAllOrNothing r = IsStored r ⊎ ((e : Exn) × (r.0 ≡ err (celery_retry e)) × IsUndone r)

  reraised : (r : Result String × World p) → IsOutcome r → IsAllOrNothing (reraise celery_retry r)
  unfolding IsOutcome
  reraised (ok k, v) (inl (body, made, k_ok, state)) = inl (body, made, k_ok, state)
  reraised (ok k, v) (inr (e, failed, state)) = ground arith
  reraised (err x, v) (inl (body, made, k_ok, state)) = ground arith
  reraised (err x, v) (inr (e, failed, state)) = inr (e, cc, state)

  pub retrying-process_outcome : IsAllOrNothing (retrying celery_retry process w)
  retrying-process_outcome = reraised _ process_outcome

module _ {p : Platform} (pil : Pillow) (celery_retry : Exn → Exn) (job_id raw fmt op : String)
    (params : Option Fields) (w : World p) where
  -- A conversion task is all or nothing. Either it returns a key of its operation, under which the
  -- bucket now holds the conversion of the raw image, or it raises what Celery's retry makes of an
  -- exception. Beyond that it changes nothing, a drawn UUID excepted.
  pub retrying-convert_outcome :
      IsAllOrNothing pil
        (λ image. converted p.runtime p.settings pil image fmt op params)
        celery_retry
        job_id
        raw
        fmt
        op
        w
        (retrying celery_retry (convert pil job_id raw fmt op params) w)
  unfolding convert
  retrying-convert_outcome =
      retrying-process_outcome pil (λ image. converted p.runtime p.settings pil image fmt op params)
        celery_retry job_id raw fmt op w
