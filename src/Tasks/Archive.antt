-- ===== src/Tasks/Archive.antt =====
-- app/tasks/archive.py: the bundle of the results of a job. What `zipfile` makes of the members is a
-- parameter.
use pix_tools.Base.{
  String, ◌≡◌, refl, Option, none, some, List, [], ◌∷◌, map, is_empty, is_empty-map, ◌∙◌,
  if◌then◌else◌, All, arith, Exn, ok, unavailable, value_error, s3_get, s3_put, false,
}
use pix_tools.Base.Text.{after_last}
use pix_tools.Platform.{Platform, Bytes}
use pix_tools.World.{World, Action, gets, call, pure, raise, retrying, ◌>>=◌, ◌>>◌}
use pix_tools.Store.{base_name, download_name, get_archive_key, upload_archive_bytes}

-- The name of a result in the bundle.
abbrev pub archive_member : (base_name operation s3_key : String) → String
archive_member base_name operation s3_key =
    download_name operation base_name (after_last "." s3_key)

-- A result: its operation, its key and its bytes.
abbrev pub key_of : String × (String × Bytes) → String × String
key_of (operation, (s3_key, _)) = (operation, s3_key)

abbrev pub member_of : String → String × (String × Bytes) → String × Bytes
member_of base (operation, (s3_key, bytes)) = (archive_member base operation s3_key, bytes)

module _ {p : Platform} where
  -- A missing object is a `ClientError` as well.
  unfoldable pub download_object_bytes : String → Action p Bytes
  download_object_bytes s3_key = do
    call s3_get
    found ← gets (λ w. p.object s3_key w.bucket)
    elim found [ none ↦ raise (unavailable s3_get) | some bytes ↦ pure bytes ]

  -- the loop over `result_keys.items()`
  unfoldable pub collect_members :
      String → List (String × String) → Action p (List (String × Bytes))
  collect_members base_name [] = pure []
  collect_members base_name ((operation, s3_key) ∷ rest) = do
    artifact_bytes ← download_object_bytes s3_key
    members ← collect_members base_name rest
    pure ((archive_member base_name operation s3_key, artifact_bytes) ∷ members)

  module _ (zip : List (String × Bytes) → Bytes) (celery_retry : Exn → Exn) (job_id : String) where
    unfoldable pub bundle_results : List (String × String) → Option String → Action p String
    bundle_results result_keys original_filename =
        if is_empty result_keys
        then raise value_error
        else retrying celery_retry (do
          members ← collect_members (base_name original_filename) result_keys
          upload_archive_bytes (zip members) job_id)

  abbrev pub IsThere : World p → String × (String × Bytes) → Type 0
  IsThere w (_, (s3_key, bytes)) = p.object s3_key w.bucket ≡ some bytes

  download_object_bytes_ok :
      (key : String) (bytes : Bytes) (w : World p)
      → w.fails s3_get ≡ false
      → p.object key w.bucket ≡ some bytes
      → download_object_bytes key w ≡ (ok bytes, w)
  unfolding download_object_bytes
  download_object_bytes_ok key bytes w up there = ground arith

  collect_members_all :
      (base : String) (rs : List (String × (String × Bytes))) (w : World p)
      → w.fails s3_get ≡ false
      → All (IsThere w) rs
      → collect_members base (map key_of rs) w ≡ (ok (map (member_of base) rs), w)
  unfolding collect_members
  collect_members_all base [] w up _ = refl
  collect_members_all base ((op, (key, bytes)) ∷ rs) w up (there, rest) =
      let got = download_object_bytes_ok key bytes w up there in
      let others = collect_members_all base rs w up rest in ground (arith, got, others)

  bundled :
      (zip : List (String × Bytes) → Bytes) (celery_retry : Exn → Exn) (job_id : String)
      (original_filename : Option String) (ks : List (String × String))
      (members : List (String × Bytes)) (w : World p)
      → is_empty ks ≡ false
      → w.fails s3_put ≡ false
      → collect_members (base_name original_filename) ks w ≡ (ok members, w)
      → bundle_results zip celery_retry job_id ks original_filename w ≡ (
        ok (get_archive_key job_id),
        record w { bucket = p.put_object (get_archive_key job_id) (zip members) w.bucket },
      )
  unfolding bundle_results upload_archive_bytes
  bundled zip celery_retry job_id filename ks members w some_result up got = ground (arith, got)

  -- If every result of a job is in the bucket and the bucket is up, then the task returns the key
  -- of the job's archive, which now holds one member for each result, in order, under its download
  -- name. It changes nothing else. There is at least one result.
  pub bundle_results-stored :
      (zip : List (String × Bytes) → Bytes) (celery_retry : Exn → Exn) (job_id : String)
      (original_filename : Option String) (rs : List (String × (String × Bytes))) (w : World p)
      → is_empty rs ≡ false
      → w.fails s3_get ≡ false
      → w.fails s3_put ≡ false
      → All (IsThere w) rs
      → let key = get_archive_key job_id in
        let body = zip (map (member_of (base_name original_filename)) rs) in
        bundle_results zip celery_retry job_id (map key_of rs) original_filename w
        ≡ (ok key, record w { bucket = p.put_object key body w.bucket })
  bundle_results-stored zip celery_retry job_id filename rs w some_result get_up put_up all =
      bundled zip celery_retry job_id filename (map key_of rs)
        (map (member_of (base_name filename)) rs) w (is_empty-map key_of rs ∙ some_result) put_up
        (collect_members_all (base_name filename) rs w get_up all)
