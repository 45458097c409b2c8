-- ===== src/System/Bundling.antt =====
-- The archive task, as the rows see it.
use pix_tools.Base.{String, ◌≡◌, refl, ap, Option, List, [], ◌∷◌, is_empty, Exn, arith}
use pix_tools.Platform.{Platform, Bytes}
use pix_tools.World.{World, retrying, ◌>>=◌}
use pix_tools.World.Rules.{Keeps, Keeps-if, Keeps-quiet, Keeps-bind, Keeps-retrying}
use pix_tools.Store.{base_name, upload_archive_bytes}
use pix_tools.Tasks.Archive.{download_object_bytes, collect_members, bundle_results}
use pix_tools.System.Rows.{Evolves, evolution}

module _ {p : Platform} where
  download_object_bytes_unchanged :
      (key : String) (w : World p) → (download_object_bytes key w).1 ≡ w
  unfolding download_object_bytes
  download_object_bytes_unchanged key w = ground arith

  pub collect_members_unchanged :
      (base : String) (keys : List (String × String)) (w : World p)
      → (collect_members base keys w).1 ≡ w
  unfolding collect_members
  collect_members_unchanged base [] w = refl
  collect_members_unchanged base ((op, key) ∷ keys) w =
      ground (arith, download_object_bytes_unchanged key w, collect_members_unchanged base keys w)

  upload_archive_bytes-Keeps :
      (b : Bytes) (id : String) → Keeps (evolution {p = p}) (upload_archive_bytes b id)
  unfolding upload_archive_bytes
  upload_archive_bytes-Keeps b id =
      Keeps-quiet evolution (upload_archive_bytes b id) (λ w. ground arith) (λ w. ground arith)

  pub bundle_results-Evolves :
      (zip : List (String × Bytes) → Bytes) (celery_retry : Exn → Exn) (id : String)
      (keys : List (String × String)) (filename : Option String) (w : World p)
      → Evolves w (bundle_results zip celery_retry id keys filename w).1
  unfolding bundle_results
  bundle_results-Evolves zip celery_retry id keys filename w =
      let collect = collect_members {p = p} (base_name filename) keys in
      let store =
        λ (members : List (String × Bytes)). upload_archive_bytes {p = p} (zip members) id in
      (Keeps-if evolution (is_empty keys) _ (retrying celery_retry (collect >>= store))
          (Keeps-quiet evolution _ (λ v. refl) (λ v. refl))
          (Keeps-retrying evolution celery_retry (collect >>= store) (
            Keeps-bind evolution collect store
              (Keeps-quiet evolution collect
                (λ v. ap (λ u. u.jobs) (collect_members_unchanged (base_name filename) keys v))
                (λ v. ap (λ u. u.session) (collect_members_unchanged (base_name filename) keys v)))
              (λ members. upload_archive_bytes-Keeps (zip members) id)))).at
        w
