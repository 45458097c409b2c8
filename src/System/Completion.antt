-- ===== src/System/Completion.antt =====
-- From the finalizer to the poll that follows it.
use pix_tools.Base.{
  String, false, ◌||◌, ◌≡◌, refl, ◌∙◌, Option, some, is_some, is_empty, List, [], ◌∷◌, lookup,
  insert, lookup-insert, ok, arith, eq_iff, eq_refl, db_get, db_commit, s3_head,
}
use pix_tools.Base.Text.{after_last}
use pix_tools.Models.{Job, status_value}
use pix_tools.Platform.{Platform}
use pix_tools.World.{World}
use pix_tools.Store.{generate_presigned_url, base_name, download_name}
use pix_tools.Jobs.Get.{View, fresh_urls, get_job, view_of, keys_of}
use pix_tools.Jobs.Get.Laws.{get_job-archive_iff}
use pix_tools.Tasks.Finalize.{collect_keys, finalize_job}
use pix_tools.Tasks.Finalize.Outcome.{end_status, final_job, finalize_job-outcome}

module _ {p : Platform} where
  signed :
      (key : String) (name : Option String) (w : World p)
      → (url : String) × (generate_presigned_url key name w ≡ (ok url, w))
  unfolding generate_presigned_url
  signed key name w = (_, refl)

  -- Every key gets a URL, under the same name.
  lookup-fresh_urls :
      (base name : String) (keys urls out : List (String × String)) (w : World p)
      → fresh_urls base keys urls w ≡ (ok out, w)
      → is_some (lookup name out) ≡ (is_some (lookup name keys) || is_some (lookup name urls))
  unfolding fresh_urls
  lookup-fresh_urls base name [] urls out w h = ground arith
  lookup-fresh_urls base name ((op, key) ∷ keys) urls out w h =
      let (url, e) = signed key (some (download_name op base (after_last "." key))) w in
      let rest : fresh_urls base keys (insert op url urls) w ≡ (ok out, w) = ground (arith, e) in
      let ih = lookup-fresh_urls base name keys (insert op url urls) out w rest in
      ground (arith, ih, lookup-insert op name url urls, eq_iff op name)

  -- A job in the table that has been finalized with results, with the database up, is shown as
  -- finished by every poll that finds its row as the finalizer left it, with the calls of the poll up:
  -- with the status that its webhook decided, and with a URL for exactly those operations that have a
  -- result.
  pub finalize_job-polled :
      (headers : List (String × String)) (results : List (Option String)) (id name : String)
      (job : Job) (w u : World p)
      → p.row id w.jobs ≡ some job
      → w.fails db_get ≡ false
      → w.fails db_commit ≡ false
      → is_empty (collect_keys results []) ≡ false
      → p.row id u.jobs ≡ p.row id (finalize_job headers results id w).1.jobs
      → u.session ≡ []
      → u.fails db_get ≡ false
      → u.fails db_commit ≡ false
      → u.fails s3_head ≡ false
      → (view : View) × (get_job id u ≡ (ok view, u))
        × (view.status ≡ status_value (end_status w job))
        × (is_some (lookup name view.result_urls) ≡ is_some (lookup name (collect_keys results [])))
  finalize_job-polled headers results id name job w u there up commits some_result kept clean up'
        commits' heads =
      let (urls, _, _, row, _) =
        finalize_job-outcome headers results id id job w there up commits in
      let done = final_job w results urls job in
      let now_there : p.row id u.jobs ≡ some done = kept ∙ (row ∙ rw (eq_refl id) refl) in
      let (shown, archive, fresh, got, _) =
        get_job-archive_iff id done u clean up' commits' heads now_there
          (ground (arith, some_result)) in
      (
        view_of p.runtime done shown archive,
        got,
        refl,
        lookup-fresh_urls (base_name done.original_filename) name (keys_of done) [] shown u fresh
            ∙ ground arith,
      )
