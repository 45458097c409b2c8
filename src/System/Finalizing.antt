-- ===== src/System/Finalizing.antt =====
-- The finalizer, as the rows see it.
use mathlib.Core.Path.{subst}
use pix_tools.Base.{
  String, Bool, true, false, ◌≡◌, refl, sym, Option, none, some, List, [], ◌==◌, if◌then◌else◌,
  arith,
}
use pix_tools.Models.{Job, JobStatus, completed, completed_webhook_failed, status_value}
use pix_tools.Platform.{Platform}
use pix_tools.World.{World, Action, pure, ◌>>=◌, ◌>>◌}
use pix_tools.World.Rules.{
  bind_ok, Relation, Keeps, Rel-refl, Rel-bind, Keeps-pure, Keeps-bind, Keeps-quiet, Keeps-if,
}
use pix_tools.Webhook.{notify_job_update}
use pix_tools.Store.{base_name}
use pix_tools.Tasks.Rows.{commit_row}
use pix_tools.Tasks.Metadata.{webhook_failed}
use pix_tools.Tasks.Finalize.{
  Finalized, parse_enqueued_at, filename_of, collect_keys, collect_urls, finished_job, send_bundle,
  mark_undelivered, after_delivery, deliver, final_metrics, commit_finished, conclude,
  finalize_found, finalize_job,
}
use pix_tools.Tasks.Finalize.Outcome.{collect_urls_total}
use pix_tools.System.Spec.{complete, move}
use pix_tools.System.Rows.{IsChanged, Evolves, evolution, commit_row-Evolves, get_row-Evolves}
use pix_tools.System.Guarded.{
  HasResults, guarded, Keeps-notify_job_update, webhook_failed-IsChanged, commit_row-Evolves_done,
}

finished_job-IsChanged :
    (urls keys : List (String × String)) (job : Job)
    → IsChanged job (finished_job completed urls keys job)
finished_job-IsChanged urls keys job = record {
  id = refl;
  operations = refl;
  webhook_url = refl;
  s3_raw_key = refl;
  original_filename = refl;
  created_at = refl;
  pending_never = λ q. cc;
  results_stay = λ q. refl;
  exif_stays = λ q. q;
  sound_stays = λ q. refl;
  path = move (complete _ refl);
}

module _ {p : Platform} (id : String) where
  mark_undelivered-Evolves :
      (w : World p)
      → HasResults id w
      → (again : Option Job) → p.row id w.jobs ≡ again
      → Evolves w (mark_undelivered again w).1
  mark_undelivered-Evolves w full none there = Rel-refl evolution w
  mark_undelivered-Evolves w full (some row) there =
      Rel-bind evolution (commit_row (webhook_failed row)) (λ _. pure completed_webhook_failed) w
        (commit_row-Evolves id row (webhook_failed row) w there
          (webhook_failed-IsChanged row (full.at row there)))
        (λ _ _. Rel-refl evolution _)

  after_delivery-Keeps :
      (delivered : Bool) → Keeps (guarded {p = p} id) (after_delivery id delivered)
  after_delivery-Keeps true = Keeps-pure (guarded id) completed
  after_delivery-Keeps false = record {
    at = λ w. record {
      evolves = λ full. get_row-Evolves id mark_undelivered w (mark_undelivered-Evolves w full);
    };
  }

  deliver-Keeps :
      (found : Option Job) (urls : List (String × String))
      → Keeps (guarded {p = p} id) (deliver id found urls)
  unfolding deliver
  deliver-Keeps none urls = Keeps-pure (guarded id) completed
  deliver-Keeps (some job) urls =
      let r = guarded id in
      let notify = notify_job_update job.webhook_url id (status_value completed) urls in
      Keeps-bind r (if job.webhook_url == "" then pure true else notify) (after_delivery id)
        (Keeps-if r (job.webhook_url == "") (pure true) notify (Keeps-pure r true)
          (Keeps-notify_job_update r job.webhook_url id (status_value completed) urls))
        after_delivery-Keeps

  conclude-Keeps :
      (r : Relation p) (headers : List (String × String)) (found : Option Job)
      (urls keys : List (String × String))
      → Keeps r (deliver id found urls)
      → Keeps r (conclude headers id found urls keys)
  conclude-Keeps r headers found urls keys delivery =
      let answer = λ (status : JobStatus).
        pure {A = Finalized}
          (record { job_id = id; status = status_value status; result_urls = urls }) in
      let metrics =
        λ (status : JobStatus). final_metrics (parse_enqueued_at p.runtime headers) status in
      Keeps-bind r (send_bundle headers id found keys)
        (λ _. deliver id found urls >>= λ status. metrics status >> answer status)
        (Keeps-quiet r (send_bundle headers id found keys) (λ w. ground arith) (λ w. ground arith))
        (λ _.
          Keeps-bind r (deliver id found urls) (λ status. metrics status >> answer status) delivery
            (λ status.
              Keeps-bind r (metrics status) (λ _. answer status)
                (Keeps-quiet r (metrics status) (λ w. ground arith) (λ w. ground arith))
                (λ _. Keeps-pure r _)))

  -- the commit and what follows it
  abbrev tail :
      List (String × String)
      → (urls keys : List (String × String)) → Option Job
      → Action p Finalized
  tail headers urls keys found =
      commit_finished urls keys found >> conclude headers id found urls keys

  deliver-none-Keeps :
      (urls : List (String × String)) → Keeps (evolution {p = p}) (deliver id none urls)
  unfolding deliver
  deliver-none-Keeps urls = Keeps-pure evolution completed

  tail-Evolves :
      (headers urls keys : List (String × String)) (w : World p) (found : Option Job)
      → p.row id w.jobs ≡ found
      → Evolves w (tail headers urls keys found w).1
  tail-Evolves headers urls keys w none there =
      (conclude-Keeps evolution headers none urls keys (deliver-none-Keeps urls)).at w
  tail-Evolves headers urls keys w (some job) there =
      commit_row-Evolves_done id job (finished_job completed urls keys job)
        (conclude headers id (some job) urls keys) w there (finished_job-IsChanged urls keys job)
        refl
        (conclude-Keeps (guarded id) headers (some job) urls keys (deliver-Keeps (some job) urls))

  finalize_found-Evolves :
      (headers : List (String × String)) (results : List (Option String)) (w : World p)
      (found : Option Job)
      → p.row id w.jobs ≡ found
      → Evolves w (finalize_found headers results id found w).1
  finalize_found-Evolves headers results w found there =
      let (urls, signed) = collect_urls_total (base_name (filename_of found)) results [] w in
      let keys = collect_keys results [] in
      let same : finalize_found headers results id found w ≡ tail headers urls keys found w =
        bind_ok (collect_urls (base_name (filename_of found)) results [])
          (λ result_urls. tail headers result_urls keys found) w w urls signed in
      subst (λ r. Evolves w r.1) (sym same) (tail-Evolves headers urls keys w found there)

  -- The finalizer.
  pub finalize_job-Evolves :
      (headers : List (String × String)) (results : List (Option String)) (w : World p)
      → Evolves w (finalize_job headers results id w).1
  unfolding finalize_job
  finalize_job-Evolves headers results w =
      get_row-Evolves id (finalize_found headers results id) w
        (finalize_found-Evolves headers results w)
