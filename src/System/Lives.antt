-- ===== src/System/Lives.antt =====
-- The requests and the pruning, as the tickets see them.
use mathlib.Core.Path.{subst}
use pix_tools.Base.{
  String, Bool, ◌≡◌, sym, ap, ◌∙◌, inl, inr, Option, none, some, [], Exn, arith, ◌==◌, ◌||◌, ◌-◌,
  ◌*◌, Bool-cases, db_flush, db_commit, eq_iff,
}
use pix_tools.Models.{Job}
use pix_tools.Platform.{Platform, unless}
use pix_tools.World.{World}
use pix_tools.Jobs.{Request}
use pix_tools.Jobs.Create.{create_job, create_job_body, put_rows}
use pix_tools.Jobs.Create.Effects.{new_id}
use pix_tools.Tasks.Maintenance.{prune_expired_jobs, older}
use pix_tools.System.Spec.{tickets_of, ticket_of, accepted, Life, still, accept, expire}
use pix_tools.System.Requests.{IsPrepared, create_job_body-IsPrepared, with_db_ends}

-- A removal by a condition.
unless-Life : (q : Job → Bool) (o : Option Job) → Life (tickets_of o) (tickets_of (unless q o))
unless-Life q none = still
unless-Life q (some job) = elim (Bool-cases (q job)) [
  | inl expired ↦ rw expired (expire still)
  | inr fresh ↦ rw fresh still
]

module _ {p : Platform} where
  -- Every ticket lives on from one world to the other.
  pub record Lives (v w : World p) : Type 0 where
    pub at : (id : String) → Life (tickets_of (p.row id v.jobs)) (tickets_of (p.row id w.jobs))

  pub Lives-same : (v w : World p) → w.jobs ≡ v.jobs → Lives v w
  Lives-same v w e = record {
    at = λ id.
        subst (λ t. Life (tickets_of (p.row id v.jobs)) (tickets_of (p.row id t))) (sym e) still;
  }

  inserted-Lives :
      (job : Job) (v w : World p)
      → ticket_of job ≡ accepted
      → p.row job.id v.jobs ≡ none
      → w.jobs ≡ p.put_row job v.jobs
      → Lives v w
  inserted-Lives job v w new free put = record {
    at = λ id. elim (Bool-cases (job.id == id)) [
      | inl same ↦
          let before : tickets_of (p.row id v.jobs) ≡ none =
            ap tickets_of (ap (λ j. p.row j v.jobs) (sym ((eq_iff job.id id).0 same)) ∙ free) in
          let there : p.row id (p.put_row job v.jobs) ≡ some job =
            ground (arith, p.row-put_row id job v.jobs, same) in
          let after : tickets_of (p.row id w.jobs) ≡ some accepted =
            ap (λ t. tickets_of (p.row id t)) put ∙ ap tickets_of there ∙ ap some new in
          rw (before, after) (accept still)
      | inr other ↦
          let kept : p.row id w.jobs ≡ p.row id v.jobs =
            ap (p.row id) put ∙ ground (arith, p.row-put_row id job v.jobs, other) in
          rw kept still
    ];
  }

  -- A request whose UUID is new.
  pub create_job-Lives :
      (r : Request) (w : World p)
      → w.session ≡ []
      → p.row (new_id w) w.jobs ≡ none
      → Lives w (create_job r w).1
  unfolding create_job IsPrepared
  create_job-Lives r w clean free =
      let u = (create_job_body r w).1 in
      let (jobs, session) = create_job_body-IsPrepared r w clean in
      elim (with_db_ends (create_job_body r) w) [
        | inl back ↦ Lives-same w _ (ap (λ x. x.jobs) back ∙ jobs)
        | inr kept ↦ elim session [
          | inl nothing ↦
              Lives-same w _ (ap (λ x. x.jobs) kept ∙ ap (λ s. put_rows p s u.jobs) nothing ∙ jobs)
          | inr (job, one, (id, new)) ↦
              inserted-Lives job w _ new (ap (λ i. p.row i w.jobs) id ∙ free) (
                ap (λ x. x.jobs) kept ∙ ap (λ s. put_rows p s u.jobs) one ∙ ap (p.put_row job) jobs)
        ]
      ]

  -- The pruning.
  pub prune_expired_jobs-Lives :
      (celery_retry : Exn → Exn) (w : World p) → Lives w (prune_expired_jobs celery_retry w).1
  unfolding prune_expired_jobs
  prune_expired_jobs-Lives celery_retry w =
      elim (Bool-cases (w.fails db_flush || w.fails db_commit)) [
        | inl down ↦ Lives-same w _ (ground arith)
        | inr up ↦
            let expired = older (w.now - p.settings.job_retention_hours * 3600) in
            let swept : (prune_expired_jobs celery_retry w).1
                ≡ record w { jobs = p.delete_where expired w.jobs } =
              ground arith in
            record {
              at = λ id.
                  rw (ap (λ u. p.row id u.jobs) swept ∙ p.row-delete_where id expired w.jobs)
                    (unless-Life expired (p.row id w.jobs));
            }
      ]
