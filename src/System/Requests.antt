-- ===== src/System/Requests.antt =====
-- The requests and the pruning, as the rows see them.
use mathlib.Core.Path.{subst}
use pix_tools.Base.{
  String, Bool, true, ◌≡◌, refl, sym, ap, ◌∙◌, ◌⊎◌, inl, inr, Option, none, some, [], ◌∷◌, Exn,
  arith, ◌==◌, ◌||◌, s3_put, db_flush, db_commit, ◌-◌, ◌*◌, Bool-cases, Result-cases,
}
use pix_tools.Models.{Job}
use pix_tools.Platform.{Platform, unless}
use pix_tools.World.{World, Action}
use pix_tools.Idempotency.{set_idempotency}
use pix_tools.Store.{upload_raw}
use pix_tools.Dag.{build_dag}
use pix_tools.Jobs.{Request, Accepted, validate}
use pix_tools.Jobs.Create.{
  new_job, put_rows, dispatch, submit, earlier_job, create_job_body, rollback, with_db, create_job,
}
use pix_tools.Jobs.Create.Effects.{new_id, new_raw_key}
use pix_tools.Jobs.Create.Stored.{committed, earlier_job_unchanged}
use pix_tools.Tasks.Maintenance.{prune_expired_jobs, older}
use pix_tools.System.Spec.{Ticket, ticket_of, accepted}
use pix_tools.System.Rows.{is_sound}
use pix_tools.System.Guarded.{some_injective}

unless-some : (q : Job → Bool) (o : Option Job) (job : Job) → unless q o ≡ some job → o ≡ some job
unless-some q none job h = cc
unless-some q (some a) job h = ground arith

put_row-IsSound :
    (p : Platform) (job : Job) (t : p.Table)
    → is_sound job ≡ true
    → ((j : String) (old : Job) → p.row j t ≡ some old → is_sound old ≡ true)
    → (j : String) (new : Job) → p.row j (p.put_row job t) ≡ some new
    → is_sound new ≡ true
put_row-IsSound p job t sound rows j new h = elim (Bool-cases (job.id == j)) [
  | inl same ↦
      let e : some job ≡ some new = ground (arith, p.row-put_row j job t) in
      subst (λ x. is_sound x ≡ true) (some_injective e) sound
  | inr other ↦ rows j new (ground (arith, p.row-put_row j job t))
]

module _ {p : Platform} where
  -- Between requests there is no open session, and every job that says it is completed has its
  -- results.
  pub record IsSound (w : World p) : Type 0 where
    pub session : w.session ≡ []
    pub rows : (j : String) (job : Job) → p.row j w.jobs ≡ some job → is_sound job ≡ true

  -- The row of a request, if it got that far.
  abbrev Prepared : Request → Accepted → World p → World p → Type 0
  Prepared r v w u =
      (u.jobs ≡ w.jobs)
      × ((u.session ≡ []) ⊎ (u.session ≡ new_job r v (new_id w) (new_raw_key r w) w.now ∷ []))

  submit-Prepared :
      (r : Request) (v : Accepted) (w : World p) → w.session ≡ [] → Prepared r v w (submit r v w).1
  unfolding submit upload_raw set_idempotency dispatch build_dag
  submit-Prepared r v w clean = (
    ground arith,
    elim (Bool-cases (w.fails s3_put || w.fails db_flush)) [
      | inl early ↦ inl (ground arith)
      | inr late ↦ inr (ground arith)
    ],
  )

  -- The row of a new job.
  abbrev pub IsNew : World p → Job → Type 0
  IsNew w job = (job.id ≡ new_id w) × (ticket_of job ≡ accepted)

  IsNew-is_sound : (w : World p) (job : Job) → IsNew w job → is_sound job ≡ true
  IsNew-is_sound w job (same, fresh) = ground (arith, ap (λ (t : Ticket). t.status) fresh)

  -- A world with at most a new row in its session.
  unfoldable pub IsPrepared : World p → World p → Type 0
  IsPrepared w u =
      (u.jobs ≡ w.jobs) × ((u.session ≡ []) ⊎ ((job : Job) × (u.session ≡ job ∷ []) × IsNew w job))

  pub create_job_body-IsPrepared :
      (r : Request) (w : World p) → w.session ≡ [] → IsPrepared w (create_job_body r w).1
  unfolding IsPrepared create_job_body
  create_job_body-IsPrepared r w clean = elim (Result-cases (validate p.runtime p.settings r)) [
    | inr (e, q) ↦ (ground (arith, q), inl (ground (arith, q)))
    | inl (v, q) ↦ elim (Result-cases (earlier_job r.idempotency_key w).0) [
      | inr (e, k) ↦ (
        ground (arith, q, k, earlier_job_unchanged r.idempotency_key w),
        inl (ground (arith, q, k, earlier_job_unchanged r.idempotency_key w)),
      )
      | inl (some id, k) ↦ (
        ground (arith, q, k, earlier_job_unchanged r.idempotency_key w),
        inl (ground (arith, q, k, earlier_job_unchanged r.idempotency_key w)),
      )
      | inl (none, k) ↦
          let (jobs, session) = submit-Prepared r v w clean in
          let same : (create_job_body r w).1 ≡ (submit r v w).1 =
            ground (arith, q, k, earlier_job_unchanged r.idempotency_key w) in
          subst (IsPrepared w) (sym same) (
            jobs,
            elim session [
              | inl none_yet ↦ inl none_yet
              | inr one ↦ inr (new_job r v (new_id w) (new_raw_key r w) w.now, one, (refl, refl))
            ],
          )
    ]
  ]

  -- The transaction ends with the rows of its session committed, or with none.
  pub with_db_ends :
      {A : Type 0} (m : Action p A) (w : World p)
      → ((with_db m w).1 ≡ rollback (m w).1) ⊎ ((with_db m w).1 ≡ committed (m w).1)
  unfolding with_db
  with_db_ends m w = elim (Result-cases (m w).0) [
    | inr (e, q) ↦ inl (ground (arith, q))
    | inl (a, q) ↦ elim (Bool-cases ((m w).1.fails db_commit)) [
      | inl down ↦ inl (ground (arith, q))
      | inr up ↦ inr (ground (arith, q))
    ]
  ]

  rollback-IsSound : (w u : World p) → IsSound w → IsPrepared w u → IsSound (rollback u)
  unfolding IsPrepared
  rollback-IsSound w u sound (jobs, _) = record {
    session = refl;
    rows = λ j job h. sound.rows j job (ap (p.row j) (sym jobs) ∙ h);
  }

  committed-IsSound : (w u : World p) → IsSound w → IsPrepared w u → IsSound (committed u)
  unfolding IsPrepared
  committed-IsSound w u sound (jobs, inl none_yet) = record {
    session = refl;
    rows = λ j job h.
        sound.rows j job
          (ap (p.row j) (sym jobs ∙ ap (λ s. put_rows p s u.jobs) (sym none_yet)) ∙ h);
  }
  committed-IsSound w u sound (jobs, inr (new, one, fine)) = record {
    session = refl;
    rows = λ j job h. put_row-IsSound p new w.jobs (IsNew-is_sound w new fine) sound.rows j job (
        ap (p.row j) (ap (p.put_row new) (sym jobs) ∙ ap (λ s. put_rows p s u.jobs) (sym one)) ∙ h);
  }

  -- A request, whatever it asks for and whatever fails.
  pub create_job-IsSound : (r : Request) (w : World p) → IsSound w → IsSound (create_job r w).1
  unfolding create_job
  create_job-IsSound r w sound =
      let ready = create_job_body-IsPrepared r w sound.session in
      let u = (create_job_body r w).1 in
      elim (with_db_ends (create_job_body r) w) [
        | inl back ↦ subst IsSound (sym back) (rollback-IsSound w u sound ready)
        | inr kept ↦ subst IsSound (sym kept) (committed-IsSound w u sound ready)
      ]

  -- The pruning.
  pub prune_expired_jobs-IsSound :
      (celery_retry : Exn → Exn) (w : World p)
      → IsSound w
      → IsSound (prune_expired_jobs celery_retry w).1
  unfolding prune_expired_jobs
  prune_expired_jobs-IsSound celery_retry w sound =
      elim (Bool-cases (w.fails db_flush || w.fails db_commit)) [
        | inl down ↦
            let still : (prune_expired_jobs celery_retry w).1 ≡ w = ground arith in
            subst IsSound (sym still) sound
        | inr up ↦
            let expired = older (w.now - p.settings.job_retention_hours * 3600) in
            let swept : (prune_expired_jobs celery_retry w).1
                ≡ record w { jobs = p.delete_where expired w.jobs } =
              ground arith in
            subst IsSound (sym swept) (record {
              session = sound.session;
              rows = λ j job h. sound.rows j job (
                  unless-some expired (p.row j w.jobs) job
                    (sym (p.row-delete_where j expired w.jobs) ∙ h));
            })
      ]
