-- ===== src/Tasks/Queues/Routed.antt =====
-- Where the tasks go.
use Prim.Native.String.{◌++◌}
use text.Mathlib.TextLemmas.{cons-ne-nil}
use mathlib.Core.Path.{subst}
use pix_tools.Base.Text.{has}
use pix_tools.Base.{
  String, Bool, true, false, ◌≡◌, ◌≢◌, refl, ap, Option, none, some, is_some, or_default, List, [],
  ◌∷◌, All, lookup, is_in, keys, ◌==◌, Bool-cases, Option-cases, inl, inr, arith,
}
use pix_tools.Json.{Fields}
use pix_tools.World.{Signature, Kwargs, operation}
use pix_tools.Dag.{task_signatures, finalize_signature, operation_task_map, params_of}
use pix_tools.Jobs.Create.{metadata_signature}
use pix_tools.Tasks.Finalize.{bundle_signature}
use pix_tools.Tasks.Queues.{ml_queue_name, task_routes, scheduled_task, is_dead_lettered, Router}

-- A property of every value of a dict.
lookup-All :
    (P : String → Type 0) (k v : String) (m : List (String × String))
    → All (λ e. P e.1) m
    → lookup k m ≡ some v
    → P v
lookup-All P k v [] _ h = cc
lookup-All P k v ((j, w) ∷ m) (p, ps) h = elim (Bool-cases (j == k)) [
  | inl same_key ↦
      let same : some w ≡ some v = ground (arith, h, same_key) in
      subst P (ap (λ o. or_default o w) same) p
  | inr later ↦ lookup-All P k v m ps (ground (arith, h, later))
]

all_dead_lettered : (enabled : Bool) → All (λ e. is_dead_lettered e.1 ≡ true) (task_routes enabled)
all_dead_lettered true = (refl, (refl, (refl, (refl, (refl, (refl, (refl, tt)))))))
all_dead_lettered false = (refl, (refl, (refl, (refl, (refl, (refl, (refl, tt)))))))

module _ (celery : Router) (enabled : Bool) where
  -- Celery finds a queue for the task, which is declared and has a dead letter queue.
  abbrev pub IsRouted : String → Type 0
  IsRouted task =
      (queue : String) × (celery.route (task_routes enabled) task ≡ some queue)
      × (is_dead_lettered queue ≡ true)

  listed-dead_lettered :
      (key queue : String)
      → lookup key (task_routes enabled) ≡ some queue
      → is_dead_lettered queue ≡ true
  listed-dead_lettered key queue h =
      lookup-All (λ q. is_dead_lettered q ≡ true) key queue (task_routes enabled)
        (all_dead_lettered enabled) h

  found-IsRouted :
      (task : String) → is_some (celery.route (task_routes enabled) task) ≡ true → IsRouted task
  found-IsRouted task h = elim (Option-cases (celery.route (task_routes enabled) task)) [
    | inl nowhere ↦ ground (arith, nowhere, h)
    | inr (queue, there) ↦
        let (key, listed) = celery.route_listed (task_routes enabled) task queue there in
        (queue, there, listed-dead_lettered key queue listed)
  ]

  star-IsRouted :
      (start rest name : String)
      → is_in (start ++ "*") (keys (task_routes enabled)) ≡ true
      → name ≡ start ++ rest
      → rest ≢ ""
      → IsRouted name
  star-IsRouted start rest name key e named =
      found-IsRouted name (celery.route_star (task_routes enabled) start rest name key e named)

  -- The queue of the denoising task.
  denoise_queue :
      celery.route (task_routes enabled) "app.tasks.ml_ops.denoise" ≡ some (ml_queue_name enabled)
  unfolding has
  denoise_queue =
      celery.route_exact (task_routes enabled) "app.tasks.ml_ops.denoise" (ml_queue_name enabled)
        refl refl

  image_task :
      (rest name : String) → name ≡ "app.tasks.image_ops." ++ rest → rest ≢ "" → IsRouted name
  image_task rest name e named = star-IsRouted "app.tasks.image_ops." rest name refl e named

  operation_tasks : All (λ e. IsRouted e.1) operation_task_map
  operation_tasks = (
    image_task "convert_jpg" _ refl (λ e. cons-ne-nil _ _ e),
    (
      image_task "convert_png" _ refl (λ e. cons-ne-nil _ _ e),
      (
        image_task "convert_webp" _ refl (λ e. cons-ne-nil _ _ e),
        (
          image_task "convert_avif" _ refl (λ e. cons-ne-nil _ _ e),
          (found-IsRouted _ (ap is_some denoise_queue), tt),
        ),
      ),
    ),
  )

  abbrev pub HasQueue : Signature → Type 0
  HasQueue s = IsRouted s.task

  -- One round of the loop that makes the signatures.
  round-HasQueue :
      (found : Option String) (kwargs : Kwargs) (headers : List (String × String))
      (rest : List Signature)
      → ((t : String) → found ≡ some t → IsRouted t)
      → All HasQueue rest
      → All HasQueue (elim found as (λ _. List Signature) [
        | none ↦ rest
        | some t ↦ record { task = t; kwargs = kwargs; headers = headers } ∷ rest
      ])
  round-HasQueue none kwargs headers rest h k = k
  round-HasQueue (some t) kwargs headers rest h k = (h t refl, k)

  task_signatures-HasQueue :
      (job_id raw : String) (params : List (String × Fields)) (headers : List (String × String))
      (ops : List String)
      → All HasQueue (task_signatures job_id raw params headers ops)
  unfolding task_signatures
  task_signatures-HasQueue job_id raw params headers [] = tt
  task_signatures-HasQueue job_id raw params headers (op ∷ ops) =
      round-HasQueue (lookup op operation_task_map) (operation job_id raw (params_of op params))
        headers _ (λ t e. lookup-All IsRouted op t operation_task_map operation_tasks e)
        (task_signatures-HasQueue job_id raw params headers ops)

  -- With the isolation of the denoising queue on or off: Celery finds a queue for every task that the
  -- program sends, whatever is requested (those of a chord, its callback, the metadata task, the
  -- archive task, the pruning, and the router task), and each of these queues is declared and passes
  -- what it rejects to a declared dead letter queue. The denoising task goes to the queue chosen.
  pub sent-IsRouted :
      (job_id raw request_id : String) (params : List (String × Fields))
      (headers result_keys : List (String × String)) (ops : List String) (mark_completed : Bool)
      (original_filename : Option String)
      → All HasQueue (
          finalize_signature job_id headers
          ∷ metadata_signature job_id raw mark_completed headers
          ∷ bundle_signature job_id result_keys original_filename request_id
          ∷ task_signatures job_id raw params headers ops)
        × IsRouted scheduled_task
        × IsRouted "app.tasks.router.start_pipeline"
        × (celery.route (task_routes enabled) "app.tasks.ml_ops.denoise"
            ≡ some (ml_queue_name enabled))
  sent-IsRouted job_id raw request_id params headers result_keys ops mark filename = (
    (
      star-IsRouted "app.tasks.finalize." "finalize_job" _ refl refl (λ e. cons-ne-nil _ _ e),
      (
        star-IsRouted "app.tasks.metadata." "extract_metadata" _ refl refl (λ e. cons-ne-nil _ _ e),
        (
          star-IsRouted "app.tasks.archive." "bundle_results" _ refl refl (λ e. cons-ne-nil _ _ e),
          task_signatures-HasQueue job_id raw params headers ops,
        ),
      ),
    ),
    star-IsRouted "app.tasks.maintenance." "prune_expired_jobs" _ refl refl
        (λ e. cons-ne-nil _ _ e),
    star-IsRouted "app.tasks.router." "start_pipeline" _ refl refl (λ e. cons-ne-nil _ _ e),
    denoise_queue,
  )
