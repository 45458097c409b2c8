-- ===== src/Tests/Rates.antt =====
-- The refreshes of the gauges, and the routing of tasks, in memory.
use Prim.Native.String.{◌++◌}
use pix_tools.Base.{
  ◌+◌, ◌*◌, ◌≤◌, ◌≡◌, String, true, false, Option, none, some, is_some, List, [], ◌∷◌, All, length,
  lookup, keys, is_in, ◌==◌, eq_refl, if◌then◌else◌, arith, Option-cases, inl, inr,
}
use pix_tools.Metrics.{Broker, unset, interval}
use pix_tools.Metrics.Rate.{Visits, scrapes, scrapes-rate}
use pix_tools.Dag.{task_signatures, finalize_signature}
use pix_tools.Jobs.Create.{metadata_signature}
use pix_tools.Tasks.Finalize.{bundle_signature}
use pix_tools.Tasks.Queues.{Router, task_routes, ml_queue_name, scheduled_task}
use pix_tools.Tasks.Queues.Routed.{IsRouted, HasQueue, sent-IsRouted}

-- A broker that has no queue but the first.
abbrev broker : Broker
broker = record {
  reachable = true;
  declared = λ name. if name == "default_queue" then some (7, 1) else none;
}

-- After 6, 8 and 12 seconds.
abbrev calls : Visits
calls = (6000000000, broker) ∷ (8000000000, broker) ∷ (12000000000, broker) ∷ []

scrapes-rate_example :
    length (scrapes calls unset).connections * interval + 0 ≤ 0 * interval + 12000000000
scrapes-rate_example =
    scrapes-rate 12000000000 calls unset (omega arith, (omega arith, (omega arith, tt)))
      (omega arith)

abbrev first_queue : List (String × String) → Option String
first_queue [] = none
first_queue ((_, q) ∷ _) = some q

-- The entry of the name, or else the first of the table.
abbrev routed : List (String × String) → String → Option String
routed routes name = elim (lookup name routes) [ some q ↦ some q | none ↦ first_queue routes ]

routed_star :
    (routes : List (String × String)) (key name : String)
    → is_in key (keys routes) ≡ true
    → is_some (routed routes name) ≡ true
routed_star [] key name h = cc
routed_star ((j, w) ∷ m) key name h = elim (Option-cases (lookup name ((j, w) ∷ m))) [
  | inl absent ↦ ground (arith, absent)
  | inr (q, there) ↦ ground (arith, there)
]

routed_listed :
    (routes : List (String × String)) (name queue : String)
    → routed routes name ≡ some queue
    → (key : String) × (lookup key routes ≡ some queue)
routed_listed [] name queue h = cc
routed_listed ((j, w) ∷ m) name queue h = elim (Option-cases (lookup name ((j, w) ∷ m))) [
  | inl absent ↦ (j, ground (arith, absent, h, eq_refl j))
  | inr (q, there) ↦ (name, ground (arith, there, h))
]

routed_exact :
    (routes : List (String × String)) (name queue : String)
    → lookup name routes ≡ some queue
    → routed routes name ≡ some queue
routed_exact routes name queue h = ground (arith, h)

abbrev celery : Router
celery = record {
  route = routed;
  route_exact = λ routes name queue plain h. routed_exact routes name queue h;
  route_star = λ routes start rest name h e n. routed_star routes (start ++ "*") name h;
  route_listed = routed_listed;
}

sent-IsRouted_example :
    All (HasQueue celery true) (
      finalize_signature "u" []
      ∷ metadata_signature "u" "raw/u/x.png" false []
      ∷ bundle_signature "u" [] none "r1"
      ∷ task_signatures "u" "raw/u/x.png" [] [] ("webp" ∷ "denoise" ∷ []))
    × IsRouted celery true scheduled_task
    × IsRouted celery true "app.tasks.router.start_pipeline"
    × (routed (task_routes true) "app.tasks.ml_ops.denoise" ≡ some (ml_queue_name true))
sent-IsRouted_example =
    sent-IsRouted celery true "u" "raw/u/x.png" "r1" [] [] [] ("webp" ∷ "denoise" ∷ []) false none
